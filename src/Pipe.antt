-- ===== src/Pipe.antt =====
-- core/pipe.cpp: ReadablePipe and WritablePipe, which have the same members but for `read` and
-- `write`. A pipe is not attached to a context.
pub mod Awaited
use magio.Prelude.{ℕ, ◌-◌, ◌^◌, ◌≡◌, refl, ◌⊎◌, Option, none, some, inl, inr, arith, Option-cases}
use magio.Handle.{Owner}
use magio.IoUring.Poll.{Call}

pub record Pipe : Type 0 where
  pub handle : Option ℕ

abbrev pub blank_pipe : Pipe
blank_pipe = record { handle = none }

unfoldable pub move_construct : Pipe → Pipe × Pipe
move_construct o = (o, blank_pipe)

unfoldable pub move_assign : Pipe → Pipe → Pipe × Pipe
move_assign t o = (o, blank_pipe)

unfoldable pub close : Pipe → Pipe × Option ℕ
close t = elim t.handle [ none ↦ (t, none) | some h ↦ (blank_pipe, some h) ]

-- The system makes the two ends, or gives an error code.
make_pipe : (system : (ℕ × ℕ) ⊎ ℕ) → (Pipe × Pipe) ⊎ ℕ
make_pipe (inl (r, w)) = inl (record { handle = some r }, record { handle = some w })
make_pipe (inr e) = inr e

-- The Windows form: an error code of 0, that is no error, and two pipes without a handle.
abbrev make_pipe_on_windows : (Pipe × Pipe) ⊎ ℕ
make_pipe_on_windows = inl (blank_pipe, blank_pipe)

abbrev raw : Option ℕ → ℕ
raw none = 2 ^ 32 - 1
raw (some h) = h

unfoldable pub read : Pipe → (buf len user_ptr cb : ℕ) → Call
read f buf len p cb = Call.read_file (raw f.handle) buf len 0 p cb

unfoldable pub write : Pipe → (msg len user_ptr cb : ℕ) → Call
write f msg len p cb = Call.write_file (raw f.handle) msg len 0 p cb

pub close_lem : (t : Pipe) → ((close t).1 ≡ t.handle) × ((close t).0.handle ≡ none)
unfolding close
close_lem t = elim (Option-cases t.handle) [
  | inl e ↦ ground (arith, e)
  | inr (h, e) ↦ ground (arith, e)
]

unfoldable pub pipe_owner : Owner Pipe
unfolding move_construct move_assign
pipe_owner = record {
  handle = λ s. s.handle;
  move_construct = move_construct;
  move_assign = move_assign;
  close = close;
  construct_takes = λ o. refl;
  construct_empties = λ o. refl;
  assign_takes = λ t o h. refl;
  assign_empties = λ t o h. refl;
  close_gives = λ t. (close_lem t).0;
  close_empties = λ t. (close_lem t).1;
}
