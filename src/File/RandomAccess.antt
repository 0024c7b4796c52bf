-- ===== src/File/RandomAccess.antt =====
-- core/file.cpp: RandomAccessFile. A member that a constructor leaves uninitialised is an argument.
use magio.Prelude.{
  ℕ, suc, ◌==◌, ◌≡◌, refl, Bool, false, Option, none, some, ◌>>=◌, inl, inr, arith, Option-cases,
}
use magio.Handle.{Owner, Attached, attached, fatal, attach_context}
use magio.File.{has, open_file, raw}
use magio.IoUring.Poll.{Call}

pub record RandomAccessFile : Type 0 where
  pub handle : Option ℕ
  pub attached_to : Option ℕ
  pub enable_app : Bool

abbrev pub blank : RandomAccessFile
blank = record { handle = none; attached_to = none; enable_app = false }

-- `attached_` is not initialised: `indeterminate` is what it holds.
unfoldable pub move_construct :
    (indeterminate : Option ℕ) → RandomAccessFile → RandomAccessFile × RandomAccessFile
move_construct indeterminate o = (record o { attached_to = indeterminate }, blank)

-- `attached_` is not assigned.
unfoldable pub move_assign :
    RandomAccessFile → RandomAccessFile → RandomAccessFile × RandomAccessFile
move_assign t o = (record t { handle = o.handle; enable_app = o.enable_app }, blank)

unfoldable pub close : RandomAccessFile → RandomAccessFile × Option ℕ
close t = elim t.handle [ none ↦ (t, none) | some h ↦ (blank, some h) ]

pub open_with : (system : (flags x : ℕ) → Option ℕ) → (mode x : ℕ) → RandomAccessFile
open_with system mode x = record {
  handle = open_file system mode x;
  attached_to = none;
  enable_app = has 32 mode;
}

abbrev attach_result : RandomAccessFile → Attached → Option RandomAccessFile
attach_result s (attached now calls) = some (record s { attached_to = now })
attach_result s fatal = none

unfoldable pub attach : RandomAccessFile → (local_context : ℕ) → Option RandomAccessFile
attach f c = attach_result f (attach_context f.handle f.attached_to c)

read_at : RandomAccessFile → (c offset buf len user_ptr cb : ℕ) → Option (RandomAccessFile × Call)
unfolding attach
read_at f c offset buf len p cb =
    attach f c >>= λ t. some (t, Call.read_file (raw t.handle) buf len offset p cb)

write_at : RandomAccessFile → (c offset msg len user_ptr cb : ℕ) → Option (RandomAccessFile × Call)
unfolding attach
write_at f c offset msg len p cb =
    attach f c >>= λ t. some (t, Call.write_file (raw t.handle) msg len offset p cb)

unfoldable pub cancel : RandomAccessFile → Option Call
cancel f = elim f.handle [ none ↦ none | some h ↦ some (Call.cancel h) ]

pub close_lem : (t : RandomAccessFile) → ((close t).1 ≡ t.handle) × ((close t).0.handle ≡ none)
unfolding close
close_lem t = elim (Option-cases t.handle) [
  | inl e ↦ ground (arith, e)
  | inr (h, e) ↦ ground (arith, e)
]

unfoldable pub random_access_owner : (indeterminate : Option ℕ) → Owner RandomAccessFile
unfolding move_construct move_assign
random_access_owner indeterminate = record {
  handle = λ s. s.handle;
  move_construct = move_construct indeterminate;
  move_assign = move_assign;
  close = close;
  construct_takes = λ o. refl;
  construct_empties = λ o. refl;
  assign_takes = λ t o h. refl;
  assign_empties = λ t o h. refl;
  close_gives = λ t. (close_lem t).0;
  close_empties = λ t. (close_lem t).1;
}

suc_ne : (c : ℕ) → (suc c == c) ≡ false
suc_ne c = ground arith

-- A file that is moved after it was attached to `c` need not stay so: there is a content of the
-- uninitialised member with which the next operation, in `c` itself, is fatal.
moved_attachment_lost :
    (f : RandomAccessFile) (h c : ℕ)
    → f.handle ≡ some h
    → f.attached_to ≡ some c
    → (x : Option ℕ) × (attach (move_construct x f).0 c ≡ none)
unfolding attach move_construct attach_context
moved_attachment_lost f h c e a = (some (suc c), rw (e, suc_ne c) refl)
