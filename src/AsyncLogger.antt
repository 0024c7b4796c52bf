-- ===== src/AsyncLogger.antt =====
-- utils/async_logger.h: the double buffering of AsyncLogger. A null `unique_ptr` is `none`; a
-- result of `none` is a null pointer followed, the back of an empty vector, or a write past a
-- buffer. The file is the bytes written, to however many files (Files); how many of a buffer's
-- bytes a call of `file.write` writes, which the source does not look at, is an argument.
pub mod System
pub mod Front
pub mod Rounds
pub mod Order
pub mod Files
mod Tests
use magio.Prelude.{
  ℕ, suc, zero, ◌≡◌, Bool, true, false, Option, none, some, List, [], ◌∷◌, ◌++◌, ◌==◌, ltb,
  if◌then◌else◌, length, take, ◌>>=◌,
}
use magio.Buffer.{
  StaticBuffer, empty_buffer, clear, rest, append, append_format, slice, small_buffer_size,
  large_buffer_size,
}

-- What `mutex_` guards.
pub record AsyncLogger : Type 0 where
  pub stop_flag : Bool
  pub current : Option StaticBuffer
  pub next : Option StaticBuffer
  pub ready : List StaticBuffer

pub construct : AsyncLogger
construct = record {
  stop_flag = false;
  current = some empty_buffer;
  next = some empty_buffer;
  ready = [];
}

-- The locals of `run_in_background`.
pub record Back : Type 0 where
  pub current_alter_buf : Option StaticBuffer
  pub next_alter_buf : Option StaticBuffer
  pub buffers_to_print : List StaticBuffer
  pub file : List ℕ

abbrev pub or_fresh : Option StaticBuffer → StaticBuffer
or_fresh none = empty_buffer
or_fresh (some n) = n

-- `ready_.push_back`, the fresh buffer where `next_` is null, the swap and the append.
pub replace : AsyncLogger → StaticBuffer → List ℕ → Option (AsyncLogger × Bool)
replace l c msg = append large_buffer_size (or_fresh l.next) msg >>= λ (b, n).
    some (record l { ready = l.ready ++ c ∷ []; current = some b; next = none }, true)

-- `write_impl` with `current_` at hand; the Boolean is whether `condvar_` is notified.
pub write_into : AsyncLogger → StaticBuffer → List ℕ → Option (AsyncLogger × Bool)
unfolding replace
write_into l c msg =
    if ltb (length msg) (rest large_buffer_size c)
    then (append large_buffer_size c msg >>= λ (b, n). some (record l { current = some b }, false))
    else replace l c msg

pub write_impl : AsyncLogger → List ℕ → Option (AsyncLogger × Bool)
unfolding write_into
write_impl l msg = l.current >>= λ c. write_into l c msg

-- `write`, for the text that the format library prints.
pub write : AsyncLogger → (text : List ℕ) → Option (AsyncLogger × Bool)
unfolding write_impl
write l text =
    append_format small_buffer_size empty_buffer text >>= λ (b, n). write_impl l (slice b)

pub stop : AsyncLogger → AsyncLogger
stop l = record l { stop_flag = true }

-- Under the lock, after the wait: the buffers to print, ...
pub take_full : AsyncLogger → Back → Option (AsyncLogger × Back)
take_full l b = elim l.ready [
  | [] ↦ l.current >>= λ c.
      (if c.size == 0
        then some (l, b)
        else some (
          record l { current = b.current_alter_buf },
          record b { buffers_to_print = c ∷ []; current_alter_buf = none },
        ))
  | r ∷ rs ↦ some (record l { ready = [] }, record b { buffers_to_print = r ∷ rs })
]

-- ... and a spare for `next_`.
pub supply_next : AsyncLogger × Back → AsyncLogger × Back
supply_next (l, b) = elim l.next [
  | none ↦ (record l { next = b.next_alter_buf }, record b { next_alter_buf = none })
  | some n ↦ (l, b)
]

pub collect : AsyncLogger → Back → Option (AsyncLogger × Back)
unfolding take_full supply_next
collect l b = take_full l b >>= λ x. some (supply_next x)

pub print : List StaticBuffer → List ℕ
print [] = []
print (p ∷ ps) = slice p ++ print ps

-- What the calls of `file.write` write, that return `counts`.
pub written : (counts : List ℕ) → List StaticBuffer → List ℕ
written ns [] = []
written [] (p ∷ ps) = []
written (n ∷ ns) (p ∷ ps) = take n (slice p) ++ written ns ps

abbrev pub cleared : List StaticBuffer → List StaticBuffer
cleared [] = []
cleared (p ∷ ps) = clear p ∷ cleared ps

-- `back` and `pop_back`.
abbrev pub pop_back : List StaticBuffer → Option (List StaticBuffer × StaticBuffer)
pop_back [] = none
pop_back (p ∷ []) = some ([], p)
pop_back (p ∷ q ∷ qs) = pop_back (q ∷ qs) >>= λ (ps, last). some (p ∷ ps, last)

pub refill :
    Option StaticBuffer → List StaticBuffer → Option (Option StaticBuffer × List StaticBuffer)
refill (some a) ps = some (some a, ps)
refill none ps = pop_back ps >>= λ (qs, last). some (some last, qs)

-- From the loop that writes to the file to the end of the round. The vector is emptied here; the
-- source does it when the next round begins.
pub print_round : (counts : List ℕ) → Back → Option Back
unfolding refill written
print_round counts b = refill b.current_alter_buf (cleared b.buffers_to_print) >>= λ (ca, ps).
    refill b.next_alter_buf ps >>= λ (na, qs). some (record {
      current_alter_buf = ca;
      next_alter_buf = na;
      buffers_to_print = [];
      file = b.file ++ written counts b.buffers_to_print;
    })
