-- ===== src/File.antt =====
-- core/file.cpp: the opening of files, and the state of File and its operations. The system's answers
-- are arguments.
pub mod RandomAccess
pub mod Offsets
pub mod Windows
pub mod Pending
pub mod Awaited
pub mod Sync
mod Tests
use magio.Prelude.{
  ℕ, ◌+◌, ◌-◌, ◌*◌, ◌/◌, ◌%◌, ◌^◌, ◌≡◌, refl, Bool, true, false, Option, none, some, List, ◌==◌,
  if◌then◌else◌, ◌>>=◌, inl, inr, arith, Option-cases,
}
use magio.Handle.{Owner, Attached, attached, fatal, attach_context}
use magio.IoUring.Poll.{Call}

-- The bit of `mode` of weight `b`.
abbrev pub has : ℕ → ℕ → Bool
has b mode = mode / b % 2 == 1

abbrev if_flag : Bool → ℕ → ℕ
if_flag b f = if b then f else 0

-- The access that the lowest three bits of `mode` ask for: O_RDONLY, O_WRONLY and O_RDWR.
abbrev pub access : ℕ → Option ℕ
access mode =
    if mode % 8 == 1
    then some 0
    else (if mode % 8 == 2 then some 1 else (if mode % 8 == 4 then some 2 else none))

-- The flags of `open`: O_CREAT, O_TRUNC and O_APPEND are bits above the access, so that `|` adds.
pub open_flags : (mode : ℕ) → Option ℕ
open_flags mode = access mode >>= λ flag.
    some (flag + if_flag (has 8 mode) 64 + if_flag (has 16 mode) 512 + if_flag (has 32 mode) 1024)

-- `system` gives a handle, or -1.
pub open_file : (system : (flags x : ℕ) → Option ℕ) → (mode x : ℕ) → Option ℕ
unfolding open_flags
open_file system mode x = open_flags mode >>= λ flags. system flags x

pub record File : Type 0 where
  pub handle : Option ℕ
  pub attached_to : Option ℕ
  pub read_offset : ℕ
  pub write_offset : ℕ

-- `reset()`.
abbrev pub blank_file : File
blank_file = record { handle = none; attached_to = none; read_offset = 0; write_offset = 0 }

unfoldable pub move_construct : File → File × File
move_construct o = (o, blank_file)

unfoldable pub move_assign : File → File → File × File
move_assign t o = (o, blank_file)

-- `f = std::move(f)`.
self_assign : File → File
self_assign f = blank_file

unfoldable pub close : File → File × Option ℕ
close t = elim t.handle [ none ↦ (t, none) | some h ↦ (blank_file, some h) ]

pub open_with : (system : (flags x : ℕ) → Option ℕ) → (mode x : ℕ) → File
unfolding open_file
open_with system mode x = record blank_file { handle = open_file system mode x }

abbrev pub raw : Option ℕ → ℕ
raw none = 2 ^ 32 - 1
raw (some h) = h

abbrev pub attach_result : File → Attached → Option File
attach_result s (attached now calls) = some (record s { attached_to = now })
attach_result s fatal = none

-- `none` is M_FATAL.
unfoldable pub attach : File → (local_context : ℕ) → Option File
attach f c = attach_result f (attach_context f.handle f.attached_to c)

pub read : File → (c buf len user_ptr cb : ℕ) → Option (File × Call)
unfolding attach
read f c buf len p cb =
    attach f c >>= λ t. some (t, Call.read_file (raw t.handle) buf len t.read_offset p cb)

unfoldable pub write : File → (c msg len user_ptr cb : ℕ) → Option (File × Call)
unfolding attach
write f c msg len p cb =
    attach f c >>= λ t. some (t, Call.write_file (raw t.handle) msg len t.write_offset p cb)

-- What the callbacks of `read` and `write` do first, with the result of the request.
pub read_completed : File → (res : ℕ) → File
read_completed f res = record f { read_offset = (f.read_offset + res) % 2 ^ 64 }

pub write_completed : File → (res : ℕ) → File
write_completed f res = record f { write_offset = (f.write_offset + res) % 2 ^ 64 }

unfoldable pub cancel : File → Option Call
cancel f = elim f.handle [ none ↦ none | some h ↦ some (Call.cancel h) ]

pub close_lem : (t : File) → ((close t).1 ≡ t.handle) × ((close t).0.handle ≡ none)
unfolding close
close_lem t = elim (Option-cases t.handle) [
  | inl e ↦ ground (arith, e)
  | inr (h, e) ↦ ground (arith, e)
]

unfoldable pub file_owner : Owner File
unfolding move_construct move_assign
file_owner = record {
  handle = λ s. s.handle;
  move_construct = move_construct;
  move_assign = move_assign;
  close = close;
  construct_takes = λ o. refl;
  construct_empties = λ o. refl;
  assign_takes = λ t o h. refl;
  assign_empties = λ t o h. refl;
  close_gives = λ t. (close_lem t).0;
  close_empties = λ t. (close_lem t).1;
}
