-- ===== src/Handle.antt =====
-- core/common.h, and what core/file.cpp, core/pipe.cpp and net/socket.cpp share: an object that owns
-- a handle, its move operations, and the context that it is attached to. `kInvalidHandle` is `none`;
-- a context is a number.
pub mod Ownership
pub mod World
pub mod Classes
pub mod Attach
mod Tests
use magio.Prelude.{ℕ, ◌≡◌, ◌≢◌, ◌⊎◌, Bool, true, false, Option, none, some, ◌==◌, if◌then◌else◌}

-- What a class that owns a handle promises. `move_assign t o` and `close t` give the objects
-- afterwards, `close` also the handle that it gave back.
pub record Owner (A : Type 0) : Type 1 where
  pub handle : A → Option ℕ
  pub move_construct : A → A × A
  pub move_assign : A → A → A × A
  pub close : A → A × Option ℕ
  pub construct_takes : (o : A) → handle (move_construct o).0 ≡ handle o
  pub construct_empties : (o : A) → handle (move_construct o).1 ≡ none
  pub assign_takes :
      (t o : A) → (handle t ≢ handle o) ⊎ (handle o ≡ none) → handle (move_assign t o).0 ≡ handle o
  pub assign_empties :
      (t o : A) → (handle t ≢ handle o) ⊎ (handle o ≡ none) → handle (move_assign t o).1 ≡ none
  pub close_gives : (t : A) → (close t).1 ≡ handle t
  pub close_empties : (t : A) → handle (close t).0 ≡ none

-- The answer of `attach_context`: whether `IoService::attach` is called; `fatal` is M_FATAL.
pub data Attached : Type 0 where
  attached : (now : Option ℕ) (calls_service : Bool) → Attached
  fatal : Attached

abbrev attach_in : ℕ → Option ℕ → Attached
attach_in local_context none = attached (some local_context) true
attach_in local_context (some c) = if c == local_context then attached (some c) false else fatal

unfoldable pub attach_context : (handle attached_ : Option ℕ) (local_context : ℕ) → Attached
attach_context none att local_context = attached att false
attach_context (some h) att local_context = attach_in local_context att
