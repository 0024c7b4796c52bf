-- ===== src/Functor.antt =====
-- utils/functor.h: Functor. A callable object on the heap is its address, a function its number.
mod Tests
use magio.Prelude.{
  ℕ, ◌≡◌, ◌≢◌, refl, sym, ap, ◌∙◌, ◌⊎◌, inl, inr, Bool, true, false, Option, none, some, List, ◌==◌,
  ==_iff, if◌then◌else◌, arith, Bool-cases,
}
use magio.Handle.{Owner}
use magio.Handle.Ownership.{Inv}
use magio.Handle.World.{World, Reach, ledger, handle_at, assigned, Reach-Inv, assign_leaks}

pub data Strategy : Type 0 where
  c_function class_function : Strategy

-- `strategy_` and the member of `impl_` that it tells; an empty one has a null pointer and any strategy.
pub data Functor : Type 0 where
  empty : Strategy → Functor
  cfunc : (function : ℕ) → Functor
  functorbase : (object : ℕ) → Functor

abbrev strategy : Functor → Strategy
strategy (empty s) = s
strategy (cfunc f) = c_function
strategy (functorbase p) = class_function

-- A function and an object have different addresses.
abbrev same_pointer : Functor → Functor → Bool
same_pointer (empty s) (empty t) = true
same_pointer (cfunc f) (cfunc g) = f == g
same_pointer (functorbase p) (functorbase q) = p == q
same_pointer _ _ = false

abbrev emptied : Functor → Functor
emptied f = empty (strategy f)

unfoldable pub move_construct : Functor → Functor × Functor
move_construct o = (o, emptied o)

unfoldable pub move_assign : Functor → Functor → Functor × Functor
move_assign t o = if same_pointer t o then (t, o) else (o, emptied o)

pub swap : Functor → Functor → Functor × Functor
swap t o = (o, t)

-- The object that the destructor deletes; the destroyed Functor is one that is empty.
unfoldable pub destroy : Functor → Functor × Option ℕ
destroy (functorbase p) = (empty class_function, some p)
destroy f = (emptied f, none)

-- What a call runs; `none` is the use of a null pointer.
pub call : Functor → Option (ℕ ⊎ ℕ)
call (empty s) = none
call (cfunc f) = some (inl f)
call (functorbase p) = some (inr p)

to_bool : Functor → Bool
to_bool (empty s) = false
to_bool _ = true

abbrev object_of : Functor → Option ℕ
object_of (functorbase p) = some p
object_of _ = none

abbrev HandsOver : Functor → Functor × Functor → Type 0
HandsOver o (t', o') = (object_of t' ≡ object_of o) × (object_of o' ≡ none)

pub move_assign_lem :
    (t o : Functor)
    → (object_of t ≢ object_of o) ⊎ (object_of o ≡ none)
    → HandsOver o (move_assign t o)
unfolding move_assign
move_assign_lem (empty s) (empty t) h = (refl, refl)
move_assign_lem (empty s) (cfunc g) h = (refl, refl)
move_assign_lem (empty s) (functorbase q) h = (refl, refl)
move_assign_lem (cfunc f) (empty t) h = (refl, refl)
move_assign_lem (cfunc f) (cfunc g) h = elim (Bool-cases (f == g)) [
  | inl e ↦ rw (e) (refl, refl)
  | inr e ↦ rw (e) (refl, refl)
]
move_assign_lem (cfunc f) (functorbase q) h = (refl, refl)
move_assign_lem (functorbase p) (empty t) h = (refl, refl)
move_assign_lem (functorbase p) (cfunc g) h = (refl, refl)
move_assign_lem (functorbase p) (functorbase q) h = elim (Bool-cases (p == q)) [
  | inl e ↦ absurd (elim h [ inl n ↦ n (ap some ((==_iff p q).0 e)) | inr c ↦ ground (arith, c) ])
  | inr e ↦ rw (e) (refl, refl)
]

destroy_lem : (t : Functor) → ((destroy t).1 ≡ object_of t) × (object_of (destroy t).0 ≡ none)
unfolding destroy
destroy_lem (empty s) = (refl, refl)
destroy_lem (cfunc f) = (refl, refl)
destroy_lem (functorbase p) = (refl, refl)

pub functor_owner : Owner Functor
unfolding move_construct
functor_owner = record {
  handle = object_of;
  move_construct = move_construct;
  move_assign = move_assign;
  close = destroy;
  construct_takes = λ o. refl;
  construct_empties = λ o. refl;
  assign_takes = λ t o h. (move_assign_lem t o h).0;
  assign_empties = λ t o h. (move_assign_lem t o h).1;
  close_gives = λ t. (destroy_lem t).0;
  close_empties = λ t. (destroy_lem t).1;
}

-- However Functors are made, moved, assigned and destroyed, each callable object that one holds is alive
-- and that one's alone, each object alive is a Functor's or was lost in an assignment, and the object
-- that a Functor held when another was assigned to it is alive with no Functor to delete it.
pub callables_owned :
    {w : World Functor} (i j p : ℕ)
    → Reach functor_owner w
    → i ≢ j
    → handle_at functor_owner w j ≡ some p
    → let w' = assigned functor_owner w i j in
      Inv (ledger functor_owner w)
      × (w'.is_open p ≡ true)
      × ((k : ℕ) → handle_at functor_owner w' k ≢ some p)
callables_owned i j p r n e =
    let (alive, lost) = assign_leaks functor_owner r i j p n e in
    (Reach-Inv functor_owner r, alive, lost)
