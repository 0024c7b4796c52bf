-- ===== src/Handle/World.antt =====
-- core/file.cpp, core/pipe.cpp, net/socket.cpp: a program's objects of one class, opened, moved,
-- assigned, closed and destroyed in any order, over any class that keeps the promises of Owner.
use magio.Prelude.{
  ℕ, ◌≡◌, ◌≢◌, refl, ap, sym, ◌∙◌, ◌⊎◌, inl, inr, Bool, true, false, Option, none, some, arith,
  Option-cases,
}
use magio.Handle.{Owner}
use magio.Handle.Ownership.{Ledger, set, mark, Move, gains, passes, drops, Inv, Move-Inv}

-- A destroyed object is one that was closed.
pub record World (A : Type 0) : Type 0 where
  pub object : ℕ → A
  pub is_open : ℕ → Bool
  pub leaked : ℕ → Bool

abbrev after_move {ℓ} : {A : Type ℓ} → (ℕ → A) → (i j : ℕ) → A × A → ℕ → A
after_move f i j (taken, rest) = set (set f j taken) i rest

module _ {A : Type 0} (owner : Owner A) where
  abbrev pub handle_at : World A → ℕ → Option ℕ
  handle_at w i = owner.handle (w.object i)

  abbrev pub ledger : World A → Ledger
  ledger w = record { held = handle_at w; is_open = w.is_open; leaked = w.leaked }

  abbrev pub opened : World A → (i h : ℕ) → A → World A
  opened w i h a = record w { object = set w.object i a; is_open = set w.is_open h true }

  -- `j` is constructed from `i`.
  abbrev pub constructed : World A → (i j : ℕ) → World A
  constructed w i j = record w {
    object = after_move w.object i j (owner.move_construct (w.object i));
  }

  -- `j` is assigned `i`.
  abbrev pub assigned : World A → (i j : ℕ) → World A
  assigned w i j = record w {
    object = after_move w.object i j (owner.move_assign (w.object j) (w.object i));
    leaked = mark (handle_at w j) true w.leaked;
  }

  abbrev pub closed : World A → ℕ → World A
  closed w i = record w {
    object = set w.object i (owner.close (w.object i)).0;
    is_open = mark (owner.close (w.object i)).1 false w.is_open;
  }

  -- The system opens a handle that is not open; an assignment is between two objects.
  pub data Step (w : World A) : World A → Type 0 where
    opens :
        (i h : ℕ) (a : A)
        → handle_at w i ≡ none
        → owner.handle a ≡ some h
        → w.is_open h ≡ false
        → w.leaked h ≡ false
        → Step w (opened w i h a)
    constructs : (i j : ℕ) → i ≢ j → handle_at w j ≡ none → Step w (constructed w i j)
    assigns : (i j : ℕ) → i ≢ j → Step w (assigned w i j)
    closes : (i : ℕ) → Step w (closed w i)

  -- From a world without handles.
  pub record Blank (w : World A) : Type 0 where
    pub nothing_held : (i : ℕ) → handle_at w i ≡ none
    pub nothing_open : (h : ℕ) → w.is_open h ≡ false
    pub nothing_leaked : (h : ℕ) → w.leaked h ≡ false

  pub data Reach : World A → Type 0 where
    here : {w : World A} → Blank w → Reach w
    later : {w w' : World A} → Reach w → Step w w' → Reach w'

  Blank-Inv : (w : World A) → Blank w → Inv (ledger w)
  Blank-Inv w b = record {
    live = λ i h p. ground (arith, p, b.nothing_held i);
    unique = λ i j h p q. ground (arith, p, b.nothing_held i);
    accounted = λ h p q. ground (arith, p, b.nothing_open h);
  }

  set_same : (f : ℕ → A) (i : ℕ) (a : A) → set f i a i ≡ a
  set_same f i a = ground arith

  set_other : (f : ℕ → A) (i k : ℕ) (a : A) → k ≢ i → set f i a k ≡ f k
  set_other f i k a n = ground arith

  moved_to : (f : ℕ → A) (i j : ℕ) (x : A × A) → i ≢ j → after_move f i j x j ≡ x.0
  moved_to f i j (a, b) n = ground arith

  moved_other : (f : ℕ → A) (i j k : ℕ) (x : A × A) → k ≢ i → k ≢ j → after_move f i j x k ≡ f k
  moved_other f i j k (a, b) m n = ground arith

  -- Two objects of a sound ledger do not share a handle.
  apart :
      (w : World A) (i j : ℕ)
      → Inv (ledger w)
      → i ≢ j
      → (handle_at w j ≢ handle_at w i) ⊎ (handle_at w i ≡ none)
  apart w i j v n = elim (Option-cases (handle_at w i)) [
    | inl e ↦ inr e
    | inr (h, e) ↦ inl (λ c. n (v.unique i j h e (c ∙ e)))
  ]

  -- The objects of a class keep the ledger.
  Step-Move : {w w' : World A} → Inv (ledger w) → Step w w' → Move (ledger w) (ledger w')
  Step-Move {w} v (opens i h a e q o l) =
      gains i h e o l (ap owner.handle (set_same w.object i a) ∙ q)
        (λ k n. ap owner.handle (set_other w.object i k a n)) (λ k. refl) (λ k. refl)
  Step-Move {w} v (constructs i j n e) =
      let x = owner.move_construct (w.object i) in
      passes i j n
        (ap owner.handle (moved_to w.object i j x n) ∙ owner.construct_takes (w.object i))
        (ap owner.handle (set_same (set w.object j x.0) i x.1)
          ∙ owner.construct_empties (w.object i))
        (λ k a b. ap owner.handle (moved_other w.object i j k x a b)) (λ k. refl)
        (λ k. sym (ap (λ o. mark o true w.leaked k) e))
  Step-Move {w} v (assigns i j n) =
      let x = owner.move_assign (w.object j) (w.object i) in
      let d = apart w i j v n in
      passes i j n
        (ap owner.handle (moved_to w.object i j x n)
          ∙ owner.assign_takes (w.object j) (w.object i) d)
        (ap owner.handle (set_same (set w.object j x.0) i x.1)
          ∙ owner.assign_empties (w.object j) (w.object i) d)
        (λ k a b. ap owner.handle (moved_other w.object i j k x a b)) (λ k. refl) (λ k. refl)
  Step-Move {w} v (closes i) =
      let x = owner.close (w.object i) in
      drops i (ap owner.handle (set_same w.object i x.0) ∙ owner.close_empties (w.object i))
        (λ k a. ap owner.handle (set_other w.object i k x.0 a))
        (λ k. ap (λ o. mark o false w.is_open k) (owner.close_gives (w.object i))) (λ k. refl)

  -- In every reachable world each handle of an object is open, that object's alone and not leaked,
  -- and each open handle is an object's or leaked: no handle is used or closed after it was closed.
  pub Reach-Inv : {w : World A} → Reach w → Inv (ledger w)
  Reach-Inv (here b) = Blank-Inv _ b
  Reach-Inv (later r st) = Move-Inv (Step-Move (Reach-Inv r) st) (Reach-Inv r)

  -- A step from a reachable world is a move of its ledger.
  pub Reach-Move : {w w' : World A} → Reach w → Step w w' → Move (ledger w) (ledger w')
  Reach-Move r st = Step-Move (Reach-Inv r) st

  -- In a reachable world an assignment to another object that holds a handle leaves that handle open
  -- with no object to close it.
  pub assign_leaks :
      {w : World A} (r : Reach w) (i j h : ℕ)
      → i ≢ j
      → handle_at w j ≡ some h
      → ((assigned w i j).is_open h ≡ true) × ((k : ℕ) → handle_at (assigned w i j) k ≢ some h)
  assign_leaks {w} r i j h n p =
      let v = Reach-Inv r in
      let v' = Reach-Inv (later r (assigns i j n)) in
      (
        (v.live j h p).0,
        λ k q.
            let e = sym (ap (λ o. mark o true w.leaked h) p) ∙ (v'.live k h q).1 in
            ground (arith, e),
      )
