-- ===== src/PriorityQueue/Sorted.antt =====
-- A list kept in order of its keys meets the interface; first in, first out among equal keys.
use mathlib.Core.List.{Mem, Permᴰ, mem-cons, not-mem-nil}
use mathlib.Core.List.Permᴰ
use mathlib.Core.Logic.Or
use native.Mathlib.Bridge.{le_prop}
use magio.Prelude.{
  ℕ, ◌≤◌, ◌≡◌, refl, ap, subst, Option, none, some, List, [], ◌∷◌, arith, leb, if◌then◌else◌,
  Bool-cases, inl, inr, All,
}
use magio.PriorityQueue.{PriorityQueue}

module _ {E : Type 0} (key : E → ℕ) where
  pub place : E → List E → List E
  place e [] = e ∷ []
  place e (x ∷ xs) = if leb (key x) (key e) then x ∷ place e xs else e ∷ x ∷ xs

  pub place-perm : (e : E) (xs : List E) → Permᴰ (place e xs) (e ∷ xs)
  unfolding place
  place-perm e [] = Permᴰ.refl _
  place-perm e (x ∷ xs) = elim (Bool-cases (leb (key x) (key e))) [
    | inl h ↦ rw h (Permᴰ.trans (Permᴰ.cons refl (place-perm e xs)) (Permᴰ.swap refl refl))
    | inr h ↦ rw h (Permᴰ.refl _)
  ]

  abbrev IsSorted : List E → Type 0
  IsSorted [] = Unit
  IsSorted (x ∷ xs) = All (λ y. key x ≤ key y) xs × IsSorted xs

  All-above :
      (a b : E) (xs : List E)
      → key a ≤ key b
      → All (λ y. key b ≤ key y) xs
      → All (λ y. key a ≤ key y) xs
  All-above a b [] h s = tt
  All-above a b (x ∷ xs) h s = (omega arith, All-above a b xs h s.1)

  place-All :
      (a e : E) (xs : List E)
      → key a ≤ key e
      → All (λ y. key a ≤ key y) xs
      → All (λ y. key a ≤ key y) (place e xs)
  unfolding place
  place-All a e [] h s = (h, tt)
  place-All a e (x ∷ xs) h s = ground (arith, place-All a e xs h s.1)

  pub place-IsSorted : (e : E) (xs : List E) → IsSorted xs → IsSorted (place e xs)
  unfolding place
  place-IsSorted e [] s = (tt, tt)
  place-IsSorted e (x ∷ xs) s =
      ground (arith, place-IsSorted e xs s.1, place-All x e xs, All-above e x xs)

  mem-All : (a : E) (x : E) (xs : List E) → All (λ y. key a ≤ key y) xs → Mem x xs → key a ≤ key x
  mem-All a x [] s m = absurd (not-mem-nil m)
  mem-All a x (y ∷ ys) s m = Or.elim le_prop (mem-cons.0 m) (λ e. rw e s.0) (mem-All a x ys s.1)

  pub record Ordered : Type 0 where
    pub entries : List E
    pub sorted : IsSorted entries

  pub uncons : (xs : List E) → IsSorted xs → Option (E × Ordered)
  uncons [] s = none
  uncons (x ∷ xs) s = some (x, record { entries = xs; sorted = s.1 })

  pub uncons-none : (xs : List E) (s : IsSorted xs) → uncons xs s ≡ none → xs ≡ []
  unfolding uncons
  uncons-none [] s e = refl
  uncons-none (x ∷ xs) s e = cc

  spread : Option (E × Ordered) → List E
  spread none = []
  spread (some (x, r)) = x ∷ r.entries

  pub uncons-some :
      (xs : List E) (s : IsSorted xs) (e : E) (r : Ordered)
      → uncons xs s ≡ some (e, r)
      → xs ≡ e ∷ r.entries
  unfolding uncons spread
  uncons-some [] s e r h = cc
  uncons-some (x ∷ xs) s e r h = ap spread h

  pub sorted-least :
      (xs : List E) (s : IsSorted xs) (e : E) (es : List E) (x : E)
      → xs ≡ e ∷ es
      → Mem x es
      → key e ≤ key x
  sorted-least xs s e es x h m =
      let t : IsSorted (e ∷ es) = subst IsSorted h s in mem-All e x es t.0 m

  unfoldable pub sorted_list : PriorityQueue E key
  unfolding uncons place
  sorted_list = record {
    Q = Ordered;
    items = λ q. q.entries;
    fresh = record { entries = []; sorted = tt };
    emplace =
        λ q e. record { entries = place e q.entries; sorted = place-IsSorted e q.entries q.sorted };
    take_top = λ q. uncons q.entries q.sorted;
    items-fresh = refl;
    items-emplace = λ q e. place-perm e q.entries;
    take_top-none = λ q h. uncons-none q.entries q.sorted h;
    take_top-some = λ q e r h.
        subst (λ l. Permᴰ q.entries l) (uncons-some q.entries q.sorted e r h) (Permᴰ.refl _);
    take_top-least = λ q e r x h m.
        sorted-least q.entries q.sorted e r.entries x (uncons-some q.entries q.sorted e r h) m;
  }
