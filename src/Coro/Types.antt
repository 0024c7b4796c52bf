-- ===== src/Coro/Types.antt =====
-- utils/traits.h: the result of join and series. A return type is a number, `none` is void; places are
-- size_t, and (size_t)-1 is `none`.
use magio.Prelude.{
  ℕ, zero, suc, ◌+◌, ◌-◌, ◌≤◌, ◌≡◌, refl, Option, none, some, List, [], ◌∷◌, get_elem?, arith,
  some-inj, ap, subst, ◌∙◌,
}

-- `FindNonVoidPlace`, which counts from the second argument's first.
unfoldable pub non_void_places : ℕ → List (Option ℕ) → List (Option ℕ)
non_void_places n [] = []
non_void_places n (some t ∷ ts) = some n ∷ non_void_places (n + 1) ts
non_void_places n (none ∷ ts) = none ∷ non_void_places n ts

-- `NonVoidPlaceSequence`.
unfoldable pub places : List (Option ℕ) → List (Option ℕ)
unfolding non_void_places
places ts = non_void_places 0 ts

-- `RemoveVoidTuple`.
pub remove_void : List (Option ℕ) → List ℕ
remove_void [] = []
remove_void (some t ∷ ts) = t ∷ remove_void ts
remove_void (none ∷ ts) = remove_void ts

sub_self : (n : ℕ) → n - n ≡ 0
sub_self n = omega arith

sub_zero : (n : ℕ) → n - 0 ≡ n
sub_zero n = omega arith

sub-suc : (n p : ℕ) → n + 1 ≤ p → p - n ≡ suc (p - (n + 1))
sub-suc n p h = omega (arith, h)

-- The place `p`, `n` the first, is that of the type at `i`.
record Fits (n : ℕ) (ts : List (Option ℕ)) (i p : ℕ) : Type 0 where
  type : ℕ
  above : n ≤ p
  of_coroutine : get_elem? ts i ≡ some (some type)
  of_tuple : get_elem? (remove_void ts) (p - n) ≡ some type

get_elem-suc :
    (xs : List ℕ) (t n p : ℕ) → n + 1 ≤ p → get_elem? (t ∷ xs) (p - n) ≡ get_elem? xs (p - (n + 1))
get_elem-suc xs t n p h = rw (sub-suc n p h) refl

non_void_places-Fits :
    (n : ℕ) (ts : List (Option ℕ)) (i p : ℕ)
    → get_elem? (non_void_places n ts) i ≡ some (some p)
    → Fits n ts i p
unfolding non_void_places remove_void
non_void_places-Fits n [] i p e = absurd (ground (arith, e))
non_void_places-Fits n (some t ∷ ts) zero p e =
    let same : n ≡ p = some-inj (some-inj e) in
    record {
      type = t;
      above = omega (arith, same);
      of_coroutine = refl;
      of_tuple = rw (← same, sub_self n) refl;
    }
non_void_places-Fits n (some t ∷ ts) (suc i) p e =
    let f = non_void_places-Fits (n + 1) ts i p e in
    record {
      type = f.type;
      above = omega (arith, f.above);
      of_coroutine = f.of_coroutine;
      of_tuple = get_elem-suc (remove_void ts) t n p f.above ∙ f.of_tuple;
    }
non_void_places-Fits n (none ∷ ts) zero p e = absurd (ground (arith, e))
non_void_places-Fits n (none ∷ ts) (suc i) p e =
    let f = non_void_places-Fits n ts i p e in
    record { type = f.type; above = f.above; of_coroutine = f.of_coroutine; of_tuple = f.of_tuple }

non_void_places-inj :
    (n : ℕ) (ts : List (Option ℕ)) (i j p : ℕ)
    → get_elem? (non_void_places n ts) i ≡ some (some p)
    → get_elem? (non_void_places n ts) j ≡ some (some p)
    → i ≡ j
unfolding non_void_places
non_void_places-inj n [] i j p e f = absurd (ground (arith, e))
non_void_places-inj n (some t ∷ ts) zero zero p e f = refl
non_void_places-inj n (some t ∷ ts) zero (suc j) p e f =
    let same : n ≡ p = some-inj (some-inj e) in
    let g = non_void_places-Fits (n + 1) ts j p f in absurd (omega (arith, g.above, same))
non_void_places-inj n (some t ∷ ts) (suc i) zero p e f =
    let same : n ≡ p = some-inj (some-inj f) in
    let g = non_void_places-Fits (n + 1) ts i p e in absurd (omega (arith, g.above, same))
non_void_places-inj n (some t ∷ ts) (suc i) (suc j) p e f =
    ap suc (non_void_places-inj (n + 1) ts i j p e f)
non_void_places-inj n (none ∷ ts) zero j p e f = absurd (ground (arith, e))
non_void_places-inj n (none ∷ ts) (suc i) zero p e f = absurd (ground (arith, f))
non_void_places-inj n (none ∷ ts) (suc i) (suc j) p e f =
    ap suc (non_void_places-inj n ts i j p e f)

-- Coroutines to which NonVoidPlaceSequence gives the same place are the same, and that place is one of
-- the tuple, which has there the type that the coroutine returns.
pub places-Fit :
    (ts : List (Option ℕ)) (i j p : ℕ)
    → get_elem? (places ts) i ≡ some (some p)
    → get_elem? (places ts) j ≡ some (some p)
    → (i ≡ j)
      × ((t : ℕ) × (get_elem? ts i ≡ some (some t)) × (get_elem? (remove_void ts) p ≡ some t))
unfolding places
places-Fit ts i j p e f =
    let fits = non_void_places-Fits 0 ts i p e in
    (
      non_void_places-inj 0 ts i j p e f,
      (
        fits.type,
        fits.of_coroutine,
        subst (λ q. get_elem? (remove_void ts) q ≡ some fits.type) (sub_zero p) fits.of_tuple,
      ),
    )
