-- ===== src/Prelude/Select.antt =====
-- The elements of a list that pass a Boolean test, and permutations.
use mathlib.Core.Path.{◌≡◌, refl, ap, subst}
use mathlib.Core.Logic.{inl, inr}
use mathlib.Core.Bool.{Bool, true, false}
use mathlib.Core.List.{List, [], ◌∷◌, ◌++◌, Mem, Permᴰ, mem-cons_self, mem-cons_of_mem}
use mathlib.Core.List.Permᴰ
use magio.Prelude.Tests.{if◌then◌else◌, Bool-cases}

module _ {ℓ} {A : Type ℓ} (test : A → Bool) where
  abbrev pub keep : A → List A → List A
  keep t ts = if test t then t ∷ ts else ts

  abbrev pub select : List A → List A
  select [] = []
  select (t ∷ ts) = keep t (select ts)

  pub select-append : (ts us : List A) → select (ts ++ us) ≡ select ts ++ select us
  select-append [] us = refl
  select-append (t ∷ ts) us = elim (Bool-cases (test t)) [
    | inl e ↦ rw (e) (ap (λ l. t ∷ l) (select-append ts us))
    | inr e ↦ rw (e) (select-append ts us)
  ]

  pub keep-perm : (t : A) {ts us : List A} → Permᴰ ts us → Permᴰ (keep t ts) (keep t us)
  keep-perm t p = elim (Bool-cases (test t)) [
    | inl e ↦ rw (e) (Permᴰ.cons refl p)
    | inr e ↦ rw (e) p
  ]

  keep_swap : (t u : A) (ts : List A) → Permᴰ (keep t (keep u ts)) (keep u (keep t ts))
  keep_swap t u ts = elim (Bool-cases (test t)) [
    | inl e ↦ elim (Bool-cases (test u)) [
      | inl f ↦ rw (e, f) (Permᴰ.swap refl refl)
      | inr f ↦ rw (e, f) (Permᴰ.refl _)
    ]
    | inr e ↦ rw (e) (Permᴰ.refl _)
  ]

  pub keep_middle : (t : A) (ts us : List A) → Permᴰ (keep t (ts ++ us)) (ts ++ keep t us)
  keep_middle t ts us = elim (Bool-cases (test t)) [
    | inl e ↦ rw (e) (Permᴰ.symm (Permᴰ.middle t ts us))
    | inr e ↦ rw (e) (Permᴰ.refl _)
  ]

  pub select-perm : {ts us : List A} → Permᴰ ts us → Permᴰ (select ts) (select us)
  select-perm Permᴰ.nil = Permᴰ.nil
  select-perm (Permᴰ.cons {a} {b} {l₁} {l₂} e p) =
      subst (λ t. Permᴰ (keep a (select l₁)) (keep t (select l₂))) e (keep-perm a (select-perm p))
  select-perm (Permᴰ.swap {a} {b} {a'} {b'} {l} e f) =
      subst (λ t. Permᴰ (keep a (keep b (select l))) (keep a' (keep t (select l)))) e
        (subst (λ t. Permᴰ (keep a (keep b (select l))) (keep t (keep a (select l)))) f
          (keep_swap a b (select l)))
  select-perm (Permᴰ.trans p q) = Permᴰ.trans (select-perm p) (select-perm q)

  pub select_all : (ts : List A) → ((t : A) → Mem t ts → test t ≡ true) → select ts ≡ ts
  select_all [] h = refl
  select_all (t ∷ ts) h =
      rw (h t mem-cons_self) (ap (λ l. t ∷ l) (select_all ts (λ u m. h u (mem-cons_of_mem t m))))

  pub select_none : (ts : List A) → ((t : A) → Mem t ts → test t ≡ false) → select ts ≡ []
  select_none [] h = refl
  select_none (t ∷ ts) h =
      rw (h t mem-cons_self) (select_none ts (λ u m. h u (mem-cons_of_mem t m)))
