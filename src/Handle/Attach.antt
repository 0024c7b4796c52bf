-- ===== src/Handle/Attach.antt =====
-- core/file.cpp, net/socket.cpp: an object is used in one context.
use magio.Prelude.{
  ℕ, ◌+◌, ◌≡◌, refl, ap, ◌∙◌, Bool, true, false, Option, none, some, List, [], ◌∷◌, ◌==◌, ◌&&◌,
  if◌then◌else◌, ◌>>=◌, arith, inl, inr, ◌⊎◌, some-inj, Bool-cases,
}
use magio.Handle.{attached, fatal, attach_context}

abbrev pub called : Bool → ℕ
called b = if b then 1 else 0

abbrev counting : Bool → Option (Option ℕ × ℕ) → Option (Option ℕ × ℕ)
counting b o = o >>= λ (last, n). some (last, called b + n)

-- Operations in the contexts of a list, one after the other: the attachment afterwards, and how many
-- times IoService::attach was called.
pub uses : (handle attached_ : Option ℕ) → List ℕ → Option (Option ℕ × ℕ)
uses h att [] = some (att, 0)
uses h att (c ∷ cs) = elim (attach_context h att c) [
  | attached now b ↦ counting b (uses h now cs)
  | fatal ↦ none
]

abbrev all_equal : ℕ → List ℕ → Bool
all_equal c [] = true
all_equal c (d ∷ ds) = (c == d) && all_equal c ds

counting-if :
    (b : Bool) (a : Option ℕ) (n : ℕ)
    → counting false (if b then some (a, n) else none) ≡ (if b then some (a, n) else none)
counting-if true a n = ap (λ k. some (a, k)) (omega arith)
counting-if false a n = refl

uses_attached :
    (h c : ℕ) (ds : List ℕ)
    → uses (some h) (some c) ds ≡ (if all_equal c ds then some (some c, 0) else none)
unfolding uses attach_context
uses_attached h c [] = refl
uses_attached h c (d ∷ ds) = elim (Bool-cases (c == d)) [
  | inl e ↦
      rw (e, uses)
        (ap (counting false) (uses_attached h c ds) ∙ counting-if (all_equal c ds) (some c) 0)
  | inr e ↦ rw (e, uses) refl
]

counting-once :
    (b : Bool) (a : Option ℕ)
    → counting true (if b then some (a, 0) else none) ≡ (if b then some (a, 1) else none)
counting-once true a = refl
counting-once false a = refl

-- The operations on an object that holds a handle and is not attached go through if and only if they
-- are all in one context, which is called to attach it once.
pub uses_lem :
    (h c : ℕ) (cs : List ℕ)
    → uses (some h) none (c ∷ cs) ≡ (if all_equal c cs then some (some c, 1) else none)
unfolding uses attach_context
uses_lem h c cs =
    ap (counting true) (uses_attached h c cs) ∙ counting-once (all_equal c cs) (some c)

same_context : (d c : ℕ) → (some d ≡ none) ⊎ (some d ≡ some c) → (d == c) ≡ true
same_context d c (inl e) = absurd (ground (arith, e))
same_context d c (inr e) = ground (arith, some-inj e)

-- An object that is not attached elsewhere can be used in `c`, and stays so.
pub attach_context-stays :
    (h att : Option ℕ) (c : ℕ)
    → (att ≡ none) ⊎ (att ≡ some c)
    → (now : Option ℕ) × (b : Bool) × (attach_context h att c ≡ attached now b)
      × ((now ≡ none) ⊎ (now ≡ some c))
unfolding attach_context
attach_context-stays none att c q = (att, false, refl, q)
attach_context-stays (some h) none c q = (some c, true, refl, inr refl)
attach_context-stays (some h) (some d) c q = (some d, false, rw (same_context d c q) refl, q)
