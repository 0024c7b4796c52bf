-- ===== src/Handle/Ownership.antt =====
-- core/file.cpp, core/pipe.cpp, net/socket.cpp: who owns the open handles. The abstract ledger that
-- the classes keep, and its invariant.
use magio.Prelude.{
  ℕ, ◌≡◌, ◌≢◌, ap, sym, ◌∙◌, inl, inr, Bool, true, false, not, Option, none, some, ◌==◌, ==_iff,
  if◌then◌else◌, arith, Bool-cases, some-inj,
}

-- `held` is the handle of each object, none for a dead one; `leaked` records the handles that an
-- assignment overwrote.
pub record Ledger : Type 0 where
  pub held : ℕ → Option ℕ
  pub is_open : ℕ → Bool
  pub leaked : ℕ → Bool

abbrev pub set {ℓ} : {A : Type ℓ} → (ℕ → A) → ℕ → A → ℕ → A
set f i a j = if i == j then a else f j

abbrev pub mark : Option ℕ → Bool → (ℕ → Bool) → ℕ → Bool
mark none b f = f
mark (some h) b f = set f h b

-- The system opens a handle that is not open; an object passes its handle to another, whose own is
-- lost; an object gives its handle back.
pub data Move (l l' : Ledger) : Type 0 where
  gains :
      (i h : ℕ)
      → l.held i ≡ none
      → l.is_open h ≡ false
      → l.leaked h ≡ false
      → l'.held i ≡ some h
      → ((k : ℕ) → k ≢ i → l'.held k ≡ l.held k)
      → ((k : ℕ) → l'.is_open k ≡ set l.is_open h true k)
      → ((k : ℕ) → l'.leaked k ≡ l.leaked k)
      → Move l l'
  passes :
      (i j : ℕ)
      → i ≢ j
      → l'.held j ≡ l.held i
      → l'.held i ≡ none
      → ((k : ℕ) → k ≢ i → k ≢ j → l'.held k ≡ l.held k)
      → ((k : ℕ) → l'.is_open k ≡ l.is_open k)
      → ((k : ℕ) → l'.leaked k ≡ mark (l.held j) true l.leaked k)
      → Move l l'
  drops :
      (i : ℕ)
      → l'.held i ≡ none
      → ((k : ℕ) → k ≢ i → l'.held k ≡ l.held k)
      → ((k : ℕ) → l'.is_open k ≡ mark (l.held i) false l.is_open k)
      → ((k : ℕ) → l'.leaked k ≡ l.leaked k)
      → Move l l'

-- Each handle of an object is open, is that object's alone, and is not leaked; each open handle is an
-- object's, or leaked.
pub record Inv (l : Ledger) : Type 0 where
  pub live : (i h : ℕ) → l.held i ≡ some h → (l.is_open h ≡ true) × (l.leaked h ≡ false)
  pub unique : (i j h : ℕ) → l.held i ≡ some h → l.held j ≡ some h → i ≡ j
  pub accounted : (h : ℕ) → l.is_open h ≡ true → l.leaked h ≡ false → (i : ℕ) × (l.held i ≡ some h)

module _ (l l' : Ledger) (v : Inv l) where
  gains-Inv :
      (i h : ℕ)
      → l.held i ≡ none
      → l.is_open h ≡ false
      → l.leaked h ≡ false
      → l'.held i ≡ some h
      → ((k : ℕ) → k ≢ i → l'.held k ≡ l.held k)
      → ((k : ℕ) → l'.is_open k ≡ set l.is_open h true k)
      → ((k : ℕ) → l'.leaked k ≡ l.leaked k)
      → Inv l'
  gains-Inv i h e o b q f s t = record {
    live = λ j k p. elim (Bool-cases (j == i)) [
      | inl d ↦ ground (arith, s k, t k)
      | inr d ↦ ground (arith, s k, t k, f j (λ c. ground arith), v.live j k)
    ];
    unique = λ j m k p r. elim (Bool-cases (j == i)) [
      | inl d ↦ elim (Bool-cases (m == i)) [
        | inl d' ↦ ground arith
        | inr d' ↦ ground (arith, f m (λ c. ground arith), v.live m k)
      ]
      | inr d ↦ elim (Bool-cases (m == i)) [
        | inl d' ↦ ground (arith, f j (λ c. ground arith), v.live j k)
        | inr d' ↦
            v.unique j m k (sym (f j (λ c. ground arith)) ∙ p) (sym (f m (λ c. ground arith)) ∙ r)
      ]
    ];
    accounted = λ k p r. elim (Bool-cases (h == k)) [
      | inl d ↦ (i, ground arith)
      | inr d ↦
          let (m, x) = v.accounted k (ground (arith, s k)) (ground (arith, t k)) in
          (m, f m (λ c. ground (arith, ap l.held c, x, e)) ∙ x)
    ];
  }

not-ne : (b : Bool) → not b ≢ b
not-ne true e = ground (arith, e)
not-ne false e = ground (arith, e)

mark_keeps :
    (o : Option ℕ) (b c : Bool) (f : ℕ → Bool) (h : ℕ) → f h ≡ b → o ≢ some h → mark o c f h ≡ b
mark_keeps none b c f h e n = e
mark_keeps (some g) b c f h e n = elim (Bool-cases (g == h)) [
  | inl d ↦ absurd (n (ap some ((==_iff g h).0 d)))
  | inr d ↦ ground (arith, d, e)
]

-- What `mark` has not changed was so before, and is not the handle marked.
mark_kept :
    (o : Option ℕ) (b : Bool) (f : ℕ → Bool) (h : ℕ)
    → mark o (not b) f h ≡ b
    → (f h ≡ b) × (o ≢ some h)
mark_kept none b f h e = (e, λ c. ground (arith, c))
mark_kept (some g) b f h e = elim (Bool-cases (g == h)) [
  | inl d ↦ absurd (not-ne b (ground (arith, d, e)))
  | inr d ↦ (ground (arith, d, e), λ c. ground (arith, some-inj c, d))
]

origin-ne : (i j k : ℕ) → i ≢ j → (if k == j then i else k) ≢ j
origin-ne i j k n e = ground arith

origin-inj :
    (i j k m : ℕ) → k ≢ i → m ≢ i → (if k == j then i else k) ≡ (if m == j then i else m) → k ≡ m
origin-inj i j k m a b e = ground arith

module _ (l l' : Ledger) (v : Inv l) (i j : ℕ) (n : i ≢ j) (q : l'.held j ≡ l.held i)
    (e : l'.held i ≡ none) (f : (k : ℕ) → k ≢ i → k ≢ j → l'.held k ≡ l.held k)
    (s : (k : ℕ) → l'.is_open k ≡ l.is_open k)
    (t : (k : ℕ) → l'.leaked k ≡ mark (l.held j) true l.leaked k) where
  -- Whose handle it was.
  pass_origin :
      (k h : ℕ) → l'.held k ≡ some h → (k ≢ i) × (l.held (if k == j then i else k) ≡ some h)
  pass_origin k h p = elim (Bool-cases (k == j)) [
    | inl d ↦ (λ c. ground arith, ground (arith, ap l'.held ((==_iff k j).0 d), q))
    | inr d ↦
        let k_ne : k ≢ i = λ c. ground (arith, ap l'.held c, e, p) in
        (k_ne, rw (d) (sym (f k k_ne (λ c. ground arith)) ∙ p))
  ]

  passes-Inv : Inv l'
  passes-Inv = record {
    live = λ k h p.
        let (_, o) = pass_origin k h p in
        let (a, b) = v.live _ h o in
        (
          s h ∙ a,
          t h
              ∙ mark_keeps (l.held j) false true l.leaked h b
                  (λ c. origin-ne i j k n (v.unique _ j h o c)),
        );
    unique = λ k m h p r.
        let (a, o) = pass_origin k h p in
        let (b, o') = pass_origin m h r in origin-inj i j k m a b (v.unique _ _ h o o');
    accounted = λ h p r.
        let (a, b) = mark_kept (l.held j) false l.leaked h (sym (t h) ∙ r) in
        let (m, x) = v.accounted h (sym (s h) ∙ p) a in
        elim (Bool-cases (m == i)) [
          | inl d ↦ (j, q ∙ ap l.held (sym ((==_iff m i).0 d)) ∙ x)
          | inr d ↦ (m, f m (λ c. ground arith) (λ c. b (ap l.held (sym c) ∙ x)) ∙ x)
        ];
  }

module _ (l l' : Ledger) (v : Inv l) (i : ℕ) (e : l'.held i ≡ none)
    (f : (k : ℕ) → k ≢ i → l'.held k ≡ l.held k)
    (s : (k : ℕ) → l'.is_open k ≡ mark (l.held i) false l.is_open k)
    (t : (k : ℕ) → l'.leaked k ≡ l.leaked k) where
  drop_kept : (k h : ℕ) → l'.held k ≡ some h → (k ≢ i) × (l.held k ≡ some h)
  drop_kept k h p =
      let k_ne : k ≢ i = λ c. ground (arith, ap l'.held c, p, e) in (k_ne, sym (f k k_ne) ∙ p)

  drops-Inv : Inv l'
  drops-Inv = record {
    live = λ k h p.
        let (k_ne, o) = drop_kept k h p in
        let (a, b) = v.live k h o in
        (
          s h ∙ mark_keeps (l.held i) true false l.is_open h a (λ c. k_ne (v.unique k i h o c)),
          t h ∙ b,
        );
    unique = λ k m h p r. v.unique k m h (drop_kept k h p).1 (drop_kept m h r).1;
    accounted = λ h p r.
        let (a, b) = mark_kept (l.held i) true l.is_open h (sym (s h) ∙ p) in
        let (m, x) = v.accounted h a (sym (t h) ∙ r) in
        (m, f m (λ c. b (ap l.held (sym c) ∙ x)) ∙ x);
  }

pub Move-Inv : {l l' : Ledger} → Move l l' → Inv l → Inv l'
Move-Inv {l} {l'} (gains i h a b c d e f g) v = gains-Inv l l' v i h a b c d e f g
Move-Inv {l} {l'} (passes i j n q e f s t) v = passes-Inv l l' v i j n q e f s t
Move-Inv {l} {l'} (drops i e f s t) v = drops-Inv l l' v i e f s t
