-- ===== src/ContextPool/Built.antt =====
-- core/coro_context_pool.cpp: the contexts when the constructor of the pool returns.
use magio.Prelude.{
  ℕ, zero, suc, ◌+◌, ◌-◌, ◌^◌, ◌<◌, ◌≤◌, ◌≡◌, ◌≢◌, refl, ap, sym, ◌∙◌, false, some, ◌==◌, arith,
  if-All, some-inj, subst, Bool-cases, inl, inr, ==_iff,
}
use magio.ContextPool.Turns.{turn, calls_before, calls_before-lt, turn-calls_before}
use magio.ContextPool.{
  WaitGroup, done, is_stopping, CoroContextPool, construct, initial, start_all, next_context,
  begin_destroy, Phase, building, waiting, working, exited, constructing, System, set_thread, Step,
  builds, built, begins, starts, picks, destroys, exits, Reach, here, later,
}

abbrev is_building : Phase → ℕ
is_building building = 1
is_building _ = 0

-- How many of the threads 1 to `n` are still building.
abbrev left_to_build : (ℕ → Phase) → ℕ → ℕ
left_to_build f zero = 0
left_to_build f (suc n) = is_building (f (suc n)) + left_to_build f n

left_all : (n : ℕ) → left_to_build (λ i. building) n ≡ n
left_all zero = refl
left_all (suc n) = omega (arith, left_all n)

-- Another phase of a thread out of range changes nothing; of a thread in range, by the difference.
left_outside :
    (f : ℕ → Phase) (i n : ℕ) (p : Phase)
    → n < i
    → left_to_build (set_thread f i p) n ≡ left_to_build f n
left_outside f i zero p h = refl
left_outside f i (suc n) p h = ground (arith, left_outside f i n p (omega (arith, h)))

left_moves :
    (f : ℕ → Phase) (i n : ℕ) (p : Phase)
    → 0 < i
    → i ≤ n
    → left_to_build (set_thread f i p) n + is_building (f i) ≡ left_to_build f n + is_building p
left_moves f i zero p z h = absurd (omega (arith, z, h))
left_moves f i (suc n) p z h = elim (Bool-cases (i == suc n)) [
  | inl e ↦ rw (e) (
      omega (
        arith,
        left_outside f i n p (omega (arith, (==_iff i (suc n)).0 e)),
        ap (λ j. is_building (f j)) ((==_iff i (suc n)).0 e),
      ))
  | inr e ↦ rw (e) (omega (arith, left_moves f i n p z (ground (arith, h, e))))
]

left_none : (f : ℕ → Phase) (i n : ℕ) → left_to_build f n ≡ 0 → 0 < i → i ≤ n → f i ≢ building
left_none f i zero e z h q = absurd (omega (arith, z, h))
left_none f i (suc n) e z h q = elim (Bool-cases (i == suc n)) [
  | inl d ↦ omega (arith, e, ap (λ j. is_building (f j)) ((==_iff i (suc n)).0 d), ap is_building q)
  | inr d ↦ left_none f i n (omega (arith, e)) z (ground arith) q
]

-- The threads are 1 to `contexts - 1`; the group counts those that are still building.
record Inv (s : System) : Type 0 where
  some_context : 0 < s.pool.contexts
  counted : s.pool.build_ctx_wg.wait_num ≡ left_to_build s.thread (s.pool.contexts - 1)
  passed : s.owner ≢ constructing → s.pool.build_ctx_wg.wait_num ≡ 0
  in_range : s.pool.next_idx < s.pool.contexts

nonzero : (n : ℕ) → (n == 0) ≡ false → 0 < n
nonzero n h = ground (arith, h)

done_lem : (w : WaitGroup) → (done w).0.wait_num ≡ w.wait_num - 1
unfolding done
done_lem w = elim (Bool-cases (w.wait_num == 0)) [
  | inl e ↦ rw (e) (ground (arith, e))
  | inr e ↦ rw (e) refl
]

-- A phase that counts as the one before it.
left_same :
    (f : ℕ → Phase) (i : ℕ) (p : Phase) (n : ℕ)
    → is_building p ≡ is_building (f i)
    → left_to_build (set_thread f i p) n ≡ left_to_build f n
left_same f i p zero h = refl
left_same f i p (suc n) h = elim (Bool-cases (i == suc n)) [
  | inl e ↦
      rw (e) (
        omega (arith, h, left_same f i p n h, ap (λ j. is_building (f j)) ((==_iff i (suc n)).0 e)))
  | inr e ↦ rw (e) (omega (arith, left_same f i p n h))
]

moved-Inv :
    (s : System) (i : ℕ) (p : Phase)
    → is_building p ≡ is_building (s.thread i)
    → Inv s
    → Inv (record s { thread = set_thread s.thread i p })
moved-Inv s i p h v = record {
  some_context = v.some_context;
  counted = v.counted ∙ sym (left_same s.thread i p (s.pool.contexts - 1) h);
  passed = v.passed;
  in_range = v.in_range;
}

here-Inv :
    (num : ℕ) (p : CoroContextPool)
    → construct num ≡ some p
    → num < 2 ^ 64
    → Inv (record { pool = p; thread = λ i. building; owner = constructing })
unfolding construct
here-Inv num p e h = elim (Bool-cases (num == 0)) [
  | inl z ↦ absurd (ground (arith, z, e))
  | inr z ↦
      subst (λ q. Inv (record { pool = q; thread = λ i. building; owner = constructing }))
        {x = initial num} (some-inj (rw (z, construct) refl ∙ e))
        (record {
          some_context = ground (arith, z);
          counted = omega (arith, left_all (num - 1), h, nonzero num z);
          passed = λ c. absurd (c refl);
          in_range = ground (arith, z);
        })
]

Step-Inv : {s t : System} → Step s t → Inv s → Inv t
unfolding start_all next_context begin_destroy done
Step-Inv {s} (builds i z h e) v =
    let m = left_moves s.thread i (s.pool.contexts - 1) waiting z (omega (arith, h)) in
    let d = done_lem s.pool.build_ctx_wg in
    record {
      some_context = v.some_context;
      counted = omega (arith, d, v.counted, m, ap is_building e);
      passed = λ c. omega (arith, d, v.passed c);
      in_range = v.in_range;
    }
Step-Inv {s} (built e m) v = record {
  some_context = v.some_context;
  counted = v.counted;
  passed = λ c. ground (arith, m);
  in_range = v.in_range;
}
Step-Inv {s} (begins i e m) v = moved-Inv s i working (sym (ap is_building e)) v
Step-Inv {s} (starts p e m) v =
    if-All (λ q. Inv (record s { pool = q })) (is_stopping s.pool.state) _ _
      (λ q r.
        subst (λ q'. Inv (record s { pool = q' })) (some-inj r)
          (record {
            some_context = v.some_context;
            counted = v.counted;
            passed = v.passed;
            in_range = v.in_range;
          }))
      (λ q r. absurd (ground (arith, r))) p m
Step-Inv {s} (picks e) v = record {
  some_context = v.some_context;
  counted = v.counted;
  passed = v.passed;
  in_range = omega (arith, v.some_context);
}
Step-Inv {s} (destroys e) v = record {
  some_context = v.some_context;
  counted = v.counted;
  passed = λ c. v.passed (λ d. ground (arith, e, d));
  in_range = v.in_range;
}
Step-Inv {s} (exits i e) v = moved-Inv s i exited (sym (ap is_building e)) v

Reach-Inv : {s : System} → Reach s → Inv s
Reach-Inv (here num p e h) = here-Inv num p e h
Reach-Inv (later r st) = Step-Inv st (Reach-Inv r)

-- Once the constructor has returned, each thread of the pool has built its context, and next_context
-- hands out each context of the pool in turn, within as many calls as there are contexts.
pub contexts_built :
    {s : System} (r : Reach s) (i c : ℕ)
    → s.owner ≢ constructing
    → 0 < i
    → i < s.pool.contexts
    → c < s.pool.contexts
    → (s.thread i ≢ building) × ((j : ℕ) × (j < s.pool.contexts) × (turn j s.pool ≡ c))
contexts_built {s} r i c o z h k =
    let v = Reach-Inv r in
    (
      left_none s.thread i (s.pool.contexts - 1) (sym v.counted ∙ v.passed o) z (omega (arith, h)),
      (
        calls_before c s.pool,
        calls_before-lt c s.pool k v.in_range,
        turn-calls_before c s.pool k v.in_range,
      ),
    )
