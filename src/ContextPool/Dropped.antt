-- ===== src/ContextPool/Dropped.antt =====
-- core/coro_context_pool.cpp: a pool that is destroyed before it is started.
use magio.Prelude.{ℕ, ◌≡◌, ◌≢◌, ap, Bool, true, false, ◌==◌, arith, Bool-cases, inl, inr, ==_iff}
use magio.ContextPool.{
  may_pass, begin_destroy, Phase, building, waiting, working, exited, joining, System, set_thread,
  Step, builds, built, begins, starts, picks, destroys, exits,
}

pub data Steps (s : System) : System → Type 0 where
  nothing : Steps s s
  step : {t u : System} → Steps s t → Step t u → Steps s u

abbrev is_idle : Phase → Bool
is_idle building = true
is_idle waiting = true
is_idle _ = false

abbrev Stuck : ℕ → System → Type 0
Stuck i s = (s.owner ≡ joining) × (may_pass s.pool.start_wg ≡ false) × (is_idle (s.thread i) ≡ true)

still_idle :
    (f : ℕ → Phase) (i j : ℕ) (p : Phase)
    → f j ≡ working
    → is_idle (f i) ≡ true
    → is_idle (set_thread f j p i) ≡ true
still_idle f i j p e k = elim (Bool-cases (j == i)) [
  | inl d ↦ absurd (ground (arith, ap is_idle e, k, ap (λ x. is_idle (f x)) ((==_iff j i).0 d)))
  | inr d ↦ rw (d) k
]

Step-Stuck : (i : ℕ) {s t : System} → Step s t → Stuck i s → Stuck i t
unfolding begin_destroy
Step-Stuck i (builds j z h e) k = (k.0, k.1, ground (arith, k.2))
Step-Stuck i (built e m) k = absurd (ground (arith, k.0, e))
Step-Stuck i (begins j e m) k = absurd (ground (arith, k.1, m))
Step-Stuck i (starts p e m) k = absurd (ground (arith, k.0, e))
Step-Stuck i (picks e) k = absurd (ground (arith, k.0, e))
Step-Stuck i (destroys e) k = absurd (ground (arith, k.0, e))
Step-Stuck i {s} (exits j e) k = (k.0, k.1, still_idle s.thread i j exited e k.2)

Steps-Stuck : (i : ℕ) {s t : System} → Steps s t → Stuck i s → Stuck i t
Steps-Stuck i nothing k = k
Steps-Stuck i (step r st) k = Step-Stuck i st (Steps-Stuck i r k)

-- In the destructor of a pool that was not started, a thread that has not begun never exits, whatever
-- happens next, so that `join` does not return.
unstarted_join_hangs :
    {s t : System} (i : ℕ) (r : Steps s t)
    → s.owner ≡ joining
    → may_pass s.pool.start_wg ≡ false
    → s.thread i ≡ waiting
    → t.thread i ≢ exited
unstarted_join_hangs i r o m w e =
    let k = Steps-Stuck i r (o, m, ap is_idle w) in ground (arith, k.2, ap is_idle e)
