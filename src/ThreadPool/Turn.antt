-- ===== src/ThreadPool/Turn.antt =====
-- core/thread_pool.cpp: the critical section of `run_in_background`, case by case.
use magio.Prelude.{
  ℕ, ◌≡◌, ◌≢◌, inl, inr, sym, subst, Bool, false, List, [], ◌∷◌, arith, List-cases, Bool-cases,
}
use magio.ThreadPool.{
  running, pending_destroy, is_running, is_destroyed, ThreadPool, Outcome, sleeps, exits, takes,
  run_once,
}

-- The four ways through the section; `front` of an empty deque is none of them.
pub data Turn (p : ThreadPool) : Outcome × ThreadPool × Bool → Type 0 where
  leaves :
      p.tasks ≡ []
      → p.state ≡ pending_destroy
      → Turn p (exits, record p { wait_flag = false }, p.wait_flag)
  idles :
      p.tasks ≡ []
      → p.state ≢ pending_destroy
      → Turn p (sleeps, record p { wait_flag = false }, p.wait_flag)
  serves :
      (t : ℕ) (ts : List ℕ)
      → p.tasks ≡ t ∷ ts
      → p.state ≡ running
      → Turn p (takes t, record p { tasks = ts }, false)
  holds_back : p.tasks ≢ [] → p.state ≢ running → Turn p (sleeps, p, false)

-- A worker that holds the lock exits when the pool is being destroyed and the queue is empty, takes
-- the first task when the pool is running and there is one, and otherwise goes back to sleep; with
-- an empty queue it clears the flag of `wait` and passes the notification on.
pub run_once-Turn : (p : ThreadPool) → Turn p (run_once p)
unfolding run_once
run_once-Turn p = elim (List-cases p.tasks) [
  | inl e ↦ elim (Bool-cases (is_destroyed p.state)) [
    | inl d ↦
        let eq : run_once p ≡ (exits, record p { wait_flag = false }, p.wait_flag) = ground arith in
        subst (Turn p) (sym eq) (leaves e (ground arith))
    | inr d ↦
        let eq : run_once p ≡ (sleeps, record p { wait_flag = false }, p.wait_flag) =
          ground arith in
        subst (Turn p) (sym eq) (idles e (ground arith))
  ]
  | inr (t, ts, e) ↦ elim (Bool-cases (is_running p.state)) [
    | inl d ↦
        let eq : run_once p ≡ (takes t, record p { tasks = ts }, false) = ground arith in
        subst (Turn p) (sym eq) (serves t ts e (ground arith))
    | inr d ↦
        let eq : run_once p ≡ (sleeps, p, false) = ground arith in
        subst (Turn p) (sym eq) (holds_back (ground arith) (ground arith))
  ]
]
