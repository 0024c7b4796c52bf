-- ===== src/Context/Wakeup.antt =====
-- core/coro_context.cpp: the loop sleeps neither through a timer nor through a task.
use mathlib.Core.List.{Mem}
use magio.Prelude.{
  ℕ, ◌+◌, ◌≤◌, ◌<◌, ◌≡◌, ◌≢◌, refl, ◌∙◌, ◌⊎◌, inl, Bool, true, false, List, [], ◌∷◌, arith,
}
use magio.PriorityQueue.{PriorityQueue}
use magio.Timer.{Pointer, deadline}
use magio.Timer.Sleep.{next_duration_safe}
use magio.Context.{
  Task, stopping, Context, enqueue, wake_up, execute, dispatch, wake_in_context, resume,
}
use magio.Context.Loop.{
  Action, check, polling, Loop, act, run, enter, polled, timeout, take_expired, Step, foreign_push,
  foreign_wake, iterate, finish, call, expire, fire, prepare, poll, Reach, start, later,
}
use magio.Context.Order.{act-phase}

module _ {pq : PriorityQueue Pointer deadline} where
  -- The timeout given to `poll` ends by the deadline of every timer, is 0 once a deadline has
  -- passed, and is 0 when a task is pending or the context has been stopped.
  pub timeout_safe :
      (now : ℕ) (c : Context pq)
      → ((x : Pointer)
          → Mem x (pq.items c.timers.timers)
          → (now ≤ x.dead_line → now + timeout pq now c ≤ x.dead_line)
            × (x.dead_line < now → timeout pq now c ≡ 0))
        × ((c.pending ≢ []) ⊎ (c.state ≡ stopping) → timeout pq now c ≡ 0)
  unfolding timeout
  timeout_safe now c =
      (λ x m. ground (arith, next_duration_safe pq now c.timers x m), λ h. ground arith)

  run-phase : (l : Loop pq) (acts : List Action) → (run pq l acts).phase ≡ l.phase
  unfolding run
  run-phase l [] = refl
  run-phase l (a ∷ rest) = run-phase (act pq l a) rest ∙ act-phase l a

  polled-phase :
      (l : Loop pq) (failed : Bool) (acts : List Action) → (polled pq l failed acts).phase ≡ check
  unfolding polled
  polled-phase l true acts = run-phase _ acts
  polled-phase l false acts = run-phase _ acts

  -- In `poll` with a positive timeout and a task pending, a signal is there or about to be sent.
  abbrev Awake : Loop pq → Type 0
  Awake l =
      (d : ℕ)
      → l.phase ≡ polling d
      → 0 < d
      → l.context.pending ≢ []
      → 0 < l.context.signals + l.unsent

  module _ {body : Task → List Action} {timer_body : ℕ → List Action} where
    Step-Awake : {l m : Loop pq} → Step pq body timer_body l m → Awake l → Awake m
    unfolding enqueue wake_up enter take_expired
    Step-Awake (foreign_push t) v d p h n = omega arith
    Step-Awake (foreign_wake k u) v d p h n = omega arith
    Step-Awake (iterate q r) v d p h n = cc
    Step-Awake (finish q r) v d p h n = cc
    Step-Awake (call t ts q) v d p h n = cc (run-phase _ (body t))
    Step-Awake (expire now q) v d p h n = cc
    Step-Awake (fire t ts q) v d p h n = cc (run-phase _ (timer_body t))
    Step-Awake {l} (prepare now q) v d p h n =
        ground (arith, (timeout_safe now l.context).1 (inl n))
    Step-Awake {l} (poll e failed acts q) v d p h n = cc (polled-phase l failed acts)

    Reach-Awake : {c : Context pq} {l : Loop pq} → Reach pq body timer_body c l → Awake l
    Reach-Awake (start c' e) d p h n = cc
    Reach-Awake (later r st) d p h n = Step-Awake st (λ k q i m. Reach-Awake r k q i m) d p h n

    -- A task queued by another thread is never slept through: whenever the loop is in `poll` with a
    -- positive timeout and a task is pending, `wake_up` has been called and not yet consumed, or the
    -- thread that queued the task is about to call it.
    pub no_lost_wakeup :
        {c : Context pq} {l : Loop pq} (r : Reach pq body timer_body c l)
        → (d : ℕ) → l.phase ≡ polling d
        → 0 < d
        → l.context.pending ≢ []
        → 0 < l.context.signals + l.unsent
    no_lost_wakeup r d p h n = Reach-Awake r d p h n

-- `wake_in_context` is `dispatch` of the task that resumes the coroutine, in every thread.
wake_in_context-dispatch :
    (pq : PriorityQueue Pointer deadline) (c : Context pq) (current h : ℕ)
    → wake_in_context pq c current h ≡ dispatch pq c current (resume h)
unfolding wake_in_context dispatch
wake_in_context-dispatch pq c current h = ground arith

-- In another thread `execute` is the push and the signal, the two steps that the loop may see apart.
execute_elsewhere :
    (pq : PriorityQueue Pointer deadline) (c : Context pq) (current : ℕ) (t : Task)
    → current ≢ c.thread_id
    → execute pq c current t ≡ wake_up pq (enqueue pq c t)
unfolding execute
execute_elsewhere pq c current t h = ground arith
