-- ===== src/Context/Order.antt =====
-- core/coro_context.cpp: the order in which the loop runs the tasks that `execute` was given.
use mathlib.Core.List.{append_assoc, append-nil}
use magio.Prelude.{ℕ, ◌≡◌, refl, ap, sym, ◌∙◌, Bool, true, false, some, List, [], ◌∷◌, ◌++◌, arith}
use magio.PriorityQueue.{PriorityQueue}
use magio.Timer.{Pointer, deadline}
use magio.Context.{Task, Context, enqueue, wake_up, execute, begin, expires_until}
use magio.Context.Loop.{
  Action, executes, expires, cancels, stops, Phase, handling, Loop, act, run, enter, polled,
  take_expired, Step, foreign_push, foreign_wake, iterate, finish, call, expire, fire, prepare,
  poll, Reach, start, later,
}

-- The tasks that the loop has taken and not yet called.
abbrev pub in_hand : Phase → List Task
in_hand (handling ts) = ts
in_hand _ = []

append_end :
    (xs ys zs first queued : List Task) (t : Task)
    → xs ++ (ys ++ zs) ≡ first ++ queued
    → xs ++ (ys ++ (zs ++ t ∷ [])) ≡ first ++ (queued ++ t ∷ [])
append_end xs ys zs first queued t e =
    ap (λ l. xs ++ l) (sym (append_assoc ys zs (t ∷ [])))
    ∙ sym (append_assoc xs (ys ++ zs) (t ∷ []))
    ∙ ap (λ l. l ++ t ∷ []) e
    ∙ append_assoc first queued (t ∷ [])

module _ {pq : PriorityQueue Pointer deadline} where
  -- `first` was pending when the loop began.
  abbrev pub InOrder : List Task → Loop pq → Type 0
  InOrder first l = l.called ++ (in_hand l.phase ++ l.context.pending) ≡ first ++ l.queued

  pending-execute :
      (c : Context pq) (i : ℕ) (t : Task) → (execute pq c i t).pending ≡ c.pending ++ t ∷ []
  unfolding execute
  pending-execute c i t = ground arith

  -- An action changes neither the phase nor what was called.
  pub act-phase : (l : Loop pq) (a : Action) → (act pq l a).phase ≡ l.phase
  unfolding act
  act-phase l (executes t) = refl
  act-phase l (expires tp t) = refl
  act-phase l (cancels a) = refl
  act-phase l stops = refl

  act-InOrder :
      (first : List Task) (l : Loop pq) (a : Action) → InOrder first l → InOrder first (act pq l a)
  unfolding act expires_until
  act-InOrder first l (executes t) e =
      rw (pending-execute l.context l.context.thread_id t)
        (append_end l.called (in_hand l.phase) l.context.pending first l.queued t e)
  act-InOrder first l (expires tp t) e = e
  act-InOrder first l (cancels a) e = e
  act-InOrder first l stops e = e

  run-InOrder :
      (first : List Task) (l : Loop pq) (acts : List Action)
      → InOrder first l
      → InOrder first (run pq l acts)
  unfolding run
  run-InOrder first l [] e = e
  run-InOrder first l (a ∷ rest) e = run-InOrder first (act pq l a) rest (act-InOrder first l a e)

  begin-pending : (c c' : Context pq) (i : ℕ) → begin pq c i ≡ some c' → c'.pending ≡ c.pending
  unfolding begin
  begin-pending c c' i e = ground arith

  polled-InOrder :
      (first : List Task) (l : Loop pq) (failed : Bool) (acts : List Action)
      → l.called ++ l.context.pending ≡ first ++ l.queued
      → InOrder first (polled pq l failed acts)
  unfolding polled
  polled-InOrder first l true acts e = run-InOrder first _ acts e
  polled-InOrder first l false acts e = run-InOrder first _ acts e

  module _ {body : Task → List Action} {timer_body : ℕ → List Action} where
    Step-InOrder :
        (first : List Task) {l m : Loop pq}
        → Step pq body timer_body l m
        → InOrder first l
        → InOrder first m
    unfolding enqueue wake_up enter polled take_expired
    Step-InOrder first {l} (foreign_push t) e =
        append_end l.called (in_hand l.phase) l.context.pending first l.queued t e
    Step-InOrder first (foreign_wake n p) e = e
    Step-InOrder first {l} (iterate p q) e = rw (append-nil l.context.pending) (rw p at e)
    Step-InOrder first (finish p q) e = rw p at e
    Step-InOrder first {l} (call t ts p) e =
        run-InOrder first _ (body t)
          (append_assoc l.called (t ∷ []) (ts ++ l.context.pending) ∙ (rw p at e))
    Step-InOrder first (expire now p) e = rw p at e
    Step-InOrder first (fire t ts p) e = run-InOrder first _ (timer_body t) (rw p at e)
    Step-InOrder first (prepare now p) e = rw p at e
    Step-InOrder first {l} (poll d failed acts p) e = polled-InOrder first l failed acts (rw p at e)

    Reach-InOrder :
        {c : Context pq} {l : Loop pq} → Reach pq body timer_body c l → InOrder c.pending l
    Reach-InOrder {c} (start c' e) = begin-pending c c' c.thread_id e ∙ sym (append-nil c.pending)
    Reach-InOrder {c} (later r st) = Step-InOrder c.pending st (Reach-InOrder r)

    -- Whatever the tasks, the timers, the callbacks and other threads do: the tasks that were
    -- pending when `start` was called, followed by those passed to `execute` since, are the tasks
    -- called so far, then those that the loop has taken, then those pending. So they run in the
    -- order of their submission, each once, and none is lost.
    pub tasks_in_order :
        {c : Context pq} {l : Loop pq} (r : Reach pq body timer_body c l)
        → l.called ++ (in_hand l.phase ++ l.context.pending) ≡ c.pending ++ l.queued
    tasks_in_order r = Reach-InOrder r
