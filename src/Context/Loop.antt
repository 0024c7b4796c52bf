-- ===== src/Context/Loop.antt =====
-- core/coro_context.cpp: the loop of `start`, a step at a time, while other threads call `execute`.
use magio.Prelude.{
  ℕ, suc, ◌≡◌, Bool, true, false, some, List, [], ◌∷◌, ◌++◌, ◌||◌, not, if◌then◌else◌,
}
use magio.PriorityQueue.{PriorityQueue}
use magio.Timer.{Pointer, deadline, get_expired, next_duration, cancel}
use magio.Context.{
  Task, running, stopping, is_stopping, Context, enqueue, wake_up, execute, expires_until, begin,
}

-- What a task, a timer's task or the callback of a completion does to its own context.
pub data Action : Type 0 where
  executes : Task → Action
  expires : ℕ → ℕ → Action
  cancels : ℕ → Action
  stops : Action

-- Where the loop stands.
pub data Phase : Type 0 where
  check : Phase  -- before `state_ != Stopping`
  handling : List Task → Phase  -- in the loop over `handles`
  firing : List ℕ → Phase  -- in the loop over `timer_tasks`
  polling : ℕ → Phase  -- in `poll`, with that timeout
  returned : Phase

abbrev pub is_empty {ℓ} : {A : Type ℓ} → List A → Bool
is_empty [] = true
is_empty (x ∷ xs) = false

module _ (pq : PriorityQueue Pointer deadline) where
  -- `queued` and `called` record every task that was passed to `execute` and every one that ran;
  -- `unsent` counts the threads between the push of `execute` and its `wake_up`.
  pub record Loop : Type 0 where
    pub context : Context pq
    pub phase : Phase
    pub queued : List Task
    pub called : List Task
    pub unsent : ℕ

  unfoldable pub act : Loop → Action → Loop
  act l (executes t) = record l {
    context = execute pq l.context l.context.thread_id t;
    queued = l.queued ++ t ∷ [];
  }
  act l (expires tp task) = record l { context = (expires_until pq l.context tp task).0 }
  act l (cancels a) =
      let c = l.context in record l { context = record c { timers = (cancel pq c.timers a).0 } }
  act l stops = let c = l.context in record l { context = record c { state = stopping } }

  unfoldable pub run : Loop → List Action → Loop
  run l [] = l
  run l (a ∷ rest) = run (act l a) rest

  -- The swap under `mutex_`.
  unfoldable pub enter : Loop → Loop
  enter l =
      let c = l.context in
      record l { phase = handling c.pending; context = record c { pending = [] } }

  unfoldable pub take_expired : ℕ → Loop → Loop
  take_expired now l =
      let (ts, q) = get_expired pq now l.context.timers [] in
      let c = l.context in record l { phase = firing ts; context = record c { timers = q } }

  -- The second critical section: `now` is the reading of the clock in `next_duration`.
  unfoldable pub timeout : ℕ → Context pq → ℕ
  timeout now c =
      if not (is_empty c.pending) || is_stopping c.state then 0 else next_duration pq now c.timers

  -- `poll` has returned after the callbacks did `acts`; -1 stops the context.
  unfoldable pub polled : Loop → Bool → List Action → Loop
  unfolding run act
  polled l failed acts =
      let c = l.context in
      let l' = run (record l { context = record c { signals = 0 }; phase = check }) acts in
      if failed then act l' stops else l'

  module _ (body : Task → List Action) (timer_body : ℕ → List Action) where
    pub data Step (l : Loop) : Loop → Type 0 where
      -- `execute` in another thread, at any time
      foreign_push :
          (t : Task)
          → Step l (record l {
            context = enqueue pq l.context t;
            queued = l.queued ++ t ∷ [];
            unsent = suc l.unsent;
          })
      foreign_wake :
          (n : ℕ)
          → l.unsent ≡ suc n
          → Step l (record l { context = wake_up pq l.context; unsent = n })
      iterate : l.phase ≡ check → l.context.state ≡ running → Step l (enter l)
      finish : l.phase ≡ check → l.context.state ≡ stopping → Step l (record l { phase = returned })
      call :
          (t : Task) (ts : List Task)
          → l.phase ≡ handling (t ∷ ts)
          → Step l (run (record l { phase = handling ts; called = l.called ++ t ∷ [] }) (body t))
      expire : (now : ℕ) → l.phase ≡ handling [] → Step l (take_expired now l)
      fire :
          (t : ℕ) (ts : List ℕ)
          → l.phase ≡ firing (t ∷ ts)
          → Step l (run (record l { phase = firing ts }) (timer_body t))
      prepare :
          (now : ℕ)
          → l.phase ≡ firing []
          → Step l (record l { phase = polling (timeout now l.context) })
      poll :
          (d : ℕ) (failed : Bool) (acts : List Action)
          → l.phase ≡ polling d
          → Step l (polled l failed acts)

    -- From a call of `start` in the context's own thread.
    pub data Reach (c : Context pq) : Loop → Type 0 where
      start :
          (c' : Context pq)
          → begin pq c c.thread_id ≡ some c'
          → Reach c (record { context = c'; phase = check; queued = []; called = []; unsent = 0 })
      later : {l m : Loop} → Reach c l → Step l m → Reach c m
