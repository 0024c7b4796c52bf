-- ===== src/Context.antt =====
-- core/coro_context.h and core/coro_context.cpp: the operations of CoroContext. The identifier of
-- the calling thread is an argument; a call of `M_FATAL`, which ends the process, is `none`.
pub mod Loop
pub mod Order
pub mod Wakeup
pub mod Waits
mod Tests
use magio.Prelude.{
  ℕ, zero, suc, ◌+◌, Bool, true, false, not, Option, none, some, List, [], ◌∷◌, ◌++◌, ◌==◌,
  if◌then◌else◌,
}
use magio.PriorityQueue.{PriorityQueue}
use magio.Timer.{Pointer, deadline, TimerQueue}
use magio.Timer

-- What `pending_handles_` holds: `h.resume()`, or a closure of the user's.
pub data Task : Type 0 where
  resume : ℕ → Task
  closure : ℕ → Task

pub data State : Type 0 where
  running stopping : State

abbrev pub is_stopping : State → Bool
is_stopping running = false
is_stopping stopping = true

module _ (pq : PriorityQueue Pointer deadline) where
  -- `signals` counts the calls of `io_service_->wake_up()` that no `poll` has consumed.
  pub record Context : Type 0 where
    pub state : State
    pub thread_id : ℕ
    pub pending : List Task
    pub timers : TimerQueue pq
    pub signals : ℕ

  -- `local_context` is the thread's context, if it has one.
  pub construct : Option ℕ → ℕ → ℕ → Option Context
  construct (some other) thread entries = none
  construct none thread entries =
      if entries == 0
      then none
      else some (record {
        state = stopping;
        thread_id = thread;
        pending = [];
        timers = Timer.empty_queue pq;
        signals = 0;
      })

  assert_in_context_thread : Context → ℕ → Bool
  assert_in_context_thread c current = c.thread_id == current

  pub wake_up : Context → Context
  wake_up c = record c { signals = suc c.signals }

  -- The part of `execute` under `mutex_`.
  pub enqueue : Context → Task → Context
  enqueue c task = record c { pending = c.pending ++ task ∷ [] }

  pub execute : Context → ℕ → Task → Context
  unfolding assert_in_context_thread enqueue wake_up
  execute c current task =
      let c' = enqueue c task in if not (assert_in_context_thread c current) then wake_up c' else c'

  -- The second part is the task that is called at once.
  pub dispatch : Context → ℕ → Task → Context × Option Task
  unfolding assert_in_context_thread execute
  dispatch c current task =
      if assert_in_context_thread c current then (c, some task) else (execute c current task, none)

  pub queue_in_context : Context → ℕ → ℕ → Context
  unfolding execute
  queue_in_context c current h = execute c current (resume h)

  pub wake_in_context : Context → ℕ → ℕ → Context × Option Task
  unfolding assert_in_context_thread queue_in_context
  wake_in_context c current h =
      if assert_in_context_thread c current
      then (c, some (resume h))
      else (queue_in_context c current h, none)

  pub expires_until : Context → ℕ → ℕ → Context × ℕ
  expires_until c tp task =
      let (q, handle) = Timer.push pq c.timers tp task in (record c { timers = q }, handle)

  expires_after : Context → ℕ → ℕ → ℕ → Context × ℕ
  expires_after c now dur task =
      let (q, handle) = Timer.push pq c.timers (now + dur) task in (record c { timers = q }, handle)

  pub stop : Context → ℕ → Option Context
  unfolding assert_in_context_thread
  stop c current =
      if not (assert_in_context_thread c current)
      then none
      else some (record c { state = stopping })

  -- The checks at the head of `start`.
  pub begin : Context → ℕ → Option Context
  unfolding assert_in_context_thread
  begin c current =
      if not (assert_in_context_thread c current)
      then none
      else if not (is_stopping c.state)
      then none
      else some (record c { state = running })
