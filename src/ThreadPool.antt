-- ===== src/ThreadPool.antt =====
-- core/thread_pool.h and core/thread_pool.cpp: the state of ThreadPool and its critical sections.
-- A task is a number. What a section does to the condition variables is part of its result.
pub mod System
pub mod Turn
pub mod Invariant
pub mod Reachable
pub mod Safety
pub mod Hangs
pub mod Jobs
mod Tests
use magio.Prelude.{
  ℕ, Bool, true, false, not, Option, none, some, List, [], ◌∷◌, ◌++◌, ◌==◌, if◌then◌else◌,
}

pub data State : Type 0 where
  stopping running pending_destroy : State

abbrev pub is_running : State → Bool
is_running running = true
is_running _ = false

abbrev pub is_destroyed : State → Bool
is_destroyed pending_destroy = true
is_destroyed _ = false

abbrev pub is_empty : List ℕ → Bool
is_empty [] = true
is_empty (t ∷ ts) = false

pub record ThreadPool : Type 0 where
  pub state : State
  pub wait_flag : Bool
  pub tasks : List ℕ

-- `thread_num < 1` is fatal.
pub construct : ℕ → Option ThreadPool
construct thread_num =
    if thread_num == 0
    then none
    else some (record { state = stopping; wait_flag = false; tasks = [] })

pub start : ThreadPool → ThreadPool
start p = record p { state = running }

pub stop : ThreadPool → ThreadPool
stop p = record p { state = stopping }

pub execute : ThreadPool → ℕ → ThreadPool
execute p task = record p { tasks = p.tasks ++ task ∷ [] }

-- The part of `~ThreadPool` under the lock, after `wait()`.
pub destroy : ThreadPool → ThreadPool
destroy p = record p { state = pending_destroy }

-- The predicate of the wait on `wait_cv_`.
pub wait_done : ThreadPool → Bool
wait_done p = is_empty p.tasks

-- `wait` up to the first test of that predicate; the Boolean is whether the caller blocks.
pub wait : ThreadPool → ThreadPool × Bool
unfolding wait_done
wait p =
    if is_running p.state then (record p { wait_flag = true }, not (wait_done p)) else (p, false)

-- The predicate of a worker's wait on `cv_`: the state after it, its value, and whether it has
-- notified `wait_cv_`.
pub predicate : ThreadPool → ThreadPool × Bool × Bool
predicate p =
    if is_empty p.tasks
    then (record p { wait_flag = false }, is_destroyed p.state, p.wait_flag)
    else (p, is_running p.state, false)

-- What a worker does once it holds the lock.
pub data Outcome : Type 0 where
  sleeps : Outcome  -- the predicate is false: back to the wait
  exits : Outcome
  takes : ℕ → Outcome
  faults : Outcome  -- `front` of an empty deque

-- From the wait on `cv_` to the end of the critical section.
pub run_once : ThreadPool → Outcome × ThreadPool × Bool
unfolding predicate
run_once p =
    let (p', ready, notified) = predicate p in
    if ready
    then (if is_destroyed p'.state then (exits, p', notified) else elim p'.tasks [
      | [] ↦ (faults, p', notified)
      | t ∷ ts ↦ (takes t, record p' { tasks = ts }, notified)
    ])
    else (sleeps, p', notified)
