-- ===== src/ThreadPool/Safety.antt =====
-- core/thread_pool.cpp: order of the tasks, and wake-ups of the workers.
use magio.Prelude.{ℕ, ◌+◌, ◌<◌, ◌≡◌, ◌≢◌, ◌⊎◌, true, [], ◌++◌, arith}
use magio.ThreadPool.{running}
use magio.ThreadPool.System.{broken, System, init, Reach}
use magio.ThreadPool.Invariant.{awake}
use magio.ThreadPool.Reachable.{Reach-Inv}

-- With at least one thread, in every reachable state the tasks passed to `execute` are those that a
-- worker has begun, in order, followed by those in the queue: each task is begun once, none is
-- lost. No worker takes the front of an empty queue.
tasks_begin_in_order :
    {n : ℕ} {s : System} (w : 0 < n) (r : Reach n init s)
    → (s.submitted ≡ s.begun ++ s.pool.tasks) × ((i : ℕ) → s.worker i ≢ broken)
tasks_begin_in_order w r =
    ((Reach-Inv w r).in_order, λ i e. ground (arith, (Reach-Inv w r).sound i))

-- With at least one thread, while the pool is running and has a task in its queue, some worker will
-- take the lock by itself or a notification is on its way.
pub no_idle_pool :
    {n : ℕ} {s : System} (w : 0 < n) (r : Reach n init s)
    → s.pool.state ≡ running
    → s.pool.tasks ≢ []
    → ((i : ℕ) × (awake (s.worker i) ≡ true)) ⊎ (0 < s.unsent + s.broadcasts)
no_idle_pool w r e h = (Reach-Inv w r).served e h
