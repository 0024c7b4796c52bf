-- ===== src/ThreadPool/Tests.antt =====
-- A pool of one thread, run into the states that the theorems speak of.
use magio.Prelude.{ℕ, ◌+◌, ◌*◌, ◌<◌, ◌≡◌, ◌≢◌, ◌⊎◌, refl, true, [], ◌∷◌, ◌++◌, arith}
use magio.ThreadPool.{
  stopping, running, pending_destroy, start, stop, execute, destroy, wait, wait_done, run_once,
}
use magio.ThreadPool.System.{
  Worker, exited, waiting, System, Step, submit, starts, stops, waits, wait_blocks, destroys,
  evaluate, finish, init, Reach, here, later,
}
use magio.ThreadPool.Invariant.{awake}
use magio.ThreadPool.Safety.{no_idle_pool}
use magio.ThreadPool.Jobs.{
  Job, async, OwedInTurn, calls, call_of, count, running_in, finished, posted,
}
use magio.ThreadPool.Jobs.Balance.{jobs_accounted}
use magio.ThreadPool.Hangs.{Steps, nothing, step, wait_lost, destroy_hangs}

record Run : Type 0 where
  last : System
  reach : Reach 1 init last

not_destroyed_yet : stopping ≢ pending_destroy
not_destroyed_yet e = ground arith

not_destroyed_running : running ≢ pending_destroy
not_destroyed_running e = ground arith

-- Started, with the tasks 7 and 8; the worker has begun 7.
abbrev loaded : Run
unfolding start execute run_once
loaded = record {
  last = _;
  reach =
      later (later (later (later here (starts not_destroyed_yet)) (submit 7)) (submit 8))
        (evaluate 0 refl);
}

loaded_result : loaded.last.begun ≡ 7 ∷ []
unfolding start execute run_once
loaded_result = refl

no_idle_pool_example :
    ((i : ℕ) × (awake (loaded.last.worker i) ≡ true))
    ⊎ (0 < loaded.last.unsent + loaded.last.broadcasts)
unfolding start execute run_once
no_idle_pool_example = no_idle_pool (omega arith) loaded.reach refl (λ e. ground arith)

-- The client waits while the worker runs the last task.
abbrev draining : Run
unfolding start execute run_once wait
draining = record {
  last = _;
  reach = later (later (later loaded.reach (waits 0 refl)) (finish 0 7 refl)) (evaluate 0 refl);
}

-- Each task calls the callback of its number with its square.
abbrev square_job : ℕ → Job ℕ
square_job t = async t (t * t)

jobs_accounted_example :
    (draining.last.submitted ≡ draining.last.begun ++ draining.last.pool.tasks)
    × (count 7 draining.last.begun
        ≡ count 7 (finished draining.reach) + running_in 7 draining.last.worker 1)
    × OwedInTurn square_job (finished draining.reach) (posted square_job draining.reach)
unfolding start execute run_once wait
jobs_accounted_example = jobs_accounted square_job 7 (omega arith) draining.reach

jobs_posted : posted square_job draining.reach ≡ calls 7 49 ∷ []
unfolding start execute run_once wait call_of
jobs_posted = refl

-- The worker has told the client, a task was submitted before the client took the lock, and the
-- client went back to sleep; then the worker ran that task too.
abbrev overtaken : Run
unfolding start execute run_once wait wait_done
overtaken = record {
  last = _;
  reach =
      later
        (later (later (later (later draining.reach (finish 0 8 refl)) (evaluate 0 refl)) (submit 9))
          (wait_blocks 0 refl refl))
        (Step.spurious 0 refl);
}

-- The queue is empty again, and the worker asleep.
abbrev drained : (t : System) × Steps 1 overtaken.last t
unfolding start execute run_once wait wait_done
drained = (_, step (step (step nothing (evaluate 0 refl)) (finish 0 9 refl)) (evaluate 0 refl))

drained_result : (drained.0.pool.tasks ≡ []) × (drained.0.worker 0 ≡ Worker.asleep)
unfolding start execute run_once wait wait_done
drained_result = (refl, refl)

wait_lost_example : drained.0.client 0 ≡ waiting
unfolding drained start execute run_once wait wait_done
wait_lost_example = wait_lost {s = overtaken.last} 0 drained.1 (((tt, tt), tt), tt) refl refl

-- A pool that is started, stopped, given a task and destroyed.
abbrev doomed : Run
unfolding start stop execute destroy
doomed = record {
  last = _;
  reach =
      later
        (later (later (later here (starts not_destroyed_yet)) (stops not_destroyed_running))
          (submit 5))
        (destroys 0 refl);
}

-- Its worker looks at the queue once more, and sleeps.
abbrev joined : (t : System) × Steps 1 doomed.last t
unfolding start stop execute destroy run_once
joined = (_, step nothing (evaluate 0 refl))

destroy_hangs_example : joined.0.worker 0 ≢ exited
unfolding start stop execute destroy run_once
destroy_hangs_example =
    destroy_hangs {s = doomed.last} 0 joined.1 refl (λ e. ground arith) (λ e. ground arith)
