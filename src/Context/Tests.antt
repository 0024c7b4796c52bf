-- ===== src/Context/Tests.antt =====
-- A context with two pending tasks, run through one iteration of its loop into `poll`.
use mathlib.Core.List.{mem-cons_self}
use magio.IoUring.Poll.{timespec}
use magio.Iocp.{milliseconds, wait_time, waiting_for}
use magio.Context.Waits.{length_of, waits_safe}
use magio.Prelude.{ℕ, suc, ◌+◌, ◌*◌, ◌≤◌, ◌<◌, ◌≡◌, refl, List, [], ◌∷◌, ◌++◌, arith}
use magio.PriorityQueue.{PriorityQueue}
use magio.PriorityQueue.Sorted.{sorted_list}
use magio.Timer.{Pointer, deadline, empty_queue, push, next_duration, get_expired}
use magio.Context.{Task, resume, closure, running, stopping, Context, enqueue, begin, expires_until}
use magio.Context.Loop.{
  act, Action, executes, expires, Loop, timeout, enter, run, take_expired, Reach, start, later,
  iterate, call, expire, prepare, foreign_push,
}
use magio.Context.Order.{in_hand, tasks_in_order}
use magio.Context.Wakeup.{no_lost_wakeup}

abbrev lists : PriorityQueue Pointer deadline
unfolding sorted_list
lists = sorted_list deadline

-- The closure 1 sets a timer and queues the task that resumes coroutine 9.
abbrev body : Task → List Action
body (closure f) = expires 40 5 ∷ executes (resume 9) ∷ []
body (resume h) = []

abbrev quiet : ℕ → List Action
quiet t = []

abbrev idle_context : Context lists
idle_context = record {
  state = stopping;
  thread_id = 3;
  pending = closure 1 ∷ [];
  timers = empty_queue lists;
  signals = 0;
}

record Run : Type 0 where
  last : Loop lists
  reach : Reach lists body quiet idle_context last

abbrev began : Context lists
began = record idle_context { state = running }

abbrev one_call : Run
unfolding enter run begin act
one_call = record {
  last = _;
  reach = later (later (start began refl) (iterate refl refl)) (call (closure 1) [] refl);
}

tasks_in_order_example :
    one_call.last.called ++ (in_hand one_call.last.phase ++ one_call.last.context.pending)
    ≡ idle_context.pending ++ one_call.last.queued
tasks_in_order_example = tasks_in_order one_call.reach

one_call_result : one_call.last.called ≡ closure 1 ∷ []
unfolding enter run begin act
one_call_result = refl

abbrev sleepy_context : Context lists
sleepy_context = record idle_context { pending = [] }

abbrev sleeping : (l : Loop lists) × Reach lists body quiet sleepy_context l
unfolding enter begin take_expired get_expired timeout next_duration sorted_list enqueue
sleeping = (
  _,
  later
      (later
        (later (later (start (record sleepy_context { state = running }) refl) (iterate refl refl))
          (expire 7 refl))
        (prepare 7 refl))
      (foreign_push (closure 2)),
)

no_lost_wakeup_example : 0 < sleeping.0.context.signals + sleeping.0.unsent
unfolding enter begin take_expired get_expired timeout next_duration sorted_list enqueue
no_lost_wakeup_example =
    no_lost_wakeup sleeping.1 86_400_000_000_000 refl (omega arith) (λ e. ground arith)

-- A context with a timer 39 ms and a little more away.
abbrev alarm : Pointer
alarm = record { addr = 0; dead_line = 40_000_000 }

abbrev alarmed : Context lists
unfolding expires_until push sorted_list
alarmed = (expires_until lists (record sleepy_context { state = running }) 40_000_000 5).0

waits_safe_example :
    (let d = timeout lists 7 alarmed in
      (length_of (timespec d) ≡ d)
      × (7 + length_of (timespec d) ≤ 40_000_000)
      × ((w : ℕ) × (waiting_for (wait_time d) ≡ milliseconds w)
          × (7 + w * 1000000 ≤ 40_000_000)
          × (d < suc w * 1000000)))
unfolding expires_until push sorted_list timeout next_duration
waits_safe_example = waits_safe 7 alarmed alarm mem-cons_self (omega arith) (omega arith)
