-- ===== src/Timer/Tests.antt =====
-- A queue over the sorted list, with three timers, run at a time when two are due.
use mathlib.Core.List.{Mem, Permᴰ}
use magio.Prelude.{ℕ, Bool, select, ◌%◌, ◌==◌, ◌≤◌, ◌<◌, ◌≡◌, refl, true, List, [], ◌∷◌, ◌++◌}
use magio.PriorityQueue.{PriorityQueue}
use magio.PriorityQueue.Sorted.{sorted_list}
use magio.Timer.{
  Pointer, deadline, TimerQueue, empty_queue, push, cancel, get_expired, next_duration, destroy,
}
use magio.Timer.Expiry.{fired, Expires, get_expired_lem}
use magio.Timer.Sleepers.{
  tasks, resumes, Sleepers, waiting, sleep_until, sleep_for, sleeps_until, sleeps_for, pushes,
  expires, Reach, here, later,
}
use magio.Timer.Sleepers.Accounted.{sleepers_accounted}
use magio.Timer.Bag.{
  bag, content, insert_timer, later_timers, due_tasks, time_left, all_tasks, timers_refine,
}

abbrev lists : PriorityQueue Pointer deadline
unfolding sorted_list
lists = sorted_list deadline

abbrev three_timers : TimerQueue lists
unfolding push
three_timers = (push lists (push lists (push lists (empty_queue lists) 50 11).0 20 12).0 90 13).0

runs : (get_expired lists 60 three_timers []).0 ≡ 12 ∷ 11 ∷ []
unfolding push sorted_list get_expired
runs = refl

get_expired_lem_example :
    (popped : List Pointer) × ((get_expired lists 60 three_timers (7 ∷ [])).0
      ≡ (7 ∷ []) ++ fired three_timers.cells popped)
    × Expires lists 60 three_timers popped (get_expired lists 60 three_timers (7 ∷ [])).1
get_expired_lem_example = get_expired_lem lists 60 three_timers (7 ∷ [])

-- The coroutines have the even numbers.
abbrev even : ℕ → Bool
even h = h % 2 == 0

-- The coroutine 10 sleeps until 50 and 12 for 20 from 70; another timer is due at 60; then it is 80.
abbrev slept : Sleepers even lists
unfolding sleep_until sleep_for push sorted_list get_expired
slept =
    let two = sleep_for even lists (sleep_until even lists (empty_queue lists) 50 10) 70 20 12 in
    let q = (push lists two 60 11).0 in
    record { timers = (get_expired lists 80 q []).1; slept = 12 ∷ 10 ∷ []; resumed = 10 ∷ [] }

slept_reached : Reach even lists slept
unfolding sleep_until sleep_for push sorted_list get_expired
slept_reached =
    later
      (later (later (later here (sleeps_until 50 10 refl)) (sleeps_for 70 20 12 refl))
        (pushes 60 11 refl))
      (expires 80)

sleepers_accounted_example :
    let (ts, q') = get_expired lists 100 slept.timers [] in
    Permᴰ (12 ∷ 10 ∷ []) ((10 ∷ []) ++ waiting even lists slept.timers)
    × Permᴰ (waiting even lists slept.timers) (resumes even true ts ++ waiting even lists q')
    × ((popped : List Pointer) × (resumes even true ts
          ≡ select even (tasks slept.timers.cells popped))
        × ((x : Pointer) → Mem x popped → x.dead_line ≤ 100)
        × ((x : Pointer) → Mem x (lists.items q'.timers) → 100 < x.dead_line))
unfolding sleep_until sleep_for push sorted_list get_expired
sleepers_accounted_example = sleepers_accounted even lists 100 slept_reached

timers_refine_example :
    let (ts, q') = get_expired lists 60 three_timers [] in
    (content lists (empty_queue lists) ≡ bag [])
    × (content lists (push lists three_timers 70 14).0
        ≡ insert_timer (record { addr = 3; dead_line = 70 }) (content lists three_timers))
    × (content lists (cancel lists three_timers 1).0 ≡ content lists three_timers)
    × (content lists q' ≡ later_timers 60 (content lists three_timers))
    × (bag ts ≡ due_tasks 60 three_timers.cells (content lists three_timers))
    × (next_duration lists 60 three_timers ≡ time_left 60 (content lists three_timers))
    × (bag (destroy lists three_timers) ≡ all_tasks three_timers.cells (content lists three_timers))
unfolding push sorted_list
timers_refine_example = timers_refine lists three_timers 60 70 14 1
