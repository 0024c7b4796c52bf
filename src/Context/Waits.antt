-- ===== src/Context/Waits.antt =====
-- core/coro_context.cpp, core/timer_queue.h, net/io_uring.cpp and net/iocp.cpp: how long the loop waits
-- in either service.
use mathlib.Core.List.{Mem}
use magio.Prelude.{ℕ, suc, ◌+◌, ◌-◌, ◌*◌, ◌/◌, ◌^◌, ◌≤◌, ◌<◌, ◌≡◌, refl, arith}
use magio.PriorityQueue.{PriorityQueue}
use magio.Timer.{Pointer, deadline}
use magio.Context.{Context}
use magio.Context.Loop.{timeout}
use magio.Context.Wakeup.{timeout_safe}
use magio.IoUring.Poll.{Timespec, timespec}
use magio.Iocp.{forever, milliseconds, wait_time, waiting_for}

-- In nanoseconds.
abbrev pub length_of : Timespec → ℕ
length_of t = t.tv_sec * 1000000000 + t.tv_nsec

timespec_lem : (d : ℕ) → (length_of (timespec d) ≡ d) × ((timespec d).tv_nsec < 1000000000)
unfolding timespec
timespec_lem d = (omega arith, omega arith)

-- Below the 2 ^ 32 - 1 milliseconds that stand for INFINITE.
wait_time_lem :
    (d : ℕ)
    → d < (2 ^ 32 - 1) * 1000000
    → (w : ℕ) × (waiting_for (wait_time d) ≡ milliseconds w)
      × (w * 1000000 ≤ d)
      × (d < suc w * 1000000)
unfolding wait_time
wait_time_lem d h = (d / 1000000, ground (arith, h), omega arith, omega arith)

waits_forever : waiting_for (wait_time ((2 ^ 32 - 1) * 1000000)) ≡ forever
unfolding wait_time
waits_forever = refl

module _ {pq : PriorityQueue Pointer deadline} where
  -- In either service the loop waits no longer than until the deadline of any timer that is not due: on
  -- Linux for the timeout, on Windows for the milliseconds in it, if there are fewer than 2^32 - 1.
  pub waits_safe :
      (now : ℕ) (c : Context pq) (x : Pointer)
      → Mem x (pq.items c.timers.timers)
      → now ≤ x.dead_line
      → timeout pq now c < (2 ^ 32 - 1) * 1000000
      → (let d = timeout pq now c in
          (length_of (timespec d) ≡ d)
          × (now + length_of (timespec d) ≤ x.dead_line)
          × ((w : ℕ) × (waiting_for (wait_time d) ≡ milliseconds w)
              × (now + w * 1000000 ≤ x.dead_line)
              × (d < suc w * 1000000)))
  waits_safe now c x m h b =
      let safe = ((timeout_safe now c).0 x m).0 h in
      let same = (timespec_lem (timeout pq now c)).0 in
      let (w, waits, low, high) = wait_time_lem (timeout pq now c) b in
      (same, omega (arith, safe, same), (w, waits, omega (arith, safe, low), high))
