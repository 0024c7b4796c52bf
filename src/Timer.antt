-- ===== src/Timer.antt =====
-- core/timer_queue.h. Time is the count of the steady clock, and is an argument where the code calls
-- `TimerClock::now`. A task is a number; its calls are what the operations return.
pub mod Expiry
pub mod Sleep
pub mod Sleepers
pub mod Bag
mod Tests
use mathlib.Core.List.{Permᴰ}
use magio.Prelude.{
  ℕ, zero, suc, ◌+◌, ◌-◌, ◌≡◌, Bool, true, false, Option, none, some, List, [], ◌∷◌, ◌++◌, ◌||◌,
  leb, ltb, ◌==◌, if◌then◌else◌, length,
}
use magio.PriorityQueue.{PriorityQueue}

-- `TimerData` but for the deadline, which is never written after construction.
pub record TimerData : Type 0 where
  pub flag : Bool
  pub task : ℕ

-- A `shared_ptr<TimerData>`, with the deadline of its timer. A TimerHandle is the address alone.
pub record Pointer : Type 0 where
  pub addr : ℕ
  pub dead_line : ℕ

abbrev pub deadline : Pointer → ℕ
deadline p = p.dead_line

-- One day, in nanoseconds.
abbrev one_day : ℕ
one_day = 86_400_000_000_000

abbrev pub set_cell : (ℕ → TimerData) → ℕ → TimerData → ℕ → TimerData
set_cell cells a d b = if a == b then d else cells b

-- A `weak_ptr` can be locked while the queue still has a pointer to the timer.
abbrev pub owned : ℕ → List Pointer → Bool
owned a [] = false
owned a (p ∷ ps) = (p.addr == a) || owned a ps

module _ (pq : PriorityQueue Pointer deadline) where
  open pq use {Q, items, fresh, emplace, take_top}

  -- `timers_`, with the timers that it points to; `next` is an address that is not in use.
  pub record TimerQueue : Type 0 where
    pub timers : Q
    pub cells : ℕ → TimerData
    pub next : ℕ

  abbrev pub empty_queue : TimerQueue
  empty_queue = record { timers = fresh; cells = λ _. record { flag = true; task = 0 }; next = 0 }

  unfoldable pub push : TimerQueue → ℕ → ℕ → TimerQueue × ℕ
  push q tp task = (
    record {
      timers = emplace q.timers (record { addr = q.next; dead_line = tp });
      cells = set_cell q.cells q.next (record { flag = true; task = task });
      next = suc q.next;
    },
    q.next,
  )

  -- `TimerHandle::cancel`: the call `task(false)`, if the timer is alive, and the result.
  pub cancel : TimerQueue → ℕ → TimerQueue × Option ℕ × Bool
  cancel q handle =
      if owned handle (items q.timers)
      then (
        record q { cells = set_cell q.cells handle (record (q.cells handle) { flag = false }) },
        some (q.cells handle).task,
        true,
      )
      else (q, none, false)

  -- The loop of `get_expired`; every round pops one pointer.
  pub expire : ℕ → ℕ → TimerQueue → List ℕ → List ℕ × TimerQueue
  expire zero now q result = (result, q)
  expire (suc fuel) now q result = elim (take_top q.timers) [
    | none ↦ (result, q)
    | some (p, rest) ↦
        let go =
          expire fuel now (record q { timers = rest })
            (if (q.cells p.addr).flag then result ++ (q.cells p.addr).task ∷ [] else result) in
        if leb p.dead_line now then go else (result, q)
  ]

  unfoldable pub get_expired : ℕ → TimerQueue → List ℕ → List ℕ × TimerQueue
  unfolding expire
  get_expired now q result = expire (length (items q.timers)) now q result

  unfoldable pub next_duration : ℕ → TimerQueue → ℕ
  next_duration now q = elim (take_top q.timers) [
    | none ↦ one_day
    | some (p, rest) ↦ if ltb p.dead_line now then 0 else p.dead_line - now
  ]

  -- The loop of `~TimerQueue`: every task that is left is called with `false`.
  pub drain : ℕ → TimerQueue → List ℕ
  drain zero q = []
  drain (suc fuel) q = elim (take_top q.timers) [
    | none ↦ []
    | some (p, rest) ↦ (q.cells p.addr).task ∷ drain fuel (record q { timers = rest })
  ]

  pub destroy : TimerQueue → List ℕ
  unfolding drain
  destroy q = drain (length (items q.timers)) q
