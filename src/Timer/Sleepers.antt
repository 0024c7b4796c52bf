-- ===== src/Timer/Sleepers.antt =====
-- core/impl/coro.hpp: sleep_for and sleep_until, over the TimerQueue of a context that others use too.
-- The task that they push has the number of the coroutine's handle.
pub mod Lists
pub mod Accounted
use mathlib.Core.Logic.{◌∨₁◌}
use mathlib.Core.Logic.Or
use native.Mathlib.Bridge.{le_prop}
use mathlib.Core.List.{
  Mem, Permᴰ, mem-cons, mem-cons_self, mem-cons_of_mem, mem-append_left, mem-append_right,
  not-mem-nil, append_assoc, map-append,
}
use mathlib.Core.List.Permᴰ
use magio.Prelude.{
  ℕ, zero, suc, ◌+◌, ◌≤◌, ◌<◌, ◌≡◌, ◌≢◌, refl, ap, sym, subst, ◌∙◌, inl, inr, Bool, true, false,
  none, some, List, [], ◌∷◌, ◌++◌, arith, ◌==◌, if◌then◌else◌, leb, length, Option-cases,
  Bool-cases, map, ==_iff, select,
}
use magio.PriorityQueue.{PriorityQueue}
use magio.Timer.{
  TimerData, Pointer, deadline, set_cell, owned, TimerQueue, empty_queue, push, cancel, expire,
  get_expired, destroy,
}
use magio.Timer.Expiry.{fired, Expires, get_expired_lem}

abbrev pub tasks : (ℕ → TimerData) → List Pointer → List ℕ
tasks cells ps = map (λ p. (cells p.addr).task) ps

-- `is_sleep` tells the tasks of sleeping coroutines from other tasks.
module _ (is_sleep : ℕ → Bool) where
  -- The coroutines that a call of each of the tasks resumes.
  abbrev pub resumes : (flag : Bool) → List ℕ → List ℕ
  resumes true ts = select is_sleep ts
  resumes false ts = []

  module _ (pq : PriorityQueue Pointer deadline) where
    open pq use {Q, items, emplace, take_top, items-fresh, items-emplace}

    -- The TimerHandle that `push` gives is dropped.
    unfoldable pub sleep_until : TimerQueue pq → (tp h : ℕ) → TimerQueue pq
    unfolding push
    sleep_until q tp h = (push pq q tp h).0

    unfoldable pub sleep_for : TimerQueue pq → (now dur h : ℕ) → TimerQueue pq
    unfolding push
    sleep_for q now dur h = (push pq q (now + dur) h).0

    -- `slept` are the coroutines that have gone to sleep, `resumed` those that were resumed.
    pub record Sleepers : Type 0 where
      pub timers : TimerQueue pq
      pub slept : List ℕ
      pub resumed : List ℕ

    abbrev pub waiting : TimerQueue pq → List ℕ
    waiting q = select is_sleep (tasks q.cells (items q.timers))

    pub data Step (s : Sleepers) : Sleepers → Type 0 where
      sleeps_until :
          (tp h : ℕ)
          → is_sleep h ≡ true
          → Step s (record s { timers = sleep_until s.timers tp h; slept = h ∷ s.slept })
      sleeps_for :
          (now dur h : ℕ)
          → is_sleep h ≡ true
          → Step s (record s { timers = sleep_for s.timers now dur h; slept = h ∷ s.slept })
      pushes :
          (tp task : ℕ)
          → is_sleep task ≡ false
          → Step s (record s { timers = (push pq s.timers tp task).0 })
      cancels :
          (a : ℕ)
          → is_sleep (s.timers.cells a).task ≡ false
          → Step s (record s { timers = (cancel pq s.timers a).0 })
      -- the tasks are called with `true`
      expires :
          (now : ℕ)
          → Step s (record s {
            timers = (get_expired pq now s.timers []).1;
            resumed = s.resumed ++ resumes true (get_expired pq now s.timers []).0;
          })

    pub data Reach : Sleepers → Type 0 where
      here : Reach (record { timers = empty_queue pq; slept = []; resumed = [] })
      later : {s s' : Sleepers} → Reach s → Step s s' → Reach s'
