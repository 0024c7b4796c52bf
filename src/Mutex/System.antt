-- ===== src/Mutex/System.antt =====
-- Any number of coroutines that use one Mutex and one Condition, interleaved at the critical
-- sections of `mutex_` and `m_`.
use magio.Prelude.{ℕ, ◌≡◌, Bool, Option, none, some, List, [], ◌∷◌, if◌then◌else◌, ◌==◌}
use magio.Mutex.{
  Entry, Mutex, Condition, fresh_mutex, fresh_condition, lock_await_suspend, guard_await_suspend,
  unlock, wait_push, notify_one, notify_all,
}

-- Where a coroutine stands. In `parking`, `parking_woken` and `parking_wait` the lambda of
-- `Condition::wait` has pushed the entry and has not yet called `unlock`.
pub data Pc : Type 0 where
  idle : Pc  -- neither holds the mutex nor waits for anything
  lock_wait : Pc  -- suspended, its entry in the queue of the mutex
  granted : Pc  -- handed the mutex by `unlock`; its handle is pending in its context
  holding : Pc  -- running with the mutex
  parking : Pc  -- in the queue of the condition
  parking_woken : Pc  -- notified; its handle is pending in its context
  parking_wait : Pc  -- notified and resumed; its entry is in the queue of the mutex
  parked : Pc  -- in the queue of the condition, the mutex released
  woken : Pc  -- notified, its handle is pending in its context, the mutex released

pub record System : Type 0 where
  pub mutex : Mutex
  pub condition : Condition
  pub pc : ℕ → Pc

abbrev pub update : (ℕ → Pc) → ℕ → Pc → ℕ → Pc
update pc i p j = if i == j then p else pc j

-- What becomes of a suspended coroutine when its handle is queued in its context.
abbrev pub wake : Pc → Pc
wake lock_wait = granted
wake parked = woken
wake parking = parking_woken
wake p = p

abbrev pub wake_entry : Option Entry → (ℕ → Pc) → ℕ → Pc
wake_entry none pc = pc
wake_entry (some e) pc = update pc e.h (wake (pc e.h))

unfoldable pub wake_all : List Entry → (ℕ → Pc) → ℕ → Pc
wake_all [] pc = pc
wake_all (e ∷ es) pc = wake_all es (update pc e.h (wake (pc e.h)))

-- The end of `await_suspend`: the coroutine goes on, or stays suspended at `blocked`.
abbrev pub entered : System → ℕ → Pc → Mutex × Bool → System
entered s i blocked (m, go) = record s {
  mutex = m;
  pc = update s.pc i (if go then holding else blocked);
}

-- The end of `unlock` by coroutine `i`, which then stands at `after`.
abbrev pub released : System → ℕ → Pc → Mutex × Option Entry → System
released s i after (m, e) = record s { mutex = m; pc = wake_entry e (update s.pc i after) }

abbrev pub notified : System → Condition × Option Entry → System
notified s (c, e) = record s { condition = c; pc = wake_entry e s.pc }

abbrev pub notified_all : System → Condition × List Entry → System
notified_all s (c, es) = record s { condition = c; pc = wake_all es s.pc }

-- One atomic step of coroutine `i`, which runs in the context `c`; `notify` may come from anywhere.
pub data Step (s : System) : System → Type 0 where
  -- `co_await mutex.lock_guard()`
  acquire :
      (i c : ℕ) → s.pc i ≡ idle → Step s (entered s i lock_wait (guard_await_suspend s.mutex c i))
  -- the context resumes a coroutine that was handed the mutex
  resume : (i : ℕ) → s.pc i ≡ granted → Step s (record s { pc = update s.pc i holding })
  -- `~LockGuard`
  release : (i : ℕ) → s.pc i ≡ holding → Step s (released s i idle (unlock s.mutex))
  -- `Condition::wait`: the push, then `guard.mutex_.unlock()`
  park :
      (i c : ℕ)
      → s.pc i ≡ holding
      → Step s (record s { condition = wait_push s.condition c i; pc = update s.pc i parking })
  park_unlock : (i : ℕ) → s.pc i ≡ parking → Step s (released s i parked (unlock s.mutex))
  woken_unlock : (i : ℕ) → s.pc i ≡ parking_woken → Step s (released s i woken (unlock s.mutex))
  wait_unlock : (i : ℕ) → s.pc i ≡ parking_wait → Step s (released s i lock_wait (unlock s.mutex))
  -- `co_await guard.mutex_.lock()` after the notification
  relock :
      (i c : ℕ) → s.pc i ≡ woken → Step s (entered s i lock_wait (lock_await_suspend s.mutex c i))
  relock_early :
      (i c : ℕ)
      → s.pc i ≡ parking_woken
      → Step s (entered s i parking_wait (lock_await_suspend s.mutex c i))
  notify : Step s (notified s (notify_one s.condition))
  broadcast : Step s (notified_all s (notify_all s.condition))

abbrev pub init : System
init = record { mutex = fresh_mutex; condition = fresh_condition; pc = λ _. idle }

pub data Reach : System → Type 0 where
  start : Reach init
  later : {s t : System} → Reach s → Step s t → Reach t
