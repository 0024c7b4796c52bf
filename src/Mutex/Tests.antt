-- ===== src/Mutex/Tests.antt =====
-- Two coroutines on one mutex, run to the states that the theorems speak of.
use magio.Prelude.{ℕ, ◌≡◌, ◌≢◌, refl, true}
use magio.Mutex.{guard_await_suspend, unlock, wait_push}
use magio.Mutex.System.{System, Reach, start, later, acquire, park, park_unlock}
use magio.Mutex.Invariant.{owns}
use magio.Mutex.Safety.{mutual_exclusion, waiting_has_owner}

record Run : Type 0 where
  last : System
  open last use *
  reach : Reach last

-- Coroutine 0 holds the mutex, coroutine 1 waits for it.
abbrev contended : Run
unfolding guard_await_suspend
contended = record { last = _; reach = later (later start (acquire 0 7 refl)) (acquire 1 8 refl) }

abbrev alone : Run
unfolding guard_await_suspend
alone = record { last = _; reach = later start (acquire 0 7 refl) }

-- Coroutine 0 sleeps in the condition.
abbrev asleep : Run
unfolding guard_await_suspend wait_push unlock
asleep = record {
  last = _;
  reach = later (later (later start (acquire 0 7 refl)) (park 0 7 refl)) (park_unlock 0 refl);
}

mutual_exclusion_example : ◌≡◌ {A = ℕ} 0 0
unfolding guard_await_suspend
mutual_exclusion_example = mutual_exclusion contended.reach 0 0 refl refl

waiting_has_owner_example : (j : ℕ) × (owns (contended.pc j) ≡ true) × (j ≢ 1)
unfolding guard_await_suspend
waiting_has_owner_example = waiting_has_owner contended.reach 1 refl
