-- ===== src/Mutex/Invariant.antt =====
-- What holds of the flag, the two queues and the coroutines between any two atomic steps.
use magio.Prelude.{
  ℕ, ◌+◌, ◌≡◌, refl, sym, ◌∙◌, inl, inr, Bool, true, false, some, List, [], ◌∷◌, ◌++◌, arith,
  if◌then◌else◌, ◌==◌, Bool-cases, List-cases,
}
use magio.Mutex.{Entry, lock_await_suspend, guard_await_suspend, unlock, wait_push}
use magio.Mutex.System.{
  Pc, idle, lock_wait, holding, parking, parking_woken, parking_wait, parked, woken, System, update,
  entered, released, wake_entry, init,
}

-- The mutex is this coroutine's, from the hand-over to the update in `unlock`.
abbrev pub owns : Pc → Bool
owns idle = false
owns lock_wait = false
owns parked = false
owns woken = false
owns _ = true

-- How many entries of the mutex's queue, and of the condition's, are this coroutine's.
abbrev pub waits : Pc → ℕ
waits lock_wait = 1
waits parking_wait = 1
waits _ = 0

abbrev pub sleeps : Pc → ℕ
sleeps parking = 1
sleeps parked = 1
sleeps _ = 0

-- The number of entries with the handle `i`.
abbrev pub entries : ℕ → List Entry → ℕ
entries i [] = 0
entries i (e ∷ es) = (if e.h == i then 1 else 0) + entries i es

entries-append : (i : ℕ) (xs ys : List Entry) → entries i (xs ++ ys) ≡ entries i xs + entries i ys
entries-append i [] ys = omega arith
entries-append i (x ∷ xs) ys = ground (arith, entries-append i xs ys)

pub record Inv (s : System) : Type 0 where
  pub free : s.mutex.flag ≡ true → s.mutex.queue ≡ []
  pub unowned : s.mutex.flag ≡ true → (i : ℕ) → owns (s.pc i) ≡ false
  pub owner : s.mutex.flag ≡ false → (i : ℕ) × (owns (s.pc i) ≡ true)
  pub unique : (i j : ℕ) → owns (s.pc i) ≡ true → owns (s.pc j) ≡ true → i ≡ j
  pub queued : (i : ℕ) → entries i s.mutex.queue ≡ waits (s.pc i)
  pub asleep : (i : ℕ) → entries i s.condition.queue ≡ sleeps (s.pc i)

pub init-Inv : Inv init
init-Inv = record {
  free = λ _. refl;
  unowned = λ _ i. refl;
  owner = λ e. cc;
  unique = λ i j p q. cc;
  queued = λ i. refl;
  asleep = λ i. refl;
}

module _ {s : System} (v : Inv s) where
  open v use {free, unowned, owner, unique, queued, asleep}

  -- `lock` by a coroutine that does not own the mutex.
  pub enter-Inv :
      (i c : ℕ)
      → owns (s.pc i) ≡ false
      → waits (s.pc i) ≡ 0
      → sleeps (s.pc i) ≡ 0
      → Inv (entered s i lock_wait (guard_await_suspend s.mutex c i))
  unfolding guard_await_suspend
  enter-Inv i c o w z = elim (Bool-cases s.mutex.flag) [
    | inl e ↦
        rw (e, guard_await_suspend)
          (record {
            free = λ q. cc;
            unowned = λ q j. cc;
            owner = λ _. (i, ground arith);
            unique = λ j k p q. ground (arith, unowned e j, unowned e k);
            queued = λ j. ground (arith, queued j);
            asleep = λ j. ground (arith, asleep j);
          })
    | inr e ↦
        rw (e, guard_await_suspend)
          (record {
            free = λ q. cc;
            unowned = λ q j. cc;
            owner = λ _. let (k, h) = owner e in (k, ground arith);
            unique = λ j k p q. ground (arith, unique j k);
            queued = λ j.
                ground (
                  arith,
                  queued j,
                  entries-append j s.mutex.queue (record { ctx = c; h = i } ∷ []),
                );
            asleep = λ j. ground (arith, asleep j);
          })
  ]

  -- After the hand-over to the first waiter `x` nobody else owns the mutex.
  heir_only :
      (i : ℕ) (x : Entry) (rest : List Entry) (after : Pc)
      → s.mutex.queue ≡ x ∷ rest
      → owns (s.pc i) ≡ true
      → owns after ≡ false
      → waits after ≡ waits (s.pc i)
      → (j : ℕ) → owns (wake_entry (some x) (update s.pc i after) j) ≡ true
      → j ≡ x.h
  heir_only i x rest after e o a w j p = ground (arith, unique i j)

  -- `unlock` by the owner.
  pub leave-Inv :
      (i : ℕ) (after : Pc)
      → owns (s.pc i) ≡ true
      → owns after ≡ false
      → waits after ≡ waits (s.pc i)
      → sleeps after ≡ sleeps (s.pc i)
      → Inv (released s i after (unlock s.mutex))
  unfolding unlock
  leave-Inv i after o a w z = elim (List-cases s.mutex.queue) [
    | inl e ↦
        rw (e, unlock)
          (record {
            free = λ q. e;
            unowned = λ q j. ground (arith, unique i j);
            owner = λ q. cc;
            unique = λ j k p q. ground (arith, unique i j, unique i k);
            queued = λ j. ground (arith, queued j);
            asleep = λ j. ground (arith, asleep j);
          })
    | inr (x, rest, e) ↦
        rw (e, unlock)
          (record {
            free = λ q. ground (arith, unowned q i);
            unowned = λ q j. ground (arith, unowned q i);
            owner = λ q. (x.h, ground (arith, queued x.h, unique i x.h));
            unique = λ j k p q.
                heir_only i x rest after e o a w j p ∙ sym (heir_only i x rest after e o a w k q);
            queued = λ j. ground (arith, queued j, queued x.h, unique i x.h);
            asleep = λ j. ground (arith, asleep j, queued x.h, unique i x.h);
          })
  ]

  -- A coroutine that moves on without touching the mutex.
  pub move-Inv :
      (i : ℕ) (q : Pc)
      → owns q ≡ owns (s.pc i)
      → waits q ≡ waits (s.pc i)
      → sleeps q ≡ sleeps (s.pc i)
      → Inv (record s { pc = update s.pc i q })
  move-Inv i q o w z = record {
    free = free;
    unowned = λ e j. ground (arith, unowned e j, unowned e i);
    owner = λ e. let (k, h) = owner e in (k, ground arith);
    unique = λ j k h g. ground (arith, unique j k, unique i j, unique i k);
    queued = λ j. ground (arith, queued j, queued i);
    asleep = λ j. ground (arith, asleep j, asleep i);
  }

  pub park-Inv :
      (i c : ℕ)
      → s.pc i ≡ holding
      → Inv (record s { condition = wait_push s.condition c i; pc = update s.pc i parking })
  unfolding wait_push
  park-Inv i c held = record {
    free = free;
    unowned = λ e j. ground (arith, unowned e j, unowned e i);
    owner = λ e. let (k, h) = owner e in (k, ground arith);
    unique = λ j k h g. ground (arith, unique j k, unique i j, unique i k, held);
    queued = λ j. ground (arith, queued j, queued i);
    asleep = λ j. ground (
      arith,
      asleep j,
      asleep i,
      entries-append j s.condition.queue (record { ctx = c; h = i } ∷ []),
    );
  }

  -- `lock` by a coroutine that was notified before its own `unlock`: the flag is still down.
  pub early-Inv :
      (i c : ℕ)
      → s.pc i ≡ parking_woken
      → Inv (entered s i parking_wait (lock_await_suspend s.mutex c i))
  unfolding lock_await_suspend
  early-Inv i c h = elim (Bool-cases s.mutex.flag) [
    | inl e ↦ absurd (ground (arith, unowned e i))
    | inr e ↦
        rw (e, lock_await_suspend)
          (record {
            free = λ q. cc;
            unowned = λ q j. cc;
            owner = λ _. let (k, h) = owner e in (k, ground arith);
            unique = λ j k p q. ground (arith, unique j k, unique i j, unique i k);
            queued = λ j.
                ground (
                  arith,
                  queued j,
                  entries-append j s.mutex.queue (record { ctx = c; h = i } ∷ []),
                );
            asleep = λ j. ground (arith, asleep j);
          })
  ]
