-- ===== src/Mutex/Safety.antt =====
-- core/mutex.cpp: mutual exclusion, hand-over in order of arrival, and wake-ups that are not lost.
use magio.Prelude.{ℕ, ◌≡◌, ◌≢◌, refl, ◌⊎◌, inl, inr, true, false, List, [], ◌∷◌, arith, Bool-cases}
use magio.Mutex.{Entry, unlock, notify_one, notify_all}
use magio.Mutex.System.{
  Pc, idle, lock_wait, granted, holding, System, update, wake, released, notified, notified_all,
  wake_all, Reach, later, broadcast,
}
use magio.Mutex.Invariant.{Inv, owns, sleeps}
use magio.Mutex.Reachable.{Reach-Inv, flag_down}

-- In every reachable state at most one coroutine runs with the mutex.
pub mutual_exclusion :
    {s : System} (r : Reach s) (i j : ℕ) → s.pc i ≡ holding → s.pc j ≡ holding → i ≡ j
mutual_exclusion r i j p q = (Reach-Inv r).unique i j (rw p) (rw q)

-- While a coroutine is suspended in `lock`, some other coroutine owns the mutex: the mutex is never
-- left free with a coroutine in its queue.
pub waiting_has_owner :
    {s : System} (r : Reach s) (i : ℕ)
    → s.pc i ≡ lock_wait
    → (j : ℕ) × (owns (s.pc j) ≡ true) × (j ≢ i)
waiting_has_owner {s} r i e = elim (Bool-cases s.mutex.flag) [
  | inl up ↦ absurd (ground (arith, v.queued i, v.free up))
  | inr down ↦ let (j, o) = v.owner down in (j, o, λ same. ground arith)
]
  where
    v : Inv s
    v = Reach-Inv r

-- `~LockGuard` with a waiting coroutine hands the mutex to the one that has waited longest: that
-- coroutine was suspended in `lock`, it is granted the mutex, its entry leaves the queue, the flag
-- stays down, and no third coroutine moves.
pub release_hands_over :
    {s : System} (r : Reach s) (i : ℕ) (x : Entry) (rest : List Entry)
    → s.pc i ≡ holding
    → s.mutex.queue ≡ x ∷ rest
    → let t = released s i idle (unlock s.mutex) in
      (s.pc x.h ≡ lock_wait)
      × (t.pc x.h ≡ granted)
      × (t.mutex.queue ≡ rest)
      × (t.mutex.flag ≡ false)
      × (t.pc i ≡ idle)
      × ((j : ℕ) → j ≢ i → j ≢ x.h → t.pc j ≡ s.pc j)
unfolding unlock
release_hands_over {s} r i x rest held e =
    rw (e, unlock)
      (
        ground (arith, was),
        ground (arith, was),
        refl,
        flag_down v i (rw held),
        ground (arith, was),
        λ j p q. ground arith,
      )
  where
    v : Inv s
    v = Reach-Inv r

    was : s.pc x.h ≡ lock_wait
    was = ground (arith, v.queued x.h, v.unique i x.h)

-- `~LockGuard` with nobody waiting frees the mutex, and moves no other coroutine.
release_frees :
    {s : System} (r : Reach s) (i : ℕ)
    → s.pc i ≡ holding
    → s.mutex.queue ≡ []
    → let t = released s i idle (unlock s.mutex) in
      (t.mutex.flag ≡ true) × ((j : ℕ) → owns (t.pc j) ≡ false)
unfolding unlock
release_frees {s} r i held e = rw (e, unlock) (refl, λ j. ground (arith, (Reach-Inv r).unique i j))

-- `notify_one` takes the entry that was pushed first. Its coroutine was suspended in
-- `Condition::wait` and is now woken; no other coroutine moves, and the mutex is not touched.
notify_one_wakes_first :
    {s : System} (r : Reach s) (x : Entry) (rest : List Entry)
    → s.condition.queue ≡ x ∷ rest
    → let t = notified s (notify_one s.condition) in
      (sleeps (s.pc x.h) ≡ 1)
      × (t.pc x.h ≡ wake (s.pc x.h))
      × (sleeps (t.pc x.h) ≡ 0)
      × (t.condition.queue ≡ rest)
      × (t.mutex ≡ s.mutex)
      × ((j : ℕ) → j ≢ x.h → t.pc j ≡ s.pc j)
unfolding notify_one
notify_one_wakes_first {s} r x rest e =
    rw (e, notify_one)
      (asleep, ground arith, ground (arith, asleep), refl, refl, λ j p. ground arith)
  where
    asleep : sleeps (s.pc x.h) ≡ 1
    asleep = ground (arith, (Reach-Inv r).asleep x.h)

wake_all_either :
    (es : List Entry) (pc : ℕ → Pc) (i : ℕ)
    → (wake_all es pc i ≡ pc i) ⊎ (wake_all es pc i ≡ wake (pc i))
unfolding wake_all
wake_all_either [] pc i = inl refl
wake_all_either (e ∷ es) pc i = ground (arith, wake_all_either es (update pc e.h (wake (pc e.h))) i)

-- `notify_all` wakes every coroutine that is suspended in `Condition::wait`, whether or not it has
-- released the mutex yet, and leaves the queue empty.
notify_all_wakes :
    {s : System} (r : Reach s) (i : ℕ)
    → sleeps (s.pc i) ≡ 1
    → let t = notified_all s (notify_all s.condition) in
      (t.pc i ≡ wake (s.pc i)) × (sleeps (t.pc i) ≡ 0) × (t.condition.queue ≡ [])
unfolding notify_all
notify_all_wakes {s} r i e =
    ground
      (arith, wake_all_either s.condition.queue s.pc i, (Reach-Inv (later r broadcast)).asleep i)
