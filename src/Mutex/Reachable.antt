-- ===== src/Mutex/Reachable.antt =====
-- core/mutex.cpp: the mutex and its coroutines in every reachable state.
use magio.Prelude.{
  ℕ, ◌≡◌, refl, inl, inr, true, false, List, [], ◌∷◌, arith, Bool-cases, List-cases,
}
use magio.Mutex.{Entry, lock_await_suspend, guard_await_suspend, notify_one, notify_all}
use magio.Mutex.System.{
  idle, lock_wait, holding, parked, woken, System, wake, update, notified, wake_all, Step, acquire,
  resume, release, park, park_unlock, woken_unlock, wait_unlock, relock, relock_early, notify,
  broadcast, Reach, start, later,
}
use magio.Mutex.Invariant.{owns, Inv, init-Inv, enter-Inv, leave-Inv, move-Inv, park-Inv, early-Inv}

module _ {s : System} (v : Inv s) where
  open v use {free, unowned, owner, unique, queued, asleep}

  -- The entry at the head of the condition's queue is taken off, and its handle queued.
  wake-Inv :
      (x : Entry) (rest : List Entry)
      → s.condition.queue ≡ x ∷ rest
      → Inv
          (record s { condition = record { queue = rest }; pc = update s.pc x.h (wake (s.pc x.h)) })
  wake-Inv x rest e = record {
    free = free;
    unowned = λ q j. ground (arith, unowned q j, asleep x.h);
    owner = λ q. let (k, h) = owner q in (k, ground (arith, asleep x.h));
    unique = λ j k h g. ground (arith, unique j k, asleep x.h);
    queued = λ j. ground (arith, queued j, asleep x.h);
    asleep = λ j. ground (arith, asleep j, asleep x.h);
  }

  notify_one-Inv : Inv (notified s (notify_one s.condition))
  unfolding notify_one
  notify_one-Inv = elim (List-cases s.condition.queue) [
    | inl e ↦ rw (e, notify_one) v
    | inr (x, rest, e) ↦ rw (e, notify_one) (wake-Inv x rest e)
  ]

wake_all-Inv :
    (es : List Entry) (s : System)
    → Inv s
    → s.condition.queue ≡ es
    → Inv (record s { condition = record { queue = [] }; pc = wake_all es s.pc })
unfolding wake_all
wake_all-Inv [] s v e = rw e at v
wake_all-Inv (x ∷ es) s v e = wake_all-Inv es _ (wake-Inv v x es e) refl

-- Every atomic step keeps the invariant.
pub Step-Inv : {s t : System} → Step s t → Inv s → Inv t
unfolding notify_all lock_await_suspend guard_await_suspend
Step-Inv (acquire i c e) v = enter-Inv v i c (rw e) (rw e) (rw e)
Step-Inv (resume i e) v = move-Inv v i holding (rw e) (rw e) (rw e)
Step-Inv (release i e) v = leave-Inv v i idle (rw e) refl (rw e) (rw e)
Step-Inv (park i c e) v = park-Inv v i c e
Step-Inv (park_unlock i e) v = leave-Inv v i parked (rw e) refl (rw e) (rw e)
Step-Inv (woken_unlock i e) v = leave-Inv v i woken (rw e) refl (rw e) (rw e)
Step-Inv (wait_unlock i e) v = leave-Inv v i lock_wait (rw e) refl (rw e) (rw e)
Step-Inv (relock i c e) v = enter-Inv v i c (rw e) (rw e) (rw e)
Step-Inv (relock_early i c e) v = early-Inv v i c e
Step-Inv notify v = notify_one-Inv v
Step-Inv {s} broadcast v = wake_all-Inv s.condition.queue s v refl

pub Reach-Inv : {s : System} → Reach s → Inv s
Reach-Inv start = init-Inv
Reach-Inv (later r st) = Step-Inv st (Reach-Inv r)

-- The flag is down while anyone owns the mutex.
pub flag_down : {s : System} → Inv s → (i : ℕ) → owns (s.pc i) ≡ true → s.mutex.flag ≡ false
flag_down {s} v i o = elim (Bool-cases s.mutex.flag) [
  | inl up ↦ absurd (ground (arith, v.unowned up i))
  | inr down ↦ down
]
