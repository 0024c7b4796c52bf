-- ===== src/Timer/Sleep.antt =====
-- core/timer_queue.h: the time that the event loop may sleep, and cancelled timers.
use mathlib.Core.Logic.Or
use native.Mathlib.Bridge.{le_prop}
use mathlib.Core.List.{Mem, Permᴰ, mem-cons, mem-cons_self, not-mem-nil}
use mathlib.Core.List.Permᴰ
use magio.Prelude.{
  length-perm, ℕ, zero, suc, ◌+◌, ◌≤◌, ◌<◌, ◌≡◌, ◌≢◌, refl, ap, subst, inl, inr, true, false, none,
  some, List, [], ◌∷◌, ◌++◌, arith, ◌==◌, if◌then◌else◌, length, Option-cases, map,
}
use magio.PriorityQueue.{PriorityQueue}
use magio.Timer.{
  TimerData, Pointer, deadline, set_cell, owned, TimerQueue, cancel, get_expired, next_duration,
  drain, destroy,
}
use magio.Timer.Expiry.{fired, Expires, get_expired_lem}

-- The pointers to other timers.
abbrev pub without : ℕ → List Pointer → List Pointer
without a [] = []
without a (p ∷ ps) = if a == p.addr then without a ps else p ∷ without a ps

fired-cancelled :
    (cells : ℕ → TimerData) (a : ℕ) (ps : List Pointer)
    → fired (set_cell cells a (record (cells a) { flag = false })) ps ≡ fired cells (without a ps)
fired-cancelled cells a [] = refl
fired-cancelled cells a (p ∷ ps) = ground (arith, fired-cancelled cells a ps)

eq_nil : (xs : List Pointer) → length xs ≤ 0 → xs ≡ []
eq_nil [] h = refl
eq_nil (x ∷ xs) h = absurd (omega arith)

map-perm : {A B : Type 0} (f : A → B) {xs ys : List A} → Permᴰ xs ys → Permᴰ (map f xs) (map f ys)
map-perm f Permᴰ.nil = Permᴰ.nil
map-perm f (Permᴰ.cons e p) = Permᴰ.cons (ap f e) (map-perm f p)
map-perm f (Permᴰ.swap e g) = Permᴰ.swap (ap f e) (ap f g)
map-perm f (Permᴰ.trans p q) = Permᴰ.trans (map-perm f p) (map-perm f q)

module _ (pq : PriorityQueue Pointer deadline) where
  open pq use {items, take_top, take_top-none, take_top-some, take_top-least}

  -- A loop that sleeps for `next_duration` oversleeps no timer of the queue: it wakes at the
  -- deadline or before, and does not sleep at all when a deadline has passed.
  pub next_duration_safe :
      (now : ℕ) (q : TimerQueue pq) (x : Pointer)
      → Mem x (items q.timers)
      → (now ≤ x.dead_line → now + next_duration pq now q ≤ x.dead_line)
        × (x.dead_line < now → next_duration pq now q ≡ 0)
  unfolding next_duration
  next_duration_safe now q x m = elim (Option-cases (take_top q.timers)) [
    | inl e ↦ absurd (not-mem-nil (subst (Mem x) (take_top-none q.timers e) m))
    | inr ((p, rest), e) ↦
        let least : p.dead_line ≤ x.dead_line =
          Or.elim le_prop (mem-cons.0 (Permᴰ.mem (take_top-some q.timers p rest e) m))
            (λ same. rw same (omega arith)) (take_top-least q.timers p rest x e) in
        rw (e, next_duration) (ground (arith, least))
  ]

  -- Nor does it wake for nothing: with a timer in the queue, one is due after the sleep.
  next_duration_due :
      (now : ℕ) (q : TimerQueue pq)
      → items q.timers ≢ []
      → (p : Pointer) × Mem p (items q.timers) × (p.dead_line ≤ now + next_duration pq now q)
  unfolding next_duration
  next_duration_due now q h = elim (Option-cases (take_top q.timers)) [
    | inl e ↦ absurd (h (take_top-none q.timers e))
    | inr ((p, rest), e) ↦
        rw (e, next_duration)
          (p, Permᴰ.mem (Permᴰ.symm (take_top-some q.timers p rest e)) mem-cons_self, ground arith)
  ]

  -- Cancelling a live timer calls its task with `false` once; a later `get_expired` appends the
  -- tasks of the other timers that are due, and never that of the cancelled one.
  pub cancel_suppresses :
      (now a : ℕ) (q : TimerQueue pq) (result : List ℕ)
      → owned a (items q.timers) ≡ true
      → let c = cancel pq q a in
        (c.1 ≡ some (q.cells a).task)
        × (c.2 ≡ true)
        × ((popped : List Pointer) × ((get_expired pq now c.0 result).0
              ≡ result ++ fired q.cells (without a popped))
            × Expires pq now c.0 popped (get_expired pq now c.0 result).1)
  unfolding cancel
  cancel_suppresses now a q result h =
      let (popped, r, v) =
        get_expired_lem pq now
          (record q { cells = set_cell q.cells a (record (q.cells a) { flag = false }) }) result in
      rw (h, cancel) (refl, refl, (popped, rw (← fired-cancelled q.cells a popped) r, v))

  -- A handle whose timer has expired or was destroyed cancels nothing.
  cancel_expired :
      (a : ℕ) (q : TimerQueue pq)
      → owned a (items q.timers) ≡ false
      → cancel pq q a ≡ (q, none, false)
  unfolding cancel
  cancel_expired a q h = rw (h, cancel)

  drain-perm :
      (fuel : ℕ) (q : TimerQueue pq)
      → length (items q.timers) ≤ fuel
      → Permᴰ (map (λ p. (q.cells p.addr).task) (items q.timers)) (drain pq fuel q)
  unfolding drain
  drain-perm zero q h = rw (eq_nil _ h) Permᴰ.nil
  drain-perm (suc fuel) q h = elim (Option-cases (take_top q.timers)) [
    | inl e ↦ rw (e, drain, take_top-none q.timers e) Permᴰ.nil
    | inr ((p, rest), e) ↦
        let split = take_top-some q.timers p rest e in
        let ih = drain-perm fuel (record q { timers = rest }) (omega (arith, length-perm split)) in
        rw (e, drain)
          (Permᴰ.trans (map-perm (λ (p : Pointer). (q.cells p.addr).task) split)
            (Permᴰ.cons refl ih))
  ]

  -- The destructor calls the task of every timer that is still queued with `false`, each once,
  -- and nothing else; a timer that was cancelled before is no exception.
  pub destroy-perm :
      (q : TimerQueue pq) → Permᴰ (map (λ p. (q.cells p.addr).task) (items q.timers)) (destroy pq q)
  unfolding destroy
  destroy-perm q = drain-perm (length (items q.timers)) q (omega arith)
