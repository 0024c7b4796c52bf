-- ===== src/Timer/Sleepers/Accounted.antt =====
-- core/impl/coro.hpp: what becomes of the coroutines that sleep.
use mathlib.Core.Logic.{◌∨₁◌}
use mathlib.Core.Logic.Or
use native.Mathlib.Bridge.{le_prop}
use mathlib.Core.List.{
  Mem, Permᴰ, mem-cons, mem-append_left, mem-append_right, not-mem-nil, append_assoc, map-append,
}
use mathlib.Core.List.Permᴰ
use magio.Prelude.{
  ℕ, zero, suc, ◌+◌, ◌≤◌, ◌<◌, ◌≡◌, refl, ap, sym, subst, ◌∙◌, inl, inr, Bool, true, false, List,
  [], ◌∷◌, ◌++◌, arith, leb, length, Option-cases, Bool-cases, map, keep, select, select-append,
  select-perm, keep-perm, keep_middle, keep, select, select-append, select-perm, keep-perm,
  keep_middle,
}
use magio.PriorityQueue.{PriorityQueue}
use magio.Timer.{
  TimerData, Pointer, deadline, set_cell, owned, TimerQueue, empty_queue, push, cancel, expire,
  get_expired,
}
use magio.Timer.Expiry.{Expires, get_expired_lem}
use magio.Timer.Sleepers.{
  tasks, resumes, Sleepers, waiting, sleep_until, sleep_for, sleeps_until, sleeps_for, pushes,
  cancels, expires, Reach, here, later,
}
use magio.Timer.Sleepers.Lists.{tasks-ext, Uncancelled, sleeps-fired, set_cell_same, set_cell_other}

module _ (is_sleep : ℕ → Bool) (pq : PriorityQueue Pointer deadline) where
  open pq use {Q, items, emplace, take_top, items-fresh, items-emplace}

  record Inv (s : Sleepers is_sleep pq) : Type 0 where
    unused : (x : Pointer) → Mem x (items s.timers.timers) → x.addr < s.timers.next
    uncancelled : Uncancelled is_sleep s.timers.cells (items s.timers.timers)
    accounted : Permᴰ s.slept (s.resumed ++ waiting is_sleep pq s.timers)

  expire-next :
      (fuel now : ℕ) (q : TimerQueue pq) (result : List ℕ)
      → (expire pq fuel now q result).1.next ≡ q.next
  unfolding expire
  expire-next zero now q result = refl
  expire-next (suc fuel) now q result = elim (Option-cases (take_top q.timers)) [
    | inl e ↦ rw (e, expire) refl
    | inr ((p, rest), e) ↦ elim (Bool-cases (leb p.dead_line now)) [
      | inl le ↦ rw (e, expire, le) (expire-next fuel now (record q { timers = rest }) _)
      | inr gt ↦ rw (e, expire, gt) refl
    ]
  ]

  module _ {s : Sleepers is_sleep pq} (v : Inv s) (tp task : ℕ) where
    abbrev new : Pointer
    new = record { addr = s.timers.next; dead_line = tp }

    abbrev cells : ℕ → TimerData
    cells = set_cell s.timers.cells s.timers.next (record { flag = true; task = task })

    old : (x : Pointer) → Mem x (items s.timers.timers) → cells x.addr ≡ s.timers.cells x.addr
    old x m = set_cell_other s.timers.cells s.timers.next x.addr _ (v.unused x m)

    new_or_old :
        (x : Pointer)
        → Mem x (items (emplace s.timers.timers new))
        → (x ≡ new) ∨₁ Mem x (items s.timers.timers)
    new_or_old x m = mem-cons.0 (Permᴰ.mem (items-emplace s.timers.timers new) m)

    waiting-push :
        Permᴰ
          (keep is_sleep task (waiting is_sleep pq s.timers))
          (select is_sleep (tasks cells (items (emplace s.timers.timers new))))
    waiting-push =
        let same =
          tasks-ext s.timers.cells cells (items s.timers.timers)
            (λ x m. ap (λ (d : TimerData). d.task) (sym (old x m))) in
        let d : TimerData = record { flag = true; task = task } in
        let there = ap (λ (d : TimerData). d.task) (set_cell_same s.timers.cells s.timers.next d) in
        Permᴰ.trans
          (subst (Permᴰ (keep is_sleep task (waiting is_sleep pq s.timers)))
            (λ i. keep is_sleep (sym there i) (select is_sleep (same i))) (Permᴰ.refl _))
          (Permᴰ.symm (
            select-perm is_sleep (
              Permᴰ.map (λ (p : Pointer). (cells p.addr).task)
                (items-emplace s.timers.timers new))))

    push-Inv :
        Inv (record s { timers = (push pq s.timers tp task).0; slept = keep is_sleep task s.slept })
    unfolding push
    push-Inv = record {
      unused = λ x m.
          Or.elim le_prop (new_or_old x m) (λ e. rw e (omega arith))
            (λ o. omega (arith, v.unused x o));
      uncancelled = λ x m k.
          Or.elim (hlevel) (new_or_old x m)
            (λ e.
              subst (λ (y : Pointer). (cells y.addr).flag ≡ true) (sym e)
                (ap (λ (d : TimerData). d.flag) (set_cell_same s.timers.cells s.timers.next _)))
            (λ o.
              ap (λ (d : TimerData). d.flag) (old x o)
              ∙ v.uncancelled x o (ap (λ (d : TimerData). is_sleep d.task) (sym (old x o)) ∙ k));
      accounted = Permᴰ.trans (keep-perm is_sleep task v.accounted) (
          Permᴰ.trans (keep_middle is_sleep task s.resumed (waiting is_sleep pq s.timers))
            (Permᴰ.append_left s.resumed waiting-push));
    }

  cancels-Inv :
      {s : Sleepers is_sleep pq} (v : Inv s) (a : ℕ)
      → is_sleep (s.timers.cells a).task ≡ false
      → Inv (record s { timers = (cancel pq s.timers a).0 })
  unfolding cancel
  cancels-Inv {s} v a h = elim (Bool-cases (owned a (items s.timers.timers))) [
    | inr e ↦ rw (e, cancel) v
    | inl e ↦
        rw (e, cancel)
          (record {
            unused = v.unused;
            uncancelled = λ x m k. ground (arith, h, k, v.uncancelled x m);
            accounted =
                subst (λ ts. Permᴰ s.slept (s.resumed ++ select is_sleep ts))
                  (tasks-ext s.timers.cells
                    (set_cell s.timers.cells a (record (s.timers.cells a) { flag = false }))
                    (items s.timers.timers) (λ x m. ground arith))
                  v.accounted;
          })
  ]

  -- A round of the timers at `now`: `popped` are those that it takes off.
  record Round (s : Sleepers is_sleep pq) (now : ℕ) (popped : List Pointer) (q' : TimerQueue pq)
      : Type 0 where
    taken : Expires pq now s.timers popped q'
    resumed_by :
        resumes is_sleep true (get_expired pq now s.timers []).0
        ≡ select is_sleep (tasks s.timers.cells popped)
    rest :
        Permᴰ
          (waiting is_sleep pq s.timers)
          (resumes is_sleep true (get_expired pq now s.timers []).0 ++ waiting is_sleep pq q')

  round_lem :
      {s : Sleepers is_sleep pq} (v : Inv s) (now : ℕ)
      → (popped : List Pointer) × Round s now popped (get_expired pq now s.timers []).1
  round_lem {s} v now =
      let (popped, r, w) = get_expired_lem pq now s.timers [] in
      let q' = (get_expired pq now s.timers []).1 in
      let f = λ (p : Pointer). (s.timers.cells p.addr).task in
      let by =
        ap (select is_sleep) r
        ∙ sleeps-fired is_sleep s.timers.cells popped
            (λ x m. v.uncancelled x (Permᴰ.mem (Permᴰ.symm w.split) (mem-append_left _ m))) in
      (
        popped,
        record {
          taken = w;
          resumed_by = by;
          rest =
              subst (Permᴰ (waiting is_sleep pq s.timers))
                (ap (select is_sleep) (map-append f popped (items q'.timers))
                  ∙ select-append is_sleep (map f popped) (map f (items q'.timers))
                  ∙ (λ i.
                      sym by i ++ select is_sleep (tasks (sym w.same_cells i) (items q'.timers))))
                (select-perm is_sleep (Permᴰ.map f w.split));
        },
      )

  expires-Inv :
      {s : Sleepers is_sleep pq} (v : Inv s) (now : ℕ)
      → Inv (record s {
        timers = (get_expired pq now s.timers []).1;
        resumed = s.resumed ++ resumes is_sleep true (get_expired pq now s.timers []).0;
      })
  unfolding get_expired
  expires-Inv {s} v now =
      let (popped, r) = round_lem v now in
      let was = λ (x : Pointer) (m : Mem x (items (get_expired pq now s.timers []).1.timers)).
        Permᴰ.mem (Permᴰ.symm r.taken.split) (mem-append_right popped m) in
      record {
        unused = λ x m. omega (
          arith,
          v.unused x (was x m),
          expire-next (length (items s.timers.timers)) now s.timers [],
        );
        uncancelled = λ x m.
            subst (λ (c : ℕ → TimerData). is_sleep (c x.addr).task ≡ true → (c x.addr).flag ≡ true)
              (sym r.taken.same_cells) (v.uncancelled x (was x m));
        accounted =
            subst (Permᴰ s.slept) (sym (append_assoc s.resumed _ _))
              (Permᴰ.trans v.accounted (Permᴰ.append_left s.resumed r.rest));
      }

  pushed :
      {s : Sleepers is_sleep pq} (v : Inv s) (tp h : ℕ)
      → is_sleep h ≡ true
      → Inv (record s { timers = (push pq s.timers tp h).0; slept = h ∷ s.slept })
  pushed {s} v tp h e =
      subst (λ ts. Inv (record s { timers = (push pq s.timers tp h).0; slept = ts })) (rw (e) refl)
        (push-Inv v tp h)

  Reach-Inv : {s : Sleepers is_sleep pq} → Reach is_sleep pq s → Inv s
  unfolding sleep_until sleep_for
  Reach-Inv here = record {
    unused = λ x m. absurd (not-mem-nil (subst (Mem x) items-fresh m));
    uncancelled = λ x m. absurd (not-mem-nil (subst (Mem x) items-fresh m));
    accounted =
        subst (λ ps. Permᴰ [] (select is_sleep (tasks (empty_queue pq).cells ps))) (sym items-fresh)
          Permᴰ.nil;
  }
  Reach-Inv (later r (sleeps_until tp h e)) = pushed (Reach-Inv r) tp h e
  Reach-Inv (later r (sleeps_for now dur h e)) = pushed (Reach-Inv r) (now + dur) h e
  Reach-Inv (later {s} r (pushes tp task e)) =
      subst (λ ts. Inv (record s { timers = (push pq s.timers tp task).0; slept = ts }))
        (rw (e) refl) (push-Inv (Reach-Inv r) tp task)
  Reach-Inv (later r (cancels a e)) = cancels-Inv (Reach-Inv r) a e
  Reach-Inv (later r (expires now)) = expires-Inv (Reach-Inv r) now

  -- Whatever else uses the queue, in every reachable state the coroutines that went to sleep are those
  -- that were resumed and those whose timer is in the queue, each as often; a round of the timers at
  -- `now` resumes is_sleep those whose deadline has come, and leaves no other timer that is due.
  pub sleepers_accounted :
      {s : Sleepers is_sleep pq} (now : ℕ)
      → Reach is_sleep pq s
      → let (ts, q') = get_expired pq now s.timers [] in
        Permᴰ s.slept (s.resumed ++ waiting is_sleep pq s.timers)
        × Permᴰ (waiting is_sleep pq s.timers) (resumes is_sleep true ts ++ waiting is_sleep pq q')
        × ((popped : List Pointer) × (resumes is_sleep true ts
              ≡ select is_sleep (tasks s.timers.cells popped))
            × ((x : Pointer) → Mem x popped → x.dead_line ≤ now)
            × ((x : Pointer) → Mem x (items q'.timers) → now < x.dead_line))
  sleepers_accounted now r =
      let v = Reach-Inv r in
      let (popped, w) = round_lem v now in
      (v.accounted, w.rest, (popped, w.resumed_by, w.taken.due, w.taken.kept))
