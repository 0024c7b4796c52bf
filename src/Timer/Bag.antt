-- ===== src/Timer/Bag.antt =====
-- core/timer_queue.h: the queue as the bag of its timers, which forgets how std::priority_queue keeps them.
use mathlib.Core.Quot
use mathlib.Core.Quot.{Quot, Quot-set}
use native.Mathlib.Nat.{ℕ_set}
use mathlib.Core.List.{Mem, Permᴰ, mem-cons_self, mem-cons_of_mem, append-nil}
use mathlib.Core.List.Permᴰ
use magio.Prelude.{
  ℕ, ◌-◌, ◌≤◌, ◌≡◌, refl, ap, sym, subst, ◌∙◌, min, inl, inr, Bool, true, false, Option, none, some,
  List, [], ◌∷◌, ◌++◌, arith, ltb, leb, if◌then◌else◌, map, Option-cases, Bool-cases, select,
  select-append, select-perm, select_all, select_none,
}
use magio.PriorityQueue.{PriorityQueue}
use magio.Timer.{
  TimerData, Pointer, deadline, one_day, TimerQueue, empty_queue, push, cancel, owned, get_expired,
  next_duration, destroy,
}
use magio.Timer.Expiry.{fired, Expires, get_expired_lem}
use magio.Timer.Sleep.{destroy-perm}

abbrev pub Bag : Type 0 → Type 0
Bag A = Quot (Permᴰ {A = A})

abbrev pub bag : {A : Type 0} → List A → Bag A
bag xs = Quot.mk xs

abbrev pub insert_timer : Pointer → Bag Pointer → Bag Pointer
insert_timer p = Quot.lift Quot-set (λ ps. bag (p ∷ ps)) (λ ps qs h. Quot.sound (Permᴰ.cons refl h))

abbrev is_later : ℕ → Pointer → Bool
is_later now p = ltb now p.dead_line

abbrev is_due : ℕ → Pointer → Bool
is_due now p = leb p.dead_line now

-- The timers that are not due.
abbrev pub later_timers : ℕ → Bag Pointer → Bag Pointer
later_timers now =
    Quot.lift Quot-set (λ ps. bag (select (is_later now) ps))
      (λ ps qs h. Quot.sound (select-perm (is_later now) h))

abbrev task_of : (ℕ → TimerData) → Pointer → ℕ
task_of cells p = (cells p.addr).task

abbrev flag_of : (ℕ → TimerData) → Pointer → Bool
flag_of cells p = (cells p.addr).flag

abbrev pub all_tasks : (ℕ → TimerData) → Bag Pointer → Bag ℕ
all_tasks cells =
    Quot.lift Quot-set (λ ps. bag (map (task_of cells) ps))
      (λ ps qs h. Quot.sound (Permᴰ.map (task_of cells) h))

-- The tasks of the timers that are due and not cancelled.
abbrev pub due_tasks : ℕ → (ℕ → TimerData) → Bag Pointer → Bag ℕ
due_tasks now cells =
    Quot.lift Quot-set
      (λ ps. bag (map (task_of cells) (select (flag_of cells) (select (is_due now) ps))))
      (λ ps qs h.
        Quot.sound
          (Permᴰ.map (task_of cells) (select-perm (flag_of cells) (select-perm (is_due now) h))))

abbrev nearer : ℕ → Option ℕ → Option ℕ
nearer d none = some d
nearer d (some e) = some (min d e)

abbrev pub earliest : List Pointer → Option ℕ
earliest [] = none
earliest (p ∷ ps) = nearer p.dead_line (earliest ps)

nearer_comm : (d e : ℕ) (o : Option ℕ) → nearer d (nearer e o) ≡ nearer e (nearer d o)
nearer_comm d e none = ap some (omega arith)
nearer_comm d e (some f) = ap some (omega arith)

pub earliest-perm : (ps qs : List Pointer) → Permᴰ ps qs → earliest ps ≡ earliest qs
earliest-perm _ _ Permᴰ.nil = refl
earliest-perm _ _ (Permᴰ.cons {l₁} {l₂} e h) = λ i. nearer (e i).dead_line (earliest-perm l₁ l₂ h i)
earliest-perm _ _ (Permᴰ.swap {a} {b} {a'} {b'} {l} e f) =
    nearer_comm a.dead_line b.dead_line (earliest l)
    ∙ (λ i. nearer (f i).dead_line (nearer (e i).dead_line (earliest l)))
earliest-perm _ _ (Permᴰ.trans {l₁} {l₂} {l₃} g h) = earliest-perm l₁ l₂ g ∙ earliest-perm l₂ l₃ h

abbrev pub until : ℕ → Option ℕ → ℕ
until now none = one_day
until now (some d) = if ltb d now then 0 else d - now

-- How long the event loop may sleep.
abbrev pub time_left : ℕ → Bag Pointer → ℕ
time_left now =
    Quot.lift ℕ_set (λ ps. until now (earliest ps))
      (λ ps qs h. ap (until now) (earliest-perm ps qs h))

fired-select :
    (cells : ℕ → TimerData) (ps : List Pointer)
    → fired cells ps ≡ map (task_of cells) (select (flag_of cells) ps)
fired-select cells [] = refl
fired-select cells (p ∷ ps) = elim (Bool-cases (flag_of cells p)) [
  | inl e ↦ rw (e) (ap (λ ts. task_of cells p ∷ ts) (fired-select cells ps))
  | inr e ↦ rw (e) (fired-select cells ps)
]

earliest_first :
    (p : Pointer) (ps : List Pointer)
    → ((x : Pointer) → Mem x ps → p.dead_line ≤ x.dead_line)
    → earliest (p ∷ ps) ≡ some p.dead_line
earliest_first p [] h = refl
earliest_first p (x ∷ ps) h =
    let ih = earliest_first p ps (λ y m. h y (mem-cons_of_mem x m)) in
    nearer_comm p.dead_line x.dead_line (earliest ps)
    ∙ ap (nearer x.dead_line) ih
    ∙ ap some (omega (arith, h x mem-cons_self))

module _ (pq : PriorityQueue Pointer deadline) where
  open pq use {
    items, take_top, items-fresh, items-emplace, take_top-none, take_top-some, take_top-least,
  }

  abbrev pub content : TimerQueue pq → Bag Pointer
  content q = bag (items q.timers)

  next_duration_lem :
      (now : ℕ) (q : TimerQueue pq) → next_duration pq now q ≡ time_left now (content q)
  unfolding next_duration
  next_duration_lem now q = elim (Option-cases (take_top q.timers)) [
    | inl e ↦ rw (e, next_duration, take_top-none q.timers e) refl
    | inr ((p, rest), e) ↦
        let least =
          earliest-perm _ _ (take_top-some q.timers p rest e)
          ∙ earliest_first p (items rest) (λ x m. take_top-least q.timers p rest x e m) in
        rw (e, next_duration) (ap (until now) (sym least))
  ]

  cancel-content : (q : TimerQueue pq) (a : ℕ) → content (cancel pq q a).0 ≡ content q
  unfolding cancel
  cancel-content q a = elim (Bool-cases (owned a (items q.timers))) [
    | inl e ↦ rw (e, cancel) refl
    | inr e ↦ rw (e, cancel) refl
  ]

  -- A round at `now` that takes `popped` off.
  module _ (now : ℕ) {q q' : TimerQueue pq} {popped : List Pointer}
      (v : Expires pq now q popped q') where
    due_popped : (x : Pointer) → Mem x popped → is_due now x ≡ true
    due_popped x m = ground (arith, v.due x m)

    later_popped : (x : Pointer) → Mem x popped → is_later now x ≡ false
    later_popped x m = ground (arith, v.due x m)

    due_kept : (x : Pointer) → Mem x (items q'.timers) → is_due now x ≡ false
    due_kept x m = ground (arith, v.kept x m)

    later_kept : (x : Pointer) → Mem x (items q'.timers) → is_later now x ≡ true
    later_kept x m = ground (arith, v.kept x m)

    kept-later : Permᴰ (select (is_later now) (items q.timers)) (items q'.timers)
    kept-later =
        subst (Permᴰ (select (is_later now) (items q.timers)))
          (select-append (is_later now) popped (items q'.timers) ∙ (λ i.
            select_none (is_later now) popped later_popped i
            ++ select_all (is_later now) (items q'.timers) later_kept i))
          (select-perm (is_later now) v.split)

    popped-due : Permᴰ (select (is_due now) (items q.timers)) popped
    popped-due =
        subst (Permᴰ (select (is_due now) (items q.timers)))
          (select-append (is_due now) popped (items q'.timers)
            ∙ (λ i.
                select_all (is_due now) popped due_popped i
                ++ select_none (is_due now) (items q'.timers) due_kept i)
            ∙ append-nil popped)
          (select-perm (is_due now) v.split)

  get_expired-content :
      (now : ℕ) (q : TimerQueue pq)
      → let (ts, q') = get_expired pq now q [] in
        (content q' ≡ later_timers now (content q)) × (bag ts ≡ due_tasks now q.cells (content q))
  get_expired-content now q =
      let (popped, r, v) = get_expired_lem pq now q [] in
      (
        Quot.sound (Permᴰ.symm (kept-later now v)),
        ap bag (r ∙ fired-select q.cells popped)
            ∙ Quot.sound (
                Permᴰ.symm
                  (Permᴰ.map (task_of q.cells) (select-perm (flag_of q.cells) (popped-due now v)))),
      )

  -- Whichever priority queue it is made of, the queue is a bag of timers: pushing puts one in, cancelling
  -- leaves the bag as it is, `get_expired` takes out the timers that are due and gives the bag of the
  -- tasks of those among them that are not cancelled, the time that the event loop may sleep is that of
  -- the earliest deadline in the bag, and the destructor calls the tasks of all timers in it.
  pub timers_refine :
      (q : TimerQueue pq) (now tp task a : ℕ)
      → let (ts, q') = get_expired pq now q [] in
        (content (empty_queue pq) ≡ bag [])
        × (content (push pq q tp task).0
            ≡ insert_timer (record { addr = q.next; dead_line = tp }) (content q))
        × (content (cancel pq q a).0 ≡ content q)
        × (content q' ≡ later_timers now (content q))
        × (bag ts ≡ due_tasks now q.cells (content q))
        × (next_duration pq now q ≡ time_left now (content q))
        × (bag (destroy pq q) ≡ all_tasks q.cells (content q))
  unfolding push
  timers_refine q now tp task a =
      let (rest, fires) = get_expired-content now q in
      (
        ap bag items-fresh,
        Quot.sound (items-emplace q.timers _),
        cancel-content q a,
        rest,
        fires,
        next_duration_lem now q,
        Quot.sound (Permᴰ.symm (destroy-perm pq q)),
      )
