-- ===== src/Timer/Expiry.antt =====
-- core/timer_queue.h: which tasks `get_expired` and the destructor call.
use mathlib.Core.Logic.Or
use native.Mathlib.Bridge.{le_prop}
use mathlib.Core.List.{Mem, mem-append_left, Permᴰ, mem-cons, not-mem-nil, append_assoc, append-nil}
use mathlib.Core.List.Permᴰ
use magio.Prelude.{
  length-perm, ℕ, zero, suc, ◌≤◌, ◌<◌, ◌≡◌, refl, subst, sym, ◌∙◌, inl, inr, none, some, List, [],
  ◌∷◌, ◌++◌, arith, leb, if◌then◌else◌, length, Option-cases, Bool-cases, lt_of_leb, leb→le,
}
use magio.PriorityQueue.{PriorityQueue}
use magio.Timer.{TimerData, Pointer, deadline, TimerQueue, expire, get_expired}

not-mem-short : (xs : List Pointer) (x : Pointer) → length xs ≤ 0 → Mem x xs → ⊥
not-mem-short [] x h m = not-mem-nil m
not-mem-short (y ∷ ys) x h m = omega arith

-- The tasks of the timers that are not cancelled, in order.
abbrev pub fired : (ℕ → TimerData) → List Pointer → List ℕ
fired cells [] = []
fired cells (p ∷ ps) =
    if (cells p.addr).flag then (cells p.addr).task ∷ fired cells ps else fired cells ps

-- Nondecreasing deadlines.
abbrev pub InOrder : List Pointer → Type 0
InOrder [] = Unit
InOrder (p ∷ ps) = ((x : Pointer) → Mem x ps → p.dead_line ≤ x.dead_line) × InOrder ps

module _ (pq : PriorityQueue Pointer deadline) where
  open pq use {items, take_top, take_top-none, take_top-some, take_top-least}

  -- `popped` is what a run of `get_expired` at `now` takes off `q`, leaving `q'`.
  pub record Expires (now : ℕ) (q : TimerQueue pq) (popped : List Pointer) (q' : TimerQueue pq)
      : Type 0 where
    pub split : Permᴰ (items q.timers) (popped ++ items q'.timers)
    pub due : (x : Pointer) → Mem x popped → x.dead_line ≤ now
    pub kept : (x : Pointer) → Mem x (items q'.timers) → now < x.dead_line
    pub in_order : InOrder popped
    pub same_cells : q'.cells ≡ q.cells

  module _ (now : ℕ) (q : TimerQueue pq) where
    -- The loop stops: nothing is due.
    stop-Expires : ((x : Pointer) → Mem x (items q.timers) → now < x.dead_line) → Expires now q [] q
    stop-Expires later = record {
      split = Permᴰ.refl _;
      due = λ x m. absurd (not-mem-nil m);
      kept = later;
      in_order = tt;
      same_cells = refl;
    }

    none-due : take_top q.timers ≡ none → (x : Pointer) → Mem x (items q.timers) → now < x.dead_line
    none-due e x m = absurd (not-mem-nil (subst (Mem x) (take_top-none q.timers e) m))

    module _ (p : Pointer) (rest : pq.Q) (e : take_top q.timers ≡ some (p, rest)) where
      top-least : (x : Pointer) → Mem x (items q.timers) → p.dead_line ≤ x.dead_line
      top-least x m =
          Or.elim le_prop (mem-cons.0 (Permᴰ.mem (take_top-some q.timers p rest e) m))
            (λ same. rw same (omega arith)) (take_top-least q.timers p rest x e)

      -- The loop goes on: the top is due.
      pop-Expires :
          (popped : List Pointer) (q' : TimerQueue pq)
          → p.dead_line ≤ now
          → Expires now (record q { timers = rest }) popped q'
          → Expires now q (p ∷ popped) q'
      pop-Expires popped q' le v = record {
        split = Permᴰ.trans (take_top-some q.timers p rest e) (Permᴰ.cons refl v.split);
        due = λ x m. Or.elim le_prop (mem-cons.0 m) (λ same. rw same le) (v.due x);
        kept = v.kept;
        in_order = (
          λ x m.
              take_top-least q.timers p rest x e
                (Permᴰ.mem (Permᴰ.symm v.split) (mem-append_left (items q'.timers) m)),
          v.in_order,
        );
        same_cells = v.same_cells;
      }

  fired-push :
      (cells : ℕ → TimerData) (p : Pointer) (ps : List Pointer) (result : List ℕ)
      → (if (cells p.addr).flag then result ++ (cells p.addr).task ∷ [] else result)
          ++ fired cells ps
        ≡ result ++ fired cells (p ∷ ps)
  fired-push cells p ps result = elim (Bool-cases (cells p.addr).flag) [
    | inl e ↦ rw e (append_assoc result _ _)
    | inr e ↦ rw e
  ]

  expire_lem :
      (fuel now : ℕ) (q : TimerQueue pq) (result : List ℕ)
      → length (items q.timers) ≤ fuel
      → (popped : List Pointer) × ((expire pq fuel now q result).0 ≡ result ++ fired q.cells popped)
        × Expires now q popped (expire pq fuel now q result).1
  unfolding expire
  expire_lem zero now q result h =
      ([], sym (append-nil _), stop-Expires now q λ x m. absurd (not-mem-short _ x h m))
  expire_lem (suc fuel) now q result h = elim (Option-cases (take_top q.timers)) [
    | inl e ↦ rw (e, expire) ([], sym (append-nil _), stop-Expires now q (none-due now q e))
    | inr ((p, rest), e) ↦ elim (Bool-cases (leb p.dead_line now)) [
      | inl le ↦
          let (popped, r, v) =
            expire_lem fuel now (record q { timers = rest })
              (if (q.cells p.addr).flag then result ++ (q.cells p.addr).task ∷ [] else result)
              (omega (arith, length-perm (take_top-some q.timers p rest e))) in
          rw (e, expire, le)
            (
              p ∷ popped,
              r ∙ fired-push q.cells p popped result,
              pop-Expires now q p rest e popped _ (leb→le _ _ le) v,
            )
      | inr gt ↦
          rw (e, expire, gt)
            (
              [],
              sym (append-nil _),
              stop-Expires now q
                  λ x m. omega (arith, top-least now q p rest e x m, lt_of_leb p.dead_line now gt),
            )
    ]
  ]

  -- `get_expired` at `now` takes off exactly the timers whose deadline has come, and appends to
  -- `result` the tasks of those that are not cancelled, in order of their deadlines.
  pub get_expired_lem :
      (now : ℕ) (q : TimerQueue pq) (result : List ℕ)
      → (popped : List Pointer) × ((get_expired pq now q result).0 ≡ result ++ fired q.cells popped)
        × Expires now q popped (get_expired pq now q result).1
  unfolding get_expired
  get_expired_lem now q result = expire_lem (length (items q.timers)) now q result (omega arith)
