-- ===== src/IoUring/Deliveries.antt =====
-- net/io_service.cpp, net/io_uring.cpp: the callbacks of a round of poll, after any history of the
-- service.
use mathlib.Core.List.{mem-cons_self, mem-append_left, mem-append_right}
use magio.Prelude.{
  ℕ, ◌≡◌, ◌≢◌, refl, sym, subst, ◌⊎◌, inl, inr, some, List, [], ◌∷◌, ◌++◌, pos, All, All-left,
  All-right, All-append, All-perm, bind-some, some-inj, if-All, is_negative, neg_part, ◌==◌, ◌||◌,
  ◌&&◌, arith,
}
use magio.Io.{IoContext}
use magio.IoUring.{IoUring, Callback}
use magio.IoUring.Poll.{Call, Kernel, submit, Polled, serve, poll, etime, eagain, eintr}
use magio.IoUring.Pending.{requests_in, pending, asked_by, asked_by_all, submit-pending}
use magio.IoUring.Answered.{asked_on, requested}
use magio.IoUring.Callbacks.{MadeBy, Served, serve-Served}
use magio.IoUring.History.{History, Step, asks, wakes, polls, Reach, here, later, Reach-Accounted}

more : (xs ys : List Call) (l : List IoContext) → All (MadeBy xs) l → All (MadeBy (xs ++ ys)) l
more xs ys [] a = tt
more xs ys (ioc ∷ l) ((c, m, q, e), a) = ((c, mem-append_left ys m, q, e), more xs ys l a)

also : (xs ys : List Call) (l : List IoContext) → All (MadeBy ys) l → All (MadeBy (xs ++ ys)) l
also xs ys [] a = tt
also xs ys (ioc ∷ l) ((c, m, q, e), a) = ((c, mem-append_right xs m, q, e), also xs ys l a)

asked_by-MadeBy : (c : Call) → All (MadeBy (c ∷ [])) (asked_by c)
asked_by-MadeBy (Call.cancel ioh) = tt
asked_by-MadeBy (Call.write_file ioh msg len offset p cb) = ((_, mem-cons_self, refl, refl), tt)
asked_by-MadeBy (Call.read_file ioh buf len offset p cb) = ((_, mem-cons_self, refl, refl), tt)
asked_by-MadeBy (Call.accept listener p cb) = ((_, mem-cons_self, refl, refl), tt)
asked_by-MadeBy (Call.connect socket remote p cb) = ((_, mem-cons_self, refl, refl), tt)
asked_by-MadeBy (Call.send socket msg len p cb) = ((_, mem-cons_self, refl, refl), tt)
asked_by-MadeBy (Call.receive socket buf len p cb) = ((_, mem-cons_self, refl, refl), tt)
asked_by-MadeBy (Call.send_to socket remote msg len p cb) = ((_, mem-cons_self, refl, refl), tt)
asked_by-MadeBy (Call.receive_from socket buf len p cb) = ((_, mem-cons_self, refl, refl), tt)

asked_by_all-MadeBy : (cs : List Call) → All (MadeBy cs) (asked_by_all cs)
asked_by_all-MadeBy [] = tt
asked_by_all-MadeBy (c ∷ cs) =
    All-append (MadeBy (c ∷ cs)) (asked_by c) (asked_by_all cs)
      (more (c ∷ []) cs (asked_by c) (asked_by-MadeBy c))
      (also (c ∷ []) cs (asked_by_all cs) (asked_by_all-MadeBy cs))

module _ (react : Callback → List Call) where
  -- The calls that the callbacks make, and those of a history.
  abbrev calls_on : List Callback → List Call
  calls_on [] = []
  calls_on (b ∷ bs) = react b ++ calls_on bs

  abbrev calls_in : {w w' : History react} → Step react w w' → List Call
  calls_in (asks c r h) = c ∷ []
  calls_in wakes = []
  calls_in (polls nanosec k x h) = calls_on x.callbacks

  abbrev pub made : {w : History react} → Reach react w → List Call
  made (here entries r h) = []
  made (later r x) = made r ++ calls_in x

  asked_on-MadeBy : (bs : List Callback) → All (MadeBy (calls_on bs)) (asked_on react bs)
  asked_on-MadeBy [] = tt
  asked_on-MadeBy (b ∷ bs) =
      All-append (MadeBy (calls_on (b ∷ bs))) (asked_by_all (react b)) (asked_on react bs)
        (more (react b) (calls_on bs) _ (asked_by_all-MadeBy (react b)))
        (also (react b) (calls_on bs) _ (asked_on-MadeBy bs))

  asked-MadeBy : {w : History react} (r : Reach react w) → All (MadeBy (made r)) w.asked
  asked-MadeBy (here entries r h) = tt
  asked-MadeBy (later {w} r (asks c q h)) =
      All-append (MadeBy (made r ++ c ∷ [])) w.asked (asked_by c)
        (more (made r) (c ∷ []) w.asked (asked-MadeBy r))
        (also (made r) (c ∷ []) (asked_by c) (asked_by-MadeBy c))
  asked-MadeBy (later {w} r wakes) = more (made r) [] w.asked (asked-MadeBy r)
  asked-MadeBy (later {w} r (polls nanosec k x h)) =
      let own = calls_on x.callbacks in
      All-append (MadeBy (made r ++ own)) w.asked (asked_on react x.callbacks)
        (more (made r) own w.asked (asked-MadeBy r))
        (also (made r) own _ (asked_on-MadeBy x.callbacks))

  pending-MadeBy : {w : History react} (r : Reach react w) → All (MadeBy (made r)) (pending w.ring)
  pending-MadeBy {w} r =
      let v = Reach-Accounted react r in
      All-right (MadeBy (made r)) (requested v.answers) (pending w.ring)
        (All-perm (MadeBy (made r)) v.once (asked-MadeBy r))

  -- A round of poll that does not serve makes no callback; one that does serves the completions.
  abbrev pub Round : List Call → IoUring → Kernel → Polled → Type 0
  Round calls ring k x =
      ((x.status ≢ pos 1) × (x.callbacks ≡ []))
      ⊎ ((x.status ≡ pos 1)
          × Served calls (submit ring k.submitted).in_flight k.completions x.callbacks)

  poll-Round :
      (calls : List Call) (r : IoUring) (nanosec : ℕ) (k : Kernel) (x : Polled)
      → All (MadeBy calls) (pending r)
      → poll react r nanosec k ≡ some x
      → Round calls r k x
  unfolding poll
  poll-Round calls r nanosec k x a h =
      let r' = submit r k.submitted in
      let inside =
        All-left (MadeBy calls) (requests_in r'.in_flight) (requests_in r'.sq)
          (subst (All (MadeBy calls)) (sym (submit-pending r k.submitted)) a) in
      let R = Round calls r k in
      if-All R ((nanosec == 0) && (r.io_num == 0)) _ _
        (λ y q. subst R (some-inj q) (inl (λ e. ground arith, refl)))
        (if-All R ((neg_part k.ret == etime) || (neg_part k.ret == eagain)) _ _
          (λ y q. subst R (some-inj q) (inl (λ e. ground arith, refl)))
          (if-All R (neg_part k.ret == eintr) _ _
            (λ y q. subst R (some-inj q) (inl (λ e. ground arith, refl)))
            (if-All R (is_negative k.ret) _ _
              (λ y q. subst R (some-inj q) (inl (λ e. ground arith, refl)))
              (λ y q.
                let ((r₂, backs), p₂, q₂) = bind-some (serve react r' k.completions) _ y q in
                subst R (some-inj q₂)
                  (inr (refl, serve-Served react calls k.completions r' (r₂, backs) inside p₂))))))
        x h

  -- After any history of the service, a round of poll either makes no callback and does not return
  -- 1, or it returns 1 and takes the completions one after the other: a completion that names a
  -- request makes the one callback of the call of IoService that made this request, with the
  -- pointer of that call, unless it is a send_to or a receive_from that failed, whose pointer is
  -- not the user's, and with the error code and the result of that completion; any other completion
  -- makes none.
  pub polled-Round :
      {w : History react} (r : Reach react w) (nanosec : ℕ) (k : Kernel) (x : Polled)
      → poll react w.ring nanosec k ≡ some x
      → Round (made r) w.ring k x
  polled-Round {w} r nanosec k x h = poll-Round (made r) w.ring nanosec k x (pending-MadeBy r) h
