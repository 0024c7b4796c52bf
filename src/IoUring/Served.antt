-- ===== src/IoUring/Served.antt =====
-- net/io_uring.cpp: io_num_ and the wake-up event over a round of poll.
use magio.Prelude.{
  ℕ, ◌≡◌, inl, inr, Option, none, some, List, [], ◌∷◌, arith, get_elem?, ◌>>=◌, bind-some, if-All,
  pos, ◌==◌, ◌||◌, ◌&&◌, neg_part, is_negative, Option-cases, some-inj, subst,
}
use magio.IoUring.{Entry, IoUring, Callback, handle_cqe}
use magio.IoUring.Poll.{
  Call, Completion, Kernel, remove_at, submit, Polled, etime, eagain, eintr, reaction, listed,
  serve_one, serve, poll,
}
use magio.IoUring.Count.{Balanced, calls-Balanced, submit-Balanced, handle_cqe-Balanced}

module _ (react : Callback → List Call) where
  reaction-Balanced :
      (r : IoUring) (back : Option Callback) (r' : IoUring)
      → reaction react r back ≡ some r'
      → Balanced r
      → Balanced r'
  reaction-Balanced r none r' h v = subst Balanced (some-inj h) v
  reaction-Balanced r (some c) r' h v = calls-Balanced (react c) r r' h v

  serve_one-Balanced :
      (r : IoUring) (e : Entry) (c : Completion) (x : IoUring × Option Callback)
      → get_elem? r.in_flight c.index ≡ some e
      → serve_one react r e c ≡ some x
      → Balanced r
      → Balanced x.0
  unfolding serve_one
  serve_one-Balanced r e c x g h v =
      let s = record r { in_flight = remove_at r.in_flight c.index } in
      let ((r₁, back), p, q) = bind-some (handle_cqe s e c.peer c.res) _ x h in
      let (r₂, p₂, q₂) = bind-some (reaction react r₁ back) _ x q in
      subst (λ y. Balanced y.0) (some-inj q₂)
        (reaction-Balanced r₁ back r₂ p₂
          (handle_cqe-Balanced r c.index e c.peer c.res (r₁, back) g p v))

  serve-Balanced :
      (cs : List Completion) (r : IoUring) (x : IoUring × List Callback)
      → serve react r cs ≡ some x
      → Balanced r
      → Balanced x.0
  unfolding serve
  serve-Balanced [] r x h v = subst (λ y. Balanced y.0) (some-inj h) v
  serve-Balanced (c ∷ cs) r x h v = elim (Option-cases (get_elem? r.in_flight c.index)) [
    | inl n ↦ serve-Balanced cs r x (ground (arith, n, h)) v
    | inr (e, g) ↦
        let ((r₁, back), p, q) =
          bind-some (serve_one react r e c)
            (λ (r', back). serve react r' cs >>= λ (r'', backs). some (r'', listed back backs)) x
            (ground (arith, g, h)) in
        let ((r₂, backs), p₂, q₂) = bind-some (serve react r₁ cs) _ x q in
        subst (λ y. Balanced y.0) (some-inj q₂)
          (serve-Balanced cs r₁ (r₂, backs) p₂ (serve_one-Balanced r e c (r₁, back) g p v))
  ]

  abbrev BalancedAfter : Polled → Type 0
  BalancedAfter x = Balanced x.ring

  served-Balanced :
      (cs : List Completion) (r : IoUring)
      → Balanced r
      → (x : Polled)
      → (serve react r cs >>= λ (r'', backs).
          some (record { ring = r''; status = pos 1; ec = 0; callbacks = backs }))
        ≡ some x
      → BalancedAfter x
  served-Balanced cs r v x h =
      let ((r₁, backs), p, q) = bind-some (serve react r cs) _ x h in
      subst BalancedAfter (some-inj q) (serve-Balanced cs r (r₁, backs) p v)

  -- A round of `poll` leaves the service balanced, whatever the kernel did and whatever the
  -- callbacks asked for, if no request was made on a full queue.
  pub poll-Balanced :
      (r : IoUring) (nanosec : ℕ) (k : Kernel) (x : Polled)
      → Balanced r
      → poll react r nanosec k ≡ some x
      → Balanced x.ring
  unfolding poll
  poll-Balanced r nanosec k x v h =
      let w = submit-Balanced r k.submitted v in
      if-All BalancedAfter ((nanosec == 0) && (r.io_num == 0)) _ _
        (λ y q. subst BalancedAfter (some-inj q) v)
        (if-All BalancedAfter ((neg_part k.ret == etime) || (neg_part k.ret == eagain)) _ _
          (λ y q. subst BalancedAfter (some-inj q) w)
          (if-All BalancedAfter (neg_part k.ret == eintr) _ _
            (λ y q. subst BalancedAfter (some-inj q) w)
            (if-All BalancedAfter (is_negative k.ret) _ _
              (λ y q. subst BalancedAfter (some-inj q) w)
              (served-Balanced k.completions (submit r k.submitted) w))))
        x h
