-- ===== src/IoUring/Room.antt =====
-- net/io_uring.cpp: the entries that a round of `poll` prepares, against the room for them.
use magio.Prelude.{
  ℕ, suc, ◌+◌, ◌*◌, ◌≤◌, ◌<◌, ◌≡◌, refl, ap, ◌∙◌, inl, inr, Bool, true, false, Option, none, some,
  List, [], ◌∷◌, ◌++◌, ◌==◌, ◌&&◌, ◌||◌, arith, if-total, get_elem?, length, length-append, pos, ℤ,
  ◌>>=◌, Option-cases, is_negative, neg_part, if◌then◌else◌,
}
use magio.IoUring
use magio.IoUring.{
  Entry, request, wake_read, cancelling, IoUring, Callback, prepare, decrement, is_noop, handle_cqe,
  prep_wake_up, accept_on, connect_to, send_on, receive_on,
}
use magio.IoUring.Count.{Balanced}
use magio.IoUring.Served.{poll-Balanced}
use magio.IoUring.Poll.{
  Call, call, calls, Completion, Kernel, remove_at, submit, Polled, etime, eagain, eintr, reaction,
  listed, serve_one, serve, poll,
}

-- `r'` has at most `n` more prepared entries than `r`.
record Grown (n : ℕ) (r r' : IoUring) : Type 0 where
  pub same_entries : r'.entries ≡ r.entries
  pub prepared : length r'.sq ≤ length r.sq + n

prepare_room :
    (r r₀ : IoUring) (e : Entry)
    → r₀.sq ≡ r.sq
    → r₀.entries ≡ r.entries
    → length r.sq < r.entries
    → (r' : IoUring) × (prepare r₀ e ≡ some r') × Grown 1 r r'
unfolding prepare
prepare_room r r₀ e p q h = (
  record r₀ { sq = r₀.sq ++ e ∷ [] },
  ground (arith, h, ap length p, q),
  record { same_entries = q; prepared = omega (arith, ap length p, length-append r₀.sq (e ∷ [])) },
)

call_room :
    (r : IoUring) (c : Call)
    → length r.sq < r.entries
    → (r' : IoUring) × (call r c ≡ some r') × Grown 1 r r'
unfolding call IoUring.write_file IoUring.read_file accept_on connect_to send_on receive_on
    IoUring.send_to IoUring.receive_from IoUring.cancel
call_room r (Call.write_file ioh msg len offset p cb) h = prepare_room r _ _ refl refl h
call_room r (Call.read_file ioh buf len offset p cb) h = prepare_room r _ _ refl refl h
call_room r (Call.accept listener p cb) h = prepare_room r _ _ refl refl h
call_room r (Call.connect socket remote p cb) h = prepare_room r _ _ refl refl h
call_room r (Call.send socket msg len p cb) h = prepare_room r _ _ refl refl h
call_room r (Call.receive socket buf len p cb) h = prepare_room r _ _ refl refl h
call_room r (Call.send_to socket remote msg len p cb) h = prepare_room r _ _ refl refl h
call_room r (Call.receive_from socket buf len p cb) h = prepare_room r _ _ refl refl h
call_room r (Call.cancel ioh) h = prepare_room r _ _ refl refl h

Grown-trans :
    (m n k : ℕ) (r r' r'' : IoUring) → m + n ≤ k → Grown m r r' → Grown n r' r'' → Grown k r r''
Grown-trans m n k r r' r'' b g g' = record {
  same_entries = g'.same_entries ∙ g.same_entries;
  prepared = omega (arith, b, g.prepared, g'.prepared);
}

calls_room :
    (r : IoUring) (cs : List Call)
    → length r.sq + length cs ≤ r.entries
    → (r' : IoUring) × (calls r cs ≡ some r') × Grown (length cs) r r'
unfolding calls
calls_room r [] h = (r, refl, record { same_entries = refl; prepared = omega arith })
calls_room r (c ∷ cs) h =
    let (r₁, p, g) = call_room r c (omega (arith, h)) in
    let (r₂, q, g') = calls_room r₁ cs (ground (arith, h, g.same_entries, g.prepared)) in
    (
      r₂,
      ap (λ o. o >>= λ x. calls x cs) p ∙ q,
      Grown-trans 1 (length cs) _ r r₁ r₂ (omega arith) g g',
    )

counted_down-Grown :
    (r r₀ : IoUring) (b : Bool)
    → r₀.sq ≡ r.sq
    → r₀.entries ≡ r.entries
    → Grown 0 r (if b then r₀ else record r₀ { io_num = decrement r₀.io_num })
counted_down-Grown r r₀ true s q = record {
  same_entries = q;
  prepared = omega (arith, ap length s);
}
counted_down-Grown r r₀ false s q = record {
  same_entries = q;
  prepared = omega (arith, ap length s);
}

handle_cqe_room :
    (r r₀ : IoUring) (e : Entry) (peer : List ℕ) (res : ℤ)
    → r₀.sq ≡ r.sq
    → r₀.entries ≡ r.entries
    → length r.sq < r.entries
    → (x : IoUring × Option Callback) × (handle_cqe r₀ e peer res ≡ some x)
      × Grown (elim x.1 [ none ↦ 1 | some c ↦ 0 ]) r x.0
unfolding handle_cqe prep_wake_up
handle_cqe_room r r₀ (request p ioc) peer res s q h =
    (_, refl, counted_down-Grown r r₀ (is_noop ioc.op) s q)
handle_cqe_room r r₀ wake_read peer res s q h =
    let (r', p, g) = prepare_room r (record r₀ { event = 0 }) wake_read s q h in
    ((r', none), ap (λ o. o >>= λ x. some (x, none)) p, g)
handle_cqe_room r r₀ (cancelling fd) peer res s q h = (
  _,
  refl,
  Grown-trans 0 0 1 r r₀ r₀ (omega arith) (counted_down-Grown r r₀ true s q)
      (counted_down-Grown r₀ r₀ true refl refl),
)

suc-mul : (m n : ℕ) → suc m * n ≡ n + m * n
suc-mul m n = omega arith

module _ (react : Callback → List Call) (b : ℕ) (few : (c : Callback) → length (react c) ≤ b) where
  reaction_room :
      (r r₁ : IoUring) (back : Option Callback)
      → Grown (elim back [ none ↦ 1 | some c ↦ 0 ]) r r₁
      → length r.sq + suc b ≤ r.entries
      → (r₂ : IoUring) × (reaction react r₁ back ≡ some r₂) × Grown (suc b) r r₂
  reaction_room r r₁ none g h =
      (r₁, refl, record { same_entries = g.same_entries; prepared = omega (arith, g.prepared) })
  reaction_room r r₁ (some c) g h =
      let (r₂, p, g') =
        calls_room r₁ (react c) (ground (arith, few c, h, g.same_entries, g.prepared)) in
      (r₂, p, Grown-trans 0 (length (react c)) (suc b) r r₁ r₂ (omega (arith, few c)) g g')

  -- Room for one more entry than the callback asks for.
  serve_one_room :
      (r : IoUring) (e : Entry) (c : Completion)
      → length r.sq + suc b ≤ r.entries
      → (x : IoUring × Option Callback) × (serve_one react r e c ≡ some x) × Grown (suc b) r x.0
  unfolding serve_one
  serve_one_room r e c h =
      let r₀ = record r { in_flight = remove_at r.in_flight c.index } in
      let ((r₁, back), p, g) = handle_cqe_room r r₀ e c.peer c.res refl refl (omega (arith, h)) in
      let (r₂, q, g') = reaction_room r r₁ back g h in
      (
        (r₂, back),
        ap (λ o. o >>= λ (x, y). reaction react x y >>= λ z. some (z, y)) p
            ∙ ap (λ o. o >>= λ z. some (z, back)) q,
        g',
      )

  serve_room :
      (cs : List Completion) (r : IoUring)
      → length r.sq + length cs * suc b ≤ r.entries
      → (x : IoUring × List Callback) × (serve react r cs ≡ some x)
  unfolding serve
  serve_room [] r h = (_, refl)
  serve_room (c ∷ cs) r h =
      let product = suc-mul (length cs) (suc b) in
      elim (Option-cases (get_elem? r.in_flight c.index)) [
        | inl n ↦
            let (x, p) = serve_room cs r (omega (arith, h, product)) in (x, ground (arith, n, p))
        | inr (e, f) ↦
            let ((r₁, back), p, g) = serve_one_room r e c (omega (arith, h, product)) in
            let ((r₂, backs), q) =
              serve_room cs r₁ (ground (arith, h, g.same_entries, g.prepared, product)) in
            ((r₂, listed back backs), ground (arith, f, p, q))
      ]

  poll_total :
      (r : IoUring) (nanosec : ℕ) (k : Kernel)
      → length (submit r k.submitted).sq + length k.completions * suc b
        ≤ (submit r k.submitted).entries
      → (x : Polled) × (poll react r nanosec k ≡ some x)
  unfolding poll
  poll_total r nanosec k h =
      let ((r', backs), p) = serve_room k.completions (submit r k.submitted) h in
      if-total ((nanosec == 0) && (r.io_num == 0)) (_, refl)
        (if-total ((neg_part k.ret == etime) || (neg_part k.ret == eagain)) (_, refl)
          (if-total (neg_part k.ret == eintr) (_, refl)
            (if-total (is_negative k.ret) (_, refl)
              (
                _,
                ap
                    (λ o. o >>= λ (r'', backs).
                      some (record { ring = r''; status = pos 1; ec = 0; callbacks = backs }))
                    p,
              ))))

  -- If every callback makes at most `b` calls, and the submission queue has room for `b + 1`
  -- entries for each completion, a round of `poll` succeeds and leaves the service balanced.
  pub poll_serves :
      (r : IoUring) (nanosec : ℕ) (k : Kernel)
      → Balanced r
      → length (submit r k.submitted).sq + length k.completions * suc b
        ≤ (submit r k.submitted).entries
      → (x : Polled) × (poll react r nanosec k ≡ some x) × Balanced x.ring
  poll_serves r nanosec k v h =
      let (x, p) = poll_total r nanosec k h in (x, p, poll-Balanced react r nanosec k x v p)
