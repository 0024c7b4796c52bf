-- ===== src/IoUring/Callbacks.antt =====
-- net/io_service.cpp, net/io_uring.cpp: which callbacks a round of poll makes, and what each is
-- given.
use mathlib.Core.List.{Mem}
use magio.Prelude.{
  ℕ, suc, ◌≡◌, ◌≢◌, refl, ap, sym, ◌∙◌, subst, ◌⊎◌, inl, inr, true, false, Option, none, some, List,
  [], ◌∷◌, ◌++◌, ℤ, pos, negsuc, All, All-left, All-right, All-perm, Bool-cases, Option-cases,
  get_elem?, bind-some, some-inj, arith, ◌>>=◌,
}
use magio.Io.{IoContext, user}
use magio.IoUring
use magio.IoUring.{
  Entry, request, wake_read, cancelling, IoUring, Callback, completed, handle_cqe, prepare,
  prep_wake_up, accept_on, connect_to, send_on, receive_on, is_noop, decrement,
}
use magio.IoUring.Poll.{
  Call, call, calls, Completion, remove_at, reaction, listed, serve_one, serve,
}
use magio.IoUring.Completion.{
  request_of, is_request, by_message, callback_of, Answers, success-Answers, failure-Answers,
  message_failure_misdirected,
}
use magio.IoUring.Pending.{request_in, requests_in, requests_in-remove_at}

-- The error code and the result for the kernel's `res`.
abbrev pub Passed : ℤ → Callback → Type 0
Passed (pos n) back = (back.ec ≡ 0) × (back.ioc.res ≡ n)
Passed (negsuc n) back = (back.ec ≡ suc n) × (back.ioc.res ≡ 0)

-- The pointer is the user's, but for a failed request by a message header.
abbrev pub Directed : Call → ℤ → Callback → Type 0
Directed c (pos n) back = Answers c back
Directed c (negsuc n) back =
    ((by_message c ≡ false) × Answers c back)
    ⊎ ((by_message c ≡ true) × (back.cb ≡ callback_of c) × ((p : ℕ) → back.ptr ≢ user p))

-- A request that one of the calls made.
abbrev pub MadeBy : List Call → IoContext → Type 0
MadeBy made ioc = (c : Call) × Mem c made × (is_request c ≡ true) × (request_of c ≡ ioc)

-- The callback of an entry for its completion: for a call among `made` whose request the entry is.
pub data Due (made : List Call) : Entry → Completion → List Callback → Type 0 where
  called :
      (p : IoUring.Prepared) (c : Call) (k : Completion) (back : Callback)
      → Mem c made
      → is_request c ≡ true
      → Directed c k.res back
      → Passed k.res back
      → Due made (request p (request_of c)) k (back ∷ [])
  woken : (k : Completion) → Due made wake_read k []
  cancelled : (fd : ℕ) (k : Completion) → Due made (cancelling fd) k []

-- The completions, one after the other, each for the entry that it names, which leaves the kernel.
pub data Served (made : List Call) : List Entry → List Completion → List Callback → Type 0 where
  done : {es : List Entry} → Served made es [] []
  unknown :
      {es : List Entry} {k : Completion} {ks : List Completion} {backs : List Callback}
      → get_elem? es k.index ≡ none
      → Served made es ks backs
      → Served made es (k ∷ ks) backs
  known :
      {es : List Entry} (e : Entry) {k : Completion} {ks : List Completion}
      {own backs : List Callback}
      → get_elem? es k.index ≡ some e
      → Due made e k own
      → Served made (remove_at es k.index) ks backs
      → Served made es (k ∷ ks) (own ++ backs)

completed-Passed :
    (c : Call) (peer : List ℕ) (res : ℤ)
    → is_request c ≡ true
    → Passed res (completed peer (request_of c) res)
unfolding completed
completed-Passed c peer (pos n) q = let (answers, ec, res) = success-Answers c peer n q in (ec, res)
completed-Passed c peer (negsuc n) q = (refl, refl)

completed-Directed :
    (c : Call) (peer : List ℕ) (res : ℤ)
    → is_request c ≡ true
    → Directed c res (completed peer (request_of c) res)
completed-Directed c peer (pos n) q = (success-Answers c peer n q).0
completed-Directed c peer (negsuc n) q = elim (Bool-cases (by_message c)) [
  | inl m ↦ let (cb, ptr) = message_failure_misdirected c peer n m in inr (m, cb, ptr)
  | inr m ↦ inl (m, (failure-Answers c peer n q m).0)
]

prepare-in_flight :
    (r : IoUring) (e : Entry) (r' : IoUring) → prepare r e ≡ some r' → r'.in_flight ≡ r.in_flight
unfolding prepare
prepare-in_flight r e r' h = ground (arith, h)

-- What is prepared does not go to the kernel in the round.
call-in_flight :
    (r : IoUring) (c : Call) (r' : IoUring) → call r c ≡ some r' → r'.in_flight ≡ r.in_flight
unfolding call IoUring.write_file IoUring.read_file accept_on connect_to send_on receive_on
    IoUring.send_to IoUring.receive_from IoUring.cancel
call-in_flight r (Call.write_file ioh msg len offset p cb) r' h = prepare-in_flight _ _ r' h
call-in_flight r (Call.read_file ioh buf len offset p cb) r' h = prepare-in_flight _ _ r' h
call-in_flight r (Call.accept listener p cb) r' h = prepare-in_flight _ _ r' h
call-in_flight r (Call.connect socket remote p cb) r' h = prepare-in_flight _ _ r' h
call-in_flight r (Call.send socket msg len p cb) r' h = prepare-in_flight _ _ r' h
call-in_flight r (Call.receive socket buf len p cb) r' h = prepare-in_flight _ _ r' h
call-in_flight r (Call.send_to socket remote msg len p cb) r' h = prepare-in_flight _ _ r' h
call-in_flight r (Call.receive_from socket buf len p cb) r' h = prepare-in_flight _ _ r' h
call-in_flight r (Call.cancel ioh) r' h = prepare-in_flight r _ r' h

calls-in_flight :
    (cs : List Call) (r r' : IoUring) → calls r cs ≡ some r' → r'.in_flight ≡ r.in_flight
unfolding calls
calls-in_flight [] r r' h = ap (λ (x : IoUring). x.in_flight) (sym (some-inj h))
calls-in_flight (c ∷ cs) r r' h =
    let (r₁, s, t) = bind-some (call r c) (λ x. calls x cs) r' h in
    calls-in_flight cs r₁ r' t ∙ call-in_flight r c r₁ s

module _ (react : Callback → List Call) (made : List Call) where
  reaction-in_flight :
      (r : IoUring) (back : Option Callback) (r' : IoUring)
      → reaction react r back ≡ some r'
      → r'.in_flight ≡ r.in_flight
  reaction-in_flight r none r' h = ap (λ (x : IoUring). x.in_flight) (sym (some-inj h))
  reaction-in_flight r (some c) r' h = calls-in_flight (react c) r r' h

  handle_cqe-Due :
      (r : IoUring) (e : Entry) (k : Completion) (x : IoUring × Option Callback)
      → All (MadeBy made) (request_in e)
      → handle_cqe r e k.peer k.res ≡ some x
      → (x.0.in_flight ≡ r.in_flight) × Due made e k (listed x.1 [])
  unfolding handle_cqe prep_wake_up
  handle_cqe-Due r (request p ioc) k x ((c, m, q, s), _) h =
      let back = completed k.peer ioc k.res in
      (
        ap (λ y. y.0.in_flight) (sym (some-inj h))
            ∙ elim (Bool-cases (is_noop ioc.op)) [ inl b ↦ rw (b) refl | inr b ↦ rw (b) refl ],
        subst (λ y. Due made (request p ioc) k (listed y.1 [])) (some-inj h)
            (subst (λ y. Due made (request p y) k (completed k.peer y k.res ∷ [])) s
              (called p c k _ m q (completed-Directed c k.peer k.res q)
                (completed-Passed c k.peer k.res q))),
      )
  handle_cqe-Due r wake_read k x a h =
      let (r', p, q) =
        bind-some (prep_wake_up (record r { event = 0 })) (λ y. some (y, none)) x h in
      (
        ap (λ y. y.0.in_flight) (sym (some-inj q))
            ∙ prepare-in_flight (record r { event = 0 }) wake_read r' p,
        subst (λ y. Due made wake_read k (listed y.1 [])) (some-inj q) (woken k),
      )
  handle_cqe-Due r (cancelling fd) k x a h = (
    ap (λ y. y.0.in_flight) (sym (some-inj h)),
    subst (λ y. Due made (cancelling fd) k (listed y.1 [])) (some-inj h) (cancelled fd k),
  )

  serve_one-Due :
      (r : IoUring) (e : Entry) (k : Completion) (x : IoUring × Option Callback)
      → All (MadeBy made) (request_in e)
      → serve_one react r e k ≡ some x
      → (x.0.in_flight ≡ remove_at r.in_flight k.index) × Due made e k (listed x.1 [])
  unfolding serve_one
  serve_one-Due r e k x a h =
      let s = record r { in_flight = remove_at r.in_flight k.index } in
      let ((r₁, back), p, q) = bind-some (handle_cqe s e k.peer k.res) _ x h in
      let (r₂, p₂, q₂) = bind-some (reaction react r₁ back) _ x q in
      let (same, due) = handle_cqe-Due s e k (r₁, back) a p in
      subst (λ y. (y.0.in_flight ≡ s.in_flight) × Due made e k (listed y.1 [])) (some-inj q₂)
        (reaction-in_flight r₁ back r₂ p₂ ∙ same, due)

  listed-append :
      (back : Option Callback) (cs : List Callback) → listed back [] ++ cs ≡ listed back cs
  listed-append none cs = refl
  listed-append (some c) cs = refl

  pub serve-Served :
      (ks : List Completion) (r : IoUring) (x : IoUring × List Callback)
      → All (MadeBy made) (requests_in r.in_flight)
      → serve react r ks ≡ some x
      → Served made r.in_flight ks x.1
  unfolding serve
  serve-Served [] r x a h = subst (λ y. Served made r.in_flight [] y.1) (some-inj h) done
  serve-Served (k ∷ ks) r x a h = elim (Option-cases (get_elem? r.in_flight k.index)) [
    | inl n ↦ unknown n (serve-Served ks r x a (ground (arith, n, h)))
    | inr (e, g) ↦
        let ((r₁, back), p, q) =
          bind-some (serve_one react r e k)
            (λ (r', back). serve react r' ks >>= λ (r'', backs). some (r'', listed back backs)) x
            (ground (arith, g, h)) in
        let ((r₂, backs), p₂, q₂) = bind-some (serve react r₁ ks) _ x q in
        let left = requests_in (remove_at r.in_flight k.index) in
        let split = All-perm (MadeBy made) (requests_in-remove_at r.in_flight k.index e g) a in
        let (same, due) =
          serve_one-Due r e k (r₁, back) (All-left (MadeBy made) (request_in e) left split) p in
        let rest =
          serve-Served ks r₁ (r₂, backs)
            (subst (λ l. All (MadeBy made) (requests_in l)) (sym same)
              (All-right (MadeBy made) (request_in e) left split))
            p₂ in
        subst (λ y. Served made r.in_flight (k ∷ ks) y.1) (some-inj q₂)
          (subst (Served made r.in_flight (k ∷ ks)) (listed-append back backs)
            (known e g due (subst (λ l. Served made l ks backs) same rest)))
  ]
