-- ===== src/IoUring/Count.antt =====
-- net/io_uring.cpp: `io_num_` against the requests that are outstanding, and the read on the event
-- descriptor that `wake_up` relies on.
use magio.Prelude.{
  ℕ, zero, suc, ◌+◌, ◌%◌, ◌^◌, ◌≡◌, refl, ◌∙◌, Bool, true, false, Option, none, some, List, [], ◌∷◌,
  ◌++◌, arith, if◌then◌else◌, get_elem?, ℤ, bind-some, some-inj, subst, ap,
}
use magio.IoService
use magio.IoUring.{
  Entry, request, wake_read, cancelling, IoUring, Callback, increment, decrement, is_noop, prepare,
  handle_cqe, prep_wake_up, construct, accept_on, connect_to, send_on, receive_on,
}
use magio.IoUring
use magio.IoUring.Poll.{Call, call, calls, remove_at, submit}

abbrev pub request_weight : Entry → ℕ
request_weight (request p ioc) = if is_noop ioc.op then 0 else 1
request_weight _ = 0

abbrev wake_weight : Entry → ℕ
wake_weight wake_read = 1
wake_weight _ = 0

abbrev pub total : (Entry → ℕ) → List Entry → ℕ
total w [] = 0
total w (e ∷ es) = w e + total w es

total-append : (w : Entry → ℕ) (xs ys : List Entry) → total w (xs ++ ys) ≡ total w xs + total w ys
total-append w [] ys = omega arith
total-append w (x ∷ xs) ys = omega (arith, total-append w xs ys)

total-remove_at :
    (w : Entry → ℕ) (xs : List Entry) (i : ℕ) (e : Entry)
    → get_elem? xs i ≡ some e
    → total w xs ≡ w e + total w (remove_at xs i)
total-remove_at w [] i e h = absurd (ground arith)
total-remove_at w (x ∷ xs) zero e h = ground arith
total-remove_at w (x ∷ xs) (suc i) e h = omega (arith, total-remove_at w xs i e h)

abbrev pub outstanding : (Entry → ℕ) → IoUring → ℕ
outstanding w r = total w r.sq + total w r.in_flight

-- `io_num_` is the number of requests that are prepared or in flight (modulo the width of a
-- `size_t`), and the event descriptor is being read exactly once.
pub record Balanced (r : IoUring) : Type 0 where
  pub counted : r.io_num ≡ outstanding request_weight r % 2 ^ 64
  pub armed : outstanding wake_weight r ≡ 1

pub construct-Balanced : (entries : ℕ) (r : IoUring) → construct entries ≡ some r → Balanced r
unfolding construct
construct-Balanced entries r h = record { counted = ground arith; armed = ground arith }

-- A request that IoService has built is prepared, and counted.
prepare_counted :
    (r : IoUring) (e : Entry) (r' : IoUring)
    → request_weight e ≡ 1
    → wake_weight e ≡ 0
    → prepare (record r { io_num = increment r.io_num }) e ≡ some r'
    → Balanced r
    → Balanced r'
unfolding prepare
prepare_counted r e r' q w h v = record {
  counted = ground (arith, total-append request_weight r.sq (e ∷ []), v.counted);
  armed = ground (arith, total-append wake_weight r.sq (e ∷ []), v.armed);
}

prepare_uncounted :
    (r : IoUring) (e : Entry) (r' : IoUring)
    → request_weight e ≡ 0
    → wake_weight e ≡ 0
    → prepare r e ≡ some r'
    → Balanced r
    → Balanced r'
unfolding prepare
prepare_uncounted r e r' q w h v = record {
  counted = ground (arith, total-append request_weight r.sq (e ∷ []), v.counted);
  armed = ground (arith, total-append wake_weight r.sq (e ∷ []), v.armed);
}

pub call-Balanced : (c : Call) (r r' : IoUring) → call r c ≡ some r' → Balanced r → Balanced r'
unfolding call IoUring.write_file IoUring.read_file accept_on connect_to send_on receive_on
    IoUring.send_to IoUring.receive_from IoUring.cancel IoService.write_file IoService.read_file
    IoService.accept IoService.connect IoService.send IoService.receive IoService.send_to
    IoService.receive_from
call-Balanced (Call.write_file ioh msg len offset p cb) r r' h v =
    prepare_counted r _ r' refl refl h v
call-Balanced (Call.read_file ioh buf len offset p cb) r r' h v =
    prepare_counted r _ r' refl refl h v
call-Balanced (Call.accept listener p cb) r r' h v = prepare_counted r _ r' refl refl h v
call-Balanced (Call.connect socket remote p cb) r r' h v = prepare_counted r _ r' refl refl h v
call-Balanced (Call.send socket msg len p cb) r r' h v = prepare_counted r _ r' refl refl h v
call-Balanced (Call.receive socket buf len p cb) r r' h v = prepare_counted r _ r' refl refl h v
call-Balanced (Call.send_to socket remote msg len p cb) r r' h v =
    prepare_counted r _ r' refl refl h v
call-Balanced (Call.receive_from socket buf len p cb) r r' h v =
    prepare_counted r _ r' refl refl h v
call-Balanced (Call.cancel ioh) r r' h v = prepare_uncounted r _ r' refl refl h v

pub calls-Balanced :
    (cs : List Call) (r r' : IoUring) → calls r cs ≡ some r' → Balanced r → Balanced r'
unfolding calls
calls-Balanced [] r r' h v = subst Balanced (some-inj h) v
calls-Balanced (c ∷ cs) r r' h v =
    let (r₁, s, t) = bind-some (call r c) (λ x. calls x cs) r' h in
    calls-Balanced cs r₁ r' t (call-Balanced c r r₁ s v)

-- The kernel takes the prepared entries, or does not: what is outstanding is the same.
pub submit-Balanced : (r : IoUring) (b : Bool) → Balanced r → Balanced (submit r b)
submit-Balanced r true v = record {
  counted = ground (arith, total-append request_weight r.in_flight r.sq, v.counted);
  armed = ground (arith, total-append wake_weight r.in_flight r.sq, v.armed);
}
submit-Balanced r false v = v

decrement_suc : (n : ℕ) → decrement ((n + 1) % 2 ^ 64) ≡ n % 2 ^ 64
decrement_suc n = omega arith

-- An entry that reads no event leaves the kernel, and `io_num_` with it if it counts.
leave-Balanced :
    (r : IoUring) (i : ℕ) (e : Entry) (b : Bool)
    → get_elem? r.in_flight i ≡ some e
    → wake_weight e ≡ 0
    → request_weight e ≡ (if b then 0 else 1)
    → Balanced r
    → (let s = record r { in_flight = remove_at r.in_flight i } in
        Balanced (if b then s else record s { io_num = decrement s.io_num }))
leave-Balanced r i e true g w q v = record {
  counted = ground (arith, total-remove_at request_weight r.in_flight i e g, v.counted);
  armed = ground (arith, total-remove_at wake_weight r.in_flight i e g, v.armed);
}
leave-Balanced r i e false g w q v = record {
  counted =
      ap decrement (
        v.counted
        ∙ ap (λ n. n % 2 ^ 64) (omega (arith, q, total-remove_at request_weight r.in_flight i e g)))
      ∙ decrement_suc
          (outstanding request_weight (record r { in_flight = remove_at r.in_flight i }));
  armed = ground (arith, total-remove_at wake_weight r.in_flight i e g, v.armed);
}

-- The read on the event descriptor leaves the kernel, and is prepared again.
rearm-Balanced :
    (r : IoUring) (i : ℕ) (r' : IoUring)
    → get_elem? r.in_flight i ≡ some wake_read
    → prep_wake_up (record r { in_flight = remove_at r.in_flight i; event = 0 }) ≡ some r'
    → Balanced r
    → Balanced r'
unfolding prep_wake_up
rearm-Balanced r i r' g h v = record {
  counted = ground (
    arith,
    total-append request_weight r.sq (wake_read ∷ []),
    total-remove_at request_weight r.in_flight i wake_read g,
    v.counted,
  );
  armed = ground (
    arith,
    total-append wake_weight r.sq (wake_read ∷ []),
    total-remove_at wake_weight r.in_flight i wake_read g,
    v.armed,
  );
}

-- `handle_cqe` for an entry that was in flight.
pub handle_cqe-Balanced :
    (r : IoUring) (i : ℕ) (e : Entry) (peer : List ℕ) (res : ℤ) (x : IoUring × Option Callback)
    → get_elem? r.in_flight i ≡ some e
    → handle_cqe (record r { in_flight = remove_at r.in_flight i }) e peer res ≡ some x
    → Balanced r
    → Balanced x.0
unfolding handle_cqe
handle_cqe-Balanced r i (request p ioc) peer res x g h v =
    subst (λ y. Balanced y.0) (some-inj h)
      (leave-Balanced r i (request p ioc) (is_noop ioc.op) g refl refl v)
handle_cqe-Balanced r i wake_read peer res x g h v =
    let s = record r { in_flight = remove_at r.in_flight i; event = 0 } in
    let (r', p, q) = bind-some (prep_wake_up s) (λ y. some (y, none)) x h in
    subst (λ y. Balanced y.0) (some-inj q) (rearm-Balanced r i r' g p v)
handle_cqe-Balanced r i (cancelling fd) peer res x g h v =
    subst (λ y. Balanced y.0) (some-inj h) (leave-Balanced r i (cancelling fd) true g refl refl v)
