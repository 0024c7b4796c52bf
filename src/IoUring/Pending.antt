-- ===== src/IoUring/Pending.antt =====
-- net/io_uring.cpp: the requests that are prepared or in flight, one by one.
use mathlib.Core.List.{Permᴰ, append_assoc, append-nil}
use mathlib.Core.List.Permᴰ
use magio.Prelude.{
  bring_forward, ℕ, zero, suc, ◌≡◌, refl, ap, sym, ◌∙◌, subst, Bool, true, false, some, List, [],
  ◌∷◌, ◌++◌, arith, get_elem?, ltb, length, bind-some, some-inj, Bool-cases, inl, inr,
}
use magio.Io.{IoContext}
use magio.IoUring
use magio.IoUring.{
  Entry, request, wake_read, cancelling, IoUring, prepare, accept_on, connect_to, send_on,
  receive_on,
}
use magio.IoUring.Completion.{request_of}
use magio.IoUring.Poll.{Call, call, calls, remove_at, submit}

abbrev pub request_in : Entry → List IoContext
request_in (request p ioc) = ioc ∷ []
request_in _ = []

abbrev pub requests_in : List Entry → List IoContext
requests_in [] = []
requests_in (e ∷ es) = request_in e ++ requests_in es

pub requests_in-append :
    (xs ys : List Entry) → requests_in (xs ++ ys) ≡ requests_in xs ++ requests_in ys
requests_in-append [] ys = refl
requests_in-append (x ∷ xs) ys =
    ap (λ l. request_in x ++ l) (requests_in-append xs ys)
    ∙ sym (append_assoc (request_in x) (requests_in xs) (requests_in ys))

pub requests_in-remove_at :
    (xs : List Entry) (i : ℕ) (e : Entry)
    → get_elem? xs i ≡ some e
    → Permᴰ (requests_in xs) (request_in e ++ requests_in (remove_at xs i))
requests_in-remove_at [] i e h = absurd (ground arith)
requests_in-remove_at (x ∷ xs) zero e h =
    subst (λ y. Permᴰ (requests_in (x ∷ xs)) (request_in y ++ requests_in xs)) (some-inj h)
      (Permᴰ.refl _)
requests_in-remove_at (x ∷ xs) (suc i) e h =
    bring_forward (request_in x) (request_in e) (requests_in (remove_at xs i))
      (requests_in-remove_at xs i e h)

-- What the service still owes, and what a call asks of it.
abbrev pub pending : IoUring → List IoContext
pending r = requests_in r.in_flight ++ requests_in r.sq

abbrev pub asked_by : Call → List IoContext
asked_by (Call.cancel ioh) = []
asked_by c = request_of c ∷ []

abbrev pub asked_by_all : List Call → List IoContext
asked_by_all [] = []
asked_by_all (c ∷ cs) = asked_by c ++ asked_by_all cs

prepare-queues :
    (r : IoUring) (e : Entry) (r' : IoUring)
    → ltb (length r.sq) r.entries ≡ true
    → prepare r e ≡ some r'
    → r' ≡ record r { sq = r.sq ++ e ∷ [] }
unfolding prepare
prepare-queues r e r' b h = sym (some-inj (rw (b) at h))

-- `prepare r₀ e`, for a service `r₀` with the entries of `r`.
pub prepare-pending :
    (r r₀ : IoUring) (e : Entry) (r' : IoUring)
    → r₀.sq ≡ r.sq
    → r₀.in_flight ≡ r.in_flight
    → prepare r₀ e ≡ some r'
    → pending r' ≡ pending r ++ request_in e
unfolding prepare
prepare-pending r r₀ e r' s f h = elim (Bool-cases (ltb (length r₀.sq) r₀.entries)) [
  | inl b ↦
      let q = prepare-queues r₀ e r' b h in
      ap pending q
      ∙ ap (λ l. requests_in l ++ requests_in (r₀.sq ++ e ∷ [])) f
      ∙ ap (λ l. requests_in r.in_flight ++ l)
          (requests_in-append r₀.sq (e ∷ [])
            ∙ ap (λ l. requests_in l ++ (request_in e ++ [])) s
            ∙ ap (λ l. requests_in r.sq ++ l) (append-nil (request_in e)))
      ∙ sym (append_assoc (requests_in r.in_flight) (requests_in r.sq) (request_in e))
  | inr b ↦ absurd (ground (arith, b, h))
]

pub call-pending :
    (r : IoUring) (c : Call) (r' : IoUring)
    → call r c ≡ some r'
    → pending r' ≡ pending r ++ asked_by c
unfolding call request_of IoUring.write_file IoUring.read_file accept_on connect_to send_on
    receive_on IoUring.send_to IoUring.receive_from IoUring.cancel
call-pending r (Call.write_file ioh msg len offset p cb) r' h = prepare-pending r _ _ r' refl refl h
call-pending r (Call.read_file ioh buf len offset p cb) r' h = prepare-pending r _ _ r' refl refl h
call-pending r (Call.accept listener p cb) r' h = prepare-pending r _ _ r' refl refl h
call-pending r (Call.connect socket remote p cb) r' h = prepare-pending r _ _ r' refl refl h
call-pending r (Call.send socket msg len p cb) r' h = prepare-pending r _ _ r' refl refl h
call-pending r (Call.receive socket buf len p cb) r' h = prepare-pending r _ _ r' refl refl h
call-pending r (Call.send_to socket remote msg len p cb) r' h = prepare-pending r _ _ r' refl refl h
call-pending r (Call.receive_from socket buf len p cb) r' h = prepare-pending r _ _ r' refl refl h
call-pending r (Call.cancel ioh) r' h = prepare-pending r _ _ r' refl refl h

pub calls-pending :
    (cs : List Call) (r r' : IoUring)
    → calls r cs ≡ some r'
    → pending r' ≡ pending r ++ asked_by_all cs
unfolding calls
calls-pending [] r r' h = sym (ap pending (some-inj h)) ∙ sym (append-nil (pending r))
calls-pending (c ∷ cs) r r' h =
    let (r₁, s, t) = bind-some (call r c) (λ x. calls x cs) r' h in
    calls-pending cs r₁ r' t
    ∙ ap (λ l. l ++ asked_by_all cs) (call-pending r c r₁ s)
    ∙ append_assoc (pending r) (asked_by c) (asked_by_all cs)

pub submit-pending : (r : IoUring) (b : Bool) → pending (submit r b) ≡ pending r
submit-pending r true =
    append-nil (requests_in (r.in_flight ++ r.sq)) ∙ requests_in-append r.in_flight r.sq
submit-pending r false = refl
