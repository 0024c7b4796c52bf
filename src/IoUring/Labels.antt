-- ===== src/IoUring/Labels.antt =====
-- net/io_service.cpp, net/io_uring.cpp: the requests that IoService builds. Each names its
-- operation, so that the service counts it.
use magio.Prelude.{
  All, All-append, All-left, All-right, true, ◌≡◌, refl, ap, sym, ◌∙◌, false, List, [], ◌∷◌, arith,
  length, length-append,
}
use magio.Io.{IoContext}
use magio.IoService
use magio.IoUring.{Entry, request, wake_read, cancelling, IoUring, is_noop}
use magio.IoUring.Count.{request_weight, total, outstanding}
use magio.IoUring.Completion.{is_request, request_of}
use magio.IoUring.Pending.{requests_in, pending, asked_by, asked_by_all}
use magio.IoUring.Poll.{Call}

-- A request that a call makes.
abbrev pub Made : IoContext → Type 0
Made x = (c : Call) × (is_request c ≡ true) × (request_of c ≡ x)

request_of-named : (c : Call) → is_request c ≡ true → is_noop (request_of c).op ≡ false
unfolding request_of IoService.write_file IoService.read_file IoService.accept IoService.connect
    IoService.send IoService.receive IoService.send_to IoService.receive_from
request_of-named (Call.write_file ioh msg len offset p cb) q = refl
request_of-named (Call.read_file ioh buf len offset p cb) q = refl
request_of-named (Call.accept listener p cb) q = refl
request_of-named (Call.connect socket remote p cb) q = refl
request_of-named (Call.send socket msg len p cb) q = refl
request_of-named (Call.receive socket buf len p cb) q = refl
request_of-named (Call.send_to socket remote msg len p cb) q = refl
request_of-named (Call.receive_from socket buf len p cb) q = refl
request_of-named (Call.cancel ioh) q = absurd (ground arith)

Made-named : (x : IoContext) → Made x → is_noop x.op ≡ false
Made-named x (c, q, e) = ap (λ (y : IoContext). is_noop y.op) (sym e) ∙ request_of-named c q

pub asked_by-Made : (c : Call) → All Made (asked_by c)
asked_by-Made (Call.cancel ioh) = tt
asked_by-Made (Call.write_file ioh msg len offset p cb) = ((_, refl, refl), tt)
asked_by-Made (Call.read_file ioh buf len offset p cb) = ((_, refl, refl), tt)
asked_by-Made (Call.accept listener p cb) = ((_, refl, refl), tt)
asked_by-Made (Call.connect socket remote p cb) = ((_, refl, refl), tt)
asked_by-Made (Call.send socket msg len p cb) = ((_, refl, refl), tt)
asked_by-Made (Call.receive socket buf len p cb) = ((_, refl, refl), tt)
asked_by-Made (Call.send_to socket remote msg len p cb) = ((_, refl, refl), tt)
asked_by-Made (Call.receive_from socket buf len p cb) = ((_, refl, refl), tt)

pub asked_by_all-Made : (cs : List Call) → All Made (asked_by_all cs)
asked_by_all-Made [] = tt
asked_by_all-Made (c ∷ cs) =
    All-append Made (asked_by c) (asked_by_all cs) (asked_by-Made c) (asked_by_all-Made cs)

entries_weight :
    (es : List Entry)
    → All Made (requests_in es)
    → total request_weight es ≡ length (requests_in es)
entries_weight [] a = refl
entries_weight (request p ioc ∷ es) (a, b) =
    rw (Made-named ioc a) (omega (arith, entries_weight es b))
entries_weight (wake_read ∷ es) a = omega (arith, entries_weight es a)
entries_weight (cancelling fd ∷ es) a = omega (arith, entries_weight es a)

pub pending_weight :
    (r : IoUring) → All Made (pending r) → outstanding request_weight r ≡ length (pending r)
pending_weight r a = omega (
  arith,
  entries_weight r.in_flight (All-left Made (requests_in r.in_flight) (requests_in r.sq) a),
  entries_weight r.sq (All-right Made (requests_in r.in_flight) (requests_in r.sq) a),
  length-append (requests_in r.in_flight) (requests_in r.sq),
)
