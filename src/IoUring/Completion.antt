-- ===== src/IoUring/Completion.antt =====
-- net/io_service.cpp, net/io_uring.cpp: what the callback of a request is given, from the call of
-- IoService that makes the request to `handle_cqe`.
use magio.Prelude.{
  ℕ, suc, ◌≡◌, ◌≢◌, refl, Bool, true, false, some, List, [], ◌∷◌, ◌++◌, pos, negsuc, arith,
}
use magio.Io.{IoContext, user}
use magio.IoService
use magio.IoUring
use magio.IoUring.{
  Entry, request, Prepared, IoUring, Callback, prepare, completed, settle, settle_op, accept_on,
  connect_to, send_on, receive_on, increment,
}
use magio.IoUring.Poll.{Call, call}

-- The user's pointer and callback of a request.
abbrev user_of : Call → ℕ
user_of (Call.write_file ioh msg len offset p cb) = p
user_of (Call.read_file ioh buf len offset p cb) = p
user_of (Call.accept listener p cb) = p
user_of (Call.connect socket remote p cb) = p
user_of (Call.send socket msg len p cb) = p
user_of (Call.receive socket buf len p cb) = p
user_of (Call.send_to socket remote msg len p cb) = p
user_of (Call.receive_from socket buf len p cb) = p
user_of (Call.cancel ioh) = 0

abbrev pub callback_of : Call → ℕ
callback_of (Call.write_file ioh msg len offset p cb) = cb
callback_of (Call.read_file ioh buf len offset p cb) = cb
callback_of (Call.accept listener p cb) = cb
callback_of (Call.connect socket remote p cb) = cb
callback_of (Call.send socket msg len p cb) = cb
callback_of (Call.receive socket buf len p cb) = cb
callback_of (Call.send_to socket remote msg len p cb) = cb
callback_of (Call.receive_from socket buf len p cb) = cb
callback_of (Call.cancel ioh) = 0

-- Whether the request goes by a message header, and whether it is a request at all.
abbrev pub by_message : Call → Bool
by_message (Call.send_to socket remote msg len p cb) = true
by_message (Call.receive_from socket buf len p cb) = true
by_message _ = false

abbrev pub is_request : Call → Bool
is_request (Call.cancel ioh) = false
is_request _ = true

-- What IoService hands on for a request.
unfoldable pub request_of : Call → IoContext
request_of (Call.write_file ioh msg len offset p cb) = IoService.write_file msg len p cb
request_of (Call.read_file ioh buf len offset p cb) = IoService.read_file buf len p cb
request_of (Call.accept listener p cb) = IoService.accept p cb
request_of (Call.connect socket remote p cb) = IoService.connect remote p cb
request_of (Call.send socket msg len p cb) = IoService.send msg len p cb
request_of (Call.receive socket buf len p cb) = IoService.receive buf len p cb
request_of (Call.send_to socket remote msg len p cb) = IoService.send_to remote msg len p cb
request_of (Call.receive_from socket buf len p cb) = IoService.receive_from buf len p cb
request_of (Call.cancel ioh) = IoService.accept 0 0

prepare-queues :
    (r : IoUring) (e : Entry) (r' : IoUring)
    → prepare (record r { io_num = increment r.io_num }) e ≡ some r'
    → r'.sq ≡ r.sq ++ e ∷ []
unfolding prepare
prepare-queues r e r' h = ground (arith, h)

-- A call that goes well queues its request, behind the others.
call-queues :
    (r : IoUring) (c : Call) (r' : IoUring)
    → is_request c ≡ true
    → call r c ≡ some r'
    → (p : Prepared) × (r'.sq ≡ r.sq ++ request p (request_of c) ∷ [])
unfolding call prepare request_of IoService.write_file IoService.read_file IoService.accept
    IoService.connect IoService.send IoService.receive IoService.send_to IoService.receive_from
    IoUring.write_file IoUring.read_file accept_on connect_to send_on receive_on IoUring.send_to
    IoUring.receive_from
call-queues r (Call.write_file ioh msg len offset p cb) r' q h = (_, prepare-queues r _ r' h)
call-queues r (Call.read_file ioh buf len offset p cb) r' q h = (_, prepare-queues r _ r' h)
call-queues r (Call.accept listener p cb) r' q h = (_, prepare-queues r _ r' h)
call-queues r (Call.connect socket remote p cb) r' q h = (_, prepare-queues r _ r' h)
call-queues r (Call.send socket msg len p cb) r' q h = (_, prepare-queues r _ r' h)
call-queues r (Call.receive socket buf len p cb) r' q h = (_, prepare-queues r _ r' h)
call-queues r (Call.send_to socket remote msg len p cb) r' q h = (_, prepare-queues r _ r' h)
call-queues r (Call.receive_from socket buf len p cb) r' q h = (_, prepare-queues r _ r' h)
call-queues r (Call.cancel ioh) r' q h = absurd (ground arith)

-- The callback is the user's, with the user's pointer.
pub record Answers (c : Call) (back : Callback) : Type 0 where
  pub same_callback : back.cb ≡ callback_of c
  pub same_pointer : back.ptr ≡ user (user_of c)

-- A request that succeeds calls the user's callback with the user's pointer, no error, and the
-- kernel's result.
pub success-Answers :
    (c : Call) (peer : List ℕ) (n : ℕ)
    → is_request c ≡ true
    → (let back = completed peer (request_of c) (pos n) in
        Answers c back × (back.ec ≡ 0) × (back.ioc.res ≡ n))
unfolding completed settle settle_op request_of IoService.write_file IoService.read_file
    IoService.accept IoService.connect IoService.send IoService.receive IoService.send_to
    IoService.receive_from
success-Answers (Call.write_file ioh msg len offset p cb) peer n q =
    (record { same_callback = refl; same_pointer = refl }, refl, refl)
success-Answers (Call.read_file ioh buf len offset p cb) peer n q =
    (record { same_callback = refl; same_pointer = refl }, refl, refl)
success-Answers (Call.accept listener p cb) peer n q =
    (record { same_callback = refl; same_pointer = refl }, refl, refl)
success-Answers (Call.connect socket remote p cb) peer n q =
    (record { same_callback = refl; same_pointer = refl }, refl, refl)
success-Answers (Call.send socket msg len p cb) peer n q =
    (record { same_callback = refl; same_pointer = refl }, refl, refl)
success-Answers (Call.receive socket buf len p cb) peer n q =
    (record { same_callback = refl; same_pointer = refl }, refl, refl)
success-Answers (Call.send_to socket remote msg len p cb) peer n q =
    (record { same_callback = refl; same_pointer = refl }, refl, refl)
success-Answers (Call.receive_from socket buf len p cb) peer n q =
    (record { same_callback = refl; same_pointer = refl }, refl, refl)
success-Answers (Call.cancel ioh) peer n q = absurd (ground arith)

-- A request that fails, but for those by a message header, calls the user's callback with the
-- user's pointer, the kernel's error and no result.
pub failure-Answers :
    (c : Call) (peer : List ℕ) (n : ℕ)
    → is_request c ≡ true
    → by_message c ≡ false
    → (let back = completed peer (request_of c) (negsuc n) in
        Answers c back × (back.ec ≡ suc n) × (back.ioc.res ≡ 0))
unfolding completed request_of IoService.write_file IoService.read_file IoService.accept
    IoService.connect IoService.send IoService.receive IoService.send_to IoService.receive_from
failure-Answers (Call.write_file ioh msg len offset p cb) peer n q m =
    (record { same_callback = refl; same_pointer = refl }, refl, refl)
failure-Answers (Call.read_file ioh buf len offset p cb) peer n q m =
    (record { same_callback = refl; same_pointer = refl }, refl, refl)
failure-Answers (Call.accept listener p cb) peer n q m =
    (record { same_callback = refl; same_pointer = refl }, refl, refl)
failure-Answers (Call.connect socket remote p cb) peer n q m =
    (record { same_callback = refl; same_pointer = refl }, refl, refl)
failure-Answers (Call.send socket msg len p cb) peer n q m =
    (record { same_callback = refl; same_pointer = refl }, refl, refl)
failure-Answers (Call.receive socket buf len p cb) peer n q m =
    (record { same_callback = refl; same_pointer = refl }, refl, refl)
failure-Answers (Call.send_to socket remote msg len p cb) peer n q m = absurd (ground arith)
failure-Answers (Call.receive_from socket buf len p cb) peer n q m = absurd (ground arith)
failure-Answers (Call.cancel ioh) peer n q m = absurd (ground arith)

-- A failed request by a message header calls the user's callback with a pointer that is not the
-- user's: it is the header's, which nothing frees.
pub message_failure_misdirected :
    (c : Call) (peer : List ℕ) (n : ℕ)
    → by_message c ≡ true
    → (let back = completed peer (request_of c) (negsuc n) in
        (back.cb ≡ callback_of c) × ((p : ℕ) → back.ptr ≢ user p))
unfolding completed request_of IoService.write_file IoService.read_file IoService.accept
    IoService.connect IoService.send IoService.receive IoService.send_to IoService.receive_from
message_failure_misdirected (Call.write_file ioh msg len offset p cb) peer n m =
    absurd (ground arith)
message_failure_misdirected (Call.read_file ioh buf len offset p cb) peer n m =
    absurd (ground arith)
message_failure_misdirected (Call.accept listener p cb) peer n m = absurd (ground arith)
message_failure_misdirected (Call.connect socket remote p cb) peer n m = absurd (ground arith)
message_failure_misdirected (Call.send socket msg len p cb) peer n m = absurd (ground arith)
message_failure_misdirected (Call.receive socket buf len p cb) peer n m = absurd (ground arith)
message_failure_misdirected (Call.send_to socket remote msg len p cb) peer n m =
    (refl, λ p e. ground (arith, e))
message_failure_misdirected (Call.receive_from socket buf len p cb) peer n m =
    (refl, λ p e. ground (arith, e))
message_failure_misdirected (Call.cancel ioh) peer n m = absurd (ground arith)
