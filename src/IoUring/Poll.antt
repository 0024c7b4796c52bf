-- ===== src/IoUring/Poll.antt =====
-- net/io_uring.cpp: `poll`, with the requests that the users' callbacks make on the way.
use magio.Prelude.{
  ℕ, zero, suc, ◌/◌, ◌%◌, Bool, true, false, Option, none, some, List, [], ◌∷◌, ◌++◌, ◌==◌, ◌&&◌,
  ◌||◌, ◌>>=◌, if◌then◌else◌, get_elem?, ℤ, pos, negsuc, is_negative, neg_part,
}
use magio.IoService
use magio.IoUring
use magio.IoUring.{Entry, IoUring, Callback, accept_on, connect_to, send_on, receive_on, handle_cqe}

-- A call of the service: `IoService::f`, which builds the request, and `IoUring::f`.
pub data Call : Type 0 where
  write_file : (ioh msg len offset user_ptr cb : ℕ) → Call
  read_file : (ioh buf len offset user_ptr cb : ℕ) → Call
  accept : (listener user_ptr cb : ℕ) → Call
  connect : (socket : ℕ) (remote : List ℕ) (user_ptr cb : ℕ) → Call
  send : (socket msg len user_ptr cb : ℕ) → Call
  receive : (socket buf len user_ptr cb : ℕ) → Call
  send_to : (socket : ℕ) (remote : List ℕ) (msg len user_ptr cb : ℕ) → Call
  receive_from : (socket buf len user_ptr cb : ℕ) → Call
  cancel : (ioh : ℕ) → Call

unfoldable pub call : IoUring → Call → Option IoUring
call r (Call.write_file ioh msg len offset p cb) =
    IoUring.write_file r ioh offset (IoService.write_file msg len p cb)
call r (Call.read_file ioh buf len offset p cb) =
    IoUring.read_file r ioh offset (IoService.read_file buf len p cb)
call r (Call.accept listener p cb) = accept_on r listener (IoService.accept p cb)
call r (Call.connect socket remote p cb) = connect_to r socket (IoService.connect remote p cb)
call r (Call.send socket msg len p cb) = send_on r socket (IoService.send msg len p cb)
call r (Call.receive socket buf len p cb) = receive_on r socket (IoService.receive buf len p cb)
call r (Call.send_to socket remote msg len p cb) =
    IoUring.send_to r socket (IoService.send_to remote msg len p cb)
call r (Call.receive_from socket buf len p cb) =
    IoUring.receive_from r socket (IoService.receive_from buf len p cb)
call r (Call.cancel ioh) = IoUring.cancel r ioh

unfoldable pub calls : IoUring → List Call → Option IoUring
calls r [] = some r
calls r (c ∷ cs) = call r c >>= λ r'. calls r' cs

-- The request in flight at `index` has completed with `res`; `peer` is the address of an accept.
pub record Completion : Type 0 where
  pub index : ℕ
  pub res : ℤ
  pub peer : List ℕ

-- What `io_uring_submit_and_wait_timeout` does: its value, whether the kernel has taken the
-- prepared entries, and the completions that are then in the queue, in order.
pub record Kernel : Type 0 where
  pub ret : ℤ
  pub submitted : Bool
  pub completions : List Completion

abbrev pub remove_at {ℓ} : {A : Type ℓ} → List A → ℕ → List A
remove_at [] i = []
remove_at (x ∷ xs) zero = xs
remove_at (x ∷ xs) (suc i) = x ∷ remove_at xs i

abbrev pub submit : IoUring → Bool → IoUring
submit r true = record r { in_flight = r.in_flight ++ r.sq; sq = [] }
submit r false = r

-- The time to wait, in seconds and nanoseconds, of which the `long long` fields hold all.
pub record Timespec : Type 0 where
  pub tv_sec : ℕ
  pub tv_nsec : ℕ

unfoldable pub timespec : (nanosec : ℕ) → Timespec
timespec nanosec = record { tv_sec = nanosec / 1000000000; tv_nsec = nanosec % 1000000000 }

abbrev pub eintr : ℕ
eintr = 4

abbrev pub eagain : ℕ
eagain = 11

abbrev pub etime : ℕ
etime = 62

-- The value of `poll` (`negsuc 0` is -1), the error code, and the callbacks made, in order.
pub record Polled : Type 0 where
  pub ring : IoUring
  pub status : ℤ
  pub ec : ℕ
  pub callbacks : List Callback

abbrev pub listed : Option Callback → List Callback → List Callback
listed none cs = cs
listed (some c) cs = c ∷ cs

module _ (react : Callback → List Call) where
  abbrev pub reaction : IoUring → Option Callback → Option IoUring
  reaction r none = some r
  reaction r (some c) = calls r (react c)

  -- One round of `io_uring_for_each_cqe`.
  unfoldable pub serve_one : IoUring → Entry → Completion → Option (IoUring × Option Callback)
  serve_one r e c =
      handle_cqe (record r { in_flight = remove_at r.in_flight c.index }) e c.peer c.res
      >>= λ (r', back). reaction r' back >>= λ r''. some (r'', back)

  -- The loop. A completion of nothing in flight does not occur.
  unfoldable pub serve : IoUring → List Completion → Option (IoUring × List Callback)
  unfolding serve_one
  serve r [] = some (r, [])
  serve r (c ∷ cs) = elim (get_elem? r.in_flight c.index) [
    | none ↦ serve r cs
    | some e ↦ serve_one r e c >>= λ (r', back).
        serve r' cs >>= λ (r'', backs). some (r'', listed back backs)
  ]

  unfoldable pub poll : IoUring → (nanosec : ℕ) → Kernel → Option Polled
  unfolding serve
  poll r nanosec k =
      if (nanosec == 0) && (r.io_num == 0)
      then some (record { ring = r; status = pos 0; ec = 0; callbacks = [] })
      else (let r' = submit r k.submitted in
          if (neg_part k.ret == etime) || (neg_part k.ret == eagain)
          then some (record { ring = r'; status = pos 0; ec = 0; callbacks = [] })
          else (if neg_part k.ret == eintr
              then some (record { ring = r'; status = pos 2; ec = 0; callbacks = [] })
              else (if is_negative k.ret
                  then some
                      (record { ring = r'; status = negsuc 0; ec = neg_part k.ret; callbacks = [] })
                  else serve r' k.completions >>= λ (r'', backs).
                      some (record { ring = r''; status = pos 1; ec = 0; callbacks = backs }))))
