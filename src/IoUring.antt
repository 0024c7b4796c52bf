-- ===== src/IoUring.antt =====
-- net/io_uring.cpp: the service over a submission queue and a completion queue. The kernel is a
-- parameter of `poll`: the value that the system call returns, and which of the requests in flight
-- have completed with which results.
pub mod Poll
pub mod Count
pub mod Served
pub mod Completion
pub mod Pending
pub mod Answered
pub mod Labels
pub mod History
pub mod Callbacks
pub mod Deliveries
pub mod Room
mod Tests
use magio.Prelude.{
  ℕ, zero, suc, ◌+◌, ◌-◌, ◌≡◌, Bool, true, false, Option, none, some, List, [], ◌∷◌, ◌++◌, ◌==◌,
  ltb, ◌&&◌, ◌||◌, ◌^◌, ◌%◌, if◌then◌else◌, ◌>>=◌, length, ℤ, pos, negsuc, is_negative, neg_part,
  pos_part,
}
use magio.Io.{Operation, UserData, user, with_msg, IoContext, blank}

-- What `io_uring_prep_…` writes in an entry.
pub data Prepared : Type 0 where
  write : (fd buf len offset : ℕ) → Prepared
  read : (fd buf len offset : ℕ) → Prepared
  accept : (fd : ℕ) → Prepared
  connect : (fd : ℕ) (addr : List ℕ) (addr_len : ℕ) → Prepared
  send : (fd buf len : ℕ) → Prepared
  recv : (fd buf len : ℕ) → Prepared
  sendmsg : (fd : ℕ) → Prepared
  recvmsg : (fd : ℕ) → Prepared
  cancel_fd : (fd : ℕ) → Prepared

-- An entry and its `user_data`: a request, `wake_up_ctx_` or `empty_ctx_`.
pub data Entry : Type 0 where
  request : Prepared → IoContext → Entry
  wake_read : Entry
  cancelling : (fd : ℕ) → Entry

-- `sq` holds the entries that are prepared and not submitted, `in_flight` those that the kernel has.
pub record IoUring : Type 0 where
  pub entries : ℕ
  pub io_num : ℕ
  pub sq : List Entry
  pub in_flight : List Entry
  pub event : ℕ  -- the counter behind `wake_up_fd_`

-- `io_uring_get_sqe` and what follows; on a full queue it returns null, which the code then writes
-- through (`none`).
pub prepare : IoUring → Entry → Option IoUring
prepare r e = if ltb (length r.sq) r.entries then some (record r { sq = r.sq ++ e ∷ [] }) else none

-- `++io_num_` and `--io_num_`, on a `size_t`.
abbrev pub increment : ℕ → ℕ
increment n = (n + 1) % 2 ^ 64

abbrev pub decrement : ℕ → ℕ
decrement n = (n + 2 ^ 64 - 1) % 2 ^ 64

abbrev counted : IoUring → IoUring
counted r = record r { io_num = increment r.io_num }

pub write_file : IoUring → (ioh offset : ℕ) → IoContext → Option IoUring
unfolding prepare
write_file r ioh offset ioc = prepare (counted r) (request (write ioh ioc.buf ioc.len offset) ioc)

pub read_file : IoUring → (ioh offset : ℕ) → IoContext → Option IoUring
unfolding prepare
read_file r ioh offset ioc = prepare (counted r) (request (read ioh ioc.buf ioc.len offset) ioc)

pub accept_on : IoUring → (listener : ℕ) → IoContext → Option IoUring
unfolding prepare
accept_on r listener ioc = prepare (counted r) (request (accept listener) ioc)

pub connect_to : IoUring → (socket : ℕ) → IoContext → Option IoUring
unfolding prepare
connect_to r socket ioc =
    prepare (counted r) (request (connect socket ioc.remote_addr ioc.addr_len) ioc)

pub send_on : IoUring → (socket : ℕ) → IoContext → Option IoUring
unfolding prepare
send_on r socket ioc = prepare (counted r) (request (send socket ioc.buf ioc.len) ioc)

pub receive_on : IoUring → (socket : ℕ) → IoContext → Option IoUring
unfolding prepare
receive_on r socket ioc = prepare (counted r) (request (recv socket ioc.buf ioc.len) ioc)

pub send_to : IoUring → (socket : ℕ) → IoContext → Option IoUring
unfolding prepare
send_to r socket ioc = prepare (counted r) (request (sendmsg socket) ioc)

pub receive_from : IoUring → (socket : ℕ) → IoContext → Option IoUring
unfolding prepare
receive_from r socket ioc = prepare (counted r) (request (recvmsg socket) ioc)

pub cancel : IoUring → (ioh : ℕ) → Option IoUring
unfolding prepare
cancel r ioh = prepare r (cancelling ioh)

pub prep_wake_up : IoUring → Option IoUring
unfolding prepare
prep_wake_up r = prepare r wake_read

-- The constructor, for a kernel that creates the queues.
pub construct : ℕ → Option IoUring
unfolding prep_wake_up
construct entries =
    prep_wake_up (record { entries = entries; io_num = 0; sq = []; in_flight = []; event = 0 })

pub wake_up : IoUring → IoUring
wake_up r = record r { event = r.event + 114514 }

-- The arguments of a callback: the error code (0 for none), `ioc` and `ioc->ptr`.
pub record Callback : Type 0 where
  pub cb : ℕ
  pub ec : ℕ
  pub ioc : IoContext
  pub ptr : UserData

settle_op : List ℕ → IoContext → Operation → UserData → IoContext
settle_op peer ioc Operation.accept p = record ioc { remote_addr = peer; addr_len = length peer }
settle_op peer ioc Operation.send_to (with_msg namelen p) = record ioc {
  addr_len = namelen;
  ptr = user p;
}
settle_op peer ioc Operation.receive_from (with_msg namelen p) = record ioc {
  addr_len = namelen;
  ptr = user p;
}
settle_op peer ioc _ p = ioc

-- The switch on `ioc->op` after a success. `getpeername` writes `peer` to the address of an accept.
pub settle : List ℕ → IoContext → IoContext
unfolding settle_op
settle peer ioc = settle_op peer ioc ioc.op ioc.ptr

-- `handle_cqe` for a request, from the test of `cqe->res` to the call of its callback.
pub completed : List ℕ → IoContext → ℤ → Callback
unfolding settle
completed peer ioc res =
    if is_negative res
    then record { cb = ioc.cb; ec = neg_part res; ioc = record ioc { res = 0 }; ptr = ioc.ptr }
    else (let done = settle peer (record ioc { res = pos_part res }) in
        record { cb = done.cb; ec = 0; ioc = done; ptr = done.ptr })

abbrev pub is_noop : Operation → Bool
is_noop Operation.noop = true
is_noop _ = false

-- `handle_cqe` without what the user's callback does.
pub handle_cqe : IoUring → Entry → List ℕ → ℤ → Option (IoUring × Option Callback)
unfolding completed prep_wake_up
handle_cqe r (request p ioc) peer res = some (
  (if is_noop ioc.op then r else record r { io_num = decrement r.io_num }),
  some (completed peer ioc res),
)
handle_cqe r wake_read peer res = prep_wake_up (record r { event = 0 }) >>= λ r'. some (r', none)
handle_cqe r (cancelling fd) peer res = some (r, none)

-- What `~IoUring` gives back to the system. It calls no callback.
pub data Release : Type 0 where
  event_closed queue_exited : Release

pub destroy : IoUring → List Release × List Callback
destroy r = (event_closed ∷ queue_exited ∷ [], [])
