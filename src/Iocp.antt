-- ===== src/Iocp.antt =====
-- net/iocp.cpp: the service over a completion port. The system is a parameter: whether it takes a
-- request, and the packets that it queues.
pub mod Rounds
pub mod Requests
pub mod Startup
mod Tests
use magio.Prelude.{
  ℕ, zero, suc, ◌+◌, ◌-◌, ◌/◌, ◌%◌, ◌^◌, ◌≤◌, ◌≡◌, refl, ap, ◌∙◌, Bool, true, false, Option, none,
  some, List, [], ◌∷◌, ◌++◌, ◌==◌, ◌&&◌, if◌then◌else◌, length, ℤ, pos, negsuc, arith,
}
use magio.Io.{Operation, UserData, IoContext}
use magio.IoUring.{Callback, increment, decrement}

-- What the system says of a request at once: it is under way, or has failed with an error code.
pub data Immediate : Type 0 where
  pending : Immediate
  refused : (ec : ℕ) → Immediate

pub record IoCompletionPort : Type 0 where
  pub io_num : ℕ
  pub in_flight : List IoContext

abbrev pub call_back : ℕ → IoContext → Callback
call_back ec ioc = record { cb = ioc.cb; ec = ec; ioc = ioc; ptr = ioc.ptr }

-- `write_file`, `read_file`, `send`, `receive`, `send_to` and `receive_from`: the count, the system
-- call, and the callback of a request that the system refuses.
pub issue : IoCompletionPort → IoContext → Immediate → IoCompletionPort × Option Callback
issue d ioc pending =
    (record d { io_num = increment d.io_num; in_flight = d.in_flight ++ ioc ∷ [] }, none)
issue d ioc (refused ec) = (record d { io_num = increment d.io_num }, some (call_back ec ioc))

pub connect :
    IoCompletionPort → (socket : ℕ) → IoContext → Immediate → IoCompletionPort × Option Callback
unfolding issue
connect d socket ioc answer = issue d (record ioc { res = socket }) answer

-- The socket that `open_socket` makes, or its error code; the third component is a socket closed.
pub accept :
    IoCompletionPort
    → (opened : ℕ) → (open_ec : ℕ) → IoContext
    → Immediate
    → IoCompletionPort × Option Callback × Option ℕ
unfolding issue
accept d opened zero ioc pending =
    let (d', back) = issue d (record ioc { res = opened; len = 128 }) pending in (d', back, none)
accept d opened zero ioc (refused ec) =
    let (d', back) = issue d (record ioc { res = opened; len = 128 }) (refused ec) in
    (d', back, some opened)
accept d opened (suc ec) ioc answer =
    let (d', back) = issue d ioc (refused (suc ec)) in (d', back, none)

-- What GetQueuedCompletionStatus gives: nothing in time, the packet of `wake_up`, a failure without
-- a request, or a request with its error code (0 for none), its bytes, and the peer of an accept. A
-- request with ULONG_MAX bytes is taken for the packet of `wake_up`.
pub data Packet : Type 0 where
  timed_out : Packet
  woken : Packet
  broken : (ec : ℕ) → Packet
  done : (ioc : IoContext) (ec bytes : ℕ) (peer : List ℕ) → Packet

abbrev pub ulong_max : ℕ
ulong_max = 2 ^ 32 - 1

pub settle_accept : IoContext → (ec : ℕ) → List ℕ → IoContext
settle_accept ioc zero peer = record ioc { remote_addr = peer; addr_len = length peer }
settle_accept ioc (suc ec) peer = ioc

pub settle_op : Operation → IoContext → (ec bytes : ℕ) → List ℕ → IoContext
unfolding settle_accept
settle_op Operation.noop ioc ec bytes peer = ioc
settle_op Operation.connect ioc ec bytes peer = ioc
settle_op Operation.accept ioc ec bytes peer = settle_accept ioc ec peer
settle_op _ ioc ec bytes peer = record ioc { res = bytes }

-- How long the system waits for the first packet: so many milliseconds, or for ever (INFINITE).
pub data Wait : Type 0 where
  forever : Wait
  milliseconds : ℕ → Wait

-- `nanosec / 1000000`, cast to a ULONG.
unfoldable pub wait_time : (nanosec : ℕ) → ℕ
wait_time nanosec = nanosec / 1000000 % 2 ^ 32

abbrev pub waiting_for : (wait_time : ℕ) → Wait
waiting_for t = if t == 2 ^ 32 - 1 then forever else milliseconds t

-- The switch on `ioc->op`, and the callback.
pub completed : IoContext → (ec bytes : ℕ) → List ℕ → Callback
unfolding settle_op
completed ioc ec bytes peer = call_back ec (settle_op ioc.op ioc ec bytes peer)

-- `status` is the value of `poll`, `left` the packets that stay queued.
pub record Polled : Type 0 where
  pub status : ℤ
  pub ec : ℕ
  pub io_num : ℕ
  pub callbacks : List Callback
  pub closed : List ℕ  -- the sockets of accepts that failed
  pub left : List Packet

abbrev ended : ℤ → (ec io_num : ℕ) → List Packet → Polled
ended status ec n ps = record {
  status = status;
  ec = ec;
  io_num = n;
  callbacks = [];
  closed = [];
  left = ps;
}

-- `detail::close_socket(ioc->res)`, where an accept has failed.
abbrev pub closing : Operation → (ec res : ℕ) → List ℕ
closing Operation.accept (suc ec) res = res ∷ []
closing _ _ res = []

abbrev called : Callback → List ℕ → Polled → Polled
called c sockets x = record x { callbacks = c ∷ x.callbacks; closed = sockets ++ x.closed }

-- The count after a callback has made `asked` requests, each counted by `issue`.
abbrev pub after_callback : (io_num asked : ℕ) → ℕ
after_callback n asked = (n + asked) % 2 ^ 64

-- `asked` is how many requests a callback makes. Those that the system refuses have their callbacks
-- called on the spot, and count too.
module _ (asked : Callback → ℕ) where
  -- The loop, of at most the number of rounds given.
  pub poll_loop : (rounds io_num : ℕ) → List Packet → Polled
  unfolding completed
  poll_loop zero n ps = ended (pos 1) 0 n ps
  poll_loop (suc k) n [] = ended (pos 0) 0 n []
  poll_loop (suc k) n (timed_out ∷ ps) = ended (pos 0) 0 n ps
  poll_loop (suc k) n (woken ∷ ps) = poll_loop k n ps
  poll_loop (suc k) n (broken e ∷ ps) = ended (negsuc 0) e n ps
  poll_loop (suc k) n (done ioc e bytes peer ∷ ps) = elim (bytes == ulong_max) [
    | true ↦ poll_loop k n ps
    | false ↦
        let back = completed ioc e bytes peer in
        called back (closing ioc.op e ioc.res)
          (poll_loop k (after_callback (decrement n) (asked back)) ps)
  ]

  pub poll : IoCompletionPort → (nanosec : ℕ) → List Packet → Polled
  unfolding poll_loop
  poll d nanosec ps =
      if (nanosec == 0) && (d.io_num == 0) then ended (pos 0) 0 0 ps else poll_loop 1024 d.io_num ps

pub wake_up : List Packet → List Packet
wake_up ps = ps ++ woken ∷ []
