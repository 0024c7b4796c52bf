-- ===== src/Iocp/Requests.antt =====
-- net/iocp.cpp: the operations that hand a request to the system by one call of it, and that call.
use magio.Prelude.{ℕ, ◌%◌, ◌^◌, ◌≡◌, refl, Option, none, some, List, [], ◌∷◌, ◌++◌}
use magio.Io.{IoContext}
use magio.IoUring.{Callback, increment}
use magio.Iocp.{Immediate, pending, refused, IoCompletionPort, issue, call_back}

-- The call of the system; `Offset` of an OVERLAPPED has 32 bits, and `OffsetHigh` is left at 0.
pub data SystemCall : Type 0 where
  write_file_call read_file_call : (handle buf len offset_low : ℕ) → SystemCall
  send_call receive_call : (socket buf len : ℕ) → SystemCall
  send_to_call : (socket buf len : ℕ) (remote : List ℕ) (addr_len : ℕ) → SystemCall
  receive_from_call : (socket buf len : ℕ) → SystemCall
  cancel_call : (handle : ℕ) → SystemCall

abbrev Issued : Type 0
Issued = IoCompletionPort × Option Callback × SystemCall

abbrev by_call : IoCompletionPort → IoContext → Immediate → SystemCall → Issued
by_call d ioc answer call = let (d', back) = issue d ioc answer in (d', back, call)

pub write_file : IoCompletionPort → (handle offset : ℕ) → IoContext → Immediate → Issued
unfolding issue
write_file d h offset ioc answer =
    by_call d ioc answer (SystemCall.write_file_call h ioc.buf ioc.len (offset % 2 ^ 32))

pub read_file : IoCompletionPort → (handle offset : ℕ) → IoContext → Immediate → Issued
unfolding issue
read_file d h offset ioc answer =
    by_call d ioc answer (SystemCall.read_file_call h ioc.buf ioc.len (offset % 2 ^ 32))

pub send : IoCompletionPort → (socket : ℕ) → IoContext → Immediate → Issued
unfolding issue
send d s ioc answer = by_call d ioc answer (SystemCall.send_call s ioc.buf ioc.len)

pub receive : IoCompletionPort → (socket : ℕ) → IoContext → Immediate → Issued
unfolding issue
receive d s ioc answer = by_call d ioc answer (SystemCall.receive_call s ioc.buf ioc.len)

pub send_to : IoCompletionPort → (socket : ℕ) → IoContext → Immediate → Issued
unfolding issue
send_to d s ioc answer =
    by_call d ioc answer (SystemCall.send_to_call s ioc.buf ioc.len ioc.remote_addr ioc.addr_len)

pub receive_from : IoCompletionPort → (socket : ℕ) → IoContext → Immediate → Issued
unfolding issue
receive_from d s ioc answer = by_call d ioc answer (SystemCall.receive_from_call s ioc.buf ioc.len)

pub cancel : (handle : ℕ) → SystemCall
cancel h = SystemCall.cancel_call h

-- `attach`: what `ec` is afterwards; the system answers with an error code or with none.
pub attach : (answer : Option ℕ) → (ec : ℕ) → ℕ
attach none ec = ec
attach (some e) ec = e

-- A request is under way, or its callback has been called; the count has grown either way.
abbrev Taken : IoCompletionPort → IoContext → Immediate → Issued → Type 0
Taken d ioc pending (d', back, call) =
    (d'.io_num ≡ increment d.io_num) × (d'.in_flight ≡ d.in_flight ++ ioc ∷ []) × (back ≡ none)
Taken d ioc (refused ec) (d', back, call) =
    (d'.io_num ≡ increment d.io_num)
    × (d'.in_flight ≡ d.in_flight)
    × (back ≡ some (call_back ec ioc))

by_call_lem :
    (d : IoCompletionPort) (ioc : IoContext) (answer : Immediate) (call : SystemCall)
    → Taken d ioc answer (by_call d ioc answer call)
unfolding issue
by_call_lem d ioc pending call = (refl, refl, refl)
by_call_lem d ioc (refused ec) call = (refl, refl, refl)

-- Each operation on a file or a socket counts its request, which is then either under way with no
-- callback called, or, when the system refuses it, has had its callback called with the error.
requests_lem :
    (d : IoCompletionPort) (h offset : ℕ) (ioc : IoContext) (answer : Immediate)
    → Taken d ioc answer (write_file d h offset ioc answer)
      × Taken d ioc answer (read_file d h offset ioc answer)
      × Taken d ioc answer (send d h ioc answer)
      × Taken d ioc answer (receive d h ioc answer)
      × Taken d ioc answer (send_to d h ioc answer)
      × Taken d ioc answer (receive_from d h ioc answer)
unfolding write_file read_file send receive send_to receive_from
requests_lem d h offset ioc answer = (
  by_call_lem d ioc answer _,
  by_call_lem d ioc answer _,
  by_call_lem d ioc answer _,
  by_call_lem d ioc answer _,
  by_call_lem d ioc answer _,
  by_call_lem d ioc answer _,
)
