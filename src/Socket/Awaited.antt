-- ===== src/Socket/Awaited.antt =====
-- net/socket.cpp, core/io_context.h: what the awaitable operations hand back, and what the
-- callbacks of the others are given, where the pointer that the service passes is the one of the
-- operation. `ec` is the code that the service gives, `unset` an address not yet written.
use magio.Prelude.{ℕ, Option, none, some, List, if◌then◌else◌}
use magio.Io.{IoContext, UserData, user, with_msg}
use magio.Address.{from_sockaddr}
use magio.Result.{Result, of_value, of_code, is_error}

-- `ResumeHandle`, but for the coroutine's handle.
pub record Resumed : Type 0 where
  pub ec : ℕ
  pub res : ℕ

-- `ptr` is taken for the ResumeHandle: the result is its address and what is written there. After a
-- failed send_to or receive_from it is a ResumeWithMsg, and the cast is undefined behaviour
-- (`none`).
unfoldable pub resume_callback : ℕ → IoContext → (ptr : UserData) → Option (ℕ × Resumed)
resume_callback ec ioc (user p) = some (p, record { ec = ec; res = ioc.res })
resume_callback ec ioc (with_msg namelen p) = none

-- `co_await`: `rh` is what the callback has left.
unfoldable pub connect_awaited : (rh : Resumed) → Result (Unit {0})
connect_awaited rh = of_code tt rh.ec

unfoldable pub receive_awaited : (rh : Resumed) → Result ℕ
receive_awaited rh = of_value rh.res rh.ec

unfoldable pub send_awaited : (rh : Resumed) → Result ℕ
send_awaited rh = of_value rh.res rh.ec

unfoldable pub send_to_awaited : (rh : Resumed) → Result ℕ
send_to_awaited rh = of_value rh.res rh.ec

-- `RecvResume`: the callback copies the address whether or not there was an error.
abbrev pub resumed_address : (unset : List ℕ) → IoContext → List ℕ
resumed_address unset ioc = from_sockaddr ioc.remote_addr unset

unfoldable pub receive_from_awaited : (rh : Resumed) (address unset : List ℕ) → Result (ℕ × List ℕ)
receive_from_awaited rh address unset =
    if is_error rh.ec then of_code (0, unset) rh.ec else of_value (rh.res, address) 0

-- The arguments of the user's callback, the error code last.
unfoldable pub connect_callback : ℕ → IoContext → Unit {0} × ℕ
connect_callback ec ioc = (tt, ec)

unfoldable pub receive_callback : ℕ → IoContext → ℕ × ℕ
receive_callback ec ioc = (ioc.res, ec)

unfoldable pub send_callback : ℕ → IoContext → ℕ × ℕ
send_callback ec ioc = (ioc.res, ec)

unfoldable pub send_to_callback : ℕ → IoContext → ℕ × ℕ
send_to_callback ec ioc = (ioc.res, ec)

unfoldable pub receive_from_callback : ℕ → IoContext → (unset : List ℕ) → (ℕ × List ℕ) × ℕ
receive_from_callback ec ioc unset =
    if is_error ec then ((0, unset), ec) else ((ioc.res, from_sockaddr ioc.remote_addr unset), ec)
