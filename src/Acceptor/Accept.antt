-- ===== src/Acceptor/Accept.antt =====
-- net/acceptor.cpp: what Acceptor::accept hands back when it is awaited, and what its callback is given
-- otherwise; the operations of net/socket.cpp likewise.
use magio.Prelude.{
  ℕ, ◌%◌, ◌^◌, ◌≡◌, refl, inl, inr, false, List, ◌==◌, if◌then◌else◌, Bool-cases, arith, ap, some,
  some-inj,
}
use magio.Io.{IoContext, UserData, user, with_msg, sa_family, af_inet}
use magio.Address.{from_sockaddr}
use magio.Result.{Result, of_value, of_code, is_error, as_tuple}
use magio.Socket.{Socket, Ip, v4, v6, tcp, construct, blank_socket}
use magio.Socket.Awaited.{
  Resumed, resume_callback, resumed_address, connect_awaited, receive_awaited, send_awaited,
  send_to_awaited, receive_from_awaited, connect_callback, receive_callback, send_callback,
  send_to_callback, receive_from_callback,
}
use magio.File.{File}
use magio.File.Awaited.{
  read_at_awaited, write_at_awaited, read_at_callback, write_at_callback, read_awaited,
  write_awaited, read_callback, write_callback,
}
use magio.Pipe
use magio.Acceptor.{Acceptor}

-- `(int)`, for a value that the system gave for a handle.
abbrev to_handle : ℕ → ℕ
to_handle res = res % 2 ^ 32

pub accept_awaited : Acceptor → (rh : Resumed) (address unset : List ℕ) → Result (Socket × List ℕ)
unfolding construct
accept_awaited a rh address unset =
    if is_error rh.ec
    then of_code (blank_socket, unset) rh.ec
    else of_value (construct (to_handle rh.res) a.listener.ip a.listener.transport, address) 0

-- The version of the peer's address.
abbrev peer_ip : IoContext → Ip
peer_ip ioc = if sa_family ioc.remote_addr == af_inet then v4 else v6

-- The arguments of the user's callback, the error code last.
pub accept_callback : ℕ → IoContext → (unset : List ℕ) → (Socket × List ℕ) × ℕ
unfolding construct
accept_callback ec ioc unset = if is_error ec then ((blank_socket, unset), ec) else (
  (construct (to_handle ioc.res) (peer_ip ioc) tcp, from_sockaddr ioc.remote_addr unset),
  ec,
)

code_zero : (ec : ℕ) → is_error ec ≡ false → ec ≡ 0
code_zero ec h = ground arith

resumed :
    (ec : ℕ) (ioc : IoContext) (ptr : UserData) (p : ℕ) (rh : Resumed)
    → resume_callback ec ioc ptr ≡ some (p, rh)
    → record { ec = ec; res = ioc.res } ≡ rh
unfolding resume_callback
resumed ec ioc (user q) p rh h = ap (λ (x : ℕ × Resumed). x.1) (some-inj h)
resumed ec ioc (with_msg n q) p rh h = absurd (ground (arith, h))

-- Where the pointer that the service passes is a ResumeHandle, as it is but for a failed send_to or
-- receive_from: for the same completion an awaited operation of a socket, a file or a pipe hands back the
-- value and the error code that the callback is given, and leaves the file as the callback does; so does
-- accept of an acceptor whose listener is of TCP and of the version of the peer's address.
pub awaited-eq-callback :
    (a : Acceptor) (f : File) (ec : ℕ) (ioc : IoContext) (unset : List ℕ) (p : ℕ) (rh : Resumed)
    → resume_callback ec ioc ioc.ptr ≡ some (p, rh)
    → a.listener.transport ≡ tcp
    → a.listener.ip ≡ peer_ip ioc
    → let address = resumed_address unset ioc in
      (as_tuple (connect_awaited rh) ≡ connect_callback ec ioc)
      × (as_tuple (receive_awaited rh) ≡ receive_callback ec ioc)
      × (as_tuple (send_awaited rh) ≡ send_callback ec ioc)
      × (as_tuple (send_to_awaited rh) ≡ send_to_callback ec ioc)
      × (as_tuple (receive_from_awaited rh address unset) ≡ receive_from_callback ec ioc unset)
      × (as_tuple (accept_awaited a rh address unset) ≡ accept_callback ec ioc unset)
      × (as_tuple (read_at_awaited rh) ≡ read_at_callback ec ioc)
      × (as_tuple (write_at_awaited rh) ≡ write_at_callback ec ioc)
      × ((read_awaited f rh).0 ≡ (read_callback f ec ioc).0)
      × (as_tuple (read_awaited f rh).1 ≡ (read_callback f ec ioc).1)
      × ((write_awaited f rh).0 ≡ (write_callback f ec ioc).0)
      × (as_tuple (write_awaited f rh).1 ≡ (write_callback f ec ioc).1)
      × (as_tuple (Pipe.Awaited.read_awaited rh) ≡ Pipe.Awaited.read_callback ec ioc)
      × (as_tuple (Pipe.Awaited.write_awaited rh) ≡ Pipe.Awaited.write_callback ec ioc)
unfolding resume_callback connect_awaited receive_awaited send_awaited send_to_awaited
    receive_from_awaited connect_callback receive_callback send_callback send_to_callback
    receive_from_callback accept_awaited accept_callback read_at_awaited write_at_awaited
    read_at_callback write_at_callback read_awaited write_awaited read_callback write_callback
    Pipe.Awaited.read_awaited Pipe.Awaited.write_awaited Pipe.Awaited.read_callback
    Pipe.Awaited.write_callback
awaited-eq-callback a f ec ioc unset q rh h t p =
    let e₀ = resumed ec ioc ioc.ptr q rh h in
    rw (← e₀) (elim (Bool-cases (is_error ec)) [
      | inl e ↦ (
        refl,
        refl,
        refl,
        refl,
        rw (e) refl,
        rw (e) refl,
        refl,
        refl,
        refl,
        refl,
        refl,
        refl,
        refl,
        refl,
      )
      | inr e ↦ (
        refl,
        refl,
        refl,
        refl,
        rw (e, code_zero ec e) refl,
        rw (e, t, p, code_zero ec e) refl,
        refl,
        refl,
        refl,
        refl,
        refl,
        refl,
        refl,
        refl,
      )
    ])
