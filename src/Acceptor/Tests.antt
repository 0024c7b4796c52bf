-- ===== src/Acceptor/Tests.antt =====
-- The theorems about acceptors at concrete answers of the system.
use magio.Prelude.{ℕ, refl, ◌≡◌, inl, none, some, ◌∷◌, [], List, ◌⊎◌, arith}
use magio.Io.{IoContext, noop, blank}
use magio.Result.{as_tuple}
use magio.Socket.{v4, tcp, construct}
use magio.Socket.Awaited.{
  Resumed, resume_callback, resumed_address, connect_awaited, receive_awaited, send_awaited,
  send_to_awaited, receive_from_awaited, connect_callback, receive_callback, send_callback,
  send_to_callback, receive_from_callback,
}
use magio.File.{blank_file}
use magio.File.Awaited.{
  read_at_awaited, write_at_awaited, read_at_callback, write_at_callback, read_awaited,
  write_awaited, read_callback, write_callback,
}
use magio.Pipe
use magio.Acceptor.{Acceptor, System, listen_on, bind_opened}
use magio.Acceptor.Listen.{Coded, Accounted, Serves, Refused, calling, listen_on_lem}
use magio.Acceptor.Accept.{accept_awaited, accept_callback, awaited-eq-callback}

-- The handle 5, whose address is taken (EADDRINUSE).
abbrev busy : System
busy = record {
  on_socket = λ af type. inl 5;
  on_bind = λ h bytes. some 98;
  on_listen = λ h n. none;
}

busy_coded : Coded busy
busy_coded = record {
  socket_code = λ af type ec e c. ground (arith, e);
  bind_code = λ h bytes ec e c. ground (arith, e, c);
  listen_code = λ h n ec e c. ground (arith, e);
}

abbrev local_address : List ℕ
local_address = 2 ∷ 0 ∷ 31 ∷ 144 ∷ 127 ∷ 0 ∷ 0 ∷ 1 ∷ 0 ∷ 0 ∷ 0 ∷ 0 ∷ 0 ∷ 0 ∷ 0 ∷ 0 ∷ []

listen_on_lem_example :
    let p = listen_on busy local_address in
    Accounted busy none p
    × (((h : ℕ) × Serves busy h p (calling busy local_address h)) ⊎ Refused busy p)
listen_on_lem_example = listen_on_lem busy local_address busy_coded

-- The error of bind is returned, and the socket is closed.
busy_refused : (listen_on busy local_address).0.ec ≡ 98
unfolding listen_on bind_opened
busy_refused = refl

-- The completion of an accept, with the handle 7.
abbrev accepted : IoContext
accepted = record (blank noop 1 0) { res = 7; remote_addr = local_address }

abbrev listener : Acceptor
unfolding construct
listener = record { listener = construct 5 v4 tcp }

awaited-eq-callback_example :
    let rh : Resumed = record { ec = 0; res = accepted.res } in
    let address = resumed_address [] accepted in
    (as_tuple (connect_awaited rh) ≡ connect_callback 0 accepted)
    × (as_tuple (receive_awaited rh) ≡ receive_callback 0 accepted)
    × (as_tuple (send_awaited rh) ≡ send_callback 0 accepted)
    × (as_tuple (send_to_awaited rh) ≡ send_to_callback 0 accepted)
    × (as_tuple (receive_from_awaited rh address []) ≡ receive_from_callback 0 accepted [])
    × (as_tuple (accept_awaited listener rh address []) ≡ accept_callback 0 accepted [])
    × (as_tuple (read_at_awaited rh) ≡ read_at_callback 0 accepted)
    × (as_tuple (write_at_awaited rh) ≡ write_at_callback 0 accepted)
    × ((read_awaited blank_file rh).0 ≡ (read_callback blank_file 0 accepted).0)
    × (as_tuple (read_awaited blank_file rh).1 ≡ (read_callback blank_file 0 accepted).1)
    × ((write_awaited blank_file rh).0 ≡ (write_callback blank_file 0 accepted).0)
    × (as_tuple (write_awaited blank_file rh).1 ≡ (write_callback blank_file 0 accepted).1)
    × (as_tuple (Pipe.Awaited.read_awaited rh) ≡ Pipe.Awaited.read_callback 0 accepted)
    × (as_tuple (Pipe.Awaited.write_awaited rh) ≡ Pipe.Awaited.write_callback 0 accepted)
unfolding construct resume_callback
awaited-eq-callback_example =
    awaited-eq-callback listener blank_file 0 accepted [] 1 (record { ec = 0; res = accepted.res })
      refl refl refl
