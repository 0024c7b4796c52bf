-- ===== src/Iocp/Startup.antt =====
-- net/iocp.cpp: the constructor of IoCompletionPort and its destructor. What the calls of the system
-- give, a value or an error code, is the argument of the constructor.
use magio.Prelude.{ℕ, zero, suc, ◌≡◌, refl, ◌⊎◌, inl, inr, Option, none, some, []}
use magio.Socket.{Ip, v4, Transport, tcp, Socket, open_with, close, raw}
use magio.Socket
use magio.Result.{redirect_err}
use magio.Iocp.{IoCompletionPort}

-- The functions that `WSAIoctl` loads.
pub data Extension : Type 0 where
  accept_ex connect_ex get_accept_ex_sockaddrs : Extension

pub record Windows : Type 0 where
  pub wsa_startup : Option ℕ  -- the error, if there is one
  pub wsa_socket : (af type : ℕ) → ℕ ⊎ ℕ
  pub wsa_ioctl : (socket : ℕ) → Extension → ℕ ⊎ ℕ
  pub create_io_completion_port : ℕ ⊎ ℕ

-- What `data_` points to, with the requests of the port.
pub record Data : Type 0 where
  pub handle : ℕ
  pub accept : ℕ
  pub connect : ℕ
  pub get_sock_addr : ℕ
  pub requests : IoCompletionPort

-- The constructor returns, having closed the socket that it opened, or ends the program, with the
-- error that it prints.
pub data Started : Type 0 where
  fatal : (ec : ℕ) → Started
  started : Data → (closed : Option ℕ) → Started

-- `M_FATAL` after a call that gives an error.
abbrev or_fatal : ℕ ⊎ ℕ → (ℕ → Started) → Started
or_fatal (inl x) go = go x
or_fatal (inr ec) go = fatal ec

abbrev and_then : Option ℕ → Started → Started
and_then none s = s
and_then (some ec) s = fatal ec

abbrev no_error : ℕ → Started → Started
no_error zero s = s
no_error (suc ec) s = fatal (suc ec)

-- `new Data{…}`
abbrev new_data : (handle accept connect get_sock_addr : ℕ) → Data
new_data h a c g = record {
  handle = h;
  accept = a;
  connect = c;
  get_sock_addr = g;
  requests = record { io_num = 0; in_flight = [] };
}

unfoldable pub construct : Windows → Started
construct w =
    let (socket, ec) = redirect_err (open_with w.wsa_socket v4 tcp) in
    let ioctl = w.wsa_ioctl (raw socket.handle) in
    and_then w.wsa_startup (
      no_error ec (
        or_fatal (ioctl accept_ex) (λ a. or_fatal (ioctl connect_ex) (λ c.
          or_fatal (ioctl get_accept_ex_sockaddrs) (λ g.
            or_fatal w.create_io_completion_port
              (λ h. started (new_data h a c g) (close socket).1))))))

-- The second component is the handle that is closed.
unfoldable pub destroy : Option Data → Option Data × Option ℕ
destroy none = (none, none)
destroy (some d) = (none, some d.handle)

-- When every call succeeds the constructor returns, with the functions that were loaded through the
-- socket and with the socket closed; the destructor closes the port, and only once.
starts :
    (w : Windows) (s a c g h : ℕ)
    → w.wsa_startup ≡ none
    → w.wsa_socket 2 1 ≡ inl s
    → w.wsa_ioctl s accept_ex ≡ inl a
    → w.wsa_ioctl s connect_ex ≡ inl c
    → w.wsa_ioctl s get_accept_ex_sockaddrs ≡ inl g
    → w.create_io_completion_port ≡ inl h
    → (construct w ≡ started (new_data h a c g) (some s))
      × (destroy (some (new_data h a c g)) ≡ (none, some h))
      × (destroy (destroy (some (new_data h a c g))).0 ≡ (none, none))
unfolding construct destroy open_with Socket.open_socket Socket.construct close
starts w s a c g h e₁ e₂ e₃ e₄ e₅ e₆ = (rw (e₁, e₂, e₃, e₄, e₅, e₆) refl, refl, refl)
