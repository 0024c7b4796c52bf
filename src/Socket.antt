-- ===== src/Socket.antt =====
-- net/socket.cpp: the state of Socket and its operations. The answers of the system are arguments.
pub mod Awaited
use magio.Prelude.{
  ℕ, ◌-◌, ◌^◌, ◌≡◌, ◌≢◌, refl, ◌⊎◌, inl, inr, Bool, true, false, Option, none, some, List, ◌==◌,
  if◌then◌else◌, arith, ◌>>=◌, sym, ◌∙◌, take, Bool-cases, Option-cases,
}
use magio.Handle.{Owner, Attached, attached, fatal, attach_context}
use magio.Io.{sockaddr_len}
use magio.IoUring.Poll.{Call}
use magio.Result.{Result, of_value, of_code}

pub data Ip : Type 0 where
  v4 v6 : Ip

pub data Transport : Type 0 where
  tcp udp : Transport

pub record Socket : Type 0 where
  pub handle : Option ℕ
  pub attached_to : Option ℕ
  pub ip : Ip
  pub transport : Transport

-- `reset()`, the socket without a handle.
abbrev pub blank_socket : Socket
blank_socket = record { handle = none; attached_to = none; ip = v4; transport = tcp }

unfoldable pub construct : (handle : ℕ) → Ip → Transport → Socket
construct h ip tp = record { handle = some h; attached_to = none; ip = ip; transport = tp }

unfoldable pub move_construct : Socket → Socket × Socket
move_construct o = (o, blank_socket)

abbrev pub same_handle : Option ℕ → Option ℕ → Bool
same_handle none none = true
same_handle (some a) (some b) = a == b
same_handle _ _ = false

-- Objects with the same handle are taken for the same object.
unfoldable pub move_assign : Socket → Socket → Socket × Socket
move_assign t o = if same_handle t.handle o.handle then (t, o) else (o, blank_socket)

unfoldable pub close : Socket → Socket × Option ℕ
close t = elim t.handle [ none ↦ (t, none) | some h ↦ (blank_socket, some h) ]

abbrev pub address_family : Ip → ℕ
address_family v4 = 2
address_family v6 = 10

abbrev pub socket_type : Transport → ℕ
socket_type tcp = 1
socket_type udp = 2

abbrev pub raw : Option ℕ → ℕ
raw none = 2 ^ 32 - 1
raw (some h) = h

-- The system makes a handle for a family and a type, or gives an error code.
unfoldable pub open_socket : (system : (af type : ℕ) → ℕ ⊎ ℕ) → Ip → Transport → ℕ ⊎ ℕ
open_socket system ip tp = system (address_family ip) (socket_type tp)

abbrev pub open_result : Ip → Transport → ℕ ⊎ ℕ → Result Socket
open_result ip tp (inl h) = of_value (construct h ip tp) 0
open_result ip tp (inr ec) = of_code blank_socket ec

unfoldable pub open_with : (system : (af type : ℕ) → ℕ ⊎ ℕ) → Ip → Transport → Result Socket
unfolding open_socket
open_with system ip tp = open_result ip tp (open_socket system ip tp)

abbrev pub answered : Option ℕ → Result (Unit {0})
answered none = of_value tt 0
answered (some ec) = of_code tt ec

-- `bind` takes the first `sockaddr_len` bytes of the address; the system answers with an error code
-- or with none.
unfoldable pub bind :
    (system : (handle : ℕ) → List ℕ → Option ℕ) → Socket → (address : List ℕ) → Result (Unit {0})
bind system s address = answered (system (raw s.handle) (take (sockaddr_len address) address))

data Shutdown : Type 0 where
  read write both : Shutdown

abbrev how : Shutdown → ℕ
how read = 0
how write = 1
how both = 2

-- The call of the system, if there is one: the handle and the way.
shutdown : Socket → Shutdown → Option (ℕ × ℕ)
shutdown s type = elim s.handle [ none ↦ none | some h ↦ some (h, how type) ]

abbrev attach_result : Socket → Attached → Option Socket
attach_result s (attached now calls) = some (record s { attached_to = now })
attach_result s fatal = none

-- `none` is M_FATAL.
unfoldable pub attach : Socket → (local_context : ℕ) → Option Socket
attach s c = attach_result s (attach_context s.handle s.attached_to c)

unfoldable pub connect :
    Socket → (c : ℕ) (remote : List ℕ) (user_ptr cb : ℕ) → Option (Socket × Call)
unfolding attach
connect s c remote p cb = attach s c >>= λ t. some (t, Call.connect (raw t.handle) remote p cb)

unfoldable pub send : Socket → (c msg len user_ptr cb : ℕ) → Option (Socket × Call)
unfolding attach
send s c msg len p cb = attach s c >>= λ t. some (t, Call.send (raw t.handle) msg len p cb)

unfoldable pub receive : Socket → (c buf len user_ptr cb : ℕ) → Option (Socket × Call)
unfolding attach
receive s c buf len p cb = attach s c >>= λ t. some (t, Call.receive (raw t.handle) buf len p cb)

unfoldable pub send_to :
    Socket → (c : ℕ) (remote : List ℕ) (msg len user_ptr cb : ℕ) → Option (Socket × Call)
unfolding attach
send_to s c remote msg len p cb =
    attach s c >>= λ t. some (t, Call.send_to (raw t.handle) remote msg len p cb)

unfoldable pub receive_from : Socket → (c buf len user_ptr cb : ℕ) → Option (Socket × Call)
unfolding attach
receive_from s c buf len p cb =
    attach s c >>= λ t. some (t, Call.receive_from (raw t.handle) buf len p cb)

unfoldable pub cancel : Socket → Option Call
cancel s = elim s.handle [ none ↦ none | some h ↦ some (Call.cancel h) ]

same_handle_lem :
    (a b : Option ℕ) → (a ≢ b) ⊎ (b ≡ none) → same_handle a b ≡ true → (a ≡ none) × (b ≡ none)
same_handle_lem none none h e = (refl, refl)
same_handle_lem none (some b) h e = absurd (ground arith)
same_handle_lem (some a) none h e = absurd (ground arith)
same_handle_lem (some a) (some b) h e = absurd (ground arith)

-- The two laws of an assignment.
pub assign_lem :
    (t o : Socket)
    → (t.handle ≢ o.handle) ⊎ (o.handle ≡ none)
    → ((move_assign t o).0.handle ≡ o.handle) × ((move_assign t o).1.handle ≡ none)
unfolding move_assign
assign_lem t o h = elim (Bool-cases (same_handle t.handle o.handle)) [
  | inl e ↦ let (a, b) = same_handle_lem t.handle o.handle h e in rw (e) (a ∙ sym b, b)
  | inr e ↦ rw (e) (refl, refl)
]

pub close_lem : (t : Socket) → ((close t).1 ≡ t.handle) × ((close t).0.handle ≡ none)
unfolding close
close_lem t = elim (Option-cases t.handle) [
  | inl e ↦ ground (arith, e)
  | inr (h, e) ↦ ground (arith, e)
]

unfoldable pub socket_owner : Owner Socket
unfolding move_construct
socket_owner = record {
  handle = λ s. s.handle;
  move_construct = move_construct;
  move_assign = move_assign;
  close = close;
  construct_takes = λ o. refl;
  construct_empties = λ o. refl;
  assign_takes = λ t o h. (assign_lem t o h).0;
  assign_empties = λ t o h. (assign_lem t o h).1;
  close_gives = λ t. (close_lem t).0;
  close_empties = λ t. (close_lem t).1;
}
