-- ===== src/Acceptor.antt =====
-- net/acceptor.cpp: Acceptor. The answers of the system are arguments; the calls of the system are
-- listed in order, those of destructors included.
pub mod Listen
pub mod Accept
mod Tests
use magio.Prelude.{
  ℕ, ◌≡◌, ◌≢◌, refl, ◌⊎◌, inl, inr, Bool, true, false, Option, none, some, List, [], ◌∷◌, ◌++◌,
  if◌then◌else◌, arith, ◌>>=◌, Bool-cases, Option-cases, take,
}
use magio.Handle.{Owner}
use magio.Io.{sockaddr_len}
use magio.IoUring.Poll.{Call}
use magio.Address.{is_ipv4}
use magio.Result.{Result, of_value, of_code, is_error, redirect_err}
use magio.Socket
use magio.Socket.{
  Socket, Ip, v4, v6, Transport, tcp, blank_socket, raw, same_handle, address_family, socket_type,
  open_with, socket_owner,
}

pub record Acceptor : Type 0 where
  pub listener : Socket

abbrev pub blank_acceptor : Acceptor
blank_acceptor = record { listener = blank_socket }

unfoldable pub move_construct : Acceptor → Acceptor × Acceptor
unfolding Socket.move_construct
move_construct o =
    let (l, r) = Socket.move_construct o.listener in
    (record { listener = l }, record { listener = r })

unfoldable pub move_assign : Acceptor → Acceptor → Acceptor × Acceptor
unfolding Socket.move_assign
move_assign t o =
    let (l, r) = Socket.move_assign t.listener o.listener in
    if same_handle t.listener.handle o.listener.handle
    then (t, o)
    else (record { listener = l }, record { listener = r })

-- The destructor.
unfoldable pub destroy : Acceptor → Acceptor × Option ℕ
unfolding Socket.close
destroy t = let (l, h) = Socket.close t.listener in (record { listener = l }, h)

pub data SystemCall : Type 0 where
  socket : (af type : ℕ) → SystemCall
  bind : (handle : ℕ) (address : List ℕ) → SystemCall
  listen : (handle backlog : ℕ) → SystemCall
  close : (handle : ℕ) → SystemCall

pub record System : Type 0 where
  pub on_socket : (af type : ℕ) → ℕ ⊎ ℕ
  pub on_bind : (handle : ℕ) → List ℕ → Option ℕ
  pub on_listen : (handle backlog : ℕ) → Option ℕ

abbrev pub somaxconn : ℕ
somaxconn = 4096

abbrev pub closing : Option ℕ → List SystemCall
closing none = []
closing (some h) = SystemCall.close h ∷ []

module _ (system : System) (address : List ℕ) where
  abbrev pub address_ip : Ip
  address_ip = if is_ipv4 address then v4 else v6

  abbrev pub bound_bytes : List ℕ
  bound_bytes = take (sockaddr_len address) address

  -- `listen` on the socket that is bound, and the result, by the answer of the system.
  abbrev pub listened : Acceptor → Option ℕ → Result Acceptor × List SystemCall
  listened a none = (of_value (move_construct a).0 0, closing (destroy (move_construct a).1).1)
  listened a (some ec) = (of_code blank_acceptor ec, closing (destroy a).1)

  pub listen_bound : Acceptor → Result Acceptor × List SystemCall
  listen_bound a =
      let (r, calls) = listened a (system.on_listen (raw a.listener.handle) somaxconn) in
      (r, SystemCall.listen (raw a.listener.handle) somaxconn ∷ calls)

  abbrev pub bound : Acceptor → Result (Unit {0}) → Result Acceptor × List SystemCall
  bound a result =
      let (_, ec) = redirect_err result in
      let rest = listen_bound a in
      if is_error ec then (of_code blank_acceptor ec, closing (destroy a).1) else rest

  pub bind_opened : Acceptor → Result Acceptor × List SystemCall
  unfolding Socket.bind
  bind_opened a =
      let (r, calls) = bound a (Socket.bind system.on_bind a.listener address) in
      (r, SystemCall.bind (raw a.listener.handle) bound_bytes ∷ calls)

  abbrev pub opened : Result Socket → Result Acceptor × List SystemCall
  opened result =
      let (l, ec) = redirect_err result in
      let a : Acceptor = record { listener = (Socket.move_assign blank_socket l).0 } in
      let rest = bind_opened a in
      if is_error ec then (of_code blank_acceptor ec, closing (destroy a).1) else rest

  pub listen_on : Result Acceptor × List SystemCall
  unfolding open_with
  listen_on =
      let (r, calls) = opened (open_with system.on_socket address_ip tcp) in
      (r, SystemCall.socket (address_family address_ip) (socket_type tcp) ∷ calls)

-- `none` is M_FATAL.
unfoldable pub attach : Acceptor → (local_context : ℕ) → Option Acceptor
unfolding Socket.attach
attach a c = Socket.attach a.listener c >>= λ l. some (record { listener = l })

unfoldable pub accept : Acceptor → (c user_ptr cb : ℕ) → Option (Acceptor × Call)
unfolding attach
accept a c p cb = attach a c >>= λ b. some (b, Call.accept (raw b.listener.handle) p cb)

-- An assignment is one of the listeners.
pub move_assign_lem :
    (t o : Acceptor)
    → let (l, r) = Socket.move_assign t.listener o.listener in
      ((move_assign t o).0.listener ≡ l) × ((move_assign t o).1.listener ≡ r)
unfolding move_assign
move_assign_lem t o = elim (Bool-cases (same_handle t.listener.handle o.listener.handle)) [
  | inl e ↦ rw (e) (refl, refl)
  | inr e ↦ rw (e) (refl, refl)
]

unfoldable pub acceptor_owner : Owner Acceptor
unfolding move_construct destroy socket_owner
acceptor_owner = record {
  handle = λ a. a.listener.handle;
  move_construct = move_construct;
  move_assign = move_assign;
  close = destroy;
  construct_takes = λ o. refl;
  construct_empties = λ o. refl;
  assign_takes =
      λ t o h. rw (move_assign_lem t o).0 (socket_owner.assign_takes t.listener o.listener h);
  assign_empties =
      λ t o h. rw (move_assign_lem t o).1 (socket_owner.assign_empties t.listener o.listener h);
  close_gives = λ t. socket_owner.close_gives t.listener;
  close_empties = λ t. socket_owner.close_empties t.listener;
}
