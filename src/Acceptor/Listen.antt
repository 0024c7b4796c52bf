-- ===== src/Acceptor/Listen.antt =====
-- net/acceptor.cpp: what Acceptor::listen leaves open, by the list of its calls of the system.
use magio.Prelude.{
  ℕ, ◌≡◌, ◌≢◌, refl, ap, ◌∙◌, ◌⊎◌, inl, inr, true, Option, none, some, List, [], ◌∷◌, ◌==◌, ==_iff,
  if◌then◌else◌, arith,
}
use magio.Result.{Result, is_error}
use magio.Socket.{tcp, construct, address_family, socket_type, open_result, answered}
use magio.Socket
use magio.Acceptor.{
  System, SystemCall, somaxconn, address_ip, bound_bytes, listen_on, bind_opened, opened, bound,
  listened, listen_bound, Acceptor, move_construct, destroy,
}

is_error_lem : (ec : ℕ) → ec ≢ 0 → is_error ec ≡ true
is_error_lem ec h = ground arith

module _ (system : System) where
  -- An error has a code.
  pub record Coded : Type 0 where
    pub socket_code : (af type ec : ℕ) → system.on_socket af type ≡ inr ec → ec ≢ 0
    pub bind_code : (h : ℕ) (bytes : List ℕ) (ec : ℕ) → system.on_bind h bytes ≡ some ec → ec ≢ 0
    pub listen_code : (h n ec : ℕ) → system.on_listen h n ≡ some ec → ec ≢ 0

  abbrev if_opened : Option ℕ → ℕ ⊎ ℕ → Option ℕ
  if_opened o (inl h) = some h
  if_opened o (inr ec) = o

  abbrev unless_closed : Option ℕ → ℕ → Option ℕ
  unless_closed none h = none
  unless_closed (some g) h = if g == h then none else some g

  -- The handle that is open after the calls.
  pub left_open : Option ℕ → List SystemCall → Option ℕ
  left_open o [] = o
  left_open o (SystemCall.socket af type ∷ cs) =
      left_open (if_opened o (system.on_socket af type)) cs
  left_open o (SystemCall.close h ∷ cs) = left_open (unless_closed o h) cs
  left_open o (_ ∷ cs) = left_open o cs

  abbrev code_or : Option ℕ → ℕ → ℕ
  code_or none rest = rest
  code_or (some ec) rest = ec

  abbrev code_of : ℕ ⊎ ℕ → Option ℕ
  code_of (inl h) = none
  code_of (inr ec) = some ec

  -- The code of the first call that failed, 0 without one.
  pub first_error : List SystemCall → ℕ
  first_error [] = 0
  first_error (SystemCall.socket af type ∷ cs) =
      code_or (code_of (system.on_socket af type)) (first_error cs)
  first_error (SystemCall.bind h bytes ∷ cs) = code_or (system.on_bind h bytes) (first_error cs)
  first_error (SystemCall.listen h n ∷ cs) = code_or (system.on_listen h n) (first_error cs)
  first_error (SystemCall.close h ∷ cs) = first_error cs

  abbrev Called : Type 0
  Called = Result Acceptor × List SystemCall

  -- What is open after the calls is the acceptor's, and the result has the first error.
  abbrev pub Accounted : Option ℕ → Called → Type 0
  Accounted o (r, calls) =
      (left_open o calls ≡ r.value.listener.handle) × (first_error calls ≡ r.ec)

  abbrev pub Refused : Called → Type 0
  Refused (r, calls) = (r.value.listener.handle ≡ none) × (r.ec ≢ 0)

  -- The socket `h` is the acceptor's, and the calls are those listed.
  abbrev pub Serves : (h : ℕ) → Called → List SystemCall → Type 0
  Serves h (r, calls) expected =
      (r.value.listener.handle ≡ some h) × (r.ec ≡ 0) × (calls ≡ expected)

  abbrev listening : ℕ → List SystemCall
  listening h = SystemCall.listen h somaxconn ∷ []

  abbrev binding : (address : List ℕ) → ℕ → List SystemCall
  binding address h = SystemCall.bind h (bound_bytes system address) ∷ listening h

  -- An acceptor whose socket is `h`.
  abbrev acceptor_of : List ℕ → ℕ → Acceptor
  acceptor_of address h = record { listener = construct h (address_ip system address) tcp }

  listened_lem :
      (address : List ℕ) (h : ℕ)
      → Coded
      → (answer : Option ℕ) → system.on_listen h somaxconn ≡ answer
      → let (r, calls) = listened system address (acceptor_of address h) answer in
        let p : Called = (r, SystemCall.listen h somaxconn ∷ calls) in
        Accounted (some h) p × (Serves h p (listening h) ⊎ Refused p)
  unfolding left_open first_error destroy move_construct Socket.close Socket.move_construct
      construct
  listened_lem address h coded none e = rw (e) ((refl, refl), inl (refl, refl, refl))
  listened_lem address h coded (some ec) e =
      rw (e, (==_iff h h).1 refl) ((refl, refl), inr (refl, coded.listen_code h somaxconn ec e))

  listen_bound_lem :
      (address : List ℕ) (h : ℕ)
      → Coded
      → let p = listen_bound system address (acceptor_of address h) in
        Accounted (some h) p × (Serves h p (listening h) ⊎ Refused p)
  unfolding listen_bound construct
  listen_bound_lem address h coded = listened_lem address h coded _ refl

  bound_lem :
      (address : List ℕ) (h : ℕ)
      → Coded
      → (answer : Option ℕ) → system.on_bind h (bound_bytes system address) ≡ answer
      → let (r, calls) = bound system address (acceptor_of address h) (answered answer) in
        let p : Called = (r, SystemCall.bind h (bound_bytes system address) ∷ calls) in
        Accounted (some h) p × (Serves h p (binding address h) ⊎ Refused p)
  unfolding left_open first_error destroy Socket.close construct
  bound_lem address h coded none e =
      let ((x, y), s) = listen_bound_lem address h coded in
      (
        (x, rw (e) y),
        elim s [
          | inl (x, y, z) ↦
              inl (x, y, ap (λ cs. SystemCall.bind h (bound_bytes system address) ∷ cs) z)
          | inr r ↦ inr r
        ],
      )
  bound_lem address h coded (some ec) e =
      let code = coded.bind_code h _ ec e in
      rw (e, is_error_lem ec code, (==_iff h h).1 refl) ((refl, refl), inr (refl, code))

  bind_opened_lem :
      (address : List ℕ) (h : ℕ)
      → Coded
      → let p = bind_opened system address (acceptor_of address h) in
        Accounted (some h) p × (Serves h p (binding address h) ⊎ Refused p)
  unfolding bind_opened Socket.bind construct
  bind_opened_lem address h coded = bound_lem address h coded _ refl

  abbrev pub calling : List ℕ → ℕ → List SystemCall
  calling address h =
      SystemCall.socket (address_family (address_ip system address)) (socket_type tcp)
      ∷ binding address h

  opened_lem :
      (address : List ℕ)
      → Coded
      → (answer : ℕ ⊎ ℕ)
      → system.on_socket (address_family (address_ip system address)) (socket_type tcp) ≡ answer
      → let (r, calls) =
          opened system address (open_result (address_ip system address) tcp answer) in
        let p : Called = (
          r,
          SystemCall.socket (address_family (address_ip system address)) (socket_type tcp) ∷ calls,
        ) in
        Accounted none p × (((h : ℕ) × Serves h p (calling address h)) ⊎ Refused p)
  unfolding left_open first_error destroy Socket.close Socket.move_assign construct
  opened_lem address coded (inl h) e =
      let ((x, y), s) = bind_opened_lem address h coded in
      let calls = (bind_opened system address (acceptor_of address h)).1 in
      (
        (
          ap (λ a. left_open (if_opened none a) calls) e ∙ x,
          ap (λ a. code_or (code_of a) (first_error calls)) e ∙ y,
        ),
        elim s [
          | inl (x, y, z) ↦ inl (
            h,
            (
              x,
              y,
              ap
                  (λ cs.
                    SystemCall.socket (address_family (address_ip system address)) (socket_type tcp)
                    ∷ cs)
                  z,
            ),
          )
          | inr r ↦ inr r
        ],
      )
  opened_lem address coded (inr ec) e =
      let code = coded.socket_code _ _ ec e in
      rw (is_error_lem ec code)
        ((ap (if_opened none) e, ap (λ a. code_or (code_of a) 0) e), inr (refl, code))

  pub listen_on_lem :
      (address : List ℕ)
      → Coded
      → let p = listen_on system address in
        Accounted none p × (((h : ℕ) × Serves h p (calling address h)) ⊎ Refused p)
  unfolding listen_on Socket.open_with Socket.open_socket
  listen_on_lem address coded = opened_lem address coded _ refl
