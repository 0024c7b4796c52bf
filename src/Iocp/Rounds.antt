-- ===== src/Iocp/Rounds.antt =====
-- net/iocp.cpp: the rounds of the loop of poll against the packets.
use magio.Prelude.{
  ℕ, zero, suc, ◌+◌, ◌%◌, ◌^◌, ◌≤◌, ◌≡◌, refl, ap, ◌≢◌, ◌⊎◌, inl, inr, ◌==◌, ==_iff, Bool-cases,
  List, [], ◌∷◌, ◌++◌, length, arith,
}
use magio.Io.{Operation, IoContext}
use magio.IoUring.{Callback, decrement}
use magio.Iocp.{
  Packet, timed_out, woken, broken, done, ulong_max, settle_op, settle_accept, completed, closing,
  Polled, after_callback, poll_loop,
}

-- What a request with such a packet is owed, by its kind: a transfer the bytes, an accept the
-- address of the peer, or, when it has failed, that its socket is closed.
abbrev pub Outcome :
    Operation → IoContext → (ec bytes : ℕ) → List ℕ → IoContext → (closed : List ℕ) → Type 0
Outcome Operation.noop ioc ec bytes peer after closed = (after.res ≡ ioc.res) × (closed ≡ [])
Outcome Operation.connect ioc ec bytes peer after closed = (after.res ≡ ioc.res) × (closed ≡ [])
Outcome Operation.accept ioc ec bytes peer after closed =
    ((ec ≡ 0)
      × (after.res ≡ ioc.res)
      × (after.remote_addr ≡ peer)
      × (after.addr_len ≡ length peer)
      × (closed ≡ []))
    ⊎ ((ec ≢ 0) × (closed ≡ ioc.res ∷ []))
Outcome _ ioc ec bytes peer after closed = (after.res ≡ bytes) × (closed ≡ [])

-- Its own callback is called, with its own pointer and the error code of the packet.
pub record Given (ioc : IoContext) (ec bytes : ℕ) (peer : List ℕ) (back : Callback)
    (closed : List ℕ) : Type 0 where
  pub same_callback : back.cb ≡ ioc.cb
  pub same_pointer : back.ptr ≡ ioc.ptr
  pub same_code : back.ec ≡ ec
  pub outcome : Outcome ioc.op ioc ec bytes peer back.ioc closed

-- What the packets of one call of poll come to: the callbacks, and the sockets that are closed. A
-- request with ULONG_MAX bytes is passed over like a wake-up.
abbrev pub Served : List Packet → List Callback → List ℕ → Type 0
Served [] cs hs = (cs ≡ []) × (hs ≡ [])
Served (done ioc ec bytes peer ∷ ps) cs hs =
    ((bytes ≡ ulong_max) × Served ps cs hs)
    ⊎ ((bytes ≢ ulong_max)
        × ((back : Callback) × (cs' : List Callback) × (closed hs' : List ℕ) × (cs ≡ back ∷ cs')
            × (hs ≡ closed ++ hs')
            × Given ioc ec bytes peer back closed
            × Served ps cs' hs'))
Served (p ∷ ps) cs hs = Served ps cs hs

settle_op-Outcome :
    (op : Operation) (ioc : IoContext) (ec bytes : ℕ) (peer : List ℕ)
    → Outcome op ioc ec bytes peer (settle_op op ioc ec bytes peer) (closing op ec ioc.res)
unfolding settle_op settle_accept
settle_op-Outcome Operation.noop ioc ec bytes peer = (refl, refl)
settle_op-Outcome Operation.connect ioc ec bytes peer = (refl, refl)
settle_op-Outcome Operation.accept ioc zero bytes peer = inl (refl, refl, refl, refl, refl)
settle_op-Outcome Operation.accept ioc (suc ec) bytes peer = inr (λ e. ground (arith, e), refl)
settle_op-Outcome Operation.write_file ioc ec bytes peer = (refl, refl)
settle_op-Outcome Operation.read_file ioc ec bytes peer = (refl, refl)
settle_op-Outcome Operation.send ioc ec bytes peer = (refl, refl)
settle_op-Outcome Operation.receive ioc ec bytes peer = (refl, refl)
settle_op-Outcome Operation.send_to ioc ec bytes peer = (refl, refl)
settle_op-Outcome Operation.receive_from ioc ec bytes peer = (refl, refl)

settle_op-keeps :
    (op : Operation) (ioc : IoContext) (ec bytes : ℕ) (peer : List ℕ)
    → ((settle_op op ioc ec bytes peer).cb ≡ ioc.cb)
      × ((settle_op op ioc ec bytes peer).ptr ≡ ioc.ptr)
unfolding settle_op settle_accept
settle_op-keeps Operation.noop ioc ec bytes peer = (refl, refl)
settle_op-keeps Operation.connect ioc ec bytes peer = (refl, refl)
settle_op-keeps Operation.accept ioc zero bytes peer = (refl, refl)
settle_op-keeps Operation.accept ioc (suc ec) bytes peer = (refl, refl)
settle_op-keeps Operation.write_file ioc ec bytes peer = (refl, refl)
settle_op-keeps Operation.read_file ioc ec bytes peer = (refl, refl)
settle_op-keeps Operation.send ioc ec bytes peer = (refl, refl)
settle_op-keeps Operation.receive ioc ec bytes peer = (refl, refl)
settle_op-keeps Operation.send_to ioc ec bytes peer = (refl, refl)
settle_op-keeps Operation.receive_from ioc ec bytes peer = (refl, refl)

completed-Given :
    (ioc : IoContext) (ec bytes : ℕ) (peer : List ℕ)
    → Given ioc ec bytes peer (completed ioc ec bytes peer) (closing ioc.op ec ioc.res)
unfolding completed
completed-Given ioc ec bytes peer =
    let (cb, ptr) = settle_op-keeps ioc.op ioc ec bytes peer in
    record {
      same_callback = cb;
      same_pointer = ptr;
      same_code = refl;
      outcome = settle_op-Outcome ioc.op ioc ec bytes peer;
    }

-- The last packet is one that ends the loop.
pub data Ends : List Packet → Type 0 where
  none_left : Ends (timed_out ∷ [])
  failed : {e : ℕ} → Ends (broken e ∷ [])
  behind : {p : Packet} {ps : List Packet} → Ends ps → Ends (p ∷ ps)

-- Why the loop stops: its rounds are spent, the queue is empty, or such a packet has come.
abbrev pub Stops : (rounds : ℕ) → (used left : List Packet) → Type 0
Stops rounds used left = (length used ≡ rounds) ⊎ ((left ≡ []) ⊎ Ends used)

goes_on :
    (p : Packet) (k : ℕ) (used left : List Packet)
    → Stops k used left
    → Stops (suc k) (p ∷ used) left
goes_on p k used left (inl e) = inl (omega (arith, e))
goes_on p k used left (inr (inl e)) = inr (inl e)
goes_on p k used left (inr (inr e)) = inr (inr (behind e))

count_down :
    (n m c a b : ℕ)
    → (m + c) % 2 ^ 64 ≡ (after_callback (decrement n) a + b) % 2 ^ 64
    → (m + suc c) % 2 ^ 64 ≡ (n + (a + b)) % 2 ^ 64
count_down n m c a b h = omega (arith, h)

module _ (asked : Callback → ℕ) where
  abbrev pub asked_in_all : List Callback → ℕ
  asked_in_all [] = 0
  asked_in_all (c ∷ cs) = asked c + asked_in_all cs

  pub record Accounted (rounds n : ℕ) (ps : List Packet) (x : Polled) : Type 0 where
    pub used : List Packet
    pub split : ps ≡ used ++ x.left
    pub few : length used ≤ rounds
    pub stops : Stops rounds used x.left
    pub served : Served used x.callbacks x.closed
    pub counted : (x.io_num + length x.callbacks) % 2 ^ 64 ≡ (n + asked_in_all x.callbacks) % 2 ^ 64

  -- The loop takes packets off the front of the queue, at most as many as it has rounds, and fewer
  -- only when the queue is empty or the system reports a timeout or a failure without a request;
  -- the callback of each request among them is called once, in order, with the request's own
  -- pointer, the error code of the packet and, for a transfer, its bytes; a failed accept has its
  -- socket closed, and no other socket is closed; a packet with ULONG_MAX bytes is passed over; the
  -- count is lowered by the callbacks and raised by the requests that they made, modulo 2^64.
  pub poll_loop-Accounted : (k n : ℕ) (ps : List Packet) → Accounted k n ps (poll_loop asked k n ps)
  unfolding poll_loop
  poll_loop-Accounted zero n ps = record {
    used = [];
    split = refl;
    few = omega arith;
    stops = inl refl;
    served = (refl, refl);
    counted = omega arith;
  }
  poll_loop-Accounted (suc k) n [] = record {
    used = [];
    split = refl;
    few = omega arith;
    stops = inr (inl refl);
    served = (refl, refl);
    counted = omega arith;
  }
  poll_loop-Accounted (suc k) n (timed_out ∷ ps) = record {
    used = timed_out ∷ [];
    split = refl;
    few = omega arith;
    stops = inr (inr none_left);
    served = (refl, refl);
    counted = omega arith;
  }
  poll_loop-Accounted (suc k) n (woken ∷ ps) =
      let v = poll_loop-Accounted k n ps in
      record {
        used = woken ∷ v.used;
        split = ap (◌∷◌ woken) v.split;
        few = omega (arith, v.few);
        stops = goes_on woken k v.used _ v.stops;
        served = v.served;
        counted = v.counted;
      }
  poll_loop-Accounted (suc k) n (broken e ∷ ps) = record {
    used = broken e ∷ [];
    split = refl;
    few = omega arith;
    stops = inr (inr failed);
    served = (refl, refl);
    counted = omega arith;
  }
  poll_loop-Accounted (suc k) n (done ioc e bytes peer ∷ ps) =
      elim (Bool-cases (bytes == ulong_max)) [
        | inl m ↦
            let v = poll_loop-Accounted k n ps in
            rw (m, poll_loop)
              (record {
                used = done ioc e bytes peer ∷ v.used;
                split = ap (◌∷◌ (done ioc e bytes peer)) v.split;
                few = omega (arith, v.few);
                stops = goes_on _ k v.used _ v.stops;
                served = inl ((==_iff bytes ulong_max).0 m, v.served);
                counted = v.counted;
              })
        | inr m ↦
            let back = completed ioc e bytes peer in
            let v = poll_loop-Accounted k (after_callback (decrement n) (asked back)) ps in
            rw (m, poll_loop)
              (record {
                used = done ioc e bytes peer ∷ v.used;
                split = ap (◌∷◌ (done ioc e bytes peer)) v.split;
                few = omega (arith, v.few);
                stops = goes_on _ k v.used _ v.stops;
                served = inr (
                  λ q. ground (arith, m, q),
                  (back, _, _, _, refl, refl, completed-Given ioc e bytes peer, v.served),
                );
                counted = count_down n _ _ (asked back) _ v.counted;
              })
      ]
