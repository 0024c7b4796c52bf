-- ===== src/ThreadPool/Reachable.antt =====
-- core/thread_pool.cpp: the pool, and its workers in every reachable state.
use mathlib.Core.List.{append_assoc}
use magio.Prelude.{ℕ, ◌<◌, ◌≡◌, refl, inl, Bool, [], ◌∷◌, arith}
use magio.ThreadPool.{ThreadPool, wait, Outcome}
use magio.ThreadPool.Turn.{Turn, leaves, idles, serves, holds_back, run_once-Turn}
use magio.ThreadPool.System.{
  checking, Client, System, evaluated, Step, submit, notify_one, notify_none, starts, notify_all,
  stops, waited, waits, wait_ends, wait_blocks, destroys, evaluate, spurious, finish, init, Reach,
  here, later, spurious_client,
}
use magio.ThreadPool.Invariant.{
  Inv, init-Inv, submit-Inv, rise-Inv, notify_none-Inv, starts-Inv, notify_all-Inv, stops-Inv,
  destroys-Inv,
}

module _ {n : ℕ} (some_worker : 0 < n) {s : System} (v : Inv n s) where
  open v use {in_order, sound, born, unborn_outside, unstarted, exits_late, served}

  -- A client moves.
  waits-Inv : (j : ℕ) → Inv n (waited s j (wait s.pool))
  unfolding wait
  waits-Inv j = record {
    in_order = ground arith;
    sound = sound;
    born = born;
    unborn_outside = unborn_outside;
    unstarted = λ b. (λ q. ground (arith, (unstarted b).0), (unstarted b).1);
    exits_late = λ i q. ground (arith, exits_late i);
    served = λ q t. ground (arith, served);
  }

  client-Inv : (c : ℕ → Client) → Inv n (record s { client = c })
  client-Inv c = record {
    in_order = in_order;
    sound = sound;
    born = born;
    unborn_outside = unborn_outside;
    unstarted = unstarted;
    exits_late = exits_late;
    served = served;
  }

  -- Worker `i` leaves the critical section for `o`, with the pool `p`.
  Turn-Inv :
      (i : ℕ) {r : Outcome × ThreadPool × Bool}
      → s.worker i ≡ checking
      → Turn s.pool r
      → Inv n (evaluated s i r)
  Turn-Inv i h (leaves e d) = record {
    in_order = in_order;
    sound = λ j. ground (arith, sound j);
    born = λ b j l. ground (arith, born b j l);
    unborn_outside = λ j l. ground (arith, unborn_outside j l);
    unstarted = λ b. absurd (ground (arith, (unstarted b).1 i));
    exits_late = λ j q. d;
    served = λ r t. cc;
  }
  Turn-Inv i h (idles e d) = record {
    in_order = in_order;
    sound = λ j. ground (arith, sound j);
    born = λ b j l. ground (arith, born b j l);
    unborn_outside = λ j l. ground (arith, unborn_outside j l);
    unstarted = λ b. absurd (ground (arith, (unstarted b).1 i));
    exits_late = λ j q. ground (arith, exits_late j);
    served = λ r t. absurd (t e);
  }
  Turn-Inv i h (serves t ts e d) = record {
    in_order = ground (arith, append_assoc s.begun (t ∷ []) ts);
    sound = λ j. ground (arith, sound j);
    born = λ b j l. ground (arith, born b j l);
    unborn_outside = λ j l. ground (arith, unborn_outside j l);
    unstarted = λ b. absurd (ground (arith, (unstarted b).1 i));
    exits_late = λ j q. ground (arith, exits_late j);
    served = λ r t. inl (i, ground arith);
  }
  Turn-Inv i h (holds_back e d) = record {
    in_order = in_order;
    sound = λ j. ground (arith, sound j);
    born = λ b j l. ground (arith, born b j l);
    unborn_outside = λ j l. ground (arith, unborn_outside j l);
    unstarted = λ b. absurd (ground (arith, (unstarted b).1 i));
    exits_late = λ j q. ground (arith, exits_late j);
    served = λ r t. absurd (d r);
  }

pub Step-Inv : {n : ℕ} {s t : System} → 0 < n → Step n s t → Inv n s → Inv n t
Step-Inv w (submit t) v = submit-Inv w v t
Step-Inv w (notify_one k j e h) v = rise-Inv w v j k checking refl (λ u. ground arith)
Step-Inv w (notify_none k e h) v = notify_none-Inv w v k e h
Step-Inv w (starts h) v = starts-Inv w v h
Step-Inv w (notify_all k e) v = notify_all-Inv w v k e
Step-Inv w (stops h) v = stops-Inv w v h
Step-Inv w (waits j h) v = waits-Inv w v j
Step-Inv w (wait_ends j h d) v = client-Inv w v _
Step-Inv w (wait_blocks j h d) v = client-Inv w v _
Step-Inv w (destroys j h) v = destroys-Inv w v
Step-Inv {s} w (evaluate i h) v = Turn-Inv w v i h (run_once-Turn s.pool)
Step-Inv {s} w (spurious i h) v = rise-Inv w v i s.unsent checking refl (λ u. ground arith)
Step-Inv {s} w (finish i t h) v = rise-Inv w v i s.unsent checking refl (λ u. ground arith)

pub Reach-Inv : {n : ℕ} {s : System} → 0 < n → Reach n init s → Inv n s
Reach-Inv {n} w here = init-Inv n
Reach-Inv w (later r st) = Step-Inv w st (Reach-Inv w r)
Reach-Inv w (spurious_client j r e) = client-Inv w (Reach-Inv w r) _
