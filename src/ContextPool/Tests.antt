-- ===== src/ContextPool/Tests.antt =====
-- The theorems about the pool at concrete runs, of a pool of two contexts.
use magio.ContextPool.Turns.{turn}
use magio.Prelude.{ℕ, ◌≡◌, ◌<◌, ◌≢◌, refl, arith}
use magio.ContextPool.{
  done, construct, initial, building, System, builds, built, Reach, here, later,
}
use magio.ContextPool.Built.{contexts_built}

record Run : Type 0 where
  last : System
  reach : Reach last

-- The thread has built its context, and the constructor has returned.
abbrev ready : Run
unfolding construct done
ready = record {
  last = _;
  reach =
      later
        (later (here 2 (initial 2) refl (omega arith)) (builds 1 (omega arith) (omega arith) refl))
        (built refl refl);
}

contexts_built_example :
    (ready.last.thread 1 ≢ building)
    × ((j : ℕ) × (j < ready.last.pool.contexts) × (turn j ready.last.pool ≡ 0))
unfolding construct done
contexts_built_example =
    contexts_built ready.reach 1 0 (λ e. ground (arith, e)) (omega arith) (omega arith)
      (omega arith)
