-- ===== src/ThreadPool/Hangs.antt =====
-- core/thread_pool.cpp: threads that block in `wait` and in the destructor.
use magio.Prelude.{append_ne, ℕ, ◌≡◌, ◌≢◌, refl, Bool, false, [], arith}
use magio.ThreadPool.{
  running, pending_destroy, ThreadPool, start, stop, execute, destroy, wait, Outcome,
}
use magio.ThreadPool.System.{
  exited, waiting, System, Step, evaluated, submit, notify_one, notify_none, starts, notify_all,
  stops, waits, wait_ends, wait_blocks, destroys, evaluate, spurious, finish,
}
use magio.ThreadPool.Turn.{Turn, leaves, idles, serves, holds_back, run_once-Turn}

-- Any number of steps, without a spurious wake-up of a client.
pub data Steps (n : ℕ) (s : System) : System → Type 0 where
  nothing : Steps n s s
  step : {t u : System} → Steps n s t → Step n t u → Steps n s u

-- No call of `wait` in the steps raises the flag: the pool does not run when it is made.
abbrev pub QuietStep : {n : ℕ} {s t : System} → Step n s t → Type 0
QuietStep {n} {s} (waits j h) = s.pool.state ≢ running
QuietStep st = Unit

abbrev pub Quiet : {n : ℕ} {s t : System} → Steps n s t → Type 0
Quiet nothing = Unit
Quiet (step r st) = Quiet r × QuietStep st

abbrev Lost : ℕ → System → Type 0
Lost j s = (s.client j ≡ waiting) × (s.pool.wait_flag ≡ false)

Turn-Lost :
    (s : System) (j i : ℕ) {r : Outcome × ThreadPool × Bool}
    → Turn s.pool r
    → Lost j s
    → Lost j (evaluated s i r)
Turn-Lost s j i (leaves e d) (c, f) = ground arith
Turn-Lost s j i (idles e d) (c, f) = ground arith
Turn-Lost s j i (serves t ts e d) (c, f) = ground arith
Turn-Lost s j i (holds_back e d) (c, f) = ground arith

Step-Lost : {n : ℕ} (j : ℕ) {s t : System} (st : Step n s t) → QuietStep st → Lost j s → Lost j t
unfolding execute start stop destroy wait
Step-Lost j (submit t) q l = l
Step-Lost j (notify_one k i e h) q l = l
Step-Lost j (notify_none k e h) q l = l
Step-Lost j (starts h) q l = l
Step-Lost j (notify_all k e) q l = l
Step-Lost j (stops h) q l = l
Step-Lost j (waits k h) q l = ground arith
Step-Lost j (wait_ends k h d) q l = ground arith
Step-Lost j (wait_blocks k h d) q l = ground arith
Step-Lost j (destroys k h) q l = l
Step-Lost j {s} (evaluate i h) q l = Turn-Lost s j i (run_once-Turn s.pool) l
Step-Lost j (spurious i h) q l = l
Step-Lost j (finish i t h) q l = l

Steps-Lost : {n : ℕ} (j : ℕ) {s t : System} (r : Steps n s t) → Quiet r → Lost j s → Lost j t
Steps-Lost j nothing q l = l
Steps-Lost j (step r st) q l = Step-Lost j st q.1 (Steps-Lost j r q.0 l)

-- A client that is blocked in `wait` with the flag down is not woken, whatever the workers and the
-- other clients do, also once the queue is empty, as long as no call of `wait` is made while the
-- pool runs, which raises the flag again; only a spurious wake-up would help it.
pub wait_lost :
    {n : ℕ} {s t : System} (j : ℕ) (r : Steps n s t)
    → Quiet r
    → s.client j ≡ waiting
    → s.pool.wait_flag ≡ false
    → t.client j ≡ waiting
wait_lost j r q c f = (Steps-Lost j r q (c, f)).0

abbrev Stuck : ℕ → System → Type 0
Stuck i s = (s.pool.state ≡ pending_destroy) × (s.pool.tasks ≢ []) × (s.worker i ≢ exited)

Turn-Stuck :
    (s : System) (i j : ℕ) {r : Outcome × ThreadPool × Bool}
    → Turn s.pool r
    → Stuck i s
    → Stuck i (evaluated s j r)
Turn-Stuck s i j (leaves e d) k = absurd (k.1 e)
Turn-Stuck s i j (idles e d) k = absurd (k.1 e)
Turn-Stuck s i j (serves t ts e d) k = absurd (ground arith)
Turn-Stuck s i j (holds_back e d) k = (k.0, k.1, λ q. ground arith)

Step-Stuck : {n : ℕ} (i : ℕ) {s t : System} → Step n s t → Stuck i s → Stuck i t
unfolding execute start stop destroy wait
Step-Stuck i {s} (submit t) k = (k.0, append_ne s.pool.tasks t, k.2)
Step-Stuck i (notify_one a j e h) k = (k.0, k.1, λ q. ground arith)
Step-Stuck i (notify_none a e h) k = k
Step-Stuck i (starts h) k = absurd (h k.0)
Step-Stuck i (notify_all a e) k = (k.0, k.1, λ q. ground arith)
Step-Stuck i (stops h) k = absurd (h k.0)
Step-Stuck i (waits j h) k = (ground arith, λ q. k.1 (ground arith), k.2)
Step-Stuck i (wait_ends j h d) k = k
Step-Stuck i (wait_blocks j h d) k = k
Step-Stuck i (destroys j h) k = (refl, k.1, k.2)
Step-Stuck i {s} (evaluate j h) k = Turn-Stuck s i j (run_once-Turn s.pool) k
Step-Stuck i (spurious j h) k = (k.0, k.1, λ q. ground arith)
Step-Stuck i (finish j t h) k = (k.0, k.1, λ q. ground arith)

Steps-Stuck : {n : ℕ} (i : ℕ) {s t : System} → Steps n s t → Stuck i s → Stuck i t
Steps-Stuck i nothing k = k
Steps-Stuck i (step r st) k = Step-Stuck i st (Steps-Stuck i r k)

-- When the destructor sets the state with tasks left in the queue, as it does for a pool that was
-- stopped, no worker ever exits, whatever happens next, so that `join` does not return.
pub destroy_hangs :
    {n : ℕ} {s t : System} (i : ℕ) (r : Steps n s t)
    → s.pool.state ≡ pending_destroy
    → s.pool.tasks ≢ []
    → s.worker i ≢ exited
    → t.worker i ≢ exited
destroy_hangs i r d e x = (Steps-Stuck i r (d, e, x)).2
