-- ===== src/ThreadPool/System.antt =====
-- core/thread_pool.cpp: `n` workers, and clients that start, stop, fill, wait for and destroy
-- the pool, interleaved at the critical sections and at the calls of the condition variables.
use magio.Prelude.{
  ℕ, suc, ◌≡◌, ◌≢◌, Bool, true, false, List, [], ◌∷◌, ◌++◌, ◌==◌, ltb, if◌then◌else◌,
}
use magio.ThreadPool.{
  stopping, pending_destroy, ThreadPool, start, stop, execute, destroy, wait, wait_done, Outcome,
  sleeps, exits, takes, faults, run_once,
}

pub data Worker : Type 0 where
  unborn : Worker
  checking : Worker  -- about to take the lock and evaluate the predicate
  asleep : Worker  -- blocked in the wait on `cv_`
  busy : ℕ → Worker  -- in `task()`
  exited : Worker
  broken : Worker  -- undefined behaviour

-- A thread that may call `wait`.
pub data Client : Type 0 where
  away : Client
  waiting : Client  -- blocked in the wait on `wait_cv_`
  testing : Client  -- woken there, about to take the lock and evaluate the predicate

-- `unsent` counts the calls of `cv_.notify_one` that are due, `broadcasts` those of `notify_all`;
-- `submitted` and `begun` record the tasks passed to `execute` and those that a worker took.
pub record System : Type 0 where
  pub pool : ThreadPool
  pub worker : ℕ → Worker
  pub client : ℕ → Client
  pub unsent : ℕ
  pub broadcasts : ℕ
  pub started : Bool
  pub submitted : List ℕ
  pub begun : List ℕ

abbrev pub set_worker : (ℕ → Worker) → ℕ → Worker → ℕ → Worker
set_worker w i p j = if i == j then p else w j

abbrev pub set_client : (ℕ → Client) → ℕ → Client → ℕ → Client
set_client c j p k = if j == k then p else c k

abbrev pub roused : Worker → Worker
roused asleep = checking
roused w = w

-- `std::call_once` in `start`: the first call creates the threads.
abbrev pub spawned : ℕ → Bool → (ℕ → Worker) → ℕ → Worker
spawned n true w i = w i
spawned n false w i = if ltb i n then checking else w i

abbrev pub told : Bool → Client → Client
told true waiting = testing
told _ c = c

abbrev pub worker_after : Outcome → Worker
worker_after sleeps = asleep
worker_after exits = exited
worker_after (takes t) = busy t
worker_after faults = broken

abbrev pub begun_after : Outcome → List ℕ → List ℕ
begun_after (takes t) ts = ts ++ t ∷ []
begun_after _ ts = ts

abbrev pub evaluated : System → ℕ → Outcome × ThreadPool × Bool → System
evaluated s i (o, p, notified) = record s {
  pool = p;
  worker = set_worker s.worker i (worker_after o);
  client = λ j. told notified (s.client j);
  begun = begun_after o s.begun;
}

abbrev pub waited : System → ℕ → ThreadPool × Bool → System
waited s j (p, blocks) = record s {
  pool = p;
  client = set_client s.client j (if blocks then waiting else away);
}

-- `start` and `stop` are not called once the destructor has begun; a running task may still call
-- `execute`.
pub data Step (n : ℕ) (s : System) : System → Type 0 where
  submit :
      (t : ℕ)
      → Step n s (record s {
        pool = execute s.pool t;
        unsent = suc s.unsent;
        submitted = s.submitted ++ t ∷ [];
      })
  -- `cv_.notify_one()` wakes one of the blocked workers, if there is one
  notify_one :
      (k j : ℕ)
      → s.unsent ≡ suc k
      → s.worker j ≡ asleep
      → Step n s (record s { unsent = k; worker = set_worker s.worker j checking })
  notify_none :
      (k : ℕ)
      → s.unsent ≡ suc k
      → ((j : ℕ) → s.worker j ≢ asleep)
      → Step n s (record s { unsent = k })
  starts :
      s.pool.state ≢ pending_destroy
      → Step n s (record s {
        pool = start s.pool;
        worker = spawned n s.started s.worker;
        started = true;
        broadcasts = suc s.broadcasts;
      })
  notify_all :
      (k : ℕ)
      → s.broadcasts ≡ suc k
      → Step n s (record s { broadcasts = k; worker = λ j. roused (s.worker j) })
  stops : s.pool.state ≢ pending_destroy → Step n s (record s { pool = stop s.pool })
  waits : (j : ℕ) → s.client j ≡ away → Step n s (waited s j (wait s.pool))
  wait_ends :
      (j : ℕ)
      → s.client j ≡ testing
      → wait_done s.pool ≡ true
      → Step n s (record s { client = set_client s.client j away })
  wait_blocks :
      (j : ℕ)
      → s.client j ≡ testing
      → wait_done s.pool ≡ false
      → Step n s (record s { client = set_client s.client j waiting })
  destroys :
      (j : ℕ)
      → s.client j ≡ away
      → Step n s (record s { pool = destroy s.pool; broadcasts = suc s.broadcasts })
  evaluate : (i : ℕ) → s.worker i ≡ checking → Step n s (evaluated s i (run_once s.pool))
  spurious :
      (i : ℕ)
      → s.worker i ≡ asleep
      → Step n s (record s { worker = set_worker s.worker i checking })
  finish :
      (i t : ℕ)
      → s.worker i ≡ busy t
      → Step n s (record s { worker = set_worker s.worker i checking })

abbrev pub init : System
init = record {
  pool = record { state = stopping; wait_flag = false; tasks = [] };
  worker = λ _. unborn;
  client = λ _. away;
  unsent = 0;
  broadcasts = 0;
  started = false;
  submitted = [];
  begun = [];
}

-- A spurious wake-up of a client is a step of its own, which no thread can rely on.
pub data Reach (n : ℕ) (r : System) : System → Type 0 where
  here : Reach n r r
  later : {s t : System} → Reach n r s → Step n s t → Reach n r t
  spurious_client :
      {s : System} (j : ℕ)
      → Reach n r s
      → s.client j ≡ waiting
      → Reach n r (record s { client = set_client s.client j testing })
