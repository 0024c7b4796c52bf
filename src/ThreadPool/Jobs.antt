-- ===== src/ThreadPool/Jobs.antt =====
-- core/thread_pool.h: async and spawn_blocking, whose tasks run a function and then hand something
-- over to the context that the pool is bound to.
pub mod Balance
use magio.Prelude.{
  ℕ, zero, suc, ◌+◌, ◌≡◌, Option, some, List, map, [], ◌∷◌, ◌++◌, ◌==◌, if◌then◌else◌,
}
use magio.ThreadPool.System.{
  Worker, busy, System, Step, finish, init, Reach, here, later, spurious_client,
}

-- What the task of a job does at its end: async passes its callback, with what the function
-- returned, to `ctx_.execute`; spawn_blocking stores it in `result` and passes its handle to
-- `queue_in_context`.
pub data Posted (A : Type 0) : Type 0 where
  calls : (cb : ℕ) (value : A) → Posted A
  resumes : (h : ℕ) (result : Option A) → Posted A

-- The captures of the task, with what `func` returns for `tup`; a `func` that throws ends the
-- program.
pub data Job (A : Type 0) : Type 0 where
  async : (cb : ℕ) (func : A) → Job A
  spawn_blocking : (h : ℕ) (func : A) → Job A

unfoldable pub call_of : {A : Type 0} → Job A → Posted A
call_of (async cb a) = calls cb a
call_of (spawn_blocking h a) = resumes h (some a)

-- The task that a step completes, if any.
abbrev pub completes : {n : ℕ} {s s' : System} → Step n s s' → List ℕ
completes (finish i t e) = t ∷ []
completes _ = []

abbrev pub finished : {n : ℕ} {s : System} → Reach n init s → List ℕ
finished here = []
finished (later r x) = finished r ++ completes x
finished (spurious_client j r e) = finished r

-- What the tasks have handed over to the context, in order; `job` is the job of each.
abbrev pub posted :
    {A : Type 0} (job : ℕ → Job A) {n : ℕ} {s : System} → Reach n init s → List (Posted A)
posted job here = []
posted job (later r x) = posted job r ++ map (λ t. call_of (job t)) (completes x)
posted job (spurious_client j r e) = posted job r

-- What is owed for a job, independently of how the task does it: async owes its callback, called
-- with the value of the function, spawn_blocking its handle, resumed with that value as the result.
abbrev pub Owed : {A : Type 0} → Job A → Posted A → Type 0
Owed (async cb a) (calls cb' value) = (cb' ≡ cb) × (value ≡ a)
Owed (spawn_blocking h a) (resumes h' result) = (h' ≡ h) × (result ≡ some a)
Owed _ _ = ⊥

-- One hand-over for each task, in the order of the tasks.
abbrev pub OwedInTurn : {A : Type 0} → (ℕ → Job A) → List ℕ → List (Posted A) → Type 0
OwedInTurn job [] [] = Unit
OwedInTurn job (t ∷ ts) (p ∷ ps) = Owed (job t) p × OwedInTurn job ts ps
OwedInTurn job _ _ = ⊥

abbrev pub count : ℕ → List ℕ → ℕ
count t [] = 0
count t (u ∷ us) = (if u == t then 1 else 0) + count t us

abbrev pub is_busy : ℕ → Worker → ℕ
is_busy t (busy u) = if u == t then 1 else 0
is_busy t _ = 0

-- How many of the first `n` workers are in the task `t`.
abbrev pub running_in : ℕ → (ℕ → Worker) → ℕ → ℕ
running_in t w zero = 0
running_in t w (suc k) = is_busy t (w k) + running_in t w k
