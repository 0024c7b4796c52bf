-- ===== src/ContextPool.antt =====
-- core/coro_context_pool.cpp and utils/wait_group.h: WaitGroup, CoroContextPool, and the threads of the
-- pool, one step per critical section. Thread `i` owns the context `i`; the context 0 is the caller's.
pub mod Turns
pub mod Built
pub mod Dropped
mod Tests
use magio.Prelude.{
  ℕ, suc, ◌+◌, ◌-◌, ◌%◌, ◌^◌, ◌<◌, ◌≤◌, ◌≡◌, ◌≢◌, Bool, true, false, Option, none, some, List, [],
  ◌∷◌, ◌==◌, if◌then◌else◌, ltb, leb, ◌&&◌,
}

pub record WaitGroup : Type 0 where
  pub wait_num : ℕ

-- The Boolean is whether `cv_` is notified.
pub done : WaitGroup → WaitGroup × Bool
done w =
    if w.wait_num == 0
    then (w, false)
    else (record w { wait_num = w.wait_num - 1 }, w.wait_num - 1 == 0)

-- The predicate of `wait`.
abbrev pub may_pass : WaitGroup → Bool
may_pass w = w.wait_num == 0

pub data State : Type 0 where
  stopping running pending_destroy : State

abbrev pub is_stopping : State → Bool
is_stopping stopping = true
is_stopping _ = false

pub record CoroContextPool : Type 0 where
  pub state : State
  pub next_idx : ℕ
  pub build_ctx_wg : WaitGroup
  pub start_wg : WaitGroup
  pub contexts : ℕ  -- the length of `contexts_`

abbrev pub initial : ℕ → CoroContextPool
initial num = record {
  state = stopping;
  next_idx = 0;
  build_ctx_wg = record { wait_num = (num + 2 ^ 64 - 1) % 2 ^ 64 };
  start_wg = record { wait_num = 1 };
  contexts = num;
}

-- `num - 1` wraps around; `num < 1` is fatal after the members are constructed.
unfoldable pub construct : (num : ℕ) → Option CoroContextPool
construct num = if num == 0 then none else some (initial num)

-- `start_all` up to the start of the context 0; `none` is M_FATAL.
pub start_all : CoroContextPool → (in_self_thread : Bool) → Option CoroContextPool
unfolding done
start_all p in_self_thread =
    if in_self_thread && is_stopping p.state
    then some (record p { state = running; start_wg = (done p.start_wg).0 })
    else none

-- The index of the context, and the pool afterwards.
pub next_context : CoroContextPool → ℕ × CoroContextPool
next_context p = (p.next_idx, record p { next_idx = (p.next_idx + 1) % p.contexts })

get : CoroContextPool → ℕ → ℕ
get p i = i % p.contexts

pub begin_destroy : CoroContextPool → CoroContextPool
begin_destroy p = record p { state = pending_destroy }

pub data Phase : Type 0 where
  building : Phase  -- before `build_ctx_wg_.done()`
  waiting : Phase  -- in `start_wg_.wait()`
  working : Phase  -- in `contexts_[id]->start()`
  exited : Phase

pub data Owner : Type 0 where
  constructing : Owner  -- in `build_ctx_wg_.wait()`
  using : Owner
  joining : Owner

pub record System : Type 0 where
  pub pool : CoroContextPool
  pub thread : ℕ → Phase
  pub owner : Owner

abbrev pub set_thread : (ℕ → Phase) → ℕ → Phase → ℕ → Phase
set_thread f i p j = if i == j then p else f j

-- Threads have the numbers from 1 to `contexts - 1`.
pub data Step (s : System) : System → Type 0 where
  builds :
      (i : ℕ)
      → 0 < i
      → i < s.pool.contexts
      → s.thread i ≡ building
      → Step s (record s {
        pool = record s.pool { build_ctx_wg = (done s.pool.build_ctx_wg).0 };
        thread = set_thread s.thread i waiting;
      })
  built :
      s.owner ≡ constructing
      → may_pass s.pool.build_ctx_wg ≡ true
      → Step s (record s { owner = using })
  begins :
      (i : ℕ)
      → s.thread i ≡ waiting
      → may_pass s.pool.start_wg ≡ true
      → Step s (record s { thread = set_thread s.thread i working })
  starts :
      (p : CoroContextPool)
      → s.owner ≡ using
      → start_all s.pool true ≡ some p
      → Step s (record s { pool = p })
  picks : s.owner ≡ using → Step s (record s { pool = (next_context s.pool).1 })
  destroys : s.owner ≡ using → Step s (record s { pool = begin_destroy s.pool; owner = joining })
  exits :
      (i : ℕ) → s.thread i ≡ working → Step s (record s { thread = set_thread s.thread i exited })

pub data Reach : System → Type 0 where
  here :
      (num : ℕ) (p : CoroContextPool)
      → construct num ≡ some p
      → num < 2 ^ 64
      → Reach (record { pool = p; thread = λ i. building; owner = constructing })
  later : {s t : System} → Reach s → Step s t → Reach t
