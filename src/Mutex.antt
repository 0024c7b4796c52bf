-- ===== src/Mutex.antt =====
-- core/mutex.h and core/mutex.cpp: the coroutine mutex and the condition variable.
-- A coroutine handle and a context are numbers. `queue_in_context` is the entry that an operation
-- returns: the caller pushes its handle on the pending list of its context.
pub mod System
pub mod Invariant
pub mod Reachable
pub mod Safety
mod Tests
use magio.Prelude.{ℕ, Bool, true, false, Option, none, some, List, [], ◌∷◌, ◌++◌, if◌then◌else◌}

-- `Mutex::Entry` and `Condition::Entry`
pub record Entry : Type 0 where
  pub ctx : ℕ
  pub h : ℕ

pub record Mutex : Type 0 where
  pub flag : Bool
  pub queue : List Entry

pub record Condition : Type 0 where
  pub queue : List Entry

abbrev pub fresh_mutex : Mutex
fresh_mutex = record { flag = true; queue = [] }

abbrev pub fresh_condition : Condition
fresh_condition = record { queue = [] }

-- The Boolean is `wake`: the coroutine goes on at once.
pub lock_await_suspend : Mutex → ℕ → ℕ → Mutex × Bool
lock_await_suspend m local_context prev_h =
    if m.flag
    then (record m { flag = false }, true)
    else (record m { queue = m.queue ++ record { ctx = local_context; h = prev_h } ∷ [] }, false)

pub guard_await_suspend : Mutex → ℕ → ℕ → Mutex × Bool
guard_await_suspend m local_context prev_h =
    if m.flag
    then (record m { flag = false }, true)
    else (record m { queue = m.queue ++ record { ctx = local_context; h = prev_h } ∷ [] }, false)

-- The entry, if any, is the one whose handle is queued in its context.
pub unlock : Mutex → Mutex × Option Entry
unlock m = elim m.queue [
  | [] ↦ (record m { flag = true }, none)
  | entry ∷ rest ↦ (record m { queue = rest }, some entry)
]

-- The part of `Condition::wait` under `m_`.
pub wait_push : Condition → ℕ → ℕ → Condition
wait_push c local_context h = record c {
  queue = c.queue ++ record { ctx = local_context; h = h } ∷ [];
}

pub notify_one : Condition → Condition × Option Entry
notify_one c = elim c.queue [
  | [] ↦ (c, none)
  | entry ∷ rest ↦ (record c { queue = rest }, some entry)
]

pub notify_all : Condition → Condition × List Entry
notify_all c = (record c { queue = [] }, c.queue)
