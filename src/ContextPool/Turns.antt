-- ===== src/ContextPool/Turns.antt =====
-- core/coro_context_pool.cpp: which contexts next_context hands out.
use magio.Prelude.{
  ℕ, zero, suc, ◌+◌, ◌-◌, ◌%◌, ◌<◌, ◌≡◌, sym, ap, ◌∙◌, leb, if◌then◌else◌, Bool-cases, inl, inr,
  arith,
}
use native.Mathlib.Nat.{add-zero, mod-eq_of_lt, mod-lt, mod-add-mod}
use magio.ContextPool.{CoroContextPool, next_context}

-- The context that is handed out after `j` calls.
pub turn : ℕ → CoroContextPool → ℕ
unfolding next_context
turn zero p = (next_context p).0
turn (suc j) p = turn j (next_context p).1

turn_lem :
    (j : ℕ) (p : CoroContextPool)
    → p.next_idx < p.contexts
    → turn j p ≡ (p.next_idx + j) % p.contexts
unfolding turn next_context
turn_lem zero p h = sym (ap (λ k. k % p.contexts) (add-zero p.next_idx) ∙ mod-eq_of_lt h)
turn_lem (suc j) p h =
    turn_lem j (next_context p).1 (mod-lt (p.next_idx + 1) (omega (arith, h)))
    ∙ mod-add-mod (p.next_idx + 1) p.contexts j
    ∙ ap (λ k. k % p.contexts) (omega arith)

-- The number of calls before it is the turn of `c`.
pub calls_before : ℕ → CoroContextPool → ℕ
calls_before c p = if leb p.next_idx c then c - p.next_idx else (c + p.contexts) - p.next_idx

pub calls_before-lt :
    (c : ℕ) (p : CoroContextPool)
    → c < p.contexts
    → p.next_idx < p.contexts
    → calls_before c p < p.contexts
unfolding calls_before
calls_before-lt c p h k = ground (arith, h, k)

pub turn-calls_before :
    (c : ℕ) (p : CoroContextPool)
    → c < p.contexts
    → p.next_idx < p.contexts
    → turn (calls_before c p) p ≡ c
unfolding calls_before
turn-calls_before c p h k = elim (Bool-cases (leb p.next_idx c)) [
  | inl e ↦ rw (e) (turn_lem (c - p.next_idx) p k ∙ grind (arith, e))
  | inr e ↦ rw (e) (turn_lem ((c + p.contexts) - p.next_idx) p k ∙ grind (arith, e))
]
