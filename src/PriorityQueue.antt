-- ===== src/PriorityQueue.antt =====
-- What core/timer_queue.h uses of `std::priority_queue`: an interface, since the order in which the
-- library serves entries with equal keys is not determined. `items` is its content in any order.
pub mod Sorted
use mathlib.Core.List.{Mem, Permᴰ}
use magio.Prelude.{ℕ, ◌≤◌, ◌≡◌, Option, none, some, List, [], ◌∷◌}

pub record PriorityQueue (E : Type 0) (key : E → ℕ) : Type 1 where
  pub Q : Type 0
  pub items : Q → List E
  pub fresh : Q
  pub emplace : Q → E → Q
  -- `top` and `pop`
  pub take_top : Q → Option (E × Q)
  pub items-fresh : items fresh ≡ []
  pub items-emplace : (q : Q) (e : E) → Permᴰ (items (emplace q e)) (e ∷ items q)
  pub take_top-none : (q : Q) → take_top q ≡ none → items q ≡ []
  pub take_top-some :
      (q : Q) (e : E) (r : Q) → take_top q ≡ some (e, r) → Permᴰ (items q) (e ∷ items r)
  pub take_top-least :
      (q : Q) (e : E) (r : Q) (x : E) → take_top q ≡ some (e, r) → Mem x (items r) → key e ≤ key x
