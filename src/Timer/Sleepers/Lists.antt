-- ===== src/Timer/Sleepers/Lists.antt =====
-- core/impl/coro.hpp: the tasks of sleeping coroutines among the tasks of a TimerQueue.
use mathlib.Core.List.{Mem, mem-cons_self, mem-cons_of_mem}
use magio.Prelude.{ℕ, ◌<◌, ◌≡◌, refl, Bool, true, List, [], ◌∷◌, arith, ==_iff, select}
use magio.Timer.{TimerData, Pointer, set_cell}
use magio.Timer.Expiry.{fired}
use magio.Timer.Sleepers.{tasks}

pub tasks-ext :
    (c d : ℕ → TimerData) (ps : List Pointer)
    → ((x : Pointer) → Mem x ps → (c x.addr).task ≡ (d x.addr).task)
    → tasks c ps ≡ tasks d ps
tasks-ext c d [] h = refl
tasks-ext c d (p ∷ ps) h =
    λ i. h p mem-cons_self i ∷ tasks-ext c d ps (λ x m. h x (mem-cons_of_mem p m)) i

pub set_cell_same : (cells : ℕ → TimerData) (a : ℕ) (d : TimerData) → set_cell cells a d a ≡ d
set_cell_same cells a d = rw ((==_iff a a).1 refl) refl

pub set_cell_other :
    (cells : ℕ → TimerData) (a b : ℕ) (d : TimerData) → b < a → set_cell cells a d b ≡ cells b
set_cell_other cells a b d h = ground (arith, h)

module _ (is_sleep : ℕ → Bool) where
  -- A sleeping coroutine's timer is never cancelled, since nobody has its TimerHandle.
  abbrev pub Uncancelled : (ℕ → TimerData) → List Pointer → Type 0
  Uncancelled cells ps =
      (x : Pointer) → Mem x ps → is_sleep (cells x.addr).task ≡ true → (cells x.addr).flag ≡ true

  pub sleeps-fired :
      (cells : ℕ → TimerData) (ps : List Pointer)
      → Uncancelled cells ps
      → select is_sleep (fired cells ps) ≡ select is_sleep (tasks cells ps)
  sleeps-fired cells [] h = refl
  sleeps-fired cells (p ∷ ps) h =
      let ih = sleeps-fired cells ps (λ x m. h x (mem-cons_of_mem p m)) in
      ground (arith, ih, h p mem-cons_self)
