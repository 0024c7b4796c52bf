-- ===== src/Generator.antt =====
-- core/generator.h: Generator and its promises, by address. The body of a generator is a list of what it
-- does; a yielded value is a number.
pub mod Chain
pub mod Moves
pub mod Iteration
pub mod Loops
mod Tests
use magio.Prelude.{ℕ, zero, suc, ◌+◌, Option, none, some, List, [], ◌∷◌, ◌++◌, ◌==◌, if◌then◌else◌}

-- `co_return`, an exception, `co_yield` of a value, and `co_yield` of a Generator.
pub data Body : Type 0 where
  returns : Body
  raises : (exception : ℕ) → Body
  yields : ℕ → Body → Body
  yields_all : (nested rest : Body) → Body

-- `link` is the union of `root_` and `leaf_`; `body` is what is left to run.
pub record Promise : Type 0 where
  pub link : ℕ
  pub parent : Option ℕ
  pub value : Option ℕ
  pub body : Body

-- `next` is the address of the next frame.
pub record Memory : Type 0 where
  pub at : ℕ → Promise
  pub next : ℕ

abbrev pub store : Memory → ℕ → Promise → Memory
store m a p = record m { at = λ b. if a == b then p else m.at b }

abbrev pub set_link : Memory → ℕ → ℕ → Memory
set_link m a l = store m a (record (m.at a) { link = l })

abbrev pub set_value : Memory → ℕ → ℕ → Memory
set_value m a x = store m a (record (m.at a) { value = some x })

abbrev pub set_body : Memory → ℕ → Body → Memory
set_body m a b = store m a (record (m.at a) { body = b })

-- `yield_value` of `x`, and what is left.
pub yield_value : Memory → (current x : ℕ) → Body → Memory
yield_value m c x rest = set_body (set_value m (m.at c).link x) c rest

-- `yield_sequence_awaiter::await_suspend`, for a nested coroutine with the body `b`, and what is left.
unfoldable pub await_suspend : Memory → (current : ℕ) → (b rest : Body) → Memory
await_suspend m c b rest =
    let nested : Promise = record {
      link = (m.at c).link;
      parent = some c;
      value = none;
      body = b;
    } in
    let m' : Memory = set_body (set_link (store m m.next nested) (m.at c).link m.next) c rest in
    record m' { next = m.next + 1 }

-- `final_awaiter::await_suspend`, for a coroutine with the parent `q`.
unfoldable pub final_suspend : Memory → (current q : ℕ) → Memory
final_suspend m c q = set_link m (m.at c).link q

-- `unhandled_exception` of a nested coroutine, whose parent rethrows it in `await_resume`.
pub unhandled_exception : Memory → (current q e : ℕ) → Memory
unfolding final_suspend
unhandled_exception m c q e = set_body (final_suspend m c q) q (raises e)

-- How a resumption comes back to its caller.
pub data Resumed : Type 0 where
  suspended : Memory → Resumed
  finished out_of_fuel : Resumed
  thrown : ℕ → Resumed

-- Where control goes: back to the caller, or on to a coroutine.
pub data Control : Type 0 where
  back : Resumed → Control
  on : Memory → (current : ℕ) → Control

-- What `current` does next, by its body and its parent.
abbrev pub transfer : Memory → (current : ℕ) → Body → (parent : Option ℕ) → Control
transfer m c (yields x rest) p = back (suspended (yield_value m c x rest))
transfer m c (yields_all b rest) p = on (await_suspend m c b rest) m.next
transfer m c returns none = back finished
transfer m c returns (some q) = on (final_suspend m c q) q
transfer m c (raises e) none = back (thrown e)
transfer m c (raises e) (some q) = on (unhandled_exception m c q e) q

-- `current` runs; control is passed on to nested coroutines and parents until a value is yielded or the
-- root ends.
pub resume : (fuel : ℕ) → Memory → (current : ℕ) → Resumed
resume zero m c = out_of_fuel
resume (suc k) m c = elim (transfer m c (m.at c).body (m.at c).parent) [
  | back o ↦ o
  | on m' c' ↦ resume k m' c'
]

-- The values that a loop over the generator sees, and the exception that ends it, if any; `none` when
-- the fuel does not suffice.
pub data Seen : Type 0 where
  seen : List ℕ → (exception : Option ℕ) → Seen
  unfinished : Seen

abbrev pub before : Option ℕ → Seen → Seen
before (some x) (seen xs e) = seen (x ∷ xs) e
before _ _ = unfinished

-- `begin` and then `++` and `*` until the root is done: `current` is resumed, then each time the leaf.
pub loop : (rounds fuel : ℕ) → Memory → (root current : ℕ) → Seen
unfolding resume
loop zero k m r c = unfinished
loop (suc n) k m r c = elim (resume k m c) [
  | suspended m' ↦ before (m'.at r).value (loop n k m' r (m'.at r).link)
  | finished ↦ seen [] none
  | thrown e ↦ seen [] (some e)
  | out_of_fuel ↦ unfinished
]

-- A Generator at the address `r`, not begun.
abbrev pub fresh : ℕ → Body → Memory
fresh r b = record {
  at = λ a. record { link = r; parent = none; value = none; body = b };
  next = r + 1;
}

-- What a body yields, those nested in it included, up to its end or an exception.
abbrev pub followed_by : Seen → Seen → Seen
followed_by (seen xs none) (seen ys e) = seen (xs ++ ys) e
followed_by (seen xs (some e)) s = seen xs (some e)
followed_by _ _ = unfinished

pub values : Body → Seen
values returns = seen [] none
values (raises e) = seen [] (some e)
values (yields x b) = before (some x) (values b)
values (yields_all b rest) = followed_by (values b) (values rest)

pub size : Body → ℕ
size returns = 1
size (raises e) = 1
size (yields x b) = 1 + size b
size (yields_all b rest) = 1 + size b + size rest

-- A Generator is the address of its root, or none: the objects after a move construction.
pub move_construct : Option ℕ → Option ℕ × Option ℕ
move_construct o = (o, none)

-- `operator=`, which takes its argument by value and swaps: the objects, and the frame that the argument
-- destroys at its end.
pub move_assign : Option ℕ → Option ℕ → (Option ℕ × Option ℕ) × Option ℕ
move_assign t o = ((o, none), t)

pub destroy : Option ℕ → Option ℕ
destroy t = t
