-- ===== src/Functor/Tests.antt =====
-- The theorem about Functors at two that hold an object each.
use magio.Prelude.{ℕ, ◌≡◌, ◌≢◌, refl, true, false, some, arith}
use magio.Handle.Ownership.{Inv}
use magio.Handle.World.{World, Reach, here, later, opens, ledger, handle_at, assigned}
use magio.Functor.{Functor, empty, functorbase, class_function, functor_owner, callables_owned}

record Reached : Type 0 where
  world : World Functor
  reach : Reach functor_owner world

-- The Functors 0 and 1 hold the objects 5 and 6.
abbrev two_functors : Reached
unfolding functor_owner
two_functors = record {
  world = _;
  reach =
      later
        (later
          (here
            {w = record {
              object = λ i. empty class_function;
              is_open = λ h. false;
              leaked = λ h. false;
            }}
            (record {
              nothing_held = λ i. refl;
              nothing_open = λ h. refl;
              nothing_leaked = λ h. refl;
            }))
          (opens 0 5 (functorbase 5) refl refl refl refl))
        (opens 1 6 (functorbase 6) refl refl refl refl);
}

callables_owned_example :
    let w = two_functors.world in
    let w' = assigned functor_owner w 0 1 in
    Inv (ledger functor_owner w)
    × (w'.is_open 6 ≡ true)
    × ((k : ℕ) → handle_at functor_owner w' k ≢ some 6)
unfolding functor_owner
callables_owned_example = callables_owned 0 1 6 two_functors.reach (λ e. ground (arith, e)) refl
