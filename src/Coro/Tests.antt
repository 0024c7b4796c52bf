-- ===== src/Coro/Tests.antt =====
-- The theorems about coroutines at concrete ones.
use magio.Prelude.{
  ℕ, ◌≢◌, ◌≡◌, refl, true, false, Option, none, some, get_elem?, List, [], ◌∷◌, arith,
}
use magio.Coro.Frames.{Frame, result, begun, initial, find}
use magio.Coro.System.{
  return_value, returns, resumes, await_resume, result_of, World, move_assign, get_return_object,
  spawn, await_suspend, begin, final_suspend, destroy, free, creates, spawns, awaits, begins, ends,
  Reach, here, later, set_object,
}
use magio.Coro.Types.{places, non_void_places, remove_void, places-Fit}
use magio.Coro.Join.{
  Outcome, failed, value, rethrown, terminated, join, series, awaited, first_failure,
}
use magio.Coro.Handlers.{join_lem, series_terminates}
use magio.Coro.Alive.{Inv}
use magio.Coro.Delivery.{result_delivered}
use magio.Coro.Lost.{Steps, nothing, step, assigned_lost}
use magio.Coro.Safety.{Reach-Inv, destructor_faults}

record Reached : Type 0 where
  world : World
  reach : Reach world

-- The coroutine at 1 is spawned from the object 0; it awaits the coroutine at 2, which the object 3
-- holds, and that one has returned 7.
abbrev callee_returned : Reached
unfolding find get_return_object spawn await_suspend begin return_value
callee_returned = record {
  world = _;
  reach =
      later
        (later
          (later
            (later
              (later
                (later (later here (creates 0 1 refl refl)) (spawns 0 1 _ false refl refl refl))
                (begins 1 _ [] refl refl refl))
              (creates 3 2 refl refl))
            (awaits 3 2 1 _ _ refl refl refl refl refl))
          (begins 2 _ [] refl refl refl))
        (returns 2 _ 7 refl refl);
}

-- It has gone through FinalSuspend, up to the resumption of the other one.
abbrev callee_ended : Reached
unfolding callee_returned find get_return_object spawn await_suspend begin return_value
    final_suspend
callee_ended = record { world = _; reach = later callee_returned.reach (ends 2 _ refl refl) }

Reach-Inv_example : Inv callee_ended.world.frames 2
unfolding callee_ended callee_returned return_value final_suspend begin await_suspend
    get_return_object spawn
Reach-Inv_example = Reach-Inv callee_ended.reach

abbrev returned_frame : Frame
returned_frame = record {
  is_launched = true;
  prev_handle = some 1;
  callback = false;
  storage = result 7;
  phase = begun;
}

result_delivered_example :
    let (w', final) = final_suspend callee_returned.world 2 returned_frame in
    (final ≡ resumes 1)
    × ((g : Frame) × (find 1 w'.frames ≡ some g) × (g.phase ≡ begun))
    × ((f' : Frame) × (find 2 w'.frames ≡ some f') × (await_resume f' ≡ result_of (result 7)))
unfolding callee_returned find get_return_object spawn await_suspend begin return_value await_resume
result_delivered_example = result_delivered 2 1 returned_frame callee_returned.reach refl refl refl

destructor_faults_example :
    let w = callee_ended.world in
    (destroy w 3 ≡ some (record w { object = set_object w.object 3 none }))
    × (destroy (free w 2) 3 ≡ none)
unfolding callee_returned return_value final_suspend begin await_suspend get_return_object spawn
    find
destructor_faults_example = destructor_faults 3 2 _ callee_ended.reach refl refl refl

-- One coroutine returns 7, the other one throws.
abbrev one_fails : List (Outcome ℕ)
one_fails = value (some 1) 7 ∷ failed 3 ∷ []

abbrev zeros : ℕ → ℕ
zeros p = 0

join_lem_example : (join 2 zeros one_fails).resumed ≡ rethrown 3 ∷ []
unfolding awaited first_failure
join_lem_example = join_lem 2 zeros one_fails (omega arith) (omega arith)

-- The handler of the coroutine at place 1 is called first.
abbrev both_return : List (Outcome ℕ)
both_return = value (some 1) 7 ∷ value (some 0) 5 ∷ []

series_terminates_example :
    ((join 2 zeros one_fails).resumed ≡ rethrown 3 ∷ []) × ((series zeros one_fails).0 ≡ terminated)
unfolding first_failure
series_terminates_example = series_terminates zeros one_fails 3 refl

-- The return types are 4, void and 6.
abbrev three_types : List (Option ℕ)
three_types = some 4 ∷ none ∷ some 6 ∷ []

abbrev Same : ℕ → ℕ → Type 0
Same i j = i ≡ j

places-Fit_example :
    Same 2 2
    × ((t : ℕ) × (get_elem? three_types 2 ≡ some (some t))
        × (get_elem? (remove_void three_types) 1 ≡ some t))
unfolding places non_void_places
places-Fit_example = places-Fit three_types 2 2 1 refl refl

-- The Coro 3 holds the coroutine at 2, and is assigned the Coro 0, whose coroutine at 1 is then spawned.
abbrev two_created : Reached
unfolding find get_return_object
two_created = record {
  world = _;
  reach = later (later here (creates 0 1 refl refl)) (creates 3 2 refl refl);
}

record Continued (w : World) : Type 0 where
  last : World
  steps : Steps w last

abbrev then_spawned : Continued (move_assign two_created.world 0 3)
unfolding find get_return_object spawn move_assign
then_spawned = record { last = _; steps = step nothing (spawns 3 1 _ false refl refl refl) }

only_third : (k : ℕ) → k ≢ 3 → two_created.world.object k ≢ some 2
unfolding find get_return_object
only_third k n e = ground (arith, n, e)

assigned_lost_example :
    (g : Frame) × (find 2 then_spawned.last.frames ≡ some g) × (g.phase ≡ initial)
unfolding find get_return_object spawn move_assign
assigned_lost_example =
    assigned_lost 0 3 2 _ two_created.reach refl refl refl only_third (λ e. ground (arith, e))
      then_spawned.steps
