-- ===== src/Coro/Handlers.antt =====
-- core/impl/coro.hpp: what join, select and series do, by the outcomes in the order in
-- which the completion handlers are called.
use magio.Prelude.{
  ℕ, ◌≤◌, ◌<◌, ◌≡◌, ◌≢◌, refl, ap, ◌∙◌, true, Option, none, some, List, [], ◌∷◌, ◌++◌, ==_iff,
  length, All, arith,
}
use magio.Coro.Join.{
  Outcome, failed, value, rethrown, returned, terminated, Select, put, join, callbacks_lem,
  select_callback, select_callbacks, select, series, first_failure, gathered, awaited,
}

append_pos {ℓ} : {A : Type ℓ} (xs : List A) (y : A) (ys : List A) → 0 < length (xs ++ y ∷ ys)
append_pos [] y ys = omega arith
append_pos (x ∷ xs) y ys = omega arith

module _ {A : Type 0} where
  -- As long as the handlers of at most `n` coroutines, not 0, have been called, in any order, join of
  -- `n` has been resumed once, to rethrow the first exception, if there was one, once, to return the
  -- values in their places, if all have returned, and not at all otherwise.
  pub join_lem :
      (n : ℕ) (r : ℕ → A) (os : List (Outcome A))
      → 0 < n
      → length os ≤ n
      → (join n r os).resumed ≡ awaited n r os
  unfolding join
  join_lem n r os p h = callbacks_lem _ os p h refl

  abbrev place_of : Outcome A → Option ℕ
  place_of (failed ep) = none
  place_of (value p a) = p

  put-other : (r : ℕ → A) (q : Option ℕ) (b : A) (p : ℕ) → q ≢ some p → put r q b p ≡ r p
  put-other r none b p n = refl
  put-other r (some q) b p n = ground arith

  gathered-kept :
      (r : ℕ → A) (os : List (Outcome A)) (p : ℕ)
      → All (λ o. place_of o ≢ some p) os
      → gathered r os p ≡ r p
  unfolding gathered
  gathered-kept r [] p h = refl
  gathered-kept r (failed ep ∷ os) p h = gathered-kept r os p h.1
  gathered-kept r (value q b ∷ os) p h = gathered-kept (put r q b) os p h.1 ∙ put-other r q b p h.0

  gathered-value :
      (r : ℕ → A) (before after : List (Outcome A)) (p : ℕ) (a : A)
      → All (λ o. place_of o ≢ some p) after
      → gathered r (before ++ value (some p) a ∷ after) p ≡ a
  unfolding gathered
  gathered-value r [] after p a h =
      gathered-kept (put r (some p) a) after p h ∙ rw ((==_iff p p).1 refl) refl
  gathered-value r (failed ep ∷ before) after p a h = gathered-value r before after p a h
  gathered-value r (value q b ∷ before) after p a h = gathered-value (put r q b) before after p a h

  -- When all the coroutines of a join, at least one, have returned, it has been resumed once, to return
  -- a tuple that has at each place the value last handed over for it.
  join_values :
      (r : ℕ → A) (before after : List (Outcome A)) (p : ℕ) (a : A)
      → first_failure (before ++ value (some p) a ∷ after) ≡ none
      → All (λ o. place_of o ≢ some p) after
      → let os = before ++ value (some p) a ∷ after in
        ((join (length os) r os).resumed ≡ returned (gathered r os) ∷ []) × (gathered r os p ≡ a)
  unfolding awaited
  join_values r before after p a e h =
      let os = before ++ value (some p) a ∷ after in
      (
        join_lem (length os) r os (append_pos before (value (some p) a) after) (omega arith)
            ∙ rw (e, (==_iff (length os) (length os)).1 refl) refl,
        gathered-value r before after p a h,
      )

  series-gives :
      (r : ℕ → A) (os : List (Outcome A))
      → first_failure os ≡ none
      → returned (gathered r os) ≡ (series r os).0
  unfolding series first_failure gathered
  series-gives r [] e = refl
  series-gives r (failed ep ∷ os) e = absurd (ground (arith, e))
  series-gives r (value p a ∷ os) e = series-gives (put r p a) os e

  -- Coroutines, at least one, that all return, and call their handlers in the order of the arguments,
  -- have join return what series would return.
  pub join-eq-series :
      (r : ℕ → A) (os : List (Outcome A))
      → 0 < length os
      → first_failure os ≡ none
      → (join (length os) r os).resumed ≡ (series r os).0 ∷ []
  unfolding awaited
  join-eq-series r os p e =
      join_lem (length os) r os p (omega arith)
      ∙ rw (e, (==_iff (length os) (length os)).1 refl) refl
      ∙ ap (λ x. x ∷ []) (series-gives r os e)

  first_failure-pos : (os : List (Outcome A)) (ep : ℕ) → first_failure os ≡ some ep → 0 < length os
  unfolding first_failure
  first_failure-pos [] ep e = absurd (ground (arith, e))
  first_failure-pos (o ∷ os) ep e = omega arith

  series-failed :
      (r : ℕ → A) (os : List (Outcome A)) (ep : ℕ)
      → first_failure os ≡ some ep
      → (series r os).0 ≡ terminated
  unfolding series first_failure
  series-failed r [] ep e = absurd (ground (arith, e))
  series-failed r (failed q ∷ os) ep e = refl
  series-failed r (value p a ∷ os) ep e = series-failed (put r p a) os ep e

  -- When coroutines end in the order of the arguments and the first exception is `ep`, join has been
  -- resumed once, to rethrow it, while series terminates the program.
  pub series_terminates :
      (r : ℕ → A) (os : List (Outcome A)) (ep : ℕ)
      → first_failure os ≡ some ep
      → ((join (length os) r os).resumed ≡ rethrown ep ∷ []) × ((series r os).0 ≡ terminated)
  unfolding awaited
  series_terminates r os ep e = (
    join_lem (length os) r os (first_failure-pos os ep e) (omega arith) ∙ rw (e) refl,
    series-failed r os ep e,
  )

  abbrev exception_of : Outcome A → Option ℕ
  exception_of (failed ep) = some ep
  exception_of (value p a) = none

  select_callbacks_over :
      (thrown : Option ℕ) (woken : List (Option ℕ)) (os : List (Outcome A))
      → let s : Select = record { flag = true; thrown = thrown; woken = woken } in
        select_callbacks s os ≡ s
  unfolding select_callbacks select_callback
  select_callbacks_over t w [] = refl
  select_callbacks_over t w (failed ep ∷ os) = select_callbacks_over t w os
  select_callbacks_over t w (value p a ∷ os) = select_callbacks_over t w os

  -- Whatever handlers are called after the first one, select has been resumed once, with the exception of
  -- the first coroutine that ended, or none.
  select_first :
      (o : Outcome A) (os : List (Outcome A)) → (select (o ∷ os)).woken ≡ exception_of o ∷ []
  unfolding select select_callbacks select_callback
  select_first (failed ep) os = ap (λ s. s.woken) (select_callbacks_over _ _ os)
  select_first (value p a) os = ap (λ s. s.woken) (select_callbacks_over _ _ os)
