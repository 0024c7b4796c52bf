-- ===== src/Coro/Join.antt =====
-- core/impl/coro.hpp: join, select and series. An exception is a number; `result` is the tuple, by place.
-- What the coroutine does each time that a handler resumes it is listed.
use magio.Prelude.{
  ℕ, suc, ◌+◌, ◌-◌, ◌≤◌, ◌<◌, ◌≡◌, refl, ap, sym, ◌∙◌, Bool, true, false, Option, none, some, List,
  [], ◌∷◌, ◌++◌, ◌==◌, ==_iff, if◌then◌else◌, length, arith, Bool-cases, inl, inr,
}
use mathlib.Core.List.{append-nil}

-- What a coroutine calls its completion handler with; the handler of a coroutine that returns void has
-- no place.
pub data Outcome (A : Type 0) : Type 0 where
  failed : (ep : ℕ) → Outcome A
  value : (place : Option ℕ) → A → Outcome A

-- How the body of `join` or `series` ends; `terminated` is a call of std::terminate, which is what the
-- exception of an awaited coroutine comes to, since `Awaitable::await_resume` is noexcept.
pub data Ended (A : Type 0) : Type 0 where
  rethrown : (ep : ℕ) → Ended A
  terminated : Ended A
  returned : (result : ℕ → A) → Ended A

pub record Join (A : Type 0) : Type 0 where
  pub count : ℕ
  pub eptr : Option ℕ
  pub result : ℕ → A
  pub resumed : List (Ended A)

pub record Select : Type 0 where
  pub flag : Bool
  pub thrown : Option ℕ
  pub woken : List (Option ℕ)

==_suc : (k n : ℕ) → 0 < n → (suc k == n) ≡ (k == n - 1)
==_suc k n p = ground arith

zero_ne : (n : ℕ) → 0 < n → (0 == n) ≡ false
zero_ne n p = ground arith

ne_zero : (n : ℕ) → 0 < n → (n == 0) ≡ false
ne_zero n p = ground arith

pos_left : (n : ℕ) → (n - 1 == 0) ≡ false → 0 < n - 1
pos_left n e = ground arith

module _ {A : Type 0} where
  abbrev pub put : (ℕ → A) → Option ℕ → A → ℕ → A
  put r none a q = r q
  put r (some p) a q = if p == q then a else r q

  -- `h.resume()`, after which join rethrows `eptr` or returns `result`.
  abbrev ended : Option ℕ → (ℕ → A) → Ended A
  ended none r = returned r
  ended (some ep) r = rethrown ep

  abbrev resume : Join A → Join A
  resume j = record j { resumed = j.resumed ++ ended j.eptr j.result ∷ [] }

  -- The handler that join spawns a coroutine with.
  join_callback : Join A → Outcome A → Join A
  join_callback j (failed ep) =
      let done = resume (record j { eptr = some ep; count = 0 }) in if j.count == 0 then j else done
  join_callback j (value p a) =
      let one_less : Join A = record j { count = j.count - 1; result = put j.result p a } in
      if j.count == 0 then j else if one_less.count == 0 then resume one_less else one_less

  -- Join of `n` coroutines, whose handlers are called in this order.
  pub callbacks : Join A → List (Outcome A) → Join A
  unfolding join_callback
  callbacks j [] = j
  callbacks j (o ∷ os) = callbacks (join_callback j o) os

  unfoldable pub join : (n : ℕ) (defaults : ℕ → A) → List (Outcome A) → Join A
  unfolding callbacks
  join n defaults os =
      callbacks (record { count = n; eptr = none; result = defaults; resumed = [] }) os

  -- The handler that select spawns a coroutine with; select is resumed to rethrow an exception, or to end.
  unfoldable pub select_callback : Select → Outcome A → Select
  select_callback s (failed ep) =
      if s.flag
      then s
      else record { flag = true; thrown = some ep; woken = s.woken ++ some ep ∷ [] }
  select_callback s (value p a) =
      if s.flag
      then s
      else record { flag = true; thrown = s.thrown; woken = s.woken ++ s.thrown ∷ [] }

  unfoldable pub select_callbacks : Select → List (Outcome A) → Select
  unfolding select_callback
  select_callbacks s [] = s
  select_callbacks s (o ∷ os) = select_callbacks (select_callback s o) os

  unfoldable pub select : List (Outcome A) → Select
  unfolding select_callbacks
  select os = select_callbacks (record { flag = false; thrown = none; woken = [] }) os

  -- Each coroutine is awaited after the one before; an exception leaves the others unstarted. How series
  -- ends, and the number of coroutines awaited.
  unfoldable pub series : (ℕ → A) → List (Outcome A) → Ended A × ℕ
  series r [] = (returned r, 0)
  series r (failed ep ∷ os) = (terminated, 1)
  series r (value p a ∷ os) = let (e, n) = series (put r p a) os in (e, n + 1)

  -- The first exception, and the tuple with the values in their places.
  unfoldable pub first_failure : List (Outcome A) → Option ℕ
  first_failure [] = none
  first_failure (failed ep ∷ os) = some ep
  first_failure (value p a ∷ os) = first_failure os

  unfoldable pub gathered : (ℕ → A) → List (Outcome A) → ℕ → A
  gathered r [] = r
  gathered r (failed ep ∷ os) = gathered r os
  gathered r (value p a ∷ os) = gathered (put r p a) os

  abbrev pub gives : Option ℕ → Bool → (ℕ → A) → List (Ended A)
  gives (some ep) all r = rethrown ep ∷ []
  gives none all r = if all then returned r ∷ [] else []

  -- What join does by the outcomes that have come: the first exception, or once there are `n` the
  -- values, and nothing before.
  unfoldable pub awaited : ℕ → (ℕ → A) → List (Outcome A) → List (Ended A)
  unfolding first_failure gathered
  awaited n r os = gives (first_failure os) (length os == n) (gathered r os)

  -- With a count of 0 nothing happens any more.
  callbacks_over : (j : Join A) (os : List (Outcome A)) → (j.count == 0) ≡ true → callbacks j os ≡ j
  unfolding callbacks join_callback
  callbacks_over j [] e = refl
  callbacks_over j (failed ep ∷ os) e = rw (e) (callbacks_over j os e)
  callbacks_over j (value p a ∷ os) e = rw (e) (callbacks_over j os e)

  awaited-value :
      (n : ℕ) (r : ℕ → A) (q : Option ℕ) (a : A) (os : List (Outcome A))
      → 0 < n
      → awaited n r (value q a ∷ os) ≡ awaited (n - 1) (put r q a) os
  unfolding awaited first_failure gathered
  awaited-value n r q a os p =
      ap (λ all. gives (first_failure os) all (gathered (put r q a) os)) (==_suc (length os) n p)

  awaited_last :
      (n : ℕ) (r : ℕ → A) (q : Option ℕ) (a : A) (os : List (Outcome A))
      → length os ≤ 0
      → n ≡ 1
      → awaited n r (value q a ∷ os) ≡ returned (put r q a) ∷ []
  unfolding awaited first_failure gathered
  awaited_last n r q a [] h e = rw (e) refl
  awaited_last n r q a (o ∷ os) h e = absurd (ground arith)

  callbacks-failed :
      (j : Join A) (ep : ℕ) (os : List (Outcome A))
      → (j.count == 0) ≡ false
      → callbacks j (failed ep ∷ os)
        ≡ callbacks (resume (record j { eptr = some ep; count = 0 })) os
  unfolding callbacks join_callback
  callbacks-failed j ep os e = rw (e) refl

  callbacks-value :
      (j : Join A) (q : Option ℕ) (a : A) (os : List (Outcome A))
      → (j.count == 0) ≡ false
      → callbacks j (value q a ∷ os) ≡ (
          let one_less : Join A = record j { count = j.count - 1; result = put j.result q a } in
          callbacks (if j.count - 1 == 0 then resume one_less else one_less) os)
  unfolding callbacks join_callback
  callbacks-value j q a os e = rw (e) refl

  pub callbacks_lem :
      (j : Join A) (os : List (Outcome A))
      → 0 < j.count
      → length os ≤ j.count
      → j.eptr ≡ none
      → (callbacks j os).resumed ≡ j.resumed ++ awaited j.count j.result os
  unfolding callbacks join_callback awaited first_failure gathered
  callbacks_lem j [] p h e = rw (zero_ne j.count p, append-nil j.resumed) refl
  callbacks_lem j (failed ep ∷ os) p h e =
      ap (λ s. s.resumed) (callbacks-failed j ep os (ne_zero j.count p) ∙ callbacks_over _ os refl)
  callbacks_lem j (value q a ∷ os) p h e = elim (Bool-cases (j.count - 1 == 0)) [
    | inl last ↦
        let zero_left = (==_iff (j.count - 1) 0).0 last in
        ap (λ s. s.resumed) (callbacks-value j q a os (ne_zero j.count p))
        ∙ rw (last) (
            ap (λ s. s.resumed) (callbacks_over _ os last)
            ∙ rw
                (
                  awaited_last j.count j.result q a os (omega (arith, h, zero_left))
                      (omega (arith, p, zero_left)),
                  e,
                )
                refl)
    | inr more ↦
        ap (λ s. s.resumed) (callbacks-value j q a os (ne_zero j.count p))
        ∙ rw (more) (
            callbacks_lem (record j { count = j.count - 1; result = put j.result q a }) os
              (pos_left j.count more) (omega (arith, h)) e
            ∙ ap (λ rs. j.resumed ++ rs) (sym (awaited-value j.count j.result q a os p)))
  ]
