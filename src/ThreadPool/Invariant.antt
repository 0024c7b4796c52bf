-- ===== src/ThreadPool/Invariant.antt =====
-- What holds of the pool, and its workers between any two steps.
use mathlib.Core.List.{append_assoc}
use magio.Prelude.{
  ℕ, suc, ◌+◌, ◌≤◌, ◌<◌, ◌≡◌, ◌≢◌, refl, ◌⊎◌, inl, inr, Bool, true, false, [], ◌∷◌, ◌++◌, arith,
  Bool-cases,
}
use magio.ThreadPool.{running, pending_destroy, start, stop, execute, destroy}
use magio.ThreadPool.System.{
  Worker, unborn, checking, asleep, busy, exited, broken, System, set_worker, roused, spawned, init,
}

-- The worker will look at the queue again by itself.
abbrev pub awake : Worker → Bool
awake checking = true
awake (busy t) = true
awake _ = false

abbrev is_broken : Worker → Bool
is_broken broken = true
is_broken _ = false

pub record Inv (n : ℕ) (s : System) : Type 0 where
  pub in_order : s.submitted ≡ s.begun ++ s.pool.tasks
  pub sound : (i : ℕ) → is_broken (s.worker i) ≡ false
  pub born : s.started ≡ true → (i : ℕ) → i < n → s.worker i ≢ unborn
  pub unborn_outside : (i : ℕ) → n ≤ i → s.worker i ≡ unborn
  pub unstarted : s.started ≡ false → (s.pool.state ≢ running) × ((i : ℕ) → s.worker i ≡ unborn)
  pub exits_late : (i : ℕ) → s.worker i ≡ exited → s.pool.state ≡ pending_destroy
  pub served :
      s.pool.state ≡ running
      → s.pool.tasks ≢ []
      → ((i : ℕ) × (awake (s.worker i) ≡ true)) ⊎ (0 < s.unsent + s.broadcasts)

pub init-Inv : (n : ℕ) → Inv n init
init-Inv n = record {
  in_order = refl;
  sound = λ i. refl;
  born = λ e. cc;
  unborn_outside = λ i h. refl;
  unstarted = λ e. (λ q. cc, λ i. refl);
  exits_late = λ i e. cc;
  served = λ e. cc;
}

module _ {n : ℕ} (some_worker : 0 < n) {s : System} (v : Inv n s) where
  open v use {in_order, sound, born, unborn_outside, unstarted, exits_late, served}

  pub submit-Inv :
      (t : ℕ)
      → Inv n (record s {
        pool = execute s.pool t;
        unsent = suc s.unsent;
        submitted = s.submitted ++ t ∷ [];
      })
  unfolding execute
  submit-Inv t = record {
    in_order = rw in_order (append_assoc s.begun s.pool.tasks (t ∷ []));
    sound = sound;
    born = born;
    unborn_outside = unborn_outside;
    unstarted = unstarted;
    exits_late = exits_late;
    served = λ e h. inr (omega arith);
  }

  -- One worker `j` goes from one state to another in which it is awake.
  pub rise-Inv :
      (j k : ℕ) (q : Worker)
      → awake q ≡ true
      → s.worker j ≢ unborn
      → Inv n (record s { unsent = k; worker = set_worker s.worker j q })
  rise-Inv j k q a b = record {
    in_order = in_order;
    sound = λ i. ground (arith, sound i);
    born = λ e i h. ground (arith, born e i);
    unborn_outside = λ i h. ground (arith, unborn_outside i h);
    unstarted = λ e. ((unstarted e).0, λ i. ground (arith, (unstarted e).1 j));
    exits_late = λ i e. ground (arith, exits_late i);
    served = λ e h. inl (j, ground arith);
  }

  has_started : s.pool.state ≡ running → s.started ≡ true
  has_started r = elim (Bool-cases s.started) [ inl e ↦ e | inr e ↦ absurd ((unstarted e).0 r) ]

  serving :
      (k : ℕ) → ((j : ℕ) → s.worker j ≢ asleep) → s.pool.state ≡ running → awake (s.worker 0) ≡ true
  serving k none_asleep r =
      ground (arith, none_asleep 0, born (has_started r) 0 some_worker, exits_late 0, sound 0)

  pub notify_none-Inv :
      (k : ℕ) → s.unsent ≡ suc k → ((j : ℕ) → s.worker j ≢ asleep) → Inv n (record s { unsent = k })
  notify_none-Inv k e none_asleep = record {
    in_order = in_order;
    sound = sound;
    born = born;
    unborn_outside = unborn_outside;
    unstarted = unstarted;
    exits_late = exits_late;
    served = λ r h. inl (0, serving k none_asleep r);
  }

  pub starts-Inv :
      s.pool.state ≢ pending_destroy
      → Inv n (record s {
        pool = start s.pool;
        worker = spawned n s.started s.worker;
        started = true;
        broadcasts = suc s.broadcasts;
      })
  unfolding start
  starts-Inv h = elim (Bool-cases s.started) [
    | inl e ↦
        rw (e, spawned)
          (record {
            in_order = in_order;
            sound = sound;
            born = λ _ i l. born e i l;
            unborn_outside = unborn_outside;
            unstarted = λ q. cc;
            exits_late = λ i q. absurd (h (exits_late i q));
            served = λ _ _. inr (omega arith);
          })
    | inr e ↦
        rw (e, spawned)
          (record {
            in_order = in_order;
            sound = λ i. ground (arith, sound i);
            born = λ _ i l. ground arith;
            unborn_outside = λ i l. ground (arith, unborn_outside i l);
            unstarted = λ q. cc;
            exits_late = λ i q. ground (arith, (unstarted e).1 i);
            served = λ _ _. inr (omega arith);
          })
  ]

  pub notify_all-Inv :
      (k : ℕ)
      → s.broadcasts ≡ suc k
      → Inv n (record s { broadcasts = k; worker = λ j. roused (s.worker j) })
  notify_all-Inv k e = record {
    in_order = in_order;
    sound = λ i. ground (arith, sound i);
    born = λ b i l. ground (arith, born b i l);
    unborn_outside = λ i l. ground (arith, unborn_outside i l);
    unstarted = λ b. ((unstarted b).0, λ i. ground (arith, (unstarted b).1 i));
    exits_late = λ i q. ground (arith, exits_late i);
    served =
        λ r h. inl (0, ground (arith, born (has_started r) 0 some_worker, exits_late 0, sound 0));
  }

  pub stops-Inv : s.pool.state ≢ pending_destroy → Inv n (record s { pool = stop s.pool })
  unfolding stop
  stops-Inv h = record {
    in_order = in_order;
    sound = sound;
    born = born;
    unborn_outside = unborn_outside;
    unstarted = λ b. (λ q. cc, (unstarted b).1);
    exits_late = λ i q. absurd (h (exits_late i q));
    served = λ q. cc;
  }

  pub destroys-Inv : Inv n (record s { pool = destroy s.pool; broadcasts = suc s.broadcasts })
  unfolding destroy
  destroys-Inv = record {
    in_order = in_order;
    sound = sound;
    born = born;
    unborn_outside = unborn_outside;
    unstarted = λ b. (λ q. cc, (unstarted b).1);
    exits_late = λ i q. refl;
    served = λ q. cc;
  }
