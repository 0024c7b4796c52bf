-- ===== src/ThreadPool/Jobs/Balance.antt =====
-- core/thread_pool.h: what becomes of the tasks of async and spawn_blocking.
use magio.Prelude.{
  ℕ, zero, suc, ◌+◌, ◌<◌, ◌≤◌, ◌≡◌, ◌≢◌, refl, ap, inl, inr, List, map, [], ◌∷◌, ◌++◌, ◌==◌, arith,
  Bool-cases, ==_iff, ltb,
}
use magio.ThreadPool.{Outcome, sleeps, exits, takes, faults, run_once}
use magio.ThreadPool.System.{
  Worker, unborn, checking, asleep, busy, exited, broken, System, set_worker, roused, spawned,
  worker_after, begun_after, Step, submit, notify_one, notify_none, starts, notify_all, stops,
  waits, wait_ends, wait_blocks, destroys, evaluate, spurious, finish, init, Reach, here, later,
  spurious_client,
}
use magio.ThreadPool.Invariant.{Inv}
use magio.ThreadPool.Reachable.{Reach-Inv}
use magio.ThreadPool.Jobs.{
  Job, async, spawn_blocking, Posted, Owed, OwedInTurn, call_of, completes, finished, posted, count,
  is_busy, running_in,
}

count-append : (t : ℕ) (us vs : List ℕ) → count t (us ++ vs) ≡ count t us + count t vs
count-append t [] vs = omega arith
count-append t (u ∷ us) vs = omega (arith, count-append t us vs)

running_in-ext :
    (t : ℕ) (w v : ℕ → Worker) (n : ℕ)
    → ((i : ℕ) → is_busy t (w i) ≡ is_busy t (v i))
    → running_in t w n ≡ running_in t v n
running_in-ext t w v zero e = refl
running_in-ext t w v (suc k) e = omega (arith, e k, running_in-ext t w v k e)

running_outside :
    (t : ℕ) (w : ℕ → Worker) (i n : ℕ) (p : Worker)
    → n ≤ i
    → running_in t (set_worker w i p) n ≡ running_in t w n
running_outside t w i zero p h = refl
running_outside t w i (suc k) p h = ground (arith, running_outside t w i k p (omega (arith, h)))

-- One of the workers goes into the state `p`.
running_in-set_worker :
    (t : ℕ) (w : ℕ → Worker) (i n : ℕ) (p : Worker)
    → i < n
    → running_in t (set_worker w i p) n + is_busy t (w i) ≡ running_in t w n + is_busy t p
running_in-set_worker t w i zero p h = absurd (omega (arith, h))
running_in-set_worker t w i (suc k) p h = elim (Bool-cases (i == k)) [
  | inl e ↦
      let same = (==_iff i k).0 e in
      let old = ap (λ j. is_busy t (w j)) same in
      rw (e) (omega (arith, old, running_outside t w i k p (omega (arith, same))))
  | inr e ↦ rw (e) (omega (arith, running_in-set_worker t w i k p (ground (arith, h, e))))
]

-- Each task that a worker has taken is being run, or completed.
abbrev Balanced : ℕ → List ℕ → List ℕ → (ℕ → Worker) → ℕ → Type 0
Balanced t begun done w n = count t begun ≡ count t done + running_in t w n

module _ (t : ℕ) (begun done : List ℕ) (w : ℕ → Worker) (n : ℕ)
    (b : Balanced t begun done w n) where
  -- No task is taken or completed.
  kept :
      (w' : ℕ → Worker)
      → ((j : ℕ) → is_busy t (w j) ≡ is_busy t (w' j))
      → Balanced t begun (done ++ []) w' n
  kept w' e = omega (arith, b, running_in-ext t w w' n e, count-append t done [])

  unchanged : Balanced t begun (done ++ []) w n
  unchanged = kept w (λ j. refl)

  -- A worker that is not in a task goes to a state in which it is not in one either.
  moved :
      (i : ℕ) (p : Worker)
      → is_busy t (w i) ≡ is_busy t p
      → Balanced t begun (done ++ []) (set_worker w i p) n
  moved i p e = kept (set_worker w i p) (λ j. ground (arith, e))

roused-is_busy : (t : ℕ) (w : Worker) → is_busy t w ≡ is_busy t (roused w)
roused-is_busy t unborn = refl
roused-is_busy t checking = refl
roused-is_busy t asleep = refl
roused-is_busy t (busy u) = refl
roused-is_busy t exited = refl
roused-is_busy t broken = refl

spawned-is_busy :
    {n : ℕ} {s : System} (t i : ℕ)
    → Inv n s
    → is_busy t (s.worker i) ≡ is_busy t (spawned n s.started s.worker i)
spawned-is_busy {n} {s} t i v = elim (Bool-cases s.started) [
  | inl e ↦ rw (e, spawned) refl
  | inr e ↦ ground (arith, e, (v.unstarted e).1 i)
]

taken :
    (t : ℕ) (o : Outcome) (ts : List ℕ)
    → count t (begun_after o ts) ≡ count t ts + is_busy t (worker_after o)
taken t sleeps ts = omega arith
taken t exits ts = omega arith
taken t (takes u) ts = omega (arith, count-append t ts (u ∷ []))
taken t faults ts = omega arith

inside : {n : ℕ} {s : System} (i : ℕ) → Inv n s → s.worker i ≢ unborn → i < n
inside {n} {s} i v e = elim (Bool-cases (ltb i n)) [
  | inl l ↦ ground (arith, l)
  | inr l ↦ absurd (e (v.unborn_outside i (ground (arith, l))))
]

Step-Balanced :
    {n : ℕ} {s s' : System} (t : ℕ) (done : List ℕ)
    → Inv n s
    → (x : Step n s s') → Balanced t s.begun done s.worker n
    → Balanced t s'.begun (done ++ completes x) s'.worker n
Step-Balanced {n} {s} t done v (submit u) b = unchanged t s.begun done s.worker n b
Step-Balanced {n} {s} t done v (notify_one k j e a) b =
    moved t s.begun done s.worker n b j _ (ap (is_busy t) a)
Step-Balanced {n} {s} t done v (notify_none k e a) b = unchanged t s.begun done s.worker n b
Step-Balanced {n} {s} t done v (starts h) b =
    kept t s.begun done s.worker n b _ (λ i. spawned-is_busy t i v)
Step-Balanced {n} {s} t done v (notify_all k e) b =
    kept t s.begun done s.worker n b _ (λ i. roused-is_busy t (s.worker i))
Step-Balanced {n} {s} t done v (stops h) b = unchanged t s.begun done s.worker n b
Step-Balanced {n} {s} t done v (waits j e) b = unchanged t s.begun done s.worker n b
Step-Balanced {n} {s} t done v (wait_ends j e f) b = unchanged t s.begun done s.worker n b
Step-Balanced {n} {s} t done v (wait_blocks j e f) b = unchanged t s.begun done s.worker n b
Step-Balanced {n} {s} t done v (destroys j e) b = unchanged t s.begun done s.worker n b
Step-Balanced {n} {s} t done v (evaluate i e) b =
    let o = (run_once s.pool).0 in
    let p = worker_after o in
    let set = running_in-set_worker t s.worker i n p (inside i v (λ u. ground (arith, e))) in
    let idle = ap (is_busy t) e in
    omega (arith, b, set, idle, taken t o s.begun, count-append t done [])
Step-Balanced {n} {s} t done v (spurious i e) b =
    moved t s.begun done s.worker n b i _ (ap (is_busy t) e)
Step-Balanced {n} {s} t done v (finish i u e) b =
    let set = running_in-set_worker t s.worker i n checking (inside i v (λ q. ground (arith, e))) in
    let was = ap (is_busy t) e in omega (arith, b, set, was, count-append t done (u ∷ []))

idle : (t n : ℕ) → running_in t init.worker n ≡ 0
idle t zero = refl
idle t (suc k) = omega (arith, idle t k)

balanced :
    {n : ℕ} {s : System} (t : ℕ)
    → 0 < n
    → (r : Reach n init s) → Balanced t s.begun (finished r) s.worker n
balanced {n} t w here = omega (arith, idle t n)
balanced t w (later r x) = Step-Balanced t (finished r) (Reach-Inv w r) x (balanced t w r)
balanced t w (spurious_client j r e) = balanced t w r

call_of-Owed : {A : Type 0} (j : Job A) → Owed j (call_of j)
unfolding call_of
call_of-Owed (async cb a) = (refl, refl)
call_of-Owed (spawn_blocking h a) = (refl, refl)

map-OwedInTurn :
    {A : Type 0} (job : ℕ → Job A) (ts : List ℕ) → OwedInTurn job ts (map (λ t. call_of (job t)) ts)
map-OwedInTurn job [] = tt
map-OwedInTurn job (t ∷ ts) = (call_of-Owed (job t), map-OwedInTurn job ts)

OwedInTurn-append :
    {A : Type 0} (job : ℕ → Job A) (ts us : List ℕ) (ps qs : List (Posted A))
    → OwedInTurn job ts ps
    → OwedInTurn job us qs
    → OwedInTurn job (ts ++ us) (ps ++ qs)
OwedInTurn-append job [] us [] qs a b = b
OwedInTurn-append job [] us (p ∷ ps) qs a b = absurd a
OwedInTurn-append job (t ∷ ts) us [] qs a b = absurd a
OwedInTurn-append job (t ∷ ts) us (p ∷ ps) qs a b = (a.0, OwedInTurn-append job ts us ps qs a.1 b)

posted-OwedInTurn :
    {A : Type 0} (job : ℕ → Job A) {n : ℕ} {s : System} (r : Reach n init s)
    → OwedInTurn job (finished r) (posted job r)
posted-OwedInTurn job here = tt
posted-OwedInTurn job (later r x) =
    OwedInTurn-append job (finished r) (completes x) (posted job r) _ (posted-OwedInTurn job r)
      (map-OwedInTurn job (completes x))
posted-OwedInTurn job (spurious_client j r e) = posted-OwedInTurn job r

-- With at least one thread, in every reachable state the tasks passed to `execute` are those that a
-- worker has begun, in order, followed by those in the queue; a task has been begun as often as it
-- is being run by a worker or has come to its end; and the jobs that have come to their end have
-- handed over to the context, in that order, each once: async its callback with what the function
-- returned, spawn_blocking its handle with what the function returned as the result.
pub jobs_accounted :
    {A : Type 0} (job : ℕ → Job A) {n : ℕ} {s : System} (t : ℕ) (w : 0 < n) (r : Reach n init s)
    → (s.submitted ≡ s.begun ++ s.pool.tasks)
      × (count t s.begun ≡ count t (finished r) + running_in t s.worker n)
      × OwedInTurn job (finished r) (posted job r)
jobs_accounted job t w r = ((Reach-Inv w r).in_order, balanced t w r, posted-OwedInTurn job r)
