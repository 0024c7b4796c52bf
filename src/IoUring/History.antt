-- ===== src/IoUring/History.antt =====
-- net/io_uring.cpp: the service from its constructor on, with the requests made outside of poll and
-- by the callbacks.
use mathlib.Core.List.{Permᴰ, append_assoc, map-append}
use mathlib.Core.List.Permᴰ
use magio.Prelude.{
  All, All-append, All-right, All-perm, length-perm, length-map, Permᴰ-chain, ◌+◌, ℕ, ◌%◌, ◌^◌, ◌≡◌,
  refl, ap, sym, ◌∙◌, subst, some, List, [], ◌∷◌, ◌++◌, arith, length, length-append, map,
}
use magio.Io.{IoContext}
use magio.IoUring.{wake_read, IoUring, Callback, wake_up, destroy, construct, prep_wake_up}
use magio.IoUring.Count.{Balanced, construct-Balanced, call-Balanced}
use magio.IoUring.Served.{poll-Balanced}
use magio.IoUring.Pending.{pending, asked_by, asked_by_all, call-pending, prepare-pending}
use magio.IoUring.Labels.{Made, asked_by-Made, asked_by_all-Made, pending_weight}
use magio.IoUring.Answered.{Answer, callback_for, requested, asked_on, poll-Answered}
use magio.IoUring.Poll.{Call, call, Kernel, Polled, poll}

module _ (react : Callback → List Call) where
  -- `asked` records the requests that were made, `called` the callbacks.
  pub record History : Type 0 where
    pub ring : IoUring
    pub asked : List IoContext
    pub called : List Callback

  pub data Step (w : History) : History → Type 0 where
    asks :
        (c : Call) (r : IoUring)
        → call w.ring c ≡ some r
        → Step w (record w { ring = r; asked = w.asked ++ asked_by c })
    wakes : Step w (record w { ring = wake_up w.ring })
    polls :
        (nanosec : ℕ) (k : Kernel) (x : Polled)
        → poll react w.ring nanosec k ≡ some x
        → Step w (record {
          ring = x.ring;
          asked = w.asked ++ asked_on react x.callbacks;
          called = w.called ++ x.callbacks;
        })

  pub data Reach : History → Type 0 where
    here :
        (entries : ℕ) (r : IoUring)
        → construct entries ≡ some r
        → Reach (record { ring = r; asked = []; called = [] })
    later : {w w' : History} → Reach w → Step w w' → Reach w'

  -- The callbacks made are the answers to requests, and what is left of the requests is pending.
  pub record Accounted (w : History) : Type 0 where
    pub answers : List Answer
    pub answered : w.called ≡ map callback_for answers
    pub once : Permᴰ w.asked (requested answers ++ pending w.ring)

  Step-Accounted : {w w' : History} → Step w w' → Accounted w → Accounted w'
  unfolding wake_up
  Step-Accounted {w} (asks c r h) v = record {
    answers = v.answers;
    answered = v.answered;
    once =
        subst (λ l. Permᴰ (w.asked ++ asked_by c) (requested v.answers ++ l))
          (sym (call-pending w.ring c r h))
          (subst (Permᴰ (w.asked ++ asked_by c))
            (append_assoc (requested v.answers) (pending w.ring) (asked_by c))
            (Permᴰ.append_right (asked_by c) v.once));
  }
  Step-Accounted {w} wakes v = record { answers = v.answers; answered = v.answered; once = v.once }
  Step-Accounted {w} (polls nanosec k x h) v =
      let a = poll-Answered react w.ring nanosec k x h in
      let asked = asked_on react x.callbacks in
      record {
        answers = v.answers ++ a.answers;
        answered =
            ap (λ l. l ++ x.callbacks) v.answered
            ∙ ap (λ l. map callback_for v.answers ++ l) a.called
            ∙ sym (map-append callback_for v.answers a.answers);
        once =
            subst (λ l. Permᴰ (w.asked ++ asked) (l ++ pending x.ring))
              (sym (map-append (λ (y : Answer). y.0) v.answers a.answers))
              (Permᴰ-chain [] w.asked (requested v.answers) (pending w.ring) asked
                (requested a.answers) (pending x.ring) v.once a.kept);
      }

  pub Reach-Accounted : {w : History} → Reach w → Accounted w
  unfolding construct prep_wake_up
  Reach-Accounted (here entries r h) =
      let q : IoUring = record {
        entries = entries;
        io_num = 0;
        sq = [];
        in_flight = [];
        event = 0;
      } in
      record {
        answers = [];
        answered = refl;
        once = subst (Permᴰ []) (sym (prepare-pending q q wake_read r refl refl h)) Permᴰ.nil;
      }
  Reach-Accounted (later r x) = Step-Accounted x (Reach-Accounted r)

  Reach-Balanced : {w : History} → Reach w → Balanced w.ring
  unfolding wake_up
  Reach-Balanced (here entries r h) = construct-Balanced entries r h
  Reach-Balanced (later {w} r (asks c q h)) = call-Balanced c w.ring q h (Reach-Balanced r)
  Reach-Balanced (later r wakes) =
      let v = Reach-Balanced r in record { counted = v.counted; armed = v.armed }
  Reach-Balanced (later {w} r (polls nanosec k x h)) =
      poll-Balanced react w.ring nanosec k x (Reach-Balanced r) h

  asked_on-Made : (cs : List Callback) → All Made (asked_on react cs)
  asked_on-Made [] = tt
  asked_on-Made (c ∷ cs) =
      All-append Made (asked_by_all (react c)) (asked_on react cs) (asked_by_all-Made (react c))
        (asked_on-Made cs)

  pub Reach-Made : {w : History} → Reach w → All Made w.asked
  Reach-Made (here entries r h) = tt
  Reach-Made (later {w} r (asks c q h)) =
      All-append Made w.asked (asked_by c) (Reach-Made r) (asked_by-Made c)
  Reach-Made (later r wakes) = Reach-Made r
  Reach-Made (later {w} r (polls nanosec k x h)) =
      All-append Made w.asked (asked_on react x.callbacks) (Reach-Made r)
        (asked_on-Made x.callbacks)

  -- Whatever requests are made, in and out of callbacks, and whatever the kernel does: each
  -- callback that was made is the answer to a request, the requests that were made are those that
  -- were answered, each once, and those that are prepared or in flight, and io_num_ is the number
  -- of the latter, modulo 2^64.
  pub requests_answered :
      {w : History} (r : Reach w) → Accounted w × (w.ring.io_num ≡ length (pending w.ring) % 2 ^ 64)
  requests_answered {w} r =
      let v = Reach-Accounted r in
      (
        v,
        (Reach-Balanced r).counted
            ∙ ap (λ n. n % 2 ^ 64)
                (pending_weight w.ring (
                  All-right Made (requested v.answers) (pending w.ring)
                    (All-perm Made v.once (Reach-Made r)))),
      )

  -- The requests that are prepared or in flight when the service is destroyed never get a callback.
  unanswered :
      {w : History} (r : Reach w)
      → length w.asked ≡ length (w.called ++ (destroy w.ring).1) + length (pending w.ring)
  unfolding destroy
  unanswered {w} r =
      let v = Reach-Accounted r in
      omega (
        arith,
        length-perm v.once,
        length-append (requested v.answers) (pending w.ring),
        length-append w.called [],
        ap length v.answered,
        length-map callback_for v.answers,
        length-map (λ (x : Answer). x.0) v.answers,
      )
