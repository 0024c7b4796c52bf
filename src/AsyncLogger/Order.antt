-- ===== src/AsyncLogger/Order.antt =====
-- utils/async_logger.h: the bytes logged, from the writers to the file.
use magio.Prelude.{
  ℕ, ◌≡◌, ◌≢◌, ◌≤◌, refl, sym, ap, ◌∙◌, inl, Bool, true, false, none, some, List, [], ◌++◌, length,
  arith, some-inj, subst,
}
use mathlib.Core.List.{append_assoc, append-nil}
use magio.Buffer.{StaticBuffer, empty_buffer, slice, small_buffer_size}
use magio.AsyncLogger.{
  AsyncLogger, Back, construct, write, stop, collect, print, written, print_round,
}
use magio.AsyncLogger.System.{
  Phase, waiting, printing, exited, System, after_round, Step, writes, stops, collects, prints,
  init, Reach, here, later, WholeStep, Whole,
}
use magio.AsyncLogger.Front.{Front, empty-IsValid, write-Front}
use magio.AsyncLogger.Rounds.{
  Refillable, Rested, lengths, written-lengths, print_round-Rested, held, left_over, collect_lem,
}

abbrev Spares : Phase → Back → Type 0
Spares printing b = Refillable b
Spares waiting b = Rested b
Spares exited b = Rested b

-- The order of the bytes, if `w`: that the writes so far were whole.
record Inv (w : Type 0) (s : System) : Type 0 where
  pending : List ℕ
  front : Front s.logger pending
  spares : Spares s.phase s.back
  order : w → s.logged ≡ s.back.file ++ print s.back.buffers_to_print ++ pending

init-Inv : Inv Unit init
unfolding construct print slice
init-Inv = record {
  pending = [];
  front = record {
    active = empty_buffer;
    current_is = refl;
    valid = empty-IsValid;
    spare = inl refl;
    holds = refl;
  };
  spares = record { has_current = refl; has_next = refl; nothing_left = refl };
  order = λ h. refl;
}

Front-stop : (l : AsyncLogger) (pending : List ℕ) → Front l pending → Front (stop l) pending
unfolding stop
Front-stop l pending f = record {
  active = f.active;
  current_is = f.current_is;
  valid = f.valid;
  spare = f.spare;
  holds = f.holds;
}

Spares-after_round : (b : Bool) (x : Back) → Rested x → Spares (after_round b) x
Spares-after_round true x r = r
Spares-after_round false x r = r

-- The bytes to print move from the writers' buffers to the vector, ...
order_collected :
    (file file' moved kept pending : List ℕ) (ps : List StaticBuffer)
    → ps ≡ []
    → file' ≡ file
    → pending ≡ moved ++ kept
    → file ++ print ps ++ pending ≡ file' ++ moved ++ kept
unfolding print
order_collected file file' moved kept pending ps p q r =
    ap (λ x. file ++ print x ++ pending) p
    ∙ ap (λ x. x ++ pending) (append-nil file)
    ∙ ap (λ x. file ++ x) r
    ∙ sym (append_assoc file moved kept)
    ∙ ap (λ x. x ++ moved ++ kept) (sym q)

-- ... and from there to the file.
order_printed :
    (file file' moved pending : List ℕ) (ps : List StaticBuffer)
    → ps ≡ []
    → file' ≡ file ++ moved
    → file ++ moved ++ pending ≡ file' ++ print ps ++ pending
unfolding print
order_printed file file' moved pending ps p q =
    ap (λ x. x ++ pending) (sym q)
    ∙ ap (λ x. x ++ pending) (sym (append-nil file'))
    ∙ ap (λ x. file' ++ print x ++ pending) (sym p)

Step-Inv : {w : Type 0} {s t : System} (st : Step s t) → Inv w s → Inv (w × WholeStep st) t
Step-Inv {w} {s} (writes text l n h e) v =
    let (l', n', p, f) = write-Front s.logger v.pending text v.front h in
    record {
      pending = v.pending ++ text;
      front = subst (λ x. Front x.0 (v.pending ++ text)) (some-inj (sym p ∙ e)) f;
      spares = v.spares;
      order = λ whole.
          ap (λ x. x ++ text) (v.order whole.0)
          ∙ append_assoc (s.back.file ++ print s.back.buffers_to_print) v.pending text;
    }
Step-Inv {w} {s} stops v = record {
  pending = v.pending;
  front = Front-stop s.logger v.pending v.front;
  spares = v.spares;
  order = λ whole. v.order whole.0;
}
Step-Inv {w} {s} (collects l b h e) v =
    let r = subst (λ p. Spares p s.back) h v.spares in
    let c = collect_lem s.logger s.back v.pending v.front r in
    subst (λ x. Inv (w × Unit) (record s { logger = x.0; back = x.1; phase = printing }))
      (some-inj (sym c.result ∙ e))
      (record {
        pending = c.kept;
        front = c.front;
        spares = c.refillable;
        order = λ whole.
            v.order whole.0
            ∙ order_collected s.back.file c.back.file (print c.back.buffers_to_print) c.kept
                v.pending s.back.buffers_to_print r.nothing_left c.same_file c.split;
      })
Step-Inv {w} {s} (prints counts b h e) v =
    let (b', p, r, q) =
      print_round-Rested counts s.back (subst (λ x. Spares x s.back) h v.spares) in
    subst
      (λ x.
        Inv (w × (counts ≡ lengths s.back.buffers_to_print))
          (record s { back = x; phase = after_round s.logger.stop_flag }))
      (some-inj (sym p ∙ e))
      (record {
        pending = v.pending;
        front = v.front;
        spares = Spares-after_round s.logger.stop_flag b' r;
        order = λ whole.
            v.order whole.0
            ∙ order_printed s.back.file b'.file (print s.back.buffers_to_print) v.pending
                b'.buffers_to_print r.nothing_left
                (q
                  ∙ ap (λ ns. s.back.file ++ written ns s.back.buffers_to_print) whole.1
                  ∙ ap (λ x. s.back.file ++ x) (written-lengths s.back.buffers_to_print));
      })

Reach-Inv : {s : System} (r : Reach s) → Inv (Whole r) s
Reach-Inv here = init-Inv
Reach-Inv (later r st) = Step-Inv st (Reach-Inv r)

-- In every state that is reached with each call of file.write writing the whole of its buffer, the
-- bytes logged are those in the file, those that the background thread is printing, those in the
-- full buffers and those in the current buffer, in this order.
pub nothing_lost :
    {s : System} (r : Reach s)
    → Whole r
    → s.logged
      ≡ s.back.file
        ++ print s.back.buffers_to_print
        ++ (print s.logger.ready ++ held s.logger.current)
nothing_lost {s} r whole =
    let v = Reach-Inv r in
    v.order whole
    ∙ ap (λ x. s.back.file ++ print s.back.buffers_to_print ++ x)
        (v.front.holds ∙ ap (λ c. print s.logger.ready ++ held c) (sym v.front.current_is))

-- The next part of the background thread's round goes through.
abbrev pub GoesOn : (counts : List ℕ) → Phase → AsyncLogger → Back → Type 0
GoesOn counts waiting l b = collect l b ≢ none
GoesOn counts printing l b = print_round counts b ≢ none
GoesOn counts exited l b = Unit

goes_on :
    (counts : List ℕ) (p : Phase) (l : AsyncLogger) (b : Back) (pending : List ℕ)
    → Front l pending
    → Spares p b
    → GoesOn counts p l b
goes_on counts waiting l b pending f r =
    λ e. ground (arith, (collect_lem l b pending f r).result, e)
goes_on counts printing l b pending f r =
    λ e. let (_, p, _, _) = print_round-Rested counts b r in ground (arith, p, e)
goes_on counts exited l b pending f r = record {}

-- In every reachable state a text that fits in the thread's buffer can be written, and the round of
-- the background thread goes on, whatever it writes to the file: no null pointer is followed, no
-- empty vector has its back taken.
pub never_faults :
    {s : System} (r : Reach s) (text counts : List ℕ)
    → length text ≤ small_buffer_size
    → (write s.logger text ≢ none) × GoesOn counts s.phase s.logger s.back
never_faults {s} r text counts h =
    let v = Reach-Inv r in
    (
      λ e. let (_, _, p, _) = write-Front s.logger v.pending text v.front h in ground (arith, p, e),
      goes_on counts s.phase s.logger s.back v.pending v.front v.spares,
    )

-- When each call of file.write writes the whole of its buffer, in the run and in the round, a round
-- that nothing interrupts leaves everything logged in the file if there was no full buffer;
-- otherwise it leaves out what is in the current buffer, also if it is the last one.
pub round_left_over :
    {s : System} (r : Reach s)
    → Whole r
    → s.phase ≡ waiting
    → (l : AsyncLogger) × (b b' : Back) × (collect s.logger s.back ≡ some (l, b))
      × (print_round (lengths b.buffers_to_print) b ≡ some b')
      × (s.logged ≡ b'.file ++ left_over s.logger.ready s.logger.current)
round_left_over {s} r whole h =
    let v = Reach-Inv r in
    let w = subst (λ p. Spares p s.back) h v.spares in
    let c = collect_lem s.logger s.back v.pending v.front w in
    let ps = c.back.buffers_to_print in
    let (b', p, _, q) = print_round-Rested (lengths ps) c.back c.refillable in
    (
      c.logger,
      c.back,
      b',
      c.result,
      p,
      v.order whole
          ∙ order_collected s.back.file c.back.file (print c.back.buffers_to_print) c.kept v.pending
              s.back.buffers_to_print w.nothing_left c.same_file c.split
          ∙ ap (λ x. x ++ c.kept) (sym (q ∙ ap (λ x. c.back.file ++ x) (written-lengths ps)))
          ∙ ap (λ x. b'.file ++ x) c.left,
    )
