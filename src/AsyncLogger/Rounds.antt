-- ===== src/AsyncLogger/Rounds.antt =====
-- utils/async_logger.h: a round of the background thread.
use magio.Prelude.{
  ℕ, ◌≡◌, refl, ap, ◌∙◌, inl, inr, true, false, Option, none, some, List, [], ◌∷◌, ◌++◌, ◌==◌,
  arith, Bool-cases, List-cases, ==_iff, take, take_all, length, ◌>>=◌,
}
use mathlib.Core.List.{append-nil}
use magio.Buffer.{StaticBuffer, empty_buffer, clear, slice}
use magio.AsyncLogger.{
  AsyncLogger, Back, take_full, supply_next, collect, print, written, cleared, refill, pop_back,
  print_round,
}
use magio.AsyncLogger.Front.{Front, empty-IsValid}

-- The spare buffers of the background thread while it prints.
pub data Refillable (b : Back) : Type 0 where
  full :
      b.current_alter_buf ≡ some empty_buffer → b.next_alter_buf ≡ some empty_buffer → Refillable b
  used_current :
      (p : StaticBuffer)
      → b.current_alter_buf ≡ none
      → b.next_alter_buf ≡ some empty_buffer
      → b.buffers_to_print ≡ p ∷ []
      → Refillable b
  used_next :
      (p : StaticBuffer) (ps : List StaticBuffer)
      → b.current_alter_buf ≡ some empty_buffer
      → b.next_alter_buf ≡ none
      → b.buffers_to_print ≡ p ∷ ps
      → Refillable b

-- ... and between the rounds.
pub record Rested (b : Back) : Type 0 where
  pub has_current : b.current_alter_buf ≡ some empty_buffer
  pub has_next : b.next_alter_buf ≡ some empty_buffer
  pub nothing_left : b.buffers_to_print ≡ []

-- What the calls return when each writes the whole of its buffer.
abbrev pub lengths : List StaticBuffer → List ℕ
lengths [] = []
lengths (p ∷ ps) = length (slice p) ∷ lengths ps

pub written-lengths : (ps : List StaticBuffer) → written (lengths ps) ps ≡ print ps
unfolding written print
written-lengths [] = refl
written-lengths (p ∷ ps) =
    ap (λ x. x ++ written (lengths ps) ps) (take_all (length (slice p)) (slice p) (omega arith))
    ∙ ap (λ x. slice p ++ x) (written-lengths ps)

pop_back-cleared :
    (p : StaticBuffer) (ps : List StaticBuffer)
    → (qs : List StaticBuffer) × (pop_back (cleared (p ∷ ps)) ≡ some (qs, empty_buffer))
pop_back-cleared p [] = ([], refl)
pop_back-cleared p (q ∷ qs) =
    let (rs, e) = pop_back-cleared q qs in
    (clear p ∷ rs, ap (λ o. o >>= λ (ps, last). some (clear p ∷ ps, last)) e)

pub print_round-Rested :
    (counts : List ℕ) (b : Back)
    → Refillable b
    → (b' : Back) × (print_round counts b ≡ some b')
      × Rested b'
      × (b'.file ≡ b.file ++ written counts b.buffers_to_print)
unfolding print_round refill
print_round-Rested counts b (full c n) =
    (_, rw (c, n), record { has_current = refl; has_next = refl; nothing_left = refl }, refl)
print_round-Rested counts b (used_current p c n t) =
    (_, rw (c, n, t), record { has_current = refl; has_next = refl; nothing_left = refl }, refl)
print_round-Rested counts b (used_next p ps c n t) =
    let (qs, e) = pop_back-cleared p ps in
    (_, rw (c, n, t, e), record { has_current = refl; has_next = refl; nothing_left = refl }, refl)

abbrev pub held : Option StaticBuffer → List ℕ
held none = []
held (some b) = slice b

-- What a round leaves in the buffers of the writers.
abbrev pub left_over : List StaticBuffer → Option StaticBuffer → List ℕ
left_over [] c = []
left_over (r ∷ rs) c = held c

-- The critical section hands the bytes to print to the background thread, and keeps the others.
pub record Collected (l : AsyncLogger) (b : Back) (pending : List ℕ) : Type 0 where
  pub logger : AsyncLogger
  pub back : Back
  pub kept : List ℕ
  pub result : collect l b ≡ some (logger, back)
  pub front : Front logger kept
  pub refillable : Refillable back
  pub same_file : back.file ≡ b.file
  pub left : kept ≡ left_over l.ready l.current
  pub split : pending ≡ print back.buffers_to_print ++ kept

module _ (l : AsyncLogger) (b : Back) (pending : List ℕ) (f : Front l pending) (v : Rested b) where
  collect_nothing :
      l.ready ≡ []
      → l.next ≡ some empty_buffer
      → (f.active.size == 0) ≡ true
      → Collected l b pending
  unfolding collect take_full supply_next print slice
  collect_nothing r n z = record {
    logger = l;
    back = b;
    kept = pending;
    result = ground (arith, r, f.current_is, z, n);
    front = f;
    refillable = full v.has_current v.has_next;
    same_file = refl;
    left = f.holds ∙ rw (r) (ap (λ n. take n f.active.data_bytes) ((==_iff f.active.size 0).0 z));
    split = rw (v.nothing_left);
  }

  collect_current :
      l.ready ≡ []
      → l.next ≡ some empty_buffer
      → (f.active.size == 0) ≡ false
      → Collected l b pending
  unfolding collect take_full supply_next print slice
  collect_current r n z = record {
    logger = record l { current = b.current_alter_buf };
    back = record b { buffers_to_print = f.active ∷ []; current_alter_buf = none };
    kept = [];
    result = ground (arith, r, f.current_is, z, n);
    front = record {
      active = empty_buffer;
      current_is = v.has_current;
      valid = empty-IsValid;
      spare = inl n;
      holds = rw (r);
    };
    refillable = used_current f.active refl v.has_next refl;
    same_file = refl;
    left = rw (r);
    split = f.holds ∙ rw (r, append-nil (slice f.active), append-nil (slice f.active));
  }

  collect_ready :
      (p : StaticBuffer) (ps : List StaticBuffer) → l.ready ≡ p ∷ ps → Collected l b pending
  unfolding collect take_full supply_next print
  collect_ready p ps r = elim f.spare [
    | inl n ↦ record {
      logger = record l { ready = [] };
      back = record b { buffers_to_print = p ∷ ps };
      kept = slice f.active;
      result = ground (arith, r, n);
      front = record {
        active = f.active;
        current_is = f.current_is;
        valid = f.valid;
        spare = inl n;
        holds = refl;
      };
      refillable = full v.has_current v.has_next;
      same_file = refl;
      left = rw (r, f.current_is);
      split = f.holds ∙ ap (λ x. print x ++ slice f.active) r;
    }
    | inr (n, _) ↦ record {
      logger = record l { ready = []; next = b.next_alter_buf };
      back = record b { buffers_to_print = p ∷ ps; next_alter_buf = none };
      kept = slice f.active;
      result = ground (arith, r, n);
      front = record {
        active = f.active;
        current_is = f.current_is;
        valid = f.valid;
        spare = inl v.has_next;
        holds = refl;
      };
      refillable = used_next p ps v.has_current refl refl;
      same_file = refl;
      left = rw (r, f.current_is);
      split = f.holds ∙ ap (λ x. print x ++ slice f.active) r;
    }
  ]

  -- With no full buffer there is a spare one.
  next_is_spare : l.ready ≡ [] → l.next ≡ some empty_buffer
  next_is_spare r = elim f.spare [ inl n ↦ n | inr (_, k) ↦ absurd (k r) ]

  pub collect_lem : Collected l b pending
  collect_lem = elim (List-cases l.ready) [
    | inl r ↦ elim (Bool-cases (f.active.size == 0)) [
      | inl z ↦ collect_nothing r (next_is_spare r) z
      | inr z ↦ collect_current r (next_is_spare r) z
    ]
    | inr (p, ps, r) ↦ collect_ready p ps r
  ]
