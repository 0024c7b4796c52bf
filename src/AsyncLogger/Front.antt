-- ===== src/AsyncLogger/Front.antt =====
-- utils/async_logger.h: the buffers that the writers fill.
use magio.Prelude.{
  ℕ, ◌^◌, append_ne, ◌-◌, ◌≡◌, ◌≢◌, ◌≤◌, ◌<◌, refl, sym, ap, ◌∙◌, ◌⊎◌, inl, inr, Bool, true, false,
  none, some, List, [], ◌∷◌, ◌++◌, ltb, length, arith, Bool-cases, ltb→lt,
}
use mathlib.Core.List.{append_assoc, append-nil}
use magio.Buffer.{
  StaticBuffer, empty_buffer, rest, append, slice, small_buffer_size, large_buffer_size,
}
use magio.Buffer.Bounds.{IsValid, rest_lem, append_fits, append_format_fits, slice_lem}
use magio.AsyncLogger.{AsyncLogger, replace, write_into, write_impl, write, print, or_fresh}

-- The buffers of the writers hold `pending`; a used-up `next_` goes with a full buffer in `ready_`.
pub record Front (l : AsyncLogger) (pending : List ℕ) : Type 0 where
  pub active : StaticBuffer
  pub current_is : l.current ≡ some active
  pub valid : IsValid large_buffer_size active
  pub spare : (l.next ≡ some empty_buffer) ⊎ ((l.next ≡ none) × (l.ready ≢ []))
  pub holds : pending ≡ print l.ready ++ slice active

pub empty-IsValid : IsValid large_buffer_size empty_buffer
empty-IsValid = record { counted = refl; bounded = omega arith }

print-append : (ps qs : List StaticBuffer) → print (ps ++ qs) ≡ print ps ++ print qs
unfolding print
print-append [] qs = refl
print-append (p ∷ ps) qs =
    ap (λ xs. slice p ++ xs) (print-append ps qs)
    ∙ sym (append_assoc (slice p) (print ps) (print qs))

pub narrow : large_buffer_size < 2 ^ 64
narrow = omega arith

-- What fits in a buffer is appended to its slice.
append-slice :
    (b : StaticBuffer) (msg : List ℕ)
    → IsValid large_buffer_size b
    → length msg ≤ large_buffer_size - b.size
    → (b' : StaticBuffer) × (append large_buffer_size b msg ≡ some (b', length msg))
      × (slice b' ≡ slice b ++ msg)
      × IsValid large_buffer_size b'
append-slice b msg v h =
    let (b', p, q, w) = append_fits large_buffer_size narrow b v msg h in
    (
      b',
      p,
      slice_lem large_buffer_size narrow b' w
          ∙ q
          ∙ ap (λ xs. xs ++ msg) (sym (slice_lem large_buffer_size narrow b v)),
      w,
    )

module _ (l : AsyncLogger) (pending msg : List ℕ) (f : Front l pending) where
  Written : Type 0
  Written =
      (l' : AsyncLogger) × (n : Bool) × (write_impl l msg ≡ some (l', n))
      × Front l' (pending ++ msg)

  -- The text fits in the current buffer.
  write_in_place : ltb (length msg) (rest large_buffer_size f.active) ≡ true → Written
  unfolding write_impl write_into Written
  write_in_place t =
      let room : length msg ≤ large_buffer_size - f.active.size =
        omega (arith, ltb→lt _ _ t, rest_lem large_buffer_size narrow f.active f.valid) in
      let (b', p, q, w) = append-slice f.active msg f.valid room in
      (
        record l { current = some b' },
        false,
        rw (f.current_is, t, p),
        record {
          active = b';
          current_is = refl;
          valid = w;
          spare = f.spare;
          holds =
              ap (λ xs. xs ++ msg) f.holds
              ∙ append_assoc (print l.ready) (slice f.active) msg
              ∙ ap (λ xs. print l.ready ++ xs) (sym q);
        },
      )

  next_is_fresh : or_fresh l.next ≡ empty_buffer
  next_is_fresh = elim f.spare [ inl e ↦ ap or_fresh e | inr (e, _) ↦ ap or_fresh e ]

  -- It does not: the current buffer is full, and the text begins a new one.
  write_in_next :
      length msg ≤ small_buffer_size
      → ltb (length msg) (rest large_buffer_size f.active) ≡ false
      → Written
  unfolding write_impl write_into replace Written print slice
  write_in_next h t =
      let (b', p, q, w) = append-slice empty_buffer msg empty-IsValid (omega (arith, h)) in
      (
        record l { ready = l.ready ++ f.active ∷ []; current = some b'; next = none },
        true,
        rw (f.current_is, t, next_is_fresh, p),
        record {
          active = b';
          current_is = refl;
          valid = w;
          spare = inr (refl, append_ne l.ready f.active);
          holds =
              ap (λ xs. xs ++ msg)
                (f.holds
                  ∙ ap (λ xs. print l.ready ++ xs) (sym (append-nil (slice f.active)))
                  ∙ sym (print-append l.ready (f.active ∷ [])))
              ∙ ap (λ xs. print (l.ready ++ f.active ∷ []) ++ xs) (sym q);
        },
      )

  write_impl-Front : length msg ≤ small_buffer_size → Written
  write_impl-Front h = elim (Bool-cases (ltb (length msg) (rest large_buffer_size f.active))) [
    | inl t ↦ write_in_place t
    | inr n ↦ write_in_next h n
  ]

-- A text that fits in the thread's buffer reaches the buffers of the logger whole.
pub write-Front :
    (l : AsyncLogger) (pending text : List ℕ)
    → Front l pending
    → length text ≤ small_buffer_size
    → (l' : AsyncLogger) × (n : Bool) × (write l text ≡ some (l', n)) × Front l' (pending ++ text)
unfolding write Written
write-Front l pending text f h =
    let v : IsValid small_buffer_size empty_buffer = record {
      counted = refl;
      bounded = omega arith;
    } in
    let (b, p, q, w) = append_format_fits small_buffer_size (omega arith) empty_buffer v text h in
    let e : slice b ≡ text = slice_lem small_buffer_size (omega arith) b w ∙ q in
    let (l', n, r, g) = write_impl-Front l pending text f h in (l', n, rw (p, e, r), g)
