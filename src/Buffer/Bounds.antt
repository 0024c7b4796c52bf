-- ===== src/Buffer/Bounds.antt =====
-- utils/buffer.h: the size of a StaticBuffer against its array and the bytes written.
use magio.Prelude.{
  ℕ, ◌+◌, ◌-◌, ◌%◌, ◌^◌, ◌≤◌, ◌<◌, ◌≡◌, ◌≢◌, ◌==◌, false, [], ◌∷◌, refl, ap, ◌∙◌, min, none, some,
  List, ◌++◌, leb, length, length-append, length-take, take, drop, take_all, take-min, take_nil,
  drop_all, length-drop, inl, inr, arith, le→leb, lt→leb, Bool-cases, leb→le,
}
use magio.Buffer.{StaticBuffer, rest, append, append_format, slice, slice_at}

-- `size_` counts the bytes written, and is within the array.
pub record IsValid (Size : ℕ) (b : StaticBuffer) : Type 0 where
  pub counted : length b.data_bytes ≡ b.size
  pub bounded : b.size ≤ Size

small : (n : ℕ) → n < 2 ^ 64 → n % 2 ^ 64 ≡ n
small n h = omega arith

nonzero : (n : ℕ) → 0 < n → (n == 0) ≡ false
nonzero n h = ground (arith, h)

some_byte : (msg : List ℕ) → msg ≢ [] → 0 < length msg
some_byte [] k = absurd (k refl)
some_byte (x ∷ xs) k = omega arith

module _ (Size : ℕ) (narrow : Size < 2 ^ 64) (b : StaticBuffer) (v : IsValid Size b) where
  pub rest_lem : rest Size b ≡ Size - b.size
  unfolding rest
  rest_lem = omega (arith, narrow, v.bounded)

  -- Appending to a valid buffer copies as much as fits, says how much, and leaves it valid.
  pub append_lem :
      (msg : List ℕ)
      → (let n = min (Size - b.size) (length msg) in
          (b' : StaticBuffer) × (append Size b msg ≡ some (b', n))
          × (b'.data_bytes ≡ b.data_bytes ++ take n msg)
          × IsValid Size b')
  unfolding append
  append_lem msg =
      let n = min (Size - b.size) (length msg) in
      (
        record { data_bytes = b.data_bytes ++ take n msg; size = b.size + n },
        rw (rest_lem, le→leb (b.size + n) Size (omega (arith, v.bounded))),
        refl,
        record {
          counted =
              ground (arith, v.counted, length-append b.data_bytes (take n msg), length-take n msg);
          bounded = omega (arith, v.bounded);
        },
      )

  -- A text that fits is printed whole into a valid buffer, and leaves it valid.
  pub append_format_fits :
      (text : List ℕ)
      → length text ≤ Size - b.size
      → (b' : StaticBuffer) × (append_format Size b text ≡ some (b', length text))
        × (b'.data_bytes ≡ b.data_bytes ++ text)
        × IsValid Size b'
  unfolding append_format
  append_format_fits text h = (
    record { data_bytes = b.data_bytes ++ text; size = b.size + length text },
    rw (
      rest_lem,
      le→leb (b.size + min (Size - b.size) (length text)) Size (omega (arith, v.bounded)),
      take_all (min (Size - b.size) (length text)) text (omega (arith, h)),
      small (b.size + length text) (omega (arith, narrow, v.bounded, h)),
    ),
    refl,
    record {
      counted = omega (arith, v.counted, length-append b.data_bytes text);
      bounded = omega (arith, v.bounded, h);
    },
  )

  -- A text that does not fit is cut off, but counted whole: `size_` leaves the array behind, and
  -- the next append of any byte writes from past its end. Sizes are below 2 ^ 64.
  pub append_format_overflow :
      (text msg : List ℕ)
      → msg ≢ []
      → Size - b.size < length text
      → b.size + length text < 2 ^ 64
      → (b' : StaticBuffer) × (append_format Size b text ≡ some (b', length text))
        × (Size < b'.size)
        × (append Size b' msg ≡ none)
  unfolding append_format append rest
  append_format_overflow text msg k h w =
      let n = min (Size - b.size) (length text) in
      let m = min ((Size + 2 ^ 64 - (b.size + length text)) % 2 ^ 64) (length msg) in
      (
        record { data_bytes = b.data_bytes ++ take n text; size = b.size + length text },
        rw (
          rest_lem,
          le→leb (b.size + n) Size (omega (arith, v.bounded)),
          small (b.size + length text) w,
        ),
        omega (arith, h, v.bounded),
        rw (
          lt→leb (b.size + length text + m) Size (omega (arith, h, v.bounded)),
          nonzero m (omega (arith, some_byte msg k, narrow, w, h, v.bounded)),
        ),
      )

  -- A slice of a valid buffer is a slice of the bytes written.
  slice_at_lem : (pos count : ℕ) → slice_at b pos count ≡ take count (drop pos b.data_bytes)
  unfolding slice_at
  slice_at_lem pos count = elim (Bool-cases (leb b.size pos)) [
    | inl t ↦ rw (
      t,
      drop_all pos b.data_bytes (omega (arith, v.counted, leb→le b.size pos t)),
      take_nil {A = ℕ} count,
    )
    | inr f ↦
        rw (f, ← v.counted, ← length-drop pos b.data_bytes) (take-min count (drop pos b.data_bytes))
  ]

  pub slice_lem : slice b ≡ b.data_bytes
  unfolding slice
  slice_lem = take_all b.size b.data_bytes (omega (arith, v.counted))

  -- Bytes that fit are appended whole.
  pub append_fits :
      (msg : List ℕ)
      → length msg ≤ Size - b.size
      → (b' : StaticBuffer) × (append Size b msg ≡ some (b', length msg))
        × (b'.data_bytes ≡ b.data_bytes ++ msg)
        × IsValid Size b'
  append_fits msg h =
      let (b', p, q, w) = append_lem msg in
      let e : min (Size - b.size) (length msg) ≡ length msg = omega (arith, h) in
      (
        b',
        p ∙ ap (λ n. some (b', n)) e,
        q
            ∙ ap (λ xs. b.data_bytes ++ xs)
                (ap (λ n. take n msg) e ∙ take_all (length msg) msg (omega arith)),
        w,
      )
