-- ===== src/Buffer/Tests.antt =====
-- The theorems about StaticBuffer at concrete inputs.
use magio.Prelude.{ℕ, ◌<◌, ◌≡◌, refl, none, some, List, [], ◌∷◌, arith}
use magio.Buffer.{StaticBuffer, append, append_format}
use magio.Buffer.Bounds.{IsValid, append_format_overflow}

-- Three bytes of four.
abbrev three : StaticBuffer
three = record { data_bytes = 1 ∷ 2 ∷ 3 ∷ []; size = 3 }

three-IsValid : IsValid 4 three
three-IsValid = record { counted = refl; bounded = omega arith }

abbrev two : List ℕ
two = 7 ∷ 8 ∷ []

append_format_overflow_example :
    (b' : StaticBuffer) × (append_format 4 three two ≡ some (b', 2))
    × (4 < b'.size)
    × (append 4 b' (9 ∷ []) ≡ none)
append_format_overflow_example =
    append_format_overflow 4 (omega arith) three three-IsValid two (9 ∷ []) (λ e. ground (arith, e))
      (omega arith) (omega arith)
