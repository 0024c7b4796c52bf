-- ===== src/Address/Tests.antt =====
-- The theorems about addresses at a concrete one, 1.2 in a short notation.
use magio.Prelude.{ℕ, List, [], ◌∷◌}
use magio.Address.{Pton, parsed}

abbrev one_parser : ℕ → List ℕ → Pton
one_parser af text = parsed (1 ∷ 0 ∷ 0 ∷ 2 ∷ [])

abbrev text : List ℕ
text = 49 ∷ 46 ∷ 50 ∷ []

abbrev bytes : List ℕ
bytes = 2 ∷ 0 ∷ 31 ∷ 144 ∷ 1 ∷ 0 ∷ 0 ∷ 2 ∷ 0 ∷ 0 ∷ 0 ∷ 0 ∷ 0 ∷ 0 ∷ 0 ∷ 0 ∷ []
