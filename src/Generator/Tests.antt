-- ===== src/Generator/Tests.antt =====
-- The theorem about loops at a concrete generator.
use magio.Prelude.{ℕ, ◌≡◌, Option, some, List, [], ◌∷◌, arith}
use magio.Generator.{Body, returns, raises, yields, yields_all, loop, fresh, seen, values, size}
use magio.Generator.Loops.{loop-values}

-- It yields 1, then the 2 of a nested generator, then 3, and throws 9.
abbrev generator : Body
generator = yields 1 (yields_all (yields 2 returns) (yields 3 (raises 9)))

loop-values_example :
    (loop 7 7 (fresh 0 generator) 0 0 ≡ seen (1 ∷ 2 ∷ 3 ∷ []) (some 9))
    × ((xs : List ℕ) × (e : Option ℕ) × (values generator ≡ seen xs e))
unfolding values size
loop-values_example = loop-values 7 7 0 generator (omega arith) (omega arith)
