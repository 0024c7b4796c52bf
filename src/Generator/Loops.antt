-- ===== src/Generator/Loops.antt =====
-- core/generator.h: a whole loop over a generator, from `begin` to the end.
use magio.Prelude.{
  ℕ, zero, suc, ◌≤◌, ◌<◌, ◌≡◌, refl, ap, sym, ◌∙◌, Option, none, some, List, [], ◌∷◌, ◌++◌, arith,
}
use mathlib.Core.List.{append-nil}
use magio.Generator.{
  Body, returns, raises, yields, yields_all, Memory, Resumed, suspended, finished, thrown,
  out_of_fuel, resume, Seen, seen, unfinished, before, loop, fresh, followed_by, values, size,
}
use magio.Generator.Chain.{Chain, root, Rep}
use magio.Generator.Iteration.{
  remaining, total, size_pos, Outcome, at_value, at_end, at_throw, resume-Outcome,
}

total_pos : {m : Memory} {r c : ℕ} (bs : List Body) → Chain m r c bs → 0 < total bs
total_pos [] h = elim h [ ]
total_pos (b ∷ bs) h = omega (arith, size_pos b)

-- The loop from a resumption on, when it goes well for the smaller stacks.
after-Outcome :
    (n k r : ℕ) (bs : List Body) (o : Resumed)
    → ((m' : Memory) (c' : ℕ) (cs : List Body)
        → Rep m' r c' cs
        → total cs < total bs
        → loop n k m' r c' ≡ remaining cs)
    → Outcome r bs o
    → elim o [
      | suspended m' ↦ before (m'.at r).value (loop n k m' r (m'.at r).link)
      | finished ↦ seen [] none
      | thrown e ↦ seen [] (some e)
      | out_of_fuel ↦ unfinished
    ]
      ≡ remaining bs
after-Outcome n k r bs o ih (at_value m' c' x cs v w q h) =
    ap (λ y. before y (loop n k m' r (m'.at r).link)) w
    ∙ ap (λ a. before (some x) (loop n k m' r a)) v.leaf
    ∙ ap (before (some x)) (ih m' c' cs v h)
    ∙ sym q
after-Outcome n k r bs o ih (at_end q) = sym q
after-Outcome n k r bs o ih (at_throw e q) = sym q

loop_lem :
    (n k : ℕ) (m : Memory) (r c : ℕ) (bs : List Body)
    → Rep m r c bs
    → total bs ≤ k
    → total bs ≤ n
    → loop n k m r c ≡ remaining bs
unfolding loop
loop_lem n k m r c [] v h i = absurd (omega (arith, total_pos [] v.chain))
loop_lem zero k m r c (b ∷ bs) v h i = absurd (omega (arith, i, size_pos b))
loop_lem (suc n) k m r c (b ∷ bs) v h i =
    after-Outcome n k r (b ∷ bs) (resume k m c)
      (λ m' c' cs w s. loop_lem n k m' r c' cs w (omega (arith, h, s)) (omega (arith, i, s)))
      (resume-Outcome k m r c b bs v h)

followed_by_end : (s : Seen) → followed_by s (seen [] none) ≡ s
followed_by_end (seen xs none) = ap (λ l. seen l none) (append-nil xs)
followed_by_end (seen xs (some e)) = refl
followed_by_end unfinished = refl

joined_seen :
    {s : Seen} (xs : List ℕ) (e : Option ℕ) (ys : List ℕ) (f : Option ℕ)
    → s ≡ followed_by (seen xs e) (seen ys f)
    → (zs : List ℕ) × (g : Option ℕ) × (s ≡ seen zs g)
joined_seen xs none ys f q = (xs ++ ys, f, q)
joined_seen xs (some e) ys f q = (xs, some e, q)

values_seen : (b : Body) → (xs : List ℕ) × (e : Option ℕ) × (values b ≡ seen xs e)
unfolding values
values_seen returns = ([], none, refl)
values_seen (raises e) = ([], some e, refl)
values_seen (yields x b) = let (xs, e, q) = values_seen b in (x ∷ xs, e, ap (before (some x)) q)
values_seen (yields_all b rest) =
    let (xs, e, q) = values_seen b in
    let (ys, f, p) = values_seen rest in
    joined_seen xs e ys f (ap (λ s. followed_by s (values rest)) q ∙ ap (followed_by (seen xs e)) p)

-- A loop over a generator, with as much fuel as the size of its body, comes to its end: it sees what the
-- body yields, that of the nested generators in its place, up to the end or the first exception.
pub loop-values :
    (n k r : ℕ) (b : Body)
    → size b ≤ n
    → size b ≤ k
    → (loop n k (fresh r b) r r ≡ values b)
      × ((xs : List ℕ) × (e : Option ℕ) × (values b ≡ seen xs e))
loop-values n k r b h i = (
  loop_lem n k (fresh r b) r r (b ∷ [])
        (record {
          chain = root b (record { above = refl; runs = refl });
          leaf = refl;
          room = omega arith;
        })
        (omega (arith, i)) (omega (arith, h))
      ∙ followed_by_end (values b),
  values_seen b,
)
