-- ===== src/Generator/Iteration.antt =====
-- core/generator.h: what a loop over a generator sees, and that it comes to its end.
use magio.Prelude.{
  ℕ, zero, suc, ◌+◌, ◌≤◌, ◌<◌, ◌≡◌, refl, ap, sym, ◌∙◌, subst, Option, none, some, List, [], ◌∷◌,
  arith,
}
use mathlib.Core.List.{append_assoc}
use magio.Generator.{
  Body, returns, raises, yields, yields_all, Memory, back, on, transfer, Resumed, suspended,
  finished, thrown, resume, Seen, seen, unfinished, before, followed_by, values, size,
}
use magio.Generator.Chain.{Chain, root, nested, Rep}
use magio.Generator.Moves.{
  yield_value-Rep, final_suspend-Rep, unhandled_exception-Rep, await_suspend-Rep,
}

-- What is still to be seen of a stack, and its size.
abbrev pub remaining : List Body → Seen
remaining [] = seen [] none
remaining (b ∷ bs) = followed_by (values b) (remaining bs)

abbrev pub total : List Body → ℕ
total [] = 0
total (b ∷ bs) = size b + total bs

followed_by-nothing : (s : Seen) → followed_by (seen [] none) s ≡ s
followed_by-nothing (seen ys e) = refl
followed_by-nothing unfinished = refl

followed_by-before :
    (x : ℕ) (s t : Seen) → followed_by (before (some x) s) t ≡ before (some x) (followed_by s t)
followed_by-before x (seen xs none) (seen ys e) = refl
followed_by-before x (seen xs none) unfinished = refl
followed_by-before x (seen xs (some e)) t = refl
followed_by-before x unfinished t = refl

followed_by_assoc :
    (s t u : Seen) → followed_by (followed_by s t) u ≡ followed_by s (followed_by t u)
followed_by_assoc (seen xs none) (seen ys none) (seen zs e) =
    ap (λ l. seen l e) (append_assoc xs ys zs)
followed_by_assoc (seen xs none) (seen ys none) unfinished = refl
followed_by_assoc (seen xs none) (seen ys (some e)) u = refl
followed_by_assoc (seen xs none) unfinished u = refl
followed_by_assoc (seen xs (some e)) t u = refl
followed_by_assoc unfinished t u = refl

pub size_pos : (b : Body) → 0 < size b
unfolding size
size_pos returns = omega arith
size_pos (raises e) = omega arith
size_pos (yields x b) = omega arith
size_pos (yields_all b rest) = omega arith

-- How a resumption of a stack comes back.
pub data Outcome (r : ℕ) (bs : List Body) : Resumed → Type 0 where
  at_value :
      (m' : Memory) (c' x : ℕ) (bs' : List Body)
      → Rep m' r c' bs'
      → (m'.at r).value ≡ some x
      → remaining bs ≡ before (some x) (remaining bs')
      → total bs' < total bs
      → Outcome r bs (suspended m')
  at_end : remaining bs ≡ seen [] none → Outcome r bs finished
  at_throw : (e : ℕ) → remaining bs ≡ seen [] (some e) → Outcome r bs (thrown e)

Outcome-same :
    (r : ℕ) (bs cs : List Body) (o : Resumed)
    → remaining bs ≡ remaining cs
    → total cs ≤ total bs
    → Outcome r cs o
    → Outcome r bs o
Outcome-same r bs cs o e h (at_value m' c' x bs' v w q k) =
    at_value m' c' x bs' v w (e ∙ q) (omega (arith, h, k))
Outcome-same r bs cs o e h (at_end q) = at_end (e ∙ q)
Outcome-same r bs cs o e h (at_throw ex q) = at_throw ex (e ∙ q)

-- A resumption goes where the leaf sends control.
resume_lem :
    (k : ℕ) (m : Memory) (c : ℕ) (b : Body) (p : Option ℕ)
    → (m.at c).body ≡ b
    → (m.at c).parent ≡ p
    → resume (suc k) m c ≡ elim (transfer m c b p) [ back o ↦ o | on m' c' ↦ resume k m' c' ]
unfolding resume
resume_lem k m c b p e f =
    ap (λ x. elim (transfer m c x (m.at c).parent) [ back o ↦ o | on m' c' ↦ resume k m' c' ]) e
    ∙ ap (λ y. elim (transfer m c b y) [ back o ↦ o | on m' c' ↦ resume k m' c' ]) f

Chain-body :
    {m : Memory} {r c : ℕ} {b : Body} {bs : List Body} → Chain m r c (b ∷ bs) → (m.at c).body ≡ b
Chain-body (root b f) = f.runs
Chain-body (nested c q b bs h k f l rest) = f.runs

Chain-orphan : {m : Memory} {r c : ℕ} {b : Body} → Chain m r c (b ∷ []) → (m.at c).parent ≡ none
Chain-orphan (root b f) = f.above
Chain-orphan (nested c q b bs h k f l rest) = elim rest [ ]

Chain-parent :
    {m : Memory} {r c : ℕ} {b b1 : Body} {bs : List Body}
    → Chain m r c (b ∷ b1 ∷ bs)
    → (q : ℕ) × ((m.at c).parent ≡ some q)
Chain-parent (nested c q b bs h k f l rest) = (q, f.above)

pub resume-Outcome :
    (k : ℕ) (m : Memory) (r c : ℕ) (b : Body) (bs : List Body)
    → Rep m r c (b ∷ bs)
    → total (b ∷ bs) ≤ k
    → Outcome r (b ∷ bs) (resume k m c)
unfolding values size
resume-Outcome zero m r c b bs v h = absurd (omega (arith, h, size_pos b))
resume-Outcome (suc k) m r c (yields x rest) bs v h =
    let (v', w) = yield_value-Rep m r c x _ rest bs v in
    subst (Outcome r (yields x rest ∷ bs)) (sym (resume_lem k m c _ _ (Chain-body v.chain) refl)) (
      at_value _ c x (rest ∷ bs) v' w (followed_by-before x (values rest) (remaining bs))
        (omega arith))
resume-Outcome (suc k) m r c (yields_all b rest) bs v h =
    let v' = await_suspend-Rep m r c _ b rest bs v in
    subst (Outcome r (yields_all b rest ∷ bs))
      (sym (resume_lem k m c _ _ (Chain-body v.chain) refl))
      (Outcome-same r (yields_all b rest ∷ bs) (b ∷ rest ∷ bs) _
        (followed_by_assoc (values b) (values rest) (remaining bs)) (omega arith)
        (resume-Outcome k _ r m.next b (rest ∷ bs) v' (omega (arith, h))))
resume-Outcome (suc k) m r c returns [] v h =
    subst (Outcome r (returns ∷ []))
      (sym (resume_lem k m c _ _ (Chain-body v.chain) (Chain-orphan v.chain))) (at_end refl)
resume-Outcome (suc k) m r c returns (b ∷ bs) v h =
    let (q, p) = Chain-parent v.chain in
    subst (Outcome r (returns ∷ b ∷ bs)) (sym (resume_lem k m c _ _ (Chain-body v.chain) p)) (
      Outcome-same r (returns ∷ b ∷ bs) (b ∷ bs) _ (followed_by-nothing _) (omega arith)
        (resume-Outcome k _ r q b bs (final_suspend-Rep m r c q _ b bs v p) (omega (arith, h))))
resume-Outcome (suc k) m r c (raises e) [] v h =
    subst (Outcome r (raises e ∷ []))
      (sym (resume_lem k m c _ _ (Chain-body v.chain) (Chain-orphan v.chain))) (at_throw e refl)
resume-Outcome (suc k) m r c (raises e) (b ∷ bs) v h =
    let (q, p) = Chain-parent v.chain in
    subst (Outcome r (raises e ∷ b ∷ bs)) (sym (resume_lem k m c _ _ (Chain-body v.chain) p)) (
      Outcome-same r (raises e ∷ b ∷ bs) (raises e ∷ bs) _ refl (omega (arith, size_pos b)) (
        resume-Outcome k _ r q (raises e) bs (unhandled_exception-Rep m r c q e _ b bs v p)
          (omega (arith, h, size_pos b))))
