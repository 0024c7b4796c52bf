-- ===== src/Generator/Chain.antt =====
-- core/generator.h: a generator in the memory as a stack of bodies, the innermost first.
use magio.Prelude.{
  ℕ, ◌≤◌, ◌<◌, ◌≡◌, ◌≢◌, refl, ap, ◌∙◌, Option, none, some, List, [], ◌∷◌, ◌==◌, ==_iff, arith,
  Bool-cases, inl, inr,
}
use magio.Generator.{Body, Promise, Memory, store}

-- A promise as the stack knows it: its body and its parent, and for a nested one its root.
pub record IsFrame (p : Promise) (parent : Option ℕ) (body : Body) : Type 0 where
  pub above : p.parent ≡ parent
  pub runs : p.body ≡ body

-- The frames from `c` to the root `r`, each younger than its parent.
pub data Chain (m : Memory) (r : ℕ) : (c : ℕ) → List Body → Type 0 where
  root : (b : Body) → IsFrame (m.at r) none b → Chain m r r (b ∷ [])
  nested :
      (c q : ℕ) (b : Body) (bs : List Body)
      → q < c
      → r < c
      → IsFrame (m.at c) (some q) b
      → (m.at c).link ≡ r
      → Chain m r q bs
      → Chain m r c (b ∷ bs)

-- Memories that agree up to `n`, but for the link of `r` and the values.
pub record Agree (m m' : Memory) (r n : ℕ) : Type 0 where
  pub parents : (a : ℕ) → a ≤ n → (m'.at a).parent ≡ (m.at a).parent
  pub bodies : (a : ℕ) → a ≤ n → (m'.at a).body ≡ (m.at a).body
  pub links : (a : ℕ) → a ≤ n → r < a → (m'.at a).link ≡ (m.at a).link

pub root_below : {m : Memory} {r c : ℕ} {bs : List Body} → Chain m r c bs → r ≤ c
root_below (root b f) = omega arith
root_below (nested c q b bs h k f l rest) = omega (arith, k)

pub Agree-Chain :
    (m m' : Memory) (r n : ℕ) {c : ℕ} {bs : List Body}
    → Agree m m' r n
    → c ≤ n
    → Chain m r c bs
    → Chain m' r c bs
Agree-Chain m m' r n g h (root b f) =
    root b (record { above = g.parents r h ∙ f.above; runs = g.bodies r h ∙ f.runs })
Agree-Chain m m' r n g h (nested c q b cs i k f l rest) =
    nested c q b cs i k (record { above = g.parents c h ∙ f.above; runs = g.bodies c h ∙ f.runs })
      (g.links c h k ∙ l) (Agree-Chain m m' r n g (omega (arith, h, i)) rest)

-- The leaf goes on with another body.
pub record Changed (m m' : Memory) (r c : ℕ) (b' : Body) : Type 0 where
  pub parents : (a : ℕ) → a ≤ c → (m'.at a).parent ≡ (m.at a).parent
  pub bodies : (a : ℕ) → a < c → (m'.at a).body ≡ (m.at a).body
  pub links : (a : ℕ) → a ≤ c → r < a → (m'.at a).link ≡ (m.at a).link
  pub now : (m'.at c).body ≡ b'

pub Changed-Chain :
    (m m' : Memory) (r : ℕ) {c : ℕ} (b b' : Body) (bs : List Body)
    → Changed m m' r c b'
    → Chain m r c (b ∷ bs)
    → Chain m' r c (b' ∷ bs)
Changed-Chain m m' r b b' [] g (root b1 f) =
    root b' (record { above = g.parents r (omega arith) ∙ f.above; runs = g.now })
Changed-Chain m m' r b b' bs g (nested c q b1 cs i k f l rest) =
    nested c q b' cs i k (record { above = g.parents c (omega arith) ∙ f.above; runs = g.now })
      (g.links c (omega arith) k ∙ l)
      (Agree-Chain m m' r q
        (record {
          parents = λ a h. g.parents a (omega (arith, h, i));
          bodies = λ a h. g.bodies a (omega (arith, h, i));
          links = λ a h o. g.links a (omega (arith, h, i)) o;
        })
        (omega arith) rest)

pub store-same : (m : Memory) (a : ℕ) (p : Promise) → (store m a p).at a ≡ p
store-same m a p = rw ((==_iff a a).1 refl) refl

pub store-other : (m : Memory) (a z : ℕ) (p : Promise) → a ≢ z → (store m a p).at z ≡ m.at z
store-other m a z p n = ground arith

-- A field that the new promise keeps is the same everywhere.
pub store-keeps :
    {X : Type 0} (F : Promise → X) (m : Memory) (a z : ℕ) (p : Promise)
    → F p ≡ F (m.at a)
    → F ((store m a p).at z) ≡ F (m.at z)
store-keeps F m a z p e = elim (Bool-cases (a == z)) [
  | inl b ↦ rw (b) (e ∙ ap (λ y. F (m.at y)) ((==_iff a z).0 b))
  | inr b ↦ rw (b) refl
]

-- The leaf is where the root says, and there is room above.
pub record Rep (m : Memory) (r c : ℕ) (bs : List Body) : Type 0 where
  pub chain : Chain m r c bs
  pub leaf : (m.at r).link ≡ c
  pub room : c < m.next

pub Chain-link :
    {m : Memory} {r c : ℕ} {bs : List Body} → Chain m r c bs → (m.at r).link ≡ c → (m.at c).link ≡ r
Chain-link (root b f) e = e
Chain-link (nested c q b bs h k f l rest) e = l
