-- ===== src/Generator/Moves.antt =====
-- core/generator.h: each way in which control moves, on the stack.
use magio.Prelude.{
  ℕ, ◌+◌, ◌<◌, ◌≡◌, refl, ap, sym, ◌∙◌, subst, none, some, List, ◌∷◌, arith, some-inj,
}
use magio.Generator.{
  Body, raises, Promise, Memory, store, set_link, set_value, set_body, yield_value, await_suspend,
  final_suspend, unhandled_exception,
}
use magio.Generator.Chain.{
  Chain, nested, Agree, Changed, Rep, root_below, Agree-Chain, Changed-Chain, store-same,
  store-other, store-keeps, Chain-link,
}

set_body-Changed : (m : Memory) (r c : ℕ) (b : Body) → Changed m (set_body m c b) r c b
set_body-Changed m r c b = record {
  parents = λ a h. store-keeps (λ p. p.parent) m c a _ refl;
  bodies = λ a h. ap (λ p. p.body) (store-other m c a _ (λ e. omega (arith, h, e)));
  links = λ a h o. store-keeps (λ p. p.link) m c a _ refl;
  now = ap (λ p. p.body) (store-same m c _);
}

set_value-Agree : (m : Memory) (r n l x : ℕ) → Agree m (set_value m l x) r n
set_value-Agree m r n l x = record {
  parents = λ a h. store-keeps (λ p. p.parent) m l a _ refl;
  bodies = λ a h. store-keeps (λ p. p.body) m l a _ refl;
  links = λ a h o. store-keeps (λ p. p.link) m l a _ refl;
}

set_link-Agree : (m : Memory) (r n l : ℕ) → Agree m (set_link m r l) r n
set_link-Agree m r n l = record {
  parents = λ a h. store-keeps (λ p. p.parent) m r a _ refl;
  bodies = λ a h. store-keeps (λ p. p.body) m r a _ refl;
  links = λ a h o. ap (λ p. p.link) (store-other m r a _ (λ e. omega (arith, o, e)));
}

-- A value is yielded.
pub yield_value-Rep :
    (m : Memory) (r c x : ℕ) (b rest : Body) (bs : List Body)
    → Rep m r c (b ∷ bs)
    → Rep (yield_value m c x rest) r c (rest ∷ bs)
      × (((yield_value m c x rest).at r).value ≡ some x)
unfolding yield_value
yield_value-Rep m r c x b rest bs v =
    let l = Chain-link v.chain v.leaf in
    let m1 = set_value m (m.at c).link x in
    (
      record {
        chain =
            Changed-Chain m1 (set_body m1 c rest) r b rest bs (set_body-Changed m1 r c rest)
              (Agree-Chain m m1 r c (set_value-Agree m r c (m.at c).link x) (omega arith) v.chain);
        leaf =
            store-keeps (λ p. p.link) m1 c r _ refl
            ∙ store-keeps (λ p. p.link) m (m.at c).link r _ refl
            ∙ v.leaf;
        room = v.room;
      },
      store-keeps (λ p. p.value) m1 c r _ refl
          ∙ ap (λ y. ((set_value m y x).at r).value) l
          ∙ ap (λ p. p.value) (store-same m r _),
    )

parent_of :
    {m : Memory} {r c q : ℕ} {b b1 : Body} {bs : List Body}
    → Chain m r c (b ∷ b1 ∷ bs)
    → (m.at c).parent ≡ some q
    → (q < c) × Chain m r q (b1 ∷ bs)
parent_of {m} {r} {c} {q} {b1 = b1} {bs = bs} (nested _ p _ _ h k f l rest) e =
    let same : p ≡ q = some-inj (sym f.above ∙ e) in
    (omega (arith, h, same), subst (λ a. Chain m r a (b1 ∷ bs)) same rest)

pop-Rep :
    (m : Memory) (r c q : ℕ) (b b1 : Body) (bs : List Body)
    → Rep m r c (b ∷ b1 ∷ bs)
    → (m.at c).parent ≡ some q
    → Rep (set_link m r q) r q (b1 ∷ bs)
pop-Rep m r c q b b1 bs v e =
    let (below, rest) = parent_of v.chain e in
    record {
      chain = Agree-Chain m (set_link m r q) r q (set_link-Agree m r q q) (omega arith) rest;
      leaf = ap (λ p. p.link) (store-same m r _);
      room = omega (arith, below, v.room);
    }

-- A nested coroutine ends, and its parent goes on.
pub final_suspend-Rep :
    (m : Memory) (r c q : ℕ) (b b1 : Body) (bs : List Body)
    → Rep m r c (b ∷ b1 ∷ bs)
    → (m.at c).parent ≡ some q
    → Rep (final_suspend m c q) r q (b1 ∷ bs)
unfolding final_suspend
final_suspend-Rep m r c q b b1 bs v e =
    subst (λ l. Rep (set_link m l q) r q (b1 ∷ bs)) (sym (Chain-link v.chain v.leaf))
      (pop-Rep m r c q b b1 bs v e)

set_body-Rep :
    (m : Memory) (r c : ℕ) (b b' : Body) (bs : List Body)
    → Rep m r c (b ∷ bs)
    → Rep (set_body m c b') r c (b' ∷ bs)
set_body-Rep m r c b b' bs v = record {
  chain = Changed-Chain m (set_body m c b') r b b' bs (set_body-Changed m r c b') v.chain;
  leaf = store-keeps (λ p. p.link) m c r _ refl ∙ v.leaf;
  room = v.room;
}

-- A nested coroutine throws, and its parent rethrows.
pub unhandled_exception-Rep :
    (m : Memory) (r c q e : ℕ) (b b1 : Body) (bs : List Body)
    → Rep m r c (b ∷ b1 ∷ bs)
    → (m.at c).parent ≡ some q
    → Rep (unhandled_exception m c q e) r q (raises e ∷ bs)
unfolding unhandled_exception
unhandled_exception-Rep m r c q e b b1 bs v p =
    set_body-Rep (final_suspend m c q) r q b1 (raises e) bs (final_suspend-Rep m r c q b b1 bs v p)

store-Agree : (m : Memory) (r c a : ℕ) (p : Promise) → c < a → Agree m (store m a p) r c
store-Agree m r c a p h = record {
  parents = λ z k. ap (λ y. y.parent) (store-other m a z p (λ e. omega (arith, h, k, e)));
  bodies = λ z k. ap (λ y. y.body) (store-other m a z p (λ e. omega (arith, h, k, e)));
  links = λ z k o. ap (λ y. y.link) (store-other m a z p (λ e. omega (arith, h, k, e)));
}

next-Agree : (m : Memory) (r n k : ℕ) → Agree m (record m { next = k }) r n
next-Agree m r n k = record { parents = λ a h. refl; bodies = λ a h. refl; links = λ a h o. refl }

-- `await_suspend` once the root of `c` is known to be `r`.
abbrev pushed : Memory → (r c : ℕ) → (b rest : Body) → Memory
pushed m r c b rest =
    let p : Promise = record { link = r; parent = some c; value = none; body = b } in
    let m' : Memory = set_body (set_link (store m m.next p) r m.next) c rest in
    record m' { next = m.next + 1 }

push-Rep :
    (m : Memory) (r c : ℕ) (b0 b rest : Body) (bs : List Body)
    → Rep m r c (b0 ∷ bs)
    → Rep (pushed m r c b rest) r m.next (b ∷ rest ∷ bs)
push-Rep m r c b0 b rest bs v =
    let n = m.next in
    let p : Promise = record { link = r; parent = some c; value = none; body = b } in
    let m1 = store m n p in
    let m2 = set_link m1 r n in
    let m3 = set_body m2 c rest in
    let low = root_below v.chain in
    let there : m3.at n ≡ p =
      store-other m2 c n _ (λ e. omega (arith, v.room, e))
      ∙ store-other m1 r n _ (λ e. omega (arith, v.room, low, e))
      ∙ store-same m n p in
    record {
      chain =
          nested n c b (rest ∷ bs) v.room (omega (arith, v.room, low))
            (record { above = ap (λ y. y.parent) there; runs = ap (λ y. y.body) there })
            (ap (λ y. y.link) there)
            (Agree-Chain m3 (pushed m r c b rest) r c (next-Agree m3 r c (n + 1)) (omega arith) (
              Changed-Chain m2 m3 r b0 rest bs (set_body-Changed m2 r c rest) (
                Agree-Chain m1 m2 r c (set_link-Agree m1 r c n) (omega arith)
                  (Agree-Chain m m1 r c (store-Agree m r c n p v.room) (omega arith) v.chain))));
      leaf = store-keeps (λ y. y.link) m2 c r _ refl ∙ ap (λ y. y.link) (store-same m1 r _);
      room = omega arith;
    }

-- A nested coroutine begins.
pub await_suspend-Rep :
    (m : Memory) (r c : ℕ) (b0 b rest : Body) (bs : List Body)
    → Rep m r c (b0 ∷ bs)
    → Rep (await_suspend m c b rest) r m.next (b ∷ rest ∷ bs)
unfolding await_suspend
await_suspend-Rep m r c b0 b rest bs v =
    subst (λ l. Rep (pushed m l c b rest) r m.next (b ∷ rest ∷ bs))
      (sym (Chain-link v.chain v.leaf)) (push-Rep m r c b0 b rest bs v)
