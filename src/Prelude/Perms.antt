-- ===== src/Prelude/Perms.antt =====
-- Permutations of lists.
use Prim.Native.Nat.{suc}
use mathlib.Core.Path.{◌≡◌, refl, ap, sym, subst, ◌∙◌}
use mathlib.Core.List.{List, [], ◌∷◌, ◌++◌, Permᴰ, append_assoc, map}
use mathlib.Core.List.Permᴰ
use magio.Prelude.Lists.{length, All}

pub length-perm : {A : Type 0} {xs ys : List A} → Permᴰ xs ys → length xs ≡ length ys
length-perm Permᴰ.nil = refl
length-perm (Permᴰ.cons e p) = ap suc (length-perm p)
length-perm (Permᴰ.swap e f) = refl
length-perm (Permᴰ.trans p q) = length-perm p ∙ length-perm q

pub length-map : {A B : Type 0} (f : A → B) (xs : List A) → length (map f xs) ≡ length xs
length-map f [] = refl
length-map f (x ∷ xs) = ap suc (length-map f xs)

pub bring_forward :
    {A : Type 0} (xs ys zs : List A) {ws : List A}
    → Permᴰ ws (ys ++ zs)
    → Permᴰ (xs ++ ws) (ys ++ (xs ++ zs))
bring_forward xs ys zs {ws} p = Permᴰ.trans (Permᴰ.append_left xs p) (
    subst (λ l. Permᴰ l (ys ++ (xs ++ zs))) (append_assoc xs ys zs)
      (subst (λ l. Permᴰ ((xs ++ ys) ++ zs) l) (append_assoc ys xs zs)
        (Permᴰ.append_right zs (Permᴰ.append_comm xs ys))))

pub Permᴰ-chain :
    {A : Type 0} (p a d q b e r : List A)
    → Permᴰ (p ++ a) (d ++ q)
    → Permᴰ (q ++ b) (e ++ r)
    → Permᴰ (p ++ (a ++ b)) ((d ++ e) ++ r)
Permᴰ-chain p a d q b e r x y =
    subst (λ l. Permᴰ l ((d ++ e) ++ r)) (append_assoc p a b)
      (Permᴰ.trans (Permᴰ.append_right b x) (
        subst (λ l. Permᴰ l ((d ++ e) ++ r)) (sym (append_assoc d q b))
          (subst (λ l. Permᴰ (d ++ (q ++ b)) l) (sym (append_assoc d e r))
            (Permᴰ.append_left d y))))

module _ {A : Type 0} (P : A → Type 0) where
  pub All-left : (xs ys : List A) → All P (xs ++ ys) → All P xs
  All-left [] ys a = tt
  All-left (x ∷ xs) ys a = (a.0, All-left xs ys a.1)

  pub All-right : (xs ys : List A) → All P (xs ++ ys) → All P ys
  All-right [] ys a = a
  All-right (x ∷ xs) ys a = All-right xs ys a.1

  pub All-perm : {xs ys : List A} → Permᴰ xs ys → All P xs → All P ys
  All-perm Permᴰ.nil a = a
  All-perm (Permᴰ.cons e p) (a, b) = (subst P e a, All-perm p b)
  All-perm (Permᴰ.swap e f) (a, (b, c)) = (subst P f b, (subst P e a, c))
  All-perm (Permᴰ.trans p q) a = All-perm q (All-perm p a)
