-- ===== src/Prelude/Perms.antt =====
-- What holds of every element of a list holds of its members, and of the elements of its
-- rearrangements, which have its length.
use Prim.Native.Nat.{suc}
use mathlib.Core.Path.{◌≡◌, refl, sym, subst, ap, ◌∙◌}
use mathlib.Core.Logic.{inl, inr}
use mathlib.Core.List.{List, [], ◌∷◌, map, Permᴰ, Memᴰ}
use mathlib.Core.List.Memᴰ
use known.Prelude.Lists.{All, length}

module _ {ℓ κ} {A : Type ℓ} where
  pub All-Permᴰ : (P : A → Type κ) {xs ys : List A} → Permᴰ xs ys → All P xs → All P ys
  All-Permᴰ P Permᴰ.nil h = tt
  All-Permᴰ P (Permᴰ.cons e p) h = (subst P e h.0, All-Permᴰ P p h.1)
  All-Permᴰ P (Permᴰ.swap e f) h = (subst P f h.1.0, (subst P e h.0, h.1.1))
  All-Permᴰ P (Permᴰ.trans p q) h = All-Permᴰ P q (All-Permᴰ P p h)

  pub All-of_mem : (P : A → Type κ) (xs : List A) → ((x : A) → Memᴰ x xs → P x) → All P xs
  All-of_mem P [] h = tt
  All-of_mem P (x ∷ xs) h = (h x (Memᴰ.head refl), All-of_mem P xs (λ y m. h y (Memᴰ.tail m)))

  pub mem-All : (P : A → Type κ) (xs : List A) (x : A) → All P xs → Memᴰ x xs → P x
  mem-All P [] x h m = absurd (Memᴰ.not-nil m)
  mem-All P (y ∷ xs) x h m = elim (Memᴰ.cases_cons m) [
    | inl e ↦ subst P (sym e) h.0
    | inr k ↦ mem-All P xs x h.1 k
  ]

module _ {ℓ} {A : Type ℓ} where
  pub length-Permᴰ : {xs ys : List A} → Permᴰ xs ys → length xs ≡ length ys
  length-Permᴰ Permᴰ.nil = refl
  length-Permᴰ (Permᴰ.cons e p) = ap suc (length-Permᴰ p)
  length-Permᴰ (Permᴰ.swap e f) = refl
  length-Permᴰ (Permᴰ.trans p q) = length-Permᴰ p ∙ length-Permᴰ q

pub All-map :
    {A B : Type 0} (f : A → B) (P : B → Type 0) (xs : List A)
    → All (λ x. P (f x)) xs
    → All P (map f xs)
All-map f P [] h = tt
All-map f P (x ∷ xs) h = (h.0, All-map f P xs h.1)

-- Lists that agree element by element, as far as `g` sees.
module _ {A B : Type 0} (g : A → B) where
  pub same-map :
      {C : Type 0} (f : A → C) (xs ys : List A)
      → ((a b : A) → g a ≡ g b → f a ≡ f b)
      → map g xs ≡ map g ys
      → map f xs ≡ map f ys
  same-map f [] [] h e = refl
  same-map f [] (y ∷ ys) h e = cc e
  same-map f (x ∷ xs) [] h e = cc e
  same-map f (x ∷ xs) (y ∷ ys) h e =
      let head : g x ≡ g y = cc e in
      let rest : map g xs ≡ map g ys = cc e in rw (h x y head, same-map f xs ys h rest) refl

  pub same-All :
      (P : A → Type 0) (xs ys : List A)
      → ((a b : A) → g a ≡ g b → P a → P b)
      → map g xs ≡ map g ys
      → All P xs
      → All P ys
  same-All P [] [] h e k = tt
  same-All P [] (y ∷ ys) h e k = cc e
  same-All P (x ∷ xs) [] h e k = cc e
  same-All P (x ∷ xs) (y ∷ ys) h e k =
      let head : g x ≡ g y = cc e in
      let rest : map g xs ≡ map g ys = cc e in (h x y head k.0, same-All P xs ys h rest k.1)
