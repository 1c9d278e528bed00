-- ===== src/Prelude/Order.antt =====
-- ORDER BY and sort.Slice as an insertion sort: among equals the order of the input stays, where
-- the library leaves it open.
use Prim.Native.Nat.{ℕ, zero, suc}
use mathlib.Core.Path.{◌≡◌, refl}
use mathlib.Core.Bool.{Bool, true, false}
use mathlib.Core.Logic.{◌⊎◌, inl, inr}
use mathlib.Core.List.{List, [], ◌∷◌, Permᴰ, Memᴰ}
use mathlib.Core.List.Memᴰ
use mathlib.Core.List.Permᴰ
use known.Prelude.Tests.{if◌then◌else◌, Bool-cases}
use known.Prelude.Lists.{All, take}
use known.Prelude.Perms.{All-Permᴰ, mem-All, All-of_mem}

module _ {ℓ} {A : Type ℓ} (before : A → A → Bool) where
  unfoldable pub insert_by : A → List A → List A
  insert_by x [] = x ∷ []
  insert_by x (y ∷ ys) = if before y x then y ∷ insert_by x ys else x ∷ y ∷ ys

  unfoldable pub order_by : List A → List A
  order_by [] = []
  order_by (x ∷ xs) = insert_by x (order_by xs)

  insert_by-perm : (x : A) (ys : List A) → Permᴰ (insert_by x ys) (x ∷ ys)
  unfolding insert_by
  insert_by-perm x [] = Permᴰ.refl (x ∷ [])
  insert_by-perm x (y ∷ ys) = elim (Bool-cases (before y x)) [
    | inl e ↦ rw e (Permᴰ.trans (Permᴰ.cons refl (insert_by-perm x ys)) (Permᴰ.swap refl refl))
    | inr e ↦ rw e (Permᴰ.refl (x ∷ y ∷ ys))
  ]

  pub order_by-perm : (xs : List A) → Permᴰ (order_by xs) xs
  unfolding order_by
  order_by-perm [] = Permᴰ.nil
  order_by-perm (x ∷ xs) =
      Permᴰ.trans (insert_by-perm x (order_by xs)) (Permᴰ.cons refl (order_by-perm xs))

  pub All-order_by {κ} : (P : A → Type κ) (xs : List A) → All P xs → All P (order_by xs)
  All-order_by P xs h = All-Permᴰ P (Permᴰ.symm (order_by-perm xs)) h

  pub mem-order_by : (xs : List A) (x : A) → Memᴰ x xs → Memᴰ x (order_by xs)
  mem-order_by xs x m =
      mem-All (λ y. Memᴰ y (order_by xs)) xs x
        (All-Permᴰ (λ y. Memᴰ y (order_by xs)) (order_by-perm xs)
          (All-of_mem (λ y. Memᴰ y (order_by xs)) (order_by xs) (λ y k. k)))
        m

  -- No element stands behind one that it is before.
  abbrev pub IsOrdered : List A → Type 0
  IsOrdered [] = Unit
  IsOrdered (x ∷ xs) = All (λ y. before y x ≡ false) xs × IsOrdered xs

  -- What stands among the first n, or behind them.
  pub take-IsOrdered :
      (n : ℕ) (xs : List A) (c : A)
      → IsOrdered xs
      → Memᴰ c xs
      → Memᴰ c (take n xs) ⊎ All (λ x. before c x ≡ false) (take n xs)
  take-IsOrdered zero xs c h m = inr tt
  take-IsOrdered (suc n) [] c h m = inr tt
  take-IsOrdered (suc n) (x ∷ xs) c h m = elim (Memᴰ.cases_cons m) [
    | inl e ↦ inl (Memᴰ.head e)
    | inr k ↦ elim (take-IsOrdered n xs c h.1 k) [
      | inl l ↦ inl (Memᴰ.tail l)
      | inr r ↦ inr (mem-All (λ y. before y x ≡ false) xs c h.0 k, r)
    ]
  ]

  -- The order need only be strict and total on elements of P.
  module _ {κ} (P : A → Type κ) (irrefl : (x : A) → before x x ≡ false)
      (trans : (x y z : A) → before x y ≡ true → before y z ≡ true → before x z ≡ true)
      (split : (x y z : A)
        → P y
        → before x z ≡ true
        → (before x y ≡ true) ⊎ (before y z ≡ true)) where
    asym : (a b : A) → before b a ≡ true → before a b ≡ false
    asym a b e = elim (Bool-cases (before a b)) [
      | inl k ↦ cc (trans a b a k e, irrefl a)
      | inr k ↦ k
    ]

    behind :
        (a b : A) (zs : List A)
        → P b
        → before b a ≡ false
        → All (λ z. before z b ≡ false) zs
        → All (λ z. before z a ≡ false) zs
    behind a b [] p e k = tt
    behind a b (z ∷ zs) p e k = (
      elim (Bool-cases (before z a)) [
        | inl t ↦ elim (split z b a p t) [ inl u ↦ cc (u, k.0) | inr u ↦ cc (u, e) ]
        | inr t ↦ t
      ],
      behind a b zs p e k.1,
    )

    insert_by-IsOrdered :
        (x : A) (ys : List A) → All P ys → IsOrdered ys → IsOrdered (insert_by x ys)
    unfolding insert_by
    insert_by-IsOrdered x [] p h = (tt, tt)
    insert_by-IsOrdered x (y ∷ ys) p h = elim (Bool-cases (before y x)) [
      | inl e ↦ rw e (
        All-Permᴰ (λ z. before z y ≡ false) (Permᴰ.symm (insert_by-perm x ys)) (asym x y e, h.0),
        insert_by-IsOrdered x ys p.1 h.1,
      )
      | inr e ↦ rw e ((e, behind x y ys p.0 e h.0), h)
    ]

    pub order_by-IsOrdered : (xs : List A) → All P xs → IsOrdered (order_by xs)
    unfolding order_by
    order_by-IsOrdered [] p = tt
    order_by-IsOrdered (x ∷ xs) p =
        insert_by-IsOrdered x (order_by xs) (All-order_by P xs p.1) (order_by-IsOrdered xs p.1)
