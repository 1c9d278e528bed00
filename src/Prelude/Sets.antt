-- ===== src/Prelude/Sets.antt =====
-- Sets of ids as lists: how many ids of a finite universe a set lacks, and lists without repeats.
use Prim.Native.Nat.{ℕ, suc, ◌+◌, ◌≤◌, ◌<◌}
use mathlib.Core.Path.{◌≡◌, refl}
use mathlib.Core.Logic.{inl, inr}
use mathlib.Core.Bool.{true, false, ◌||◌}
use mathlib.Core.List.{List, [], ◌∷◌, ◌++◌}
use native.Mathlib.Omega.{arith}
use known.Prelude.Tests.{◌==◌, ==_iff, Bool-cases, if◌then◌else◌}
use known.Prelude.Lists.{All, member, length}

-- The ids of the universe that are not in the set.
pub unseen : List ℕ → List ℕ → ℕ
unseen seen [] = 0
unseen seen (u ∷ us) = if member u seen then unseen seen us else suc (unseen seen us)

pub unseen-cons-le : (a : ℕ) (seen us : List ℕ) → unseen (a ∷ seen) us ≤ unseen seen us
unfolding unseen member
unseen-cons-le a seen [] = omega arith
unseen-cons-le a seen (u ∷ us) = ground (arith, unseen-cons-le a seen us)

pub unseen-cons-lt :
    (a : ℕ) (seen us : List ℕ)
    → member a us ≡ true
    → member a seen ≡ false
    → unseen (a ∷ seen) us < unseen seen us
unfolding unseen member
unseen-cons-lt a seen [] h k = cc
unseen-cons-lt a seen (u ∷ us) h k = elim (Bool-cases (u == a)) [
  | inl e ↦ ground (arith, unseen-cons-le a seen us, ==_iff u a)
  | inr e ↦ ground (arith, unseen-cons-lt a seen us)
]

pub unseen-le-length : (seen us : List ℕ) → unseen seen us ≤ length us
unfolding unseen
unseen-le-length seen [] = omega arith
unseen-le-length seen (u ∷ us) = ground (arith, unseen-le-length seen us)

pub member-append : (a : ℕ) (xs ys : List ℕ) → member a (xs ++ ys) ≡ (member a xs || member a ys)
unfolding member
member-append a [] ys = refl
member-append a (x ∷ xs) ys = ground (arith, member-append a xs ys)

-- No id occurs twice.
abbrev pub IsDistinct : List ℕ → Type 0
IsDistinct [] = Unit
IsDistinct (x ∷ xs) = (member x xs ≡ false) × IsDistinct xs

-- Distinct members of a list are at most as many as the list has elements.
unseen-add-length :
    (xs ys : List ℕ)
    → IsDistinct xs
    → All (λ x. member x ys ≡ true) xs
    → unseen xs ys + length xs ≤ length ys
unseen-add-length [] ys d h = omega (arith, unseen-le-length [] ys)
unseen-add-length (x ∷ xs) ys d h =
    omega (arith, unseen-cons-lt x xs ys h.0 d.0, unseen-add-length xs ys d.1 h.1)

pub length-le-of_members :
    (xs ys : List ℕ) → IsDistinct xs → All (λ x. member x ys ≡ true) xs → length xs ≤ length ys
length-le-of_members xs ys d h = omega (arith, unseen-add-length xs ys d h)

pub IsDistinct-concat :
    (xs : List ℕ) (x : ℕ) → IsDistinct xs → member x xs ≡ false → IsDistinct (xs ++ x ∷ [])
unfolding member
IsDistinct-concat [] x h k = (refl, tt)
IsDistinct-concat (y ∷ xs) x h k = (
  ground (arith, member-append y xs (x ∷ []), ==_iff x y, ==_iff y x),
  IsDistinct-concat xs x h.1 (ground arith),
)
