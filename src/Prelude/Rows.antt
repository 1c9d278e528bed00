-- ===== src/Prelude/Rows.antt =====
-- Rows of a table as lists: what WHERE selects, and what holds of the rows.
use mathlib.Core.Path.{◌≡◌, refl, sym, ap, ◌∙◌}
use mathlib.Core.Logic.{◌⊎◌, inl, inr}
use mathlib.Core.Bool.{Bool, true, false, ◌||◌}
use mathlib.Core.Option.{none, some}
use mathlib.Core.List.{List, [], ◌∷◌, ◌++◌, map, Memᴰ}
use mathlib.Core.List.Memᴰ
use Prim.Native.Nat.{ℕ, zero, suc}
use native.Mathlib.Omega.{arith}
use known.Prelude.Tests.{◌==◌, ==_self, ==_iff, Bool-cases, if◌then◌else◌}
use known.Prelude.Lists.{All, any, keep, find_by, member, take}
use known.Prelude.Sets.{IsDistinct, IsDistinct-concat}

module _ {A : Type 0} where
  pub any-of_mem : (p : A → Bool) (xs : List A) (x : A) → Memᴰ x xs → p x ≡ true → any p xs ≡ true
  any-of_mem p [] x m h = absurd (Memᴰ.not-nil m)
  any-of_mem p (y ∷ xs) x m h = elim (Memᴰ.cases_cons m) [
    | inl e ↦ rw (← e, h) refl
    | inr k ↦ ground (arith, any-of_mem p xs x k h)
  ]

  pub mem-any : (p : A → Bool) (xs : List A) → any p xs ≡ true → (x : A) × Memᴰ x xs × (p x ≡ true)
  mem-any p [] h = cc h
  mem-any p (y ∷ xs) h = elim (Bool-cases (p y)) [
    | inl e ↦ (y, Memᴰ.head refl, e)
    | inr e ↦ let (x, m, k) = mem-any p xs (rw e at h) in (x, Memᴰ.tail m, k)
  ]

  pub any-none : (p : A → Bool) (xs : List A) (x : A) → any p xs ≡ false → Memᴰ x xs → p x ≡ false
  any-none p xs x h m = elim (Bool-cases (p x)) [
    | inl e ↦ cc (any-of_mem p xs x m e, h)
    | inr e ↦ e
  ]

  pub any-append : (p : A → Bool) (xs ys : List A) → any p (xs ++ ys) ≡ (any p xs || any p ys)
  any-append p [] ys = refl
  any-append p (x ∷ xs) ys = ground (arith, any-append p xs ys)

  pub mem-add : (xs : List A) (r x : A) → Memᴰ x (xs ++ r ∷ []) → Memᴰ x xs ⊎ (x ≡ r)
  mem-add xs r x m = elim (Memᴰ.append_cases xs m) [
    | inl i ↦ inl i
    | inr j ↦ elim (Memᴰ.cases_cons j) [ inl same ↦ inr same | inr n ↦ absurd (Memᴰ.not-nil n) ]
  ]

  pub mem-take : (n : ℕ) (xs : List A) (x : A) → Memᴰ x (take n xs) → Memᴰ x xs
  mem-take zero xs x m = absurd (Memᴰ.not-nil m)
  mem-take (suc n) [] x m = absurd (Memᴰ.not-nil m)
  mem-take (suc n) (y ∷ xs) x m = elim (Memᴰ.cases_cons m) [
    | inl e ↦ Memᴰ.head e
    | inr k ↦ Memᴰ.tail (mem-take n xs x k)
  ]

  pub mem-map {κ} :
      {B : Type κ} (f : A → B) (xs : List A) (y : B)
      → Memᴰ y (map f xs)
      → (x : A) × Memᴰ x xs × (f x ≡ y)
  mem-map f [] y m = absurd (Memᴰ.not-nil m)
  mem-map f (x ∷ xs) y m = elim (Memᴰ.cases_cons m) [
    | inl e ↦ (x, Memᴰ.head refl, sym e)
    | inr k ↦ let (z, l, e) = mem-map f xs y k in (z, Memᴰ.tail l, e)
  ]

  pub mem-keep :
      (q : A → Bool) (xs : List A) (x : A) → Memᴰ x (keep q xs) → Memᴰ x xs × (q x ≡ true)
  unfolding keep
  mem-keep q [] x m = absurd (Memᴰ.not-nil m)
  mem-keep q (y ∷ xs) x m = elim (Bool-cases (q y)) [
    | inl e ↦ elim (Memᴰ.cases_cons (rw (e, keep) at m)) [
      | inl same ↦ (Memᴰ.head same, rw same e)
      | inr k ↦ let (a, b) = mem-keep q xs x k in (Memᴰ.tail a, b)
    ]
    | inr e ↦ let (a, b) = mem-keep q xs x (rw (e, keep) at m) in (Memᴰ.tail a, b)
  ]

  pub keep-mem : (q : A → Bool) (xs : List A) (x : A) → Memᴰ x xs → q x ≡ true → Memᴰ x (keep q xs)
  unfolding keep
  keep-mem q [] x m h = absurd (Memᴰ.not-nil m)
  keep-mem q (y ∷ xs) x m h = elim (Memᴰ.cases_cons m) [
    | inl same ↦ rw (← same, h) (Memᴰ.head refl)
    | inr k ↦ elim (Bool-cases (q y)) [
      | inl e ↦ rw e (Memᴰ.tail (keep-mem q xs x k h))
      | inr e ↦ rw e (keep-mem q xs x k h)
    ]
  ]

  pub find_by-some :
      (p : A → Bool) (xs : List A) (x : A) → find_by p xs ≡ some x → Memᴰ x xs × (p x ≡ true)
  unfolding find_by
  find_by-some p [] x h = cc h
  find_by-some p (y ∷ xs) x h = elim (Bool-cases (p y)) [
    | inl e ↦ let same : y ≡ x = cc (rw (e, find_by) at h) in (Memᴰ.head (sym same), rw (← same) e)
    | inr e ↦ let (m, k) = find_by-some p xs x (rw (e, find_by) at h) in (Memᴰ.tail m, k)
  ]

  pub find_by-none : (p : A → Bool) (xs : List A) → find_by p xs ≡ none → any p xs ≡ false
  unfolding find_by
  find_by-none p [] h = refl
  find_by-none p (y ∷ xs) h = elim (Bool-cases (p y)) [
    | inl e ↦ cc (rw (e, find_by) at h)
    | inr e ↦ rw e (find_by-none p xs (rw (e, find_by) at h))
  ]

  pub find_by-append_none :
      (p : A → Bool) (xs ys : List A) → any p xs ≡ false → find_by p (xs ++ ys) ≡ find_by p ys
  unfolding find_by
  find_by-append_none p [] ys h = refl
  find_by-append_none p (x ∷ xs) ys h = elim (Bool-cases (p x)) [
    | inl e ↦ cc (rw e at h)
    | inr e ↦ rw e (find_by-append_none p xs ys (rw e at h))
  ]

  -- A selection among rows that were selected.
  pub keep-keep_same :
      (p q : A → Bool) (xs : List A)
      → ((x : A) → p x ≡ true → q x ≡ true)
      → keep p (keep q xs) ≡ keep p xs
  unfolding keep
  keep-keep_same p q [] h = refl
  keep-keep_same p q (x ∷ xs) h = elim (Bool-cases (q x)) [
    | inl e ↦ rw e (ap (λ r. if p x then x ∷ r else r) (keep-keep_same p q xs h))
    | inr e ↦ let no : p x ≡ false = ground (arith, h x) in rw (e, no) (keep-keep_same p q xs h)
  ]

  pub keep-append : (p : A → Bool) (xs ys : List A) → keep p (xs ++ ys) ≡ keep p xs ++ keep p ys
  unfolding keep
  keep-append p [] ys = refl
  keep-append p (x ∷ xs) ys = elim (Bool-cases (p x)) [
    | inl e ↦ rw e (ap (λ r. x ∷ r) (keep-append p xs ys))
    | inr e ↦ rw e (keep-append p xs ys)
  ]

  pub keep-none : (p : A → Bool) (xs : List A) → any p xs ≡ false → keep p xs ≡ []
  unfolding keep
  keep-none p [] h = refl
  keep-none p (x ∷ xs) h = elim (Bool-cases (p x)) [
    | inl e ↦ cc (rw e at h)
    | inr e ↦ rw e (keep-none p xs (rw e at h))
  ]

  pub keep-keep_none :
      (p q : A → Bool) (xs : List A)
      → ((x : A) → q x ≡ true → p x ≡ false)
      → keep p (keep q xs) ≡ []
  unfolding keep
  keep-keep_none p q [] h = refl
  keep-keep_none p q (x ∷ xs) h = elim (Bool-cases (q x)) [
    | inl e ↦ rw (e, h x e) (keep-keep_none p q xs h)
    | inr e ↦ rw e (keep-keep_none p q xs h)
  ]

  pub find_by-keep_same :
      (p q : A → Bool) (xs : List A)
      → ((x : A) → p x ≡ true → q x ≡ true)
      → find_by p (keep q xs) ≡ find_by p xs
  unfolding keep find_by
  find_by-keep_same p q [] h = refl
  find_by-keep_same p q (x ∷ xs) h = elim (Bool-cases (q x)) [
    | inl e ↦ rw e (ap (λ r. if p x then some x else r) (find_by-keep_same p q xs h))
    | inr e ↦ let no : p x ≡ false = ground (arith, h x) in rw (e, no) (find_by-keep_same p q xs h)
  ]

  pub find_by-keep_none :
      (p q : A → Bool) (xs : List A)
      → ((x : A) → q x ≡ true → p x ≡ false)
      → find_by p (keep q xs) ≡ none
  unfolding keep find_by
  find_by-keep_none p q [] h = refl
  find_by-keep_none p q (x ∷ xs) h = elim (Bool-cases (q x)) [
    | inl e ↦ rw (e, h x e) (find_by-keep_none p q xs h)
    | inr e ↦ rw e (find_by-keep_none p q xs h)
  ]

  module _ {κ} (P : A → Type κ) where
    pub All-keep : (q : A → Bool) (xs : List A) → All P xs → All P (keep q xs)
    unfolding keep
    All-keep q [] h = tt
    All-keep q (x ∷ xs) h = elim (Bool-cases (q x)) [
      | inl e ↦ rw e (h.0, All-keep q xs h.1)
      | inr e ↦ rw e (All-keep q xs h.1)
    ]

-- Rows with an id.
module _ {A : Type 0} (id : A → ℕ) where
  pub member-of_mem : (xs : List A) (x : A) → Memᴰ x xs → member (id x) (map id xs) ≡ true
  unfolding member
  member-of_mem [] x m = absurd (Memᴰ.not-nil m)
  member-of_mem (y ∷ xs) x m = elim (Memᴰ.cases_cons m) [
    | inl e ↦ rw (e, ==_self (id y)) refl
    | inr k ↦ ground (arith, member-of_mem xs x k)
  ]

  -- Two rows of one id are one row.
  pub row-of_id :
      (xs : List A) (x y : A) → IsDistinct (map id xs) → Memᴰ x xs → Memᴰ y xs → id x ≡ id y → x ≡ y
  row-of_id [] x y d mx my e = absurd (Memᴰ.not-nil mx)
  row-of_id (z ∷ xs) x y d mx my e = elim (Memᴰ.cases_cons mx) [
    | inl ex ↦ elim (Memᴰ.cases_cons my) [
      | inl ey ↦ ex ∙ sym ey
      | inr ky ↦ absurd (cc (member-of_mem xs y ky, d.0, ap id ex, e))
    ]
    | inr kx ↦ elim (Memᴰ.cases_cons my) [
      | inl ey ↦ absurd (cc (member-of_mem xs x kx, d.0, ap id ey, e))
      | inr ky ↦ row-of_id xs x y d.1 kx ky e
    ]
  ]

  pub mem-of_member :
      (a : ℕ) (xs : List A) → member a (map id xs) ≡ true → (x : A) × Memᴰ x xs × (id x ≡ a)
  unfolding member
  mem-of_member a [] h = cc h
  mem-of_member a (x ∷ xs) h = elim (Bool-cases (id x == a)) [
    | inl e ↦ (x, Memᴰ.head refl, (==_iff (id x) a).0 e)
    | inr e ↦ let (y, m, k) = mem-of_member a xs (rw e at h) in (y, Memᴰ.tail m, k)
  ]

  pub any-eq-member : (a : ℕ) (xs : List A) → any (λ x. id x == a) xs ≡ member a (map id xs)
  unfolding member
  any-eq-member a [] = refl
  any-eq-member a (x ∷ xs) = ap (λ b. (id x == a) || b) (any-eq-member a xs)

  member-keep :
      (q : A → Bool) (a : ℕ) (xs : List A)
      → member a (map id xs) ≡ false
      → member a (map id (keep q xs)) ≡ false
  unfolding member keep
  member-keep q a [] h = refl
  member-keep q a (x ∷ xs) h = elim (Bool-cases (q x)) [
    | inl e ↦ rw e (ground (arith, member-keep q a xs))
    | inr e ↦ rw e (ground (arith, member-keep q a xs))
  ]

  pub IsDistinct-keep :
      (q : A → Bool) (xs : List A) → IsDistinct (map id xs) → IsDistinct (map id (keep q xs))
  unfolding keep
  IsDistinct-keep q [] h = tt
  IsDistinct-keep q (x ∷ xs) h = elim (Bool-cases (q x)) [
    | inl e ↦ rw e (member-keep q (id x) xs h.0, IsDistinct-keep q xs h.1)
    | inr e ↦ rw e (IsDistinct-keep q xs h.1)
  ]

  pub IsDistinct-add :
      (xs : List A) (x : A)
      → IsDistinct (map id xs)
      → any (λ y. id y == id x) xs ≡ false
      → IsDistinct (map id (xs ++ x ∷ []))
  IsDistinct-add xs x h k =
      rw (map-concat xs x)
        (IsDistinct-concat (map id xs) (id x) h (sym (any-eq-member (id x) xs) ∙ k))
    where
      map-concat : (ys : List A) (y : A) → map id (ys ++ y ∷ []) ≡ map id ys ++ id y ∷ []
      map-concat [] y = refl
      map-concat (z ∷ ys) y = ap (λ r. id z ∷ r) (map-concat ys y)

  -- An update that keeps the ids.
  pub map-same_ids :
      (f : A → A) (xs : List A) → ((x : A) → id (f x) ≡ id x) → map id (map f xs) ≡ map id xs
  map-same_ids f [] h = refl
  map-same_ids f (x ∷ xs) h = rw (h x, map-same_ids f xs h)
