-- ===== src/Query/Sort/Order.antt =====
-- sortResultsByScore of query/vector.go: the order of the result.
use mathlib.Core.Path.{◌≡◌}
use mathlib.Core.List.{reverse, reverse-append, Permᴰ}
use mathlib.Core.List.Permᴰ
use known.Prelude.{
  true, false, refl, inl, inr, List, [], ◌∷◌, ◌++◌, All, All-append, All-mono, Bool-cases,
}
use known.Prelude.Float.{FloatOps}
use known.Prelude.Perms.{All-Permᴰ}
use known.Query.Types.{QueryResult}
use known.Query.Sort.{sift, sort_from, sort_results_by_score}

module _ (fl : FloatOps) where
  sift-perm : (x : QueryResult) (before : List QueryResult) → Permᴰ (sift fl x before) (x ∷ before)
  unfolding sift
  sift-perm x [] = Permᴰ.refl (x ∷ [])
  sift-perm x (y ∷ before) = elim (Bool-cases (fl.lt y.score x.score)) [
    | inl e ↦ rw e (Permᴰ.trans (Permᴰ.cons refl (sift-perm x before)) (Permᴰ.swap refl refl))
    | inr e ↦ rw e (Permᴰ.refl (x ∷ y ∷ before))
  ]

  sort_from-perm :
      (before after : List QueryResult) → Permᴰ (sort_from fl before after) (before ++ after)
  unfolding sort_from
  sort_from-perm before [] =
      Permᴰ.trans (Permᴰ.reverse before) (Permᴰ.symm (Permᴰ.append-nil before))
  sort_from-perm before (x ∷ after) = Permᴰ.trans (sort_from-perm (sift fl x before) after) (
      Permᴰ.trans (Permᴰ.append_right after (sift-perm x before))
        (Permᴰ.symm (Permᴰ.middle x before after)))

  -- The sorted list is a rearrangement of the input: no result is lost, added or changed.
  pub sort_results_by_score-perm :
      (results : List QueryResult) → Permᴰ (sort_results_by_score fl results) results
  unfolding sort_results_by_score
  sort_results_by_score-perm results = sort_from-perm [] results

  pub All-sort {κ} :
      (P : QueryResult → Type κ) (results : List QueryResult)
      → All P results
      → All P (sort_results_by_score fl results)
  All-sort P results h = All-Permᴰ P (Permᴰ.symm (sort_results_by_score-perm results)) h

  -- No score of the list is above that of the first.
  abbrev pub Below : QueryResult → QueryResult → Type 0
  Below x y = fl.lt x.score y.score ≡ false

  abbrev pub IsDescending : List QueryResult → Type 0
  IsDescending [] = Unit
  IsDescending (x ∷ rest) = All (Below x) rest × IsDescending rest

  -- The same, read from the end of the list.
  abbrev IsRising : List QueryResult → Type 0
  IsRising [] = Unit
  IsRising (x ∷ rest) = All (λ y. Below y x) rest × IsRising rest

  abbrev pub IsNumber : QueryResult → Type 0
  IsNumber r = fl.is_nan r.score ≡ false

  asym : (x y : QueryResult) → fl.lt x.score y.score ≡ true → Below y x
  asym x y h = elim (Bool-cases (fl.lt y.score x.score)) [
    | inl k ↦ cc (fl.lt_trans x.score y.score x.score h k, fl.lt_irrefl x.score)
    | inr k ↦ k
  ]

  Below-trans : (z y x : QueryResult) → IsNumber y → Below z y → Below y x → Below z x
  Below-trans z y x n h k = elim (Bool-cases (fl.lt z.score x.score)) [
    | inl e ↦ elim (fl.lt_split z.score y.score x.score n e) [
      | inl l ↦ cc (h, l)
      | inr l ↦ cc (k, l)
    ]
    | inr e ↦ e
  ]

  sift-IsRising :
      (x : QueryResult) (before : List QueryResult)
      → All IsNumber before
      → IsRising before
      → IsRising (sift fl x before)
  unfolding sift
  sift-IsRising x [] n h = (tt, tt)
  sift-IsRising x (y ∷ before) n h = elim (Bool-cases (fl.lt y.score x.score)) [
    | inl e ↦ rw e (
      All-Permᴰ (λ z. Below z y) (Permᴰ.symm (sift-perm x before)) (asym y x e, h.0),
      sift-IsRising x before n.1 h.1,
    )
    | inr e ↦ rw e ((e, All-mono before (λ z hz. Below-trans z y x n.0 hz e) h.0), h)
  ]

  IsDescending-concat :
      (xs : List QueryResult) (x : QueryResult)
      → IsDescending xs
      → All (λ y. Below y x) xs
      → IsDescending (xs ++ x ∷ [])
  IsDescending-concat [] x h k = (tt, tt)
  IsDescending-concat (y ∷ xs) x h k =
      (All-append (Below y) xs (x ∷ []) h.0 (k.0, tt), IsDescending-concat xs x h.1 k.1)

  IsDescending-reverse : (xs : List QueryResult) → IsRising xs → IsDescending (reverse xs)
  IsDescending-reverse [] h = tt
  IsDescending-reverse (x ∷ xs) h = rw (reverse-append (x ∷ []) xs) (
      IsDescending-concat (reverse xs) x (IsDescending-reverse xs h.1)
        (All-Permᴰ (λ y. Below y x) (Permᴰ.symm (Permᴰ.reverse xs)) h.0))

  sort_from-IsDescending :
      (before after : List QueryResult)
      → All IsNumber before
      → All IsNumber after
      → IsRising before
      → IsDescending (sort_from fl before after)
  unfolding sort_from
  sort_from-IsDescending before [] n m h = IsDescending-reverse before h
  sort_from-IsDescending before (x ∷ after) n m h =
      sort_from-IsDescending (sift fl x before) after
        (All-Permᴰ IsNumber (Permᴰ.symm (sift-perm x before)) (m.0, n)) m.1
        (sift-IsRising x before n h)

  -- If no score is NaN, no result stands behind one with a lower score.
  pub sort_results_by_score-IsDescending :
      (results : List QueryResult)
      → All IsNumber results
      → IsDescending (sort_results_by_score fl results)
  unfolding sort_results_by_score
  sort_results_by_score-IsDescending results n = sort_from-IsDescending [] results tt n tt
