-- ===== src/Query/Suggest/Filters.antt =====
-- What SuggestLinks may propose.
use mathlib.Core.Path.{◌≡◌}
use mathlib.Core.List.{Permᴰ, append-nil}
use mathlib.Core.List.Permᴰ
use known.Prelude.{
  ℕ, ◌+◌, ◌≤◌, Bool, false, ◌≢◌, refl, sym, subst, inl, inr, List, [], ◌∷◌, ◌++◌, map, arith, All,
  All-take, length, length-take, ltb, member, ◌==◌, ==_iff, Bool-cases, ok, ok-injective,
  Result-cases,
}
use known.Prelude.Float.{FloatOps}
use known.Prelude.Int.{ℤ, or_default}
use known.Prelude.Perms.{All-Permᴰ}
use known.Model.Types.{Id128}
use known.Model.Edge.{Edge, edge_related_to}
use known.Model.Entry.{Entry}
use known.Storage.{SimilarityResult}
use known.Query.Types.{Engine, no_filter}
use known.Query.Suggest.{
  LinkSuggestion, insert_stable, slice_stable, less, candidates, top, linked_ids, similar, distinct,
  suggest_links,
}

insert_stable-perm :
    (lt : LinkSuggestion → LinkSuggestion → Bool) (x : LinkSuggestion) (ys : List LinkSuggestion)
    → Permᴰ (insert_stable lt x ys) (x ∷ ys)
unfolding insert_stable
insert_stable-perm lt x [] = Permᴰ.refl (x ∷ [])
insert_stable-perm lt x (y ∷ ys) = elim (Bool-cases (lt y x)) [
  | inl e ↦ rw e (Permᴰ.trans (Permᴰ.cons refl (insert_stable-perm lt x ys)) (Permᴰ.swap refl refl))
  | inr e ↦ rw e (Permᴰ.refl (x ∷ y ∷ ys))
]

pub slice_stable-perm :
    (lt : LinkSuggestion → LinkSuggestion → Bool) (xs : List LinkSuggestion)
    → Permᴰ (slice_stable lt xs) xs
unfolding slice_stable
slice_stable-perm lt [] = Permᴰ.nil
slice_stable-perm lt (x ∷ xs) =
    Permᴰ.trans (insert_stable-perm lt x (slice_stable lt xs))
      (Permᴰ.cons refl (slice_stable-perm lt xs))

module _ (fl : FloatOps) (source : Entry) where
  -- A suggestion is of another entry, not yet linked, and of the type related-to.
  record IsNew (linked : List Id128) (s : LinkSuggestion) : Type 0 where
    other : s.entry.id ≢ source.id
    unlinked : member s.entry.id linked ≡ false
    type : s.edge_type ≡ edge_related_to

  candidates-IsNew :
      (linked : List Id128) (srs : List SimilarityResult)
      → All (IsNew linked) (candidates fl source linked srs)
  unfolding candidates
  candidates-IsNew linked [] = tt
  candidates-IsNew linked (sr ∷ rest) =
      let others = candidates-IsNew linked rest in
      elim (Bool-cases (sr.entry.id == source.id)) [
        | inl self ↦ rw self others
        | inr other ↦ elim (Bool-cases (member sr.entry.id linked)) [
          | inl m ↦ rw (other, m) others
          | inr m ↦
              rw (other, m)
                (
                  record {
                    other = λ e. ground (arith, ==_iff sr.entry.id source.id);
                    unlinked = m;
                    type = refl;
                  },
                  others,
                )
        ]
      ]

  top-All :
      (P : LinkSuggestion → Type 0) (k : ℕ) (xs : List LinkSuggestion)
      → All P xs
      → All P (top fl k xs)
  unfolding top
  top-All P k xs h = elim (Bool-cases (ltb k (length xs))) [
    | inl e ↦ rw e (All-take P k xs h)
    | inr e ↦ rw e h
  ]

  length-top : (k : ℕ) (xs : List LinkSuggestion) → length (top fl k xs) ≤ k
  unfolding top
  length-top k xs = elim (Bool-cases (ltb k (length xs))) [
    | inl e ↦ rw e (omega (arith, length-take k xs))
    | inr e ↦ rw e (ground arith)
  ]

  -- What is not among the ids of the ends is at the end of no edge.
  unlinked-All :
      (f : Edge → Id128) (id : Id128) (es : List Edge) (ids : List Id128)
      → member id (map f es ++ ids) ≡ false
      → All (λ e. f e ≢ id) es × (member id ids ≡ false)
  unfolding member
  unlinked-All f id [] ids h = (tt, h)
  unlinked-All f id (e ∷ es) ids h = elim (Bool-cases (f e == id)) [
    | inl same ↦ absurd (cc (rw (same, member) at h))
    | inr other ↦
        let (k, l) = unlinked-All f id es ids (rw (other, member) at h) in
        ((λ q. ground (arith, ==_iff (f e) id), k), l)
  ]

  -- A suggestion is of another entry, at no end of the edges from and to the source, and of the type
  -- related-to.
  pub record IsSuggestion (out in' : List Edge) (s : LinkSuggestion) : Type 0 where
    pub other : s.entry.id ≢ source.id
    pub not_to : All (λ e. e.to_id ≢ s.entry.id) out
    pub not_from : All (λ e. e.from_id ≢ s.entry.id) in'
    pub type : s.edge_type ≡ edge_related_to

  IsNew-IsSuggestion :
      (out in' : List Edge) (ss : List LinkSuggestion)
      → All (IsNew (map (λ (x : Edge). x.to_id) out ++ map (λ (x : Edge). x.from_id) in')) ss
      → All (IsSuggestion out in') ss
  IsNew-IsSuggestion out in' [] h = tt
  IsNew-IsSuggestion out in' (s ∷ ss) (n, h) =
      let (to, rest) =
        unlinked-All (λ (x : Edge). x.to_id) s.entry.id out (map (λ (x : Edge). x.from_id) in')
          n.unlinked in
      (
        record {
          other = n.other;
          not_to = to;
          not_from =
              (unlinked-All (λ (x : Edge). x.from_id) s.entry.id in' []
                (subst (λ ids. member s.entry.id ids ≡ false) (sym (append-nil _)) rest)).0;
          type = n.type;
        },
        IsNew-IsSuggestion out in' ss h,
      )

  module _ {S : Type 0} (engine : Engine S) (db : S) where
    -- The suggestions against the program's list of linked ids.
    suggest_links-IsNew :
        (k : ℤ) (out : List LinkSuggestion)
        → suggest_links fl engine db source k ≡ ok out
        → (linked : List Id128) × (linked_ids fl engine db source.id ≡ ok linked)
          × All (IsNew linked) out
          × (length out ≤ or_default k 3)
    unfolding suggest_links
    suggest_links-IsNew k out h = elim (Result-cases (linked_ids fl engine db source.id)) [
      | inr (e, l) ↦ cc (rw l at h)
      | inl (linked, l) ↦
          elim (Result-cases (
            similar fl engine db source
              (or_default k 3 + 1 + length (distinct fl engine db linked)))) [
                | inr (e, m) ↦ cc (rw (l, m) at h)
                | inl (srs, m) ↦
                    let found = candidates fl source linked srs in
                    let sorted = slice_stable (less fl source) found in
                    subst
                      (λ (x : List LinkSuggestion).
                        (ids : List Id128) × (linked_ids fl engine db source.id ≡ ok ids)
                        × All (IsNew ids) x
                        × (length x ≤ or_default k 3))
                      (ok-injective (rw (l, m) at h))
                      (
                        linked,
                        l,
                        top-All (IsNew linked) (or_default k 3) sorted (
                            All-Permᴰ (IsNew linked)
                              (Permᴰ.symm (slice_stable-perm (less fl source) found))
                              (candidates-IsNew linked srs)),
                        length-top (or_default k 3) sorted,
                      )
              ]
    ]

    -- Suggestions that are returned propose related-to edges to other entries that no edge from the
    -- source leads to and no edge to the source leads from, and are at most k, or 3 if k is not
    -- positive.
    pub suggest_links_lem :
        (k : ℤ) (suggestions : List LinkSuggestion)
        → suggest_links fl engine db source k ≡ ok suggestions
        → (out : List Edge) × (in' : List Edge) × (engine.edges.edges_from db source.id no_filter
            ≡ ok out)
          × (engine.edges.edges_to db source.id no_filter ≡ ok in')
          × All (IsSuggestion out in') suggestions
          × (length suggestions ≤ or_default k 3)
    unfolding linked_ids
    suggest_links_lem k suggestions h =
        let (linked, l, all, n) = suggest_links-IsNew k suggestions h in
        elim (Result-cases (engine.edges.edges_from db source.id no_filter)) [
          | inr (x, a) ↦ absurd (cc (rw a at l))
          | inl (out, a) ↦ elim (Result-cases (engine.edges.edges_to db source.id no_filter)) [
            | inr (x, b) ↦ absurd (cc (rw (a, b) at l))
            | inl (in', b) ↦ (
              out,
              in',
              a,
              b,
              IsNew-IsSuggestion out in' suggestions (
                  subst (λ ids. All (IsNew ids) suggestions) (sym (ok-injective (rw (a, b) at l)))
                    all),
              n,
            )
          ]
        ]
