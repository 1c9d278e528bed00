-- ===== src/Cmd/ResolveEntry/Picks.antt =====
-- Which entries cmd/resolve.go resolves an argument to.
use mathlib.Core.Path.{◌≡◌}
use mathlib.Core.List.{Memᴰ}
use known.Prelude.{
  All, none, Error, err, ℕ, zero, suc, true, false, refl, sym, ◌∙◌, ap, subst, ◌⊎◌, inl, inr, some,
  List, [], ◌∷◌, map, keep, take, ok, ok-injective, Bool-cases, Option-cases, Result-cases,
}
use known.Prelude.Float.{Float64, FloatOps}
use known.Prelude.Rows.{mem-take, mem-map}
use known.Prelude.Text.{Text, is_empty}
use known.Model.Types.{Id128, Time}
use known.Model.Entry.{Entry}
use known.Query.Types.{QueryResult}
use known.Cmd.ResolveEntry.{
  App, TextOps, exact_match, matches, dominates, at_least, second_score, list_filter, resolve_scope,
  resolve_entry, from_id, by_content, by_text, semantic_pick, text_pick, search_by_text, text_match,
  search_semantic_scored,
}

module _ (fl : FloatOps) (ops : TextOps) where
  matches-keep :
      (n : ℕ) (query : Text) (es : List Entry)
      → matches fl ops n query es ≡ take n (keep (text_match fl ops query) es)
  unfolding matches keep
  matches-keep zero query es = refl
  matches-keep (suc n) query [] = refl
  matches-keep (suc n) query (e ∷ es) = elim (Bool-cases (text_match fl ops query e)) [
    | inl h ↦ rw (h, matches-keep n query es, matches) refl
    | inr h ↦ rw (h, matches-keep (suc n) query es, matches) refl
  ]

  exact_match-mem :
      (arg : Text) (es : List Entry) (e : Entry)
      → exact_match ops.equal_fold arg es ≡ some e
      → Memᴰ e es × (ops.equal_fold e.content arg ≡ true)
  unfolding exact_match
  exact_match-mem arg [] e h = absurd (cc h)
  exact_match-mem arg (x ∷ es) e h = elim (Bool-cases (ops.equal_fold x.content arg)) [
    | inl k ↦
        let same : x ≡ e = cc (rw (k, exact_match) at h) in
        (Memᴰ.head (sym same), subst (λ (z : Entry). ops.equal_fold z.content arg ≡ true) same k)
    | inr k ↦ let (m, q) = exact_match-mem arg es e (rw (k, exact_match) at h) in (Memᴰ.tail m, q)
  ]

  -- Above or equal, as of two numbers; not so of a NaN.
  abbrev pub AtLeast : Float64 → Float64 → Type 0
  AtLeast x y = (fl.lt y x ≡ true) ⊎ (fl.eq x y ≡ true)

  -- A score of at least 0.8, and at least 0.1 more than the score of the next result, or 0 if there is
  -- none.
  abbrev pub IsAhead : Float64 → List QueryResult → Type 0
  IsAhead score [] =
      AtLeast score (fl.decimal 80 100) × AtLeast (fl.sub score (fl.of_int 0)) (fl.decimal 10 100)
  IsAhead score (r ∷ rs) =
      AtLeast score (fl.decimal 80 100) × AtLeast (fl.sub score r.score) (fl.decimal 10 100)

  at_least-AtLeast : (x y : Float64) → at_least fl ops x y ≡ true → AtLeast x y
  unfolding at_least
  at_least-AtLeast x y h = elim (Bool-cases (fl.lt y x)) [ inl a ↦ inl a | inr a ↦ inr (rw a at h) ]

  dominates-IsAhead :
      (r : QueryResult) (others : List QueryResult)
      → dominates fl ops r others ≡ true
      → IsAhead r.score others
  unfolding dominates
  dominates-IsAhead r others h = elim (Bool-cases (at_least fl ops r.score (fl.decimal 80 100))) [
    | inr a ↦ absurd (cc (rw (a, dominates) at h))
    | inl a ↦ ahead others (at_least-AtLeast r.score (fl.decimal 80 100) a) (rw (a, dominates) at h)
  ]
    where
      ahead :
          (rs : List QueryResult)
          → AtLeast r.score (fl.decimal 80 100)
          → at_least fl ops (fl.sub r.score (second_score (fl.of_int 0) rs)) (fl.decimal 10 100)
            ≡ true
          → IsAhead r.score rs
      ahead [] a k = (a, at_least-AtLeast _ _ k)
      ahead (s ∷ rs) a k = (a, at_least-AtLeast _ _ k)

  -- No result is the argument up to case.
  abbrev pub Differ : Text → List Entry → Type 0
  Differ arg = All (λ e. ops.equal_fold e.content arg ≡ false)

  exact_match-Differ :
      (arg : Text) (es : List Entry) → exact_match ops.equal_fold arg es ≡ none → Differ arg es
  unfolding exact_match
  exact_match-Differ arg [] h = tt
  exact_match-Differ arg (e ∷ es) h = elim (Bool-cases (ops.equal_fold e.content arg)) [
    | inl k ↦ absurd (cc (rw (k, exact_match) at h))
    | inr k ↦ (k, exact_match-Differ arg es (rw (k, exact_match) at h))
  ]

  -- A result of the search by meaning that is the argument up to case, or, if none is, the first, where
  -- it is far ahead.
  abbrev pub IsBest : Text → List QueryResult → Id128 → Type 0
  IsBest arg rs id =
      ((r : QueryResult) × Memᴰ r rs
        × (r.entry.id ≡ id)
        × (ops.equal_fold r.entry.content arg ≡ true))
      ⊎ ((r : QueryResult) × (others : List QueryResult) × (rs ≡ r ∷ others)
          × (r.entry.id ≡ id)
          × Differ arg (map (λ (r : QueryResult). r.entry) rs)
          × IsAhead r.score others)

  -- Of the listed entries that hold the argument, one that is the argument up to case, or the only
  -- one.
  abbrev pub IsOnly : Text → List Entry → Id128 → Type 0
  IsOnly arg es id =
      (e : Entry) × Memᴰ e (keep (text_match fl ops (ops.to_lower arg)) es)
      × (e.id ≡ id)
      × ((ops.equal_fold e.content arg ≡ true)
          ⊎ (keep (text_match fl ops (ops.to_lower arg)) es ≡ e ∷ []))

  semantic_pick-IsBest :
      (arg : Text) (top : QueryResult) (others : List QueryResult) (id : Id128)
      → semantic_pick fl ops arg top others
          (exact_match ops.equal_fold arg (map (λ (r : QueryResult). r.entry) (top ∷ others)))
        ≡ ok id
      → IsBest arg (top ∷ others) id
  unfolding semantic_pick
  semantic_pick-IsBest arg top others id h =
      let es = map (λ (r : QueryResult). r.entry) (top ∷ others) in
      elim (Option-cases (exact_match ops.equal_fold arg es)) [
        | inr (e, x) ↦
            let same : e.id ≡ id = ok-injective (rw (x, semantic_pick) at h) in
            let (m, q) = exact_match-mem arg es e x in
            let (r, n, f) = mem-map (λ (r : QueryResult). r.entry) (top ∷ others) e m in
            inl (
              r,
              n,
              ap (λ (z : Entry). z.id) f ∙ same,
              subst (λ (z : Entry). ops.equal_fold z.content arg ≡ true) (sym f) q,
            )
        | inl x ↦ elim (Bool-cases (dominates fl ops top others)) [
          | inl d ↦ inr (
            top,
            others,
            refl,
            ok-injective (rw (x, semantic_pick, d) at h),
            exact_match-Differ arg es x,
            dominates-IsAhead top others d,
          )
          | inr d ↦ absurd (cc (rw (x, semantic_pick, d) at h))
        ]
      ]

  -- What text_pick takes of the first ten of a list.
  text_pick-taken :
      (arg : Text) (es : List Entry) (id : Id128)
      → text_pick fl ops arg (take 10 es) ≡ ok id
      → (e : Entry) × Memᴰ e es
        × (e.id ≡ id)
        × ((ops.equal_fold e.content arg ≡ true) ⊎ (es ≡ e ∷ []))
  unfolding text_pick
  text_pick-taken arg [] id h = absurd (cc h)
  text_pick-taken arg (e ∷ []) id h = (e, Memᴰ.head refl, ok-injective h, inr refl)
  text_pick-taken arg (e ∷ f ∷ es) id h =
      elim (Option-cases (exact_match ops.equal_fold arg (take 10 (e ∷ f ∷ es)))) [
        | inl x ↦ absurd (cc (rw (x, text_pick) at h))
        | inr (g, x) ↦
            let (m, q) = exact_match-mem arg (take 10 (e ∷ f ∷ es)) g x in
            (g, mem-take 10 (e ∷ f ∷ es) g m, ok-injective (rw (x, text_pick) at h), inl q)
      ]

  text_pick-IsOnly :
      (arg : Text) (es : List Entry) (id : Id128)
      → text_pick fl ops arg (take 10 (keep (text_match fl ops (ops.to_lower arg)) es)) ≡ ok id
      → IsOnly arg es id
  unfolding text_pick
  text_pick-IsOnly arg es id =
      text_pick-taken arg (keep (text_match fl ops (ops.to_lower arg)) es) id

  module _ (now : Time) {S : Type 0} (app : App S) (db : S) where
    -- The search by meaning fails or finds nothing.
    abbrev pub FindsNothing : Text → Type 0
    FindsNothing arg =
        (search_semantic_scored fl ops now app db arg ≡ ok [])
        ⊎ ((e : Error) × (search_semantic_scored fl ops now app db arg ≡ err e))

    -- The id that the argument is, the best of the entries found by meaning, or, where there are none,
    -- the only one of those listed for the scope that hold it.
    abbrev pub IsPick : Text → Id128 → Type 0
    IsPick arg id =
        (ops.parse_id arg ≡ ok id)
        ⊎ ((rs : List QueryResult) × (search_semantic_scored fl ops now app db arg ≡ ok rs)
            × IsBest arg rs id)
        ⊎ (FindsNothing arg
            × ((es : List Entry) × (app.engine.entries.list db
                    (list_filter (resolve_scope app.default_scope))
                  ≡ ok es)
                × IsOnly arg es id))

    by_text-IsOnly :
        (arg : Text) (id : Id128)
        → by_text fl ops now app db arg ≡ ok id
        → (es : List Entry) × (app.engine.entries.list db
              (list_filter (resolve_scope app.default_scope))
            ≡ ok es)
          × IsOnly arg es id
    unfolding by_text search_by_text
    by_text-IsOnly arg id h =
        elim (Result-cases
          (app.engine.entries.list db (list_filter (resolve_scope app.default_scope)))) [
            | inr (e, x) ↦ absurd (cc (rw (x, by_text, search_by_text) at h))
            | inl (es, x) ↦ (
              es,
              x,
              text_pick-IsOnly arg es id (
                  rw⁻¹ (matches-keep 10 (ops.to_lower arg) es)
                    (rw (x, by_text, search_by_text) at h)),
            )
          ]

    -- An argument that resolves to an id is not blank, and is that id; or the id is that of an entry
    -- found by meaning that is the argument up to case, or, if none is, of the first, whose score is
    -- at least 0.8 and at least 0.1 above the next; or, if nothing is found by meaning, of an entry
    -- listed for the scope that holds the argument, and is it up to case or is the only one to.
    pub resolve_entry-IsPick :
        (arg : Text) (id : Id128)
        → resolve_entry fl ops now app db arg ≡ ok id
        → (is_empty (ops.trim_space arg) ≡ false) × IsPick arg id
    unfolding resolve_entry from_id by_content
    resolve_entry-IsPick arg id h = elim (Bool-cases (is_empty (ops.trim_space arg))) [
      | inl b ↦ absurd (cc (rw b at h))
      | inr b ↦ (
        b,
        elim (Result-cases (ops.parse_id arg)) [
          | inl (i, p) ↦ inl (p ∙ ap ok (ok-injective (rw (b, p) at h)))
          | inr (x, p) ↦ inr (elim (Result-cases (search_semantic_scored fl ops now app db arg)) [
            | inr (y, s) ↦ inr (inr (y, s), by_text-IsOnly arg id (rw (b, p, s) at h))
            | inl ([], s) ↦ inr (inl s, by_text-IsOnly arg id (rw (b, p, s) at h))
            | inl (r ∷ rs, s) ↦
                inl (r ∷ rs, s, semantic_pick-IsBest arg r rs id (rw (b, p, s) at h))
          ])
        ],
      )
    ]
