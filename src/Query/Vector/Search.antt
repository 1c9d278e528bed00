-- ===== src/Query/Vector/Search.antt =====
-- What the vector and the text search return.
use mathlib.Core.Path.{◌≡◌}
use known.Prelude.{
  ◌≤◌, refl, sym, inl, inr, List, [], ◌∷◌, arith, ap, ◌∙◌, All, length, length-map, Bool-cases, ok,
  Result-cases, with_context, with_context-eq-ok,
}
use known.Prelude.Float.{Float64, FloatOps}
use known.Prelude.Int.{or_default}
use known.Prelude.Text.{Text, is_empty}
use known.Model.Types.{Time}
use known.Model.Entry.{Entry}
use known.Model.Edge.{Edge}
use known.Storage.{SimilarityResult}
use known.Query.Types
use known.Query.Types.{QueryResult, ReachMethod, direct, VectorOptions, Engine}
use known.Query.Score.{distance_to_score, bm25_to_score}
use known.Query.Enrich.{enrich_conflicts, enrich_superseded, set_conflicts, set_superseded}
use known.Query.Enrich.Keeps.{
  All-enrich_conflicts, map-enrich_conflicts, All-enrich_superseded, map-enrich_superseded,
}
use known.Query.Vector.{fetch_limit, collect, rank, embed_query, search_vector}
use known.Query.Vector.Filters.{Passes, collect-Passes, rank-All, length-rank}
use known.Query.Text.{search_text}

module _ (fl : FloatOps) (to_lower : Text → Text) (now : Time) (opts : VectorOptions) where
  set_conflicts-Passes :
      (reach : ReachMethod) (base : Float64 → Float64) (r : QueryResult) (cs : List Entry)
      → Passes fl to_lower now opts reach base r
      → Passes fl to_lower now opts reach base (set_conflicts r cs)
  unfolding set_conflicts
  set_conflicts-Passes reach base r [] h = h
  set_conflicts-Passes reach base r (c ∷ cs) h = record {
    included = h.included;
    threshold = h.threshold;
    scored = h.scored;
    method = h.method;
  }

  set_superseded-Passes :
      (reach : ReachMethod) (base : Float64 → Float64) (r : QueryResult) (es : List Edge)
      → Passes fl to_lower now opts reach base r
      → Passes fl to_lower now opts reach base (set_superseded r es)
  unfolding set_superseded
  set_superseded-Passes reach base r [] h = h
  set_superseded-Passes reach base r (e ∷ es) h = record {
    included = h.included;
    threshold = h.threshold;
    scored = h.scored;
    method = h.method;
  }

  module _ {S : Type 0} (engine : Engine S) (db : S) where
    length-enrich_conflicts :
        (rs rs' : List QueryResult)
        → enrich_conflicts engine.edges db rs ≡ ok rs'
        → length rs' ≡ length rs
    length-enrich_conflicts rs rs' h =
        sym (length-map (λ (r : QueryResult). tt {0}) rs')
        ∙ ap (λ (x : List (Unit {0})). length x)
            (map-enrich_conflicts engine.edges db (λ r. tt) (λ r cs. refl) rs rs' h)
        ∙ length-map (λ (r : QueryResult). tt {0}) rs

    length-enrich_superseded :
        (rs rs' : List QueryResult)
        → enrich_superseded engine.edges db rs ≡ ok rs'
        → length rs' ≡ length rs
    length-enrich_superseded rs rs' h =
        sym (length-map (λ (r : QueryResult). tt {0}) rs')
        ∙ ap (λ (x : List (Unit {0})). length x)
            (map-enrich_superseded engine.edges db (λ r. tt) (λ r cs. refl) rs rs' h)
        ∙ length-map (λ (r : QueryResult). tt {0}) rs

    -- The bound and the filters, for a list that is ranked and enriched.
    abbrev pub IsAnswer : ReachMethod → (Float64 → Float64) → List QueryResult → Type 0
    IsAnswer reach base rs =
        All (Passes fl to_lower now opts reach base) rs × (length rs ≤ or_default opts.limit 10)

    enriched-IsAnswer :
        (reach : ReachMethod) (base : Float64 → Float64) (srs : List SimilarityResult)
        (rs : List QueryResult)
        → with_context "enrich conflicts" (
            enrich_conflicts engine.edges db
              (rank fl to_lower now opts (collect fl to_lower now opts reach base srs)))
          ≡ ok rs
        → IsAnswer reach base rs
    enriched-IsAnswer reach base srs rs h =
        let found = collect fl to_lower now opts reach base srs in
        let ranked = rank fl to_lower now opts found in
        let e = with_context-eq-ok "enrich conflicts" (enrich_conflicts engine.edges db ranked) h in
        (
          All-enrich_conflicts engine.edges db (Passes fl to_lower now opts reach base)
              (set_conflicts-Passes reach base) ranked rs e
              (rank-All fl to_lower now opts (Passes fl to_lower now opts reach base) found
                (collect-Passes fl to_lower now opts reach base srs)),
          omega
              (arith, length-enrich_conflicts ranked rs e, length-rank fl to_lower now opts found),
        )

    -- Every result of a vector search that succeeds is found directly, does not hold an excluded text, is
    -- not below the threshold, and has the score of its distance, blended with its freshness if recency
    -- is weighed. There are at most as many as the limit, 10 if it is not positive.
    pub search_vector-IsAnswer :
        (rs : List QueryResult)
        → search_vector fl to_lower now engine db opts ≡ ok rs
        → IsAnswer direct (λ d. distance_to_score fl d opts.metric) rs
    unfolding search_vector
    search_vector-IsAnswer rs h = elim (Bool-cases (is_empty opts.text)) [
      | inl x ↦ cc (rw (x, search_vector) at h)
      | inr x ↦ elim (Bool-cases (is_empty opts.scope)) [
        | inl y ↦ cc (rw (x, y, search_vector) at h)
        | inr y ↦ elim (Result-cases (embed_query fl to_lower now engine.embedder opts.text)) [
          | inr (e, z) ↦ cc (rw (x, y, z, search_vector) at h)
          | inl (vec, z) ↦
              elim (Result-cases (
                engine.entries.search_similar db vec opts.scope opts.metric
                  (fetch_limit (or_default opts.limit 10) opts.exclude_content))) [
                    | inr (e, w) ↦ cc (rw (x, y, z, w, search_vector) at h)
                    | inl (srs, w) ↦
                        enriched-IsAnswer direct (λ d. distance_to_score fl d opts.metric) srs rs
                          (rw (x, y, z, w, search_vector) at h)
                  ]
        ]
      ]
    ]

    -- Every result of a text search that succeeds is found by text, does not hold an excluded text, is
    -- not below the threshold, and has the score of its BM25 rank, blended with its freshness if recency
    -- is weighed. There are at most as many as the limit, 10 if it is not positive.
    pub search_text-IsAnswer :
        (rs : List QueryResult)
        → search_text fl to_lower now engine db opts ≡ ok rs
        → IsAnswer Types.text (bm25_to_score fl) rs
    unfolding search_text
    search_text-IsAnswer rs h = elim (Bool-cases (is_empty opts.text)) [
      | inl x ↦ cc (rw (x, search_text) at h)
      | inr x ↦ elim (Bool-cases (is_empty opts.scope)) [
        | inl y ↦ cc (rw (x, y, search_text) at h)
        | inr y ↦
            elim (Result-cases (
              engine.entries.search_text db opts.text opts.scope
                (fetch_limit (or_default opts.limit 10) opts.exclude_content))) [
                  | inr (e, w) ↦ cc (rw (x, y, w, search_text) at h)
                  | inl (srs, w) ↦
                      elim (Result-cases (
                        enrich_conflicts engine.edges db (
                          rank fl to_lower now opts
                            (collect fl to_lower now opts Types.text (bm25_to_score fl) srs)))) [
                              | inr (e, v) ↦ cc (rw (x, y, w, v, search_text) at h)
                              | inl (mid, v) ↦
                                  let answer =
                                    enriched-IsAnswer Types.text (bm25_to_score fl) srs mid
                                      (ap (with_context "enrich conflicts") v) in
                                  let s =
                                    with_context-eq-ok "enrich superseded"
                                      (enrich_superseded engine.edges db mid)
                                      (rw (x, y, w, v, search_text) at h) in
                                  (
                                    All-enrich_superseded engine.edges db
                                        (Passes fl to_lower now opts Types.text (bm25_to_score fl))
                                        (set_superseded-Passes Types.text (bm25_to_score fl)) mid rs
                                        s answer.0,
                                    omega (arith, length-enrich_superseded mid rs s, answer.1),
                                  )
                            ]
                ]
      ]
    ]
