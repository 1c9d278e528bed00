-- ===== src/Sqlite/Search.antt =====
-- storage/sqlite/entry.go: List, SearchSimilar and SearchText. `now` is the time of the call; the
-- full-text index is the argument `fts`, which answers a query with ids and ranks.
pub mod Reads
pub mod Nearest
pub mod Similar
pub mod Examples
use known.Prelude.{
  ℕ, zero, suc, ◌-◌, Bool, true, false, not, ◌&&◌, ◌||◌, none, some, List, [], ◌∷◌, map, any, keep,
  member, length, take, drop, ltb, ◌==◌, if◌then◌else◌, sql, SqlError, errorf, fail_if, Result, ok,
  err, with_context, ◌>>=◌, ◌>>◌,
}
use known.Prelude.Order.{order_by}
use known.Prelude.Int.{ℤ, is_positive, pos_part}
use known.Prelude.Float.{Float32, Float64}
use known.Prelude.Text.{Text, text_eq, is_empty}
use known.Model.Types.{Id128, Time}
use known.Model.Entry.{Entry}
use known.Storage.{EntryFilter, SimilarityResult, SimilarityMetric, cosine, l2, inner_product}
use known.Sqlite.Tables.{EntryRow, EdgeRow, Db, Json, format_time, in_scope}
use known.Sqlite.Vec.{
  VectorOps, deserialize_float32, cosine_distance, l2_distance, inner_product_distance,
}
use known.Sqlite.Entry.{has_label, populate_entry}
use known.Sqlite.Labels.{load_labels_for_entries, load_labels_for_results}
use known.Sqlite.Fts.{sanitize_fts5_query}

-- `expires_at IS NULL OR expires_at > ?`
abbrev pub is_live : ℕ → EntryRow → Bool
is_live now r = elim r.expires_at [ none ↦ true | some t ↦ ltb now t ]

-- An argument that is empty does not filter.
abbrev pub filters : Text → Bool → Bool
filters arg test = is_empty arg || test

abbrev observed_before : ℕ → EntryRow → Bool
observed_before cutoff r = elim r.observed_at [ none ↦ false | some t ↦ ltb t cutoff ]

has_labels : Db → List Text → EntryRow → Bool
has_labels db [] r = true
has_labels db (label ∷ rest) r = any (has_label r.id label) db.labels && has_labels db rest r

-- The WHERE that List builds.
unfoldable pub selects : EntryFilter → Time → Db → EntryRow → Bool
unfolding in_scope has_labels
selects f now db r =
    filters f.scope (text_eq r.scope f.scope)
    && filters f.scope_prefix (in_scope f.scope_prefix r.scope)
    && filters f.source_type (text_eq r.source_type f.source_type)
    && filters f.provenance_level (text_eq r.confidence f.provenance_level)
    && (not (is_positive f.staler_than)
        || observed_before (format_time (now - pos_part f.staler_than)) r)
    && has_labels db f.labels r
    && (f.include_expired || is_live (format_time now) r)

-- LIMIT and OFFSET: SQLite has no OFFSET without a LIMIT before it.
unfoldable pub page : ℤ → ℤ → List EntryRow → Result (List EntryRow)
page limit offset rows =
    if is_positive limit
    then ok
        (take (pos_part limit) (if is_positive offset then drop (pos_part offset) rows else rows))
    else if is_positive offset
    then err (sql SqlError.syntax)
    else ok rows

abbrev pub newer : EntryRow → EntryRow → Bool
newer r t = ltb t.created_at r.created_at

unfoldable pub scan_entries : Json → List EntryRow → Result (List Entry)
unfolding populate_entry
scan_entries json [] = ok []
scan_entries json (r ∷ rows) = do
  e ← populate_entry json r
  es ← scan_entries json rows
  ok (e ∷ es)

unfoldable pub list : Json → Time → Db → EntryFilter → Result (List Entry)
unfolding selects page scan_entries keep order_by load_labels_for_entries
list json now db f = do
  rows ←
      with_context "list entries"
        (page f.limit f.offset (order_by newer (keep (selects f now db) db.entries)))
  es ← with_context "scan entry" (scan_entries json rows)
  ok (load_labels_for_entries db es)

-- FindConflicts of edge.go: the entries at the other end of a contradicts edge. A row of the join is
-- an entry, taken once, and the labels are not loaded.
abbrev pub contradicts : Text → Id128 → Id128 → EdgeRow → Bool
contradicts contradicts_type id other g =
    text_eq g.type contradicts_type
    && ((g.from_id == id) && (g.to_id == other) || (g.to_id == id) && (g.from_id == other))

unfoldable pub find_conflicts : Json → Text → Db → Id128 → Result (List Entry)
unfolding scan_entries keep order_by
find_conflicts json contradicts_type db id = with_context "scan conflict entry" (
    scan_entries json (
      order_by (λ r t. ltb r.created_at t.created_at)
        (keep
          (λ (r : EntryRow).
            any (contradicts contradicts_type id r.id) db.edges && not (r.id == id))
          db.entries)))

-- A candidate of the first pass, by its id.
abbrev pub Candidate : Type 0
Candidate = Id128 × Float64

distance_of : Id128 → List Candidate → Float64
distance_of id [] = 0
distance_of id ((k, d) ∷ cs) = if k == id then d else distance_of id cs

-- The second pass: the rows of the candidates, with their distances.
pub fetched : List Candidate → List Entry → List SimilarityResult
unfolding distance_of
fetched cs [] = []
fetched cs (e ∷ es) = record { entry = e; distance = distance_of e.id cs } ∷ fetched cs es

abbrev pub candidate_ids : List Candidate → List Id128
candidate_ids = map (λ (c : Candidate). c.0)

module _ (json : Json) (now : Time) where
  unfoldable pub fetch : Db → List Candidate → Result (List SimilarityResult)
  unfolding scan_entries keep member fetched
  fetch db cs = do
    es ← scan_entries json (keep (λ (r : EntryRow). member r.id (candidate_ids cs)) db.entries)
    ok (fetched cs es)

  -- `scope = ? OR scope LIKE ?`, where a scope is asked for, of rows that have not expired.
  abbrev pub is_candidate : Text → EntryRow → Bool
  is_candidate scope r = is_live (format_time now) r && filters scope (in_scope scope r.scope)

  module _ (v : VectorOps) where
    open v.ops use {lt, eq}

    abbrev pub dist_fn : SimilarityMetric → List Float32 → List Float32 → Float64
    dist_fn cosine = cosine_distance v
    dist_fn l2 = l2_distance v
    dist_fn inner_product = inner_product_distance v

    -- `embedding IS NOT NULL AND embedding_dim = ?`
    abbrev pub has_dim : ℕ → EntryRow → Bool
    has_dim n r = elim r.embedding [
      | none ↦ false
      | some b ↦ elim r.embedding_dim [ none ↦ false | some d ↦ d == n ]
    ]

    abbrev pub embedding_of : EntryRow → List Float32
    embedding_of r = elim r.embedding [ none ↦ [] | some b ↦ deserialize_float32 b ]

    -- The loop of the first pass.
    unfoldable pub rank_rows : SimilarityMetric → List Float32 → List EntryRow → List Candidate
    unfolding deserialize_float32 cosine_distance l2_distance inner_product_distance
    rank_rows metric query [] = []
    rank_rows metric query (r ∷ rows) =
        let others = rank_rows metric query rows in
        if length (embedding_of r) == length query
        then (r.id, dist_fn metric query (embedding_of r)) ∷ others
        else others

    abbrev pub nearer : Candidate → Candidate → Bool
    nearer (i, d) (j, e) = lt d e

    abbrev pub nearer_result : SimilarityResult → SimilarityResult → Bool
    nearer_result a b = lt a.distance b.distance

    unfoldable pub candidates : Db → List Float32 → Text → SimilarityMetric → ℕ → List Candidate
    unfolding rank_rows keep order_by in_scope
    candidates db query scope metric limit = take limit (
        order_by nearer (
          rank_rows metric query
            (keep (λ r. has_dim (length query) r && is_candidate scope r) db.entries)))

    abbrev pub or_ten : ℕ → ℕ
    or_ten zero = 10
    or_ten (suc n) = suc n

    abbrev is_nil_vector : List Float32 → Bool
    is_nil_vector [] = true
    is_nil_vector (x ∷ xs) = false

    unfoldable pub search_similar :
        Db → List Float32 → Text → SimilarityMetric → ℕ → Result (List SimilarityResult)
    unfolding candidates fetch load_labels_for_results order_by
    search_similar db query scope metric limit = do
      fail_if (is_nil_vector query) (errorf "query vector must not be empty")
      results ←
          with_context "scan result entry"
            (fetch db (candidates db query scope metric (or_ten limit)))
      ok (load_labels_for_results db (order_by nearer_result results))

    abbrev pub ranked : Candidate → Candidate → Bool
    ranked (i, d) (j, e) = lt d e || eq d e && ltb i j

    -- The order of the results: by rank, then by id.
    abbrev pub ranked_result : SimilarityResult → SimilarityResult → Bool
    ranked_result a b =
        if not (eq a.distance b.distance)
        then lt a.distance b.distance
        else ltb a.entry.id b.entry.id

    matching : Db → Text → List Candidate → List Candidate
    matching db scope [] = []
    matching db scope ((id, rank) ∷ cs) =
        let others = matching db scope cs in
        if any (λ (r : EntryRow). (r.id == id) && is_candidate scope r) db.entries
        then (id, rank) ∷ others
        else others

    module _ (fields : Text → List Text) (fts : Db → Text → Result (List Candidate)) where
      unfoldable pub search_text : Db → Text → Text → ℕ → Result (List SimilarityResult)
      unfolding matching fetch load_labels_for_results order_by sanitize_fts5_query in_scope
      search_text db query scope limit = do
        fail_if (is_empty query) (errorf "query text must not be empty")
        matched ← with_context "search text (scan)" (fts db (sanitize_fts5_query fields query))
        results ←
            with_context "scan text result"
              (fetch db (take (or_ten limit) (order_by ranked (matching db scope matched))))
        ok (load_labels_for_results db (order_by ranked_result results))
