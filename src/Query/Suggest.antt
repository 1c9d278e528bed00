-- ===== src/Query/Suggest.antt =====
-- query/suggest.go: link suggestions for an entry.
pub mod Filters
pub mod Examples
use known.Prelude.{
  ℕ, zero, suc, ◌+◌, Bool, true, false, not, ◌||◌, List, [], ◌∷◌, ◌++◌, map, ltb, ◌==◌, length,
  take, member, if◌then◌else◌, Result, ok, err, ◌>>=◌,
}
use known.Prelude.Float.{Float64, FloatOps}
use known.Prelude.Int.{ℤ, or_default}
use known.Prelude.Text.{Text, text_eq, is_empty}
use known.Model.Types.{Id128}
use known.Model.Edge.{Edge, EdgeType, edge_related_to}
use known.Model.Entry.{Entry, has_embedding}
use known.Storage.{SimilarityResult, cosine}
use known.Query.Types.{Engine, no_filter}
use known.Query.Score.{distance_to_score, bm25_to_score}

pub record LinkSuggestion : Type 0 where
  pub entry : Entry
  pub score : Float64
  pub edge_type : EdgeType

-- sort.SliceStable, as an insertion sort: among equals the order stays.
insert_stable :
    (LinkSuggestion → LinkSuggestion → Bool)
    → LinkSuggestion
    → List LinkSuggestion
    → List LinkSuggestion
insert_stable less x [] = x ∷ []
insert_stable less x (y ∷ ys) = if less y x then y ∷ insert_stable less x ys else x ∷ y ∷ ys

unfoldable pub slice_stable :
    (LinkSuggestion → LinkSuggestion → Bool) → List LinkSuggestion → List LinkSuggestion
unfolding insert_stable
slice_stable less [] = []
slice_stable less (x ∷ xs) = insert_stable less x (slice_stable less xs)

module _ (fl : FloatOps) where
  -- Score descending, then the scope of the source first, then the id.
  unfoldable pub less : Entry → LinkSuggestion → LinkSuggestion → Bool
  less source a b =
      let a_same = text_eq a.entry.scope source.scope in
      let b_same = text_eq b.entry.scope source.scope in
      if not (fl.eq a.score b.score)
      then fl.lt b.score a.score
      else if a_same
      then (if b_same then ltb a.entry.id b.entry.id else true)
      else if b_same
      then false
      else ltb a.entry.id b.entry.id

  suggestion_score : Entry → Float64 → Float64
  suggestion_score source distance =
      if has_embedding source
      then distance_to_score fl distance cosine
      else bm25_to_score fl distance

  -- The loop over the candidates, without the entry itself and those linked to it.
  unfoldable pub candidates : Entry → List Id128 → List SimilarityResult → List LinkSuggestion
  unfolding suggestion_score
  candidates source linked [] = []
  candidates source linked (sr ∷ rest) =
      let others = candidates source linked rest in
      if (sr.entry.id == source.id) || member sr.entry.id linked
      then others
      else record {
        entry = sr.entry;
        score = suggestion_score source sr.distance;
        edge_type = edge_related_to;
      }
        ∷ others

  unfoldable pub top : ℕ → List LinkSuggestion → List LinkSuggestion
  top k xs = if ltb k (length xs) then take k xs else xs

  module _ {S : Type 0} (engine : Engine S) (db : S) where
    -- The ids linked to or from an entry.
    unfoldable pub linked_ids : Id128 → Result (List Id128)
    linked_ids entry_id = do
      out ← engine.edges.edges_from db entry_id no_filter
      in' ← engine.edges.edges_to db entry_id no_filter
      ok (map (λ (x : Edge). x.to_id) out ++ map (λ (x : Edge). x.from_id) in')

    similar : Entry → ℕ → Result (List SimilarityResult)
    similar source limit =
        if has_embedding source
        then engine.entries.search_similar db source.embedding [] cosine limit
        else if is_empty source.content
        then ok []
        else engine.entries.search_text db source.content [] limit

    -- The fetch limit counts distinct linked ids, `len(linked)` of the map.
    distinct : List Id128 → List Id128
    distinct [] = []
    distinct (x ∷ xs) = let rest = distinct xs in if member x rest then rest else x ∷ rest

    unfoldable pub suggest_links : Entry → ℤ → Result (List LinkSuggestion)
    unfolding linked_ids similar distinct
    suggest_links source k = do
      linked ← linked_ids source.id
      let n = or_default k 3
      sim_results ← similar source (n + 1 + length (distinct linked))
      ok (top n (slice_stable (less source) (candidates source linked sim_results)))
