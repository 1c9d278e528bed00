-- ===== src/Query/Enrich.antt =====
-- enrichConflicts of query/query.go and enrichSuperseded of query/hybrid.go.
pub mod Keeps
use known.Prelude.{
  ℕ, Bool, true, false, ◌||◌, not, List, [], ◌∷◌, map, if◌then◌else◌, Result, ok, err, ◌>>=◌,
}
use known.Prelude.Int.{pos}
use known.Model.Types.{Id128}
use known.Model.Edge.{Edge, edge_supersedes}
use known.Model.Entry.{Entry}
use known.Storage.{EdgeRepo, EdgeFilter}
use known.Query.Types.{QueryResult}

abbrev pub is_nil : List Id128 → Bool
is_nil [] = true
is_nil (x ∷ xs) = false

unfoldable pub set_conflicts : QueryResult → List Entry → QueryResult
set_conflicts r [] = r
set_conflicts r (c ∷ cs) = record r {
  has_conflict = true;
  conflicts = map (λ (x : Entry). x.id) (c ∷ cs);
}

unfoldable pub set_superseded : QueryResult → List Edge → QueryResult
set_superseded r [] = r
set_superseded r (x ∷ xs) = record r {
  is_superseded = true;
  superseded_by = map (λ (y : Edge). y.from_id) (x ∷ xs);
}

abbrev pub supersedes_filter : EdgeFilter
supersedes_filter = record { type = edge_supersedes; limit = pos 0 }

module _ {S : Type 0} (edges : EdgeRepo S) (db : S) where
  unfoldable pub enrich_conflict : QueryResult → Result QueryResult
  unfolding set_conflicts
  enrich_conflict r =
      if r.has_conflict || not (is_nil r.conflicts)
      then ok r
      else do cs ← edges.find_conflicts db r.entry.id; ok (set_conflicts r cs)

  unfoldable pub enrich_conflicts : List QueryResult → Result (List QueryResult)
  unfolding enrich_conflict
  enrich_conflicts [] = ok []
  enrich_conflicts (r ∷ rs) = do r' ← enrich_conflict r; rs' ← enrich_conflicts rs; ok (r' ∷ rs')

  unfoldable pub enrich_one_superseded : QueryResult → Result QueryResult
  unfolding set_superseded
  enrich_one_superseded r =
      if r.is_superseded || not (is_nil r.superseded_by)
      then ok r
      else do es ← edges.edges_to db r.entry.id supersedes_filter; ok (set_superseded r es)

  unfoldable pub enrich_superseded : List QueryResult → Result (List QueryResult)
  unfolding enrich_one_superseded
  enrich_superseded [] = ok []
  enrich_superseded (r ∷ rs) = do
    r' ← enrich_one_superseded r
    rs' ← enrich_superseded rs
    ok (r' ∷ rs')
