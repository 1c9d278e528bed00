-- ===== src/Sqlite/Repos/Traversal.antt =====
-- Traverse of query/traversal.go on the SQLite store.
use mathlib.Core.Path.{◌≡◌}
use mathlib.Core.List.{Memᴰ}
use known.Prelude.{
  ◌+◌, ◌≤◌, Bool, true, false, refl, ◌⊎◌, inl, inr, Option, List, [], ◌∷◌, map, All, arith, length,
  length-map, Bool-cases, Result, ok,
}
use known.Prelude.Sets.{IsDistinct}
use known.Prelude.Text.{Text, codes}
use known.Model.Types.{Id128, Time, is_zero}
use known.Model.Edge.{Edge}
use known.Sqlite.Tables.{EntryRow, Db, Json}
use known.Sqlite.Vec.{VectorOps}
use known.Sqlite.Edge.{has_entry}
use known.Sqlite.Edge.Reads.{edges_from_total, edges_to_total}
use known.Sqlite.Entry.Reads.{IsDecodable, get-id, get_total, get-of_entry}
use known.Sqlite.Search.{Candidate}
use known.Sqlite.Search.Reads.{find_conflicts_total}
use known.Sqlite.Tx.{Driver}
use known.Sqlite.Repos.{entry_repo, edge_repo}
use known.Query.Types.{QueryResult, GraphOptions, Engine, Embedder, hit, traversal}
use known.Query.Bfs.{returned}
use known.Query.Readable.{IsReadable}
use known.Query.Graph.{traverse, start_results}
use known.Query.Graph.Walks.{Walk, IsReached, max}
use known.Query.Graph.Sound.{traverse-IsReached}
use known.Query.Graph.Returns.{traverse_returns}
use known.Query.Graph.Distinct.{traverse-IsDistinct, ids_of}
use known.Query.Graph.Finds.{traverse_finds}

module _ (v : VectorOps) (json : Json) (now : Time) (driver : Driver) (hash : Text → Text)
    (fields : Text → List Text) (fts : Db → Text → Result (List Candidate)) (in_tx : Bool)
    (embedder : Option Embedder) where
  abbrev pub engine : Engine Db
  engine = record {
    entries = entry_repo v json now driver hash fields fts in_tx;
    edges = edge_repo v json now;
    embedder = embedder;
  }

  engine-IsReadable :
      (db : Db)
      → IsDecodable json db
      → IsReadable engine db (map (λ (r : EntryRow). r.id) db.entries)
  engine-IsReadable db d = record {
    from = λ id f. edges_from_total v.ops json db id f d;
    to = λ id f. edges_to_total v.ops json db id f d;
    conflicts = λ id. find_conflicts_total json (codes "contradicts") db id d;
    entries = λ id. get_total json db id d;
  }

  start_results_total :
      (db : Db) (opts : GraphOptions)
      → IsDecodable json db
      → has_entry opts.start_id db.entries ≡ true
      → (first : List QueryResult) × (start_results engine db opts ≡ ok first)
  unfolding start_results
  start_results_total db opts d h = elim (Bool-cases opts.include_start) [
    | inr e ↦ ([], rw e refl)
    | inl e ↦
        let (entry, g) = get-of_entry json db opts.start_id d h in
        (hit entry traversal 0 ∷ [], rw (e, g) refl)
  ]

  -- On the tables of a SQLite store whose metadata decodes, a traversal from the id of an entry,
  -- which is not zero, returns within two more rounds than there are entries. Its results are
  -- distinct entries at the ends of walks along stored edges; and the end of every walk within the
  -- depth is the start, or the entry of a result whose depth is at most the length of the walk.
  pub traverse_tables :
      (db : Db) (opts : GraphOptions) (p : List Edge) (n : Id128)
      → IsDecodable json db
      → is_zero opts.start_id ≡ false
      → has_entry opts.start_id db.entries ≡ true
      → Walk engine db opts p n
      → length p ≤ max engine db opts
      → (rs : List QueryResult) × (traverse engine db opts (length db.entries + 2) ≡ returned rs)
        × IsDistinct (ids_of rs)
        × All (IsReached engine db opts) rs
        × ((n ≡ opts.start_id)
            ⊎ ((r : QueryResult) × Memᴰ r rs × (r.entry.id ≡ n) × (r.depth ≤ length p)))
  traverse_tables db opts p n d z h w l =
      let fuel = length db.entries + 2 in
      let (rs, run) =
        traverse_returns engine db (map (λ (r : EntryRow). r.id) db.entries)
          (engine-IsReadable db d) opts fuel z (start_results_total db opts d h)
          (omega (arith, length-map (λ (r : EntryRow). r.id) db.entries)) in
      (
        rs,
        run,
        traverse-IsDistinct engine db (get-id json db) opts fuel rs run,
        traverse-IsReached engine db opts fuel rs run,
        traverse_finds engine db (get-id json db) opts fuel rs p n run w l,
      )
