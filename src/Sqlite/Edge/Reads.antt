-- ===== src/Sqlite/Edge/Reads.antt =====
-- EdgesFrom and EdgesTo of storage/sqlite/edge.go, where the metadata of the edges decodes.
use mathlib.Core.Path.{◌≡◌}
use known.Prelude.{◌&&◌, refl, List, [], ◌∷◌, All, All-take, ◌==◌, Bool-cases, inl, inr, ok}
use known.Prelude.Int.{ℤ, is_positive, pos_part}
use known.Prelude.Float.{FloatOps}
use known.Prelude.Order.{All-order_by}
use known.Prelude.Perms.{All-of_mem}
use known.Prelude.Rows.{All-keep}
use known.Model.Types.{Id128}
use known.Model.Edge.{Edge}
use known.Storage.{EdgeFilter}
use known.Sqlite.Tables.{EdgeRow, Db, Json, parse_time}
use known.Sqlite.Edge.{
  populate_edge, scan_edges, limited, of_type, older, query_edges, edges_from, edges_to,
}
use known.Sqlite.Entry.Reads.{IsReadableColumn, IsDecodable}

module _ (fl : FloatOps) (json : Json) where
  abbrev IsReadableEdge : EdgeRow → Type 0
  IsReadableEdge g = IsReadableColumn json g.meta

  scan_edges_total :
      (rows : List EdgeRow)
      → All IsReadableEdge rows
      → (es : List Edge) × (scan_edges fl json rows ≡ ok es)
  unfolding scan_edges populate_edge
  scan_edges_total [] h = ([], refl)
  scan_edges_total (g ∷ rows) ((m, p), h) =
      let (es, q) = scan_edges_total rows h in
      (
        record {
          id = g.id;
          from_id = g.from_id;
          to_id = g.to_id;
          type = g.type;
          weight = g.weight;
          meta = m;
          created_at = parse_time g.created_at;
        }
            ∷ es,
        rw (p, q, scan_edges) refl,
      )

  All-limited :
      (n : ℤ) (rows : List EdgeRow)
      → All IsReadableEdge rows
      → All IsReadableEdge (limited fl json n rows)
  All-limited n rows h = elim (Bool-cases (is_positive n)) [
    | inl e ↦ rw e (All-take IsReadableEdge (pos_part n) rows h)
    | inr e ↦ rw e h
  ]

  query_edges_total :
      (end : EdgeRow → Id128) (db : Db) (id : Id128) (f : EdgeFilter)
      → IsDecodable json db
      → (es : List Edge) × (query_edges fl json end db id f ≡ ok es)
  unfolding query_edges
  query_edges_total end db id f d = scan_edges_total _ (
      All-limited f.limit _ (
        All-order_by (older fl json) IsReadableEdge _ (
          All-keep IsReadableEdge (λ g. (end g == id) && of_type fl json f.type g) db.edges
            (All-of_mem IsReadableEdge db.edges d.edges))))

  pub edges_from_total :
      (db : Db) (id : Id128) (f : EdgeFilter)
      → IsDecodable json db
      → (es : List Edge) × (edges_from fl json db id f ≡ ok es)
  unfolding edges_from query_edges
  edges_from_total db id f d = query_edges_total (λ g. g.from_id) db id f d

  pub edges_to_total :
      (db : Db) (id : Id128) (f : EdgeFilter)
      → IsDecodable json db
      → (es : List Edge) × (edges_to fl json db id f ≡ ok es)
  unfolding edges_to query_edges
  edges_to_total db id f d = query_edges_total (λ g. g.to_id) db id f d
