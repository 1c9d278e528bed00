-- ===== src/Sqlite/Edge.antt =====
-- storage/sqlite/edge.go: the rows of `edges` and `edge_types`.
pub mod Reads
use known.Prelude.{
  ℕ, Bool, true, not, ◌&&◌, ◌||◌, Option, none, some, List, [], ◌∷◌, ◌++◌, map, any, keep, find_by,
  length, take, ltb, ◌==◌, if◌then◌else◌, not_found, sql, unique_failed, foreign_key_failed,
  check_failed, Result, ok, err, with_context,
}
use known.Prelude.Order.{order_by}
use known.Prelude.Int.{ℤ, is_positive, pos_part}
use known.Prelude.Float.{Float64, FloatOps}
use known.Prelude.Text.{Text, text_eq, is_empty}
use known.Model.Types.{Id128, Value}
use known.Model.Edge.{Edge, EdgeType}
use known.Storage.{EdgeFilter}
use known.Sqlite.Tables.{
  EntryRow, EdgeRow, Db, Action, affected, reads, executes, in_context, ◌>>=◌, ◌>>◌, format_time,
  parse_time, Json, marshal_nullable_json, unmarshal_nullable_json,
}

abbrev pub is_entry : Id128 → EntryRow → Bool
is_entry id r = r.id == id

unfoldable pub has_entry : Id128 → List EntryRow → Bool
has_entry id rows = any (is_entry id) rows

abbrev pub is_edge : Id128 → EdgeRow → Bool
is_edge id r = r.id == id

unfoldable pub has_edge : Id128 → List EdgeRow → Bool
has_edge id rows = any (is_edge id) rows

-- INSERT INTO edge_types … ON CONFLICT (name) DO NOTHING
unfoldable pub insert_edge_type : EdgeType → Db → Db
insert_edge_type type db =
    if any (text_eq type) db.edge_types
    then db
    else record db { edge_types = db.edge_types ++ type ∷ [] }

-- An UPDATE of weight and meta, and of no other column.
abbrev pub set_weight_meta : Id128 → Option Float64 → Option Text → EdgeRow → EdgeRow
set_weight_meta id weight meta r =
    if r.id == id then record r { weight = weight; meta = meta } else r

-- DELETE FROM edges WHERE id = ?, and the number of rows.
unfoldable pub delete_edge : Id128 → Db → ℕ × Db
unfolding keep
delete_edge id db = (
  length (keep (is_edge id) db.edges),
  record db { edges = keep (λ r. not (is_edge id r)) db.edges },
)

unfoldable pub delete : Id128 → Action (Unit {0})
unfolding delete_edge
delete id = do n ← executes (λ db. ok (delete_edge id db)); affected n

module _ (fl : FloatOps) where
  -- A NaN is bound as NULL.
  abbrev pub bind_weight : Option Float64 → Option Float64
  bind_weight none = none
  bind_weight (some w) = if fl.is_nan w then none else some w

  -- CHECK (weight IS NULL OR (weight >= 0 AND weight <= 1))
  abbrev pub check_weight : Option Float64 → Bool
  check_weight none = true
  check_weight (some w) = not (fl.lt w (fl.of_int 0)) && not (fl.lt (fl.of_int 1) w)

  -- INSERT INTO edges, under the constraints of the table.
  unfoldable pub insert_edge : EdgeRow → Db → Result (Unit {0} × Db)
  unfolding has_entry has_edge
  insert_edge r db =
      if not (check_weight r.weight) || r.from_id == r.to_id
      then err (sql check_failed)
      else if has_edge r.id db.edges
      then err (sql unique_failed)
      else if not (has_entry r.from_id db.entries && has_entry r.to_id db.entries)
      then err (sql foreign_key_failed)
      else ok (tt, record db { edges = db.edges ++ r ∷ [] })

  -- UPDATE edges SET weight = ?, meta = ? WHERE id = ?, and the number of rows.
  unfoldable pub update_edge : Id128 → Option Float64 → Option Text → Db → Result (ℕ × Db)
  unfolding keep
  update_edge id weight meta db =
      let n = length (keep (is_edge id) db.edges) in
      if ltb 0 n && not (check_weight weight)
      then err (sql check_failed)
      else ok (n, record db { edges = map (set_weight_meta id weight meta) db.edges })

  module _ (json : Json) where
    -- The arguments of the statement, of an edge and its encoded metadata.
    abbrev pub edge_row : Edge → Option Text → EdgeRow
    edge_row e meta = record {
      id = e.id;
      from_id = e.from_id;
      to_id = e.to_id;
      type = e.type;
      weight = bind_weight e.weight;
      meta = meta;
      created_at = format_time e.created_at;
    }

    unfoldable pub create : Edge → Action (Unit {0})
    unfolding insert_edge_type insert_edge
    create e = do
      meta ← reads (λ _. with_context "marshal meta" (marshal_nullable_json json e.meta))
      executes (λ db. ok (tt, insert_edge_type e.type db))
      in_context "create edge" (executes (insert_edge (edge_row e meta)))

    unfoldable pub update : Edge → Action (Unit {0})
    unfolding update_edge
    update e = do
      meta ← reads (λ _. with_context "marshal meta" (marshal_nullable_json json e.meta))
      n ← in_context "update edge" (executes (update_edge e.id (bind_weight e.weight) meta))
      affected n

    abbrev populated : EdgeRow → Result (Option (List (Text × Value))) → Result Edge
    populated r (err e) = err e
    populated r (ok meta) = ok (record {
      id = r.id;
      from_id = r.from_id;
      to_id = r.to_id;
      type = r.type;
      weight = r.weight;
      meta = meta;
      created_at = parse_time r.created_at;
    })

    unfoldable pub populate_edge : EdgeRow → Result Edge
    populate_edge r =
        populated r (with_context "unmarshal edge meta" (unmarshal_nullable_json json r.meta))

    found : Option EdgeRow → Result Edge
    unfolding populate_edge
    found none = err not_found
    found (some r) = with_context "get edge" (populate_edge r)

    unfoldable pub get : Db → Id128 → Result Edge
    unfolding found find_by
    get db id = found (find_by (is_edge id) db.edges)

    unfoldable pub scan_edges : List EdgeRow → Result (List Edge)
    unfolding populate_edge
    scan_edges [] = ok []
    scan_edges (r ∷ rows) = elim (populate_edge r) [
      | err e ↦ err e
      | ok e ↦ elim (scan_edges rows) [ err x ↦ err x | ok es ↦ ok (e ∷ es) ]
    ]

    abbrev pub older : EdgeRow → EdgeRow → Bool
    older r t = ltb r.created_at t.created_at

    -- `LIMIT ?`, where the limit is positive.
    abbrev pub limited : ℤ → List EdgeRow → List EdgeRow
    limited n rows = if is_positive n then take (pos_part n) rows else rows

    -- `type = ?`, where a type is asked for.
    abbrev pub of_type : EdgeType → EdgeRow → Bool
    of_type type r = is_empty type || text_eq r.type type

    -- queryEdges, for the column that `end` reads.
    unfoldable pub query_edges : (EdgeRow → Id128) → Db → Id128 → EdgeFilter → Result (List Edge)
    unfolding scan_edges keep order_by
    query_edges end db id filter = scan_edges (
        limited filter.limit
          (order_by older (keep (λ r. (end r == id) && of_type filter.type r) db.edges)))

    unfoldable pub edges_from : Db → Id128 → EdgeFilter → Result (List Edge)
    unfolding query_edges
    edges_from = query_edges (λ r. r.from_id)

    unfoldable pub edges_to : Db → Id128 → EdgeFilter → Result (List Edge)
    unfolding query_edges
    edges_to = query_edges (λ r. r.to_id)

    unfoldable pub edges_between : Db → Id128 → Id128 → Result (List Edge)
    unfolding scan_edges keep order_by
    edges_between db from to =
        scan_edges (order_by older (keep (λ r. (r.from_id == from) && (r.to_id == to)) db.edges))
