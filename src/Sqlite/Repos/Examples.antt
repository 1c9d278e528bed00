-- ===== src/Sqlite/Repos/Examples.antt =====
-- A traversal of the tables of two entries, of which the first depends on the second.
use mathlib.Core.Path.{◌≡◌}
use mathlib.Core.List.{Memᴰ}
use mathlib.Core.List.Memᴰ
use known.Prelude.{
  ◌+◌, ◌≤◌, true, false, refl, ap, ◌⊎◌, none, List, [], ◌∷◌, ◌++◌, All, arith, length, ok, inl, inr,
  keep, find_by, member,
}
use known.Prelude.Int.{pos}
use known.Prelude.Order.{order_by, insert_by}
use known.Prelude.Sets.{IsDistinct}
use known.Prelude.Text.{codes}
use known.Model.Types.{Id128, is_zero}
use known.Model.Edge.{Edge, edge_depends_on}
use known.Model.Entry.{Entry}
use known.Sqlite.Tables.{EntryRow, EdgeRow, Db, unmarshal_nullable_json}
use known.Sqlite.Vec.{serialize_float32, deserialize_float32}
use known.Sqlite.Edge.{has_entry, edges_from, query_edges, scan_edges, populate_edge}
use known.Sqlite.Entry.{row_of, get, populate_entry, load_labels}
use known.Sqlite.Entry.Reads.{IsDecodable}
use known.Sqlite.Repos.Traversal.{engine, traverse_tables}
use known.Query.Types.{QueryResult, GraphOptions, outgoing, neighbor, Engine}
use known.Query.Bfs.{returned}
use known.Query.Graph.{traverse, edges_at}
use known.Query.Graph.Walks.{Walk, here, hop, IsReached}
use known.Query.Graph.Distinct.{ids_of}
use known.Fixture.Store.{entry_of}
use known.Fixture.Tables.{vector_ops, json, driver, tables}

abbrev sqlite : Engine Db
sqlite = engine vector_ops json 5 driver (λ t. t) (λ t. t ∷ []) (λ db t. ok []) false none

abbrev opts : GraphOptions
opts = record {
  start_id = 1;
  direction = outgoing;
  max_depth = pos 2;
  edge_types = [];
  include_start = true;
}

abbrev one_two : Edge
one_two = record {
  id = 11;
  from_id = 1;
  to_id = 2;
  type = edge_depends_on;
  weight = none;
  meta = none;
  created_at = 0;
}

columns : (r : EntryRow) → Memᴰ r tables.entries → (r.source_meta ≡ none) × (r.meta ≡ none)
columns r m = elim (Memᴰ.cases_cons m) [
  | inl e ↦ (ap (λ (x : EntryRow). x.source_meta) e, ap (λ (x : EntryRow). x.meta) e)
  | inr k ↦ elim (Memᴰ.cases_cons k) [
    | inl e ↦ (ap (λ (x : EntryRow). x.source_meta) e, ap (λ (x : EntryRow). x.meta) e)
    | inr n ↦ absurd (Memᴰ.not-nil n)
  ]
]

decodable : IsDecodable json tables
unfolding unmarshal_nullable_json
decodable = record {
  entries = λ r m. let (a, b) = columns r m in ((none, rw a refl), (none, rw b refl));
  edges = λ g m. elim (Memᴰ.cases_cons m) [
    | inl e ↦ (none, rw (ap (λ (x : EdgeRow). x.meta) e) refl)
    | inr n ↦ absurd (Memᴰ.not-nil n)
  ];
}

not_zero : is_zero 1 ≡ false
unfolding is_zero
not_zero = refl

has_start : has_entry 1 tables.entries ≡ true
unfolding has_entry
has_start = refl

abbrev second_entry : Entry
second_entry = record (entry_of 2) {
  content_hash = codes "hash" ++ 2 ∷ [];
  created_at = 0;
  updated_at = 0;
  freshness = record { observed_at = 0; observed_by = []; source_hash = [] };
}

one_hop : Walk sqlite tables opts (one_two ∷ []) 2
unfolding edges_at neighbor member edges_from query_edges scan_edges populate_edge keep order_by
    insert_by get populate_entry load_labels find_by unmarshal_nullable_json row_of
    serialize_float32 deserialize_float32
one_hop =
    hop one_two (one_two ∷ []) second_entry (here refl refl) refl (Memᴰ.head refl) refl refl refl
      refl

abbrev far : Id128
far = 2

traverse_tables_example :
    (rs : List QueryResult) × (traverse sqlite tables opts (length tables.entries + 2)
      ≡ returned rs)
    × IsDistinct (ids_of rs)
    × All (IsReached sqlite tables opts) rs
    × ((far ≡ opts.start_id)
        ⊎ ((r : QueryResult) × Memᴰ r rs × (r.entry.id ≡ far) × (r.depth ≤ length (one_two ∷ []))))
traverse_tables_example =
    traverse_tables vector_ops json 5 driver (λ t. t) (λ t. t ∷ []) (λ db t. ok []) false none
      tables opts (one_two ∷ []) 2 decodable not_zero has_start one_hop (omega arith)
