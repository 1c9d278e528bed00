-- ===== src/Sqlite/Consistent/Edges.antt =====
-- The statements of storage/sqlite/edge.go and on entry_labels, on consistent tables.
use mathlib.Core.List.Memᴰ
use known.Prelude.{
  ◌≡◌, refl, not, ◌||◌, ◌&&◌, ℕ, ◌==◌, ltb, Option, List, map, inl, inr, any, keep, length, ok,
  Bool-cases, arith,
}
use known.Prelude.Float.{Float64, FloatOps}
use known.Prelude.Rows.{mem-add, mem-keep, IsDistinct-add, IsDistinct-keep, map-same_ids}
use known.Prelude.Sets.{IsDistinct}
use known.Prelude.Text.{Text, text_eq}
use known.Model.Types.{Id128}
use known.Model.Edge.{EdgeType}
use known.Sqlite.Tables.{EdgeRow, Db}
use known.Sqlite.Edge.{
  has_entry, has_edge, is_edge, check_weight, insert_edge_type, insert_edge, update_edge,
  delete_edge, set_weight_meta,
}
use known.Sqlite.Entry.{insert_label, has_label, delete_labels}
use known.Sqlite.Consistent.{IsConsistent, HasEnds, HasOwners, written}

-- A change of the edges alone.
set_edges-IsConsistent :
    (db : Db) (rows : List EdgeRow)
    → IsConsistent db
    → IsDistinct (map (λ (r : EdgeRow). r.id) rows)
    → HasEnds db.entries rows
    → IsConsistent (record db { edges = rows })
set_edges-IsConsistent db rows c ids ends = record {
  entry_ids = c.entry_ids;
  contents = c.contents;
  scopes = c.scopes;
  edge_ids = ids;
  ends = ends;
  owners = c.owners;
  session_ids = c.session_ids;
  events = c.events;
  reinforced = c.reinforced;
}

-- A change of the labels alone.
set_labels-IsConsistent :
    (db : Db) (rows : List (Id128 × Text))
    → IsConsistent db
    → HasOwners db.entries rows
    → IsConsistent (record db { labels = rows })
set_labels-IsConsistent db rows c owners = record {
  entry_ids = c.entry_ids;
  contents = c.contents;
  scopes = c.scopes;
  edge_ids = c.edge_ids;
  ends = c.ends;
  owners = owners;
  session_ids = c.session_ids;
  events = c.events;
  reinforced = c.reinforced;
}

pub insert_edge_type-IsConsistent :
    (type : EdgeType) (db : Db) → IsConsistent db → IsConsistent (insert_edge_type type db)
unfolding insert_edge_type
insert_edge_type-IsConsistent type db c = elim (Bool-cases (any (text_eq type) db.edge_types)) [
  | inl e ↦ rw e c
  | inr e ↦ rw e (record {
    entry_ids = c.entry_ids;
    contents = c.contents;
    scopes = c.scopes;
    edge_ids = c.edge_ids;
    ends = c.ends;
    owners = c.owners;
    session_ids = c.session_ids;
    events = c.events;
    reinforced = c.reinforced;
  })
]

pub delete_edge-IsConsistent :
    (id : Id128) (db : Db) → IsConsistent db → IsConsistent (delete_edge id db).1
unfolding delete_edge HasEnds
delete_edge-IsConsistent id db c =
    set_edges-IsConsistent db _ c
      (IsDistinct-keep (λ (r : EdgeRow). r.id) (λ r. not (is_edge id r)) db.edges c.edge_ids)
      (λ g m. c.ends g (mem-keep (λ r. not (is_edge id r)) db.edges g m).0)

set_weight_meta_same :
    (id : Id128) (weight : Option Float64) (meta : Option Text) (r : EdgeRow)
    → ((set_weight_meta id weight meta r).id ≡ r.id)
      × ((set_weight_meta id weight meta r).from_id ≡ r.from_id)
      × ((set_weight_meta id weight meta r).to_id ≡ r.to_id)
set_weight_meta_same id weight meta r = elim (Bool-cases (r.id == id)) [
  | inl e ↦ rw e (refl, refl, refl)
  | inr e ↦ rw e (refl, refl, refl)
]

module _ (fl : FloatOps) where
  pub insert_edge-IsConsistent :
      (r : EdgeRow) (db db' : Db)
      → IsConsistent db
      → insert_edge fl r db ≡ ok (tt, db')
      → IsConsistent db'
  unfolding insert_edge has_edge HasEnds
  insert_edge-IsConsistent r db db' c h =
      elim (Bool-cases (not (check_weight fl r.weight) || r.from_id == r.to_id)) [
        | inl e ↦ absurd (cc (rw e at h))
        | inr e ↦ elim (Bool-cases (has_edge r.id db.edges)) [
          | inl f ↦ absurd (cc (rw (e, f) at h))
          | inr f ↦
              elim (Bool-cases (has_entry r.from_id db.entries && has_entry r.to_id db.entries)) [
                | inr g ↦ absurd (cc (rw (e, f, g) at h))
                | inl g ↦ written (rw (e, f, g) at h) (
                    set_edges-IsConsistent db _ c
                      (IsDistinct-add (λ (x : EdgeRow). x.id) db.edges r c.edge_ids f)
                      (λ x m. elim (mem-add db.edges r x m) [
                        | inl i ↦ c.ends x i
                        | inr same ↦ rw same (ground arith, ground arith, ground arith)
                      ]))
              ]
        ]
      ]

  pub update_edge-IsConsistent :
      (id : Id128) (weight : Option Float64) (meta : Option Text) (db db' : Db) (n : ℕ)
      → IsConsistent db
      → update_edge fl id weight meta db ≡ ok (n, db')
      → IsConsistent db'
  unfolding update_edge HasEnds
  update_edge-IsConsistent id weight meta db db' n c h =
      elim (Bool-cases
        (ltb 0 (length (keep (is_edge id) db.edges)) && not (check_weight fl weight))) [
          | inl e ↦ absurd (cc (rw e at h))
          | inr e ↦ written (rw e at h) (
              set_edges-IsConsistent db _ c
                (rw
                  (map-same_ids (λ (r : EdgeRow). r.id) (set_weight_meta id weight meta) db.edges
                    (λ x. (set_weight_meta_same id weight meta x).0))
                  c.edge_ids)
                (λ g m.
                  let (r, i, q) = Memᴰ.of_map (set_weight_meta id weight meta) db.edges m in
                  let same = set_weight_meta_same id weight meta r in
                  rw (← q, same.1, same.2) (c.ends r i)))
        ]

pub delete_labels-IsConsistent :
    (id : Id128) (db : Db) → IsConsistent db → IsConsistent (delete_labels id db)
unfolding delete_labels HasOwners
delete_labels-IsConsistent id db c =
    set_labels-IsConsistent db _ c
      (λ l m. c.owners l (mem-keep (λ (l : Id128 × Text). not (l.0 == id)) db.labels l m).0)

pub insert_label-IsConsistent :
    (id : Id128) (label : Text) (db db' : Db)
    → IsConsistent db
    → insert_label id label db ≡ ok (tt, db')
    → IsConsistent db'
unfolding insert_label HasOwners
insert_label-IsConsistent id label db db' c h =
    elim (Bool-cases (any (has_label id label) db.labels)) [
      | inl e ↦ absurd (cc (rw e at h))
      | inr e ↦ elim (Bool-cases (has_entry id db.entries)) [
        | inr f ↦ absurd (cc (rw (e, f) at h))
        | inl f ↦ written (rw (e, f) at h) (
            set_labels-IsConsistent db _ c (λ l m. elim (mem-add db.labels (id, label) l m) [
              | inl i ↦ c.owners l i
              | inr same ↦ rw same f
            ]))
      ]
    ]
