-- ===== src/Cmd/Import/Edges.antt =====
-- What the edges of an imported entry add to the tables.
use Prim.Native.String.{String}
use mathlib.Core.Path.{◌≡◌, refl}
use known.Prelude.{
  ℕ, suc, ◌+◌, not, ◌||◌, ◌&&◌, ap, ◌∙◌, inl, inr, List, [], ◌∷◌, arith, Bool-cases, Result, ok,
  err, Result-cases, ◌==◌,
}
use known.Prelude.Float.{FloatOps}
use known.Prelude.Text.{Text}
use known.Model.Types.{Time}
use known.Model.Edge.{Edge}
use known.Sqlite.Tables.{EdgeRow, Db, Action, Json, executes, in_context, marshal_nullable_json}
use known.Sqlite.Edge.{has_entry, has_edge, check_weight, insert_edge, insert_edge_type, edge_row}
use known.Sqlite.Edge
use known.Sqlite.Tx.{Driver}
use known.Cmd.Import.{after_edge, import_edges}
use known.Cmd.Import.Grows.{
  Written, refl-Kept, Grows, refl-Grows, trans-Grows, after-Grows, written, insert_edge_type-Grows,
}

-- An insertion of an edge adds a row, or fails and adds none.
insert_edge-Grows :
    (W : Written) (fl : FloatOps) (r : EdgeRow) (db db' : Db) (a : Unit {0})
    → insert_edge fl r db ≡ ok (a, db')
    → Grows W 1 db db'
unfolding insert_edge
insert_edge-Grows W fl r db db' a h =
    elim (Bool-cases (not (check_weight fl r.weight) || r.from_id == r.to_id)) [
      | inl e ↦ absurd (cc (rw (e, insert_edge) at h))
      | inr e ↦ elim (Bool-cases (has_edge r.id db.edges)) [
        | inl f ↦ absurd (cc (rw (e, f, insert_edge) at h))
        | inr f ↦
            elim (Bool-cases (has_entry r.from_id db.entries && has_entry r.to_id db.entries)) [
              | inr g ↦ absurd (cc (rw (e, f, g, insert_edge) at h))
              | inl g ↦ written (rw (e, f, g, insert_edge) at h) (record {
                new_edges = r ∷ [];
                edges = refl;
                added = refl;
                rows = λ x m. (x, m, refl-Kept W x);
              })
            ]
      ]
    ]

-- The number of edges that a call created, by what it answers.
abbrev created_by : Result (Unit {0}) → ℕ
created_by (ok a) = 1
created_by (err e) = 0

insert-Grows :
    (W : Written) (fl : FloatOps) (s : String) (r : EdgeRow) (db : Db)
    → Grows W
        (created_by (in_context s (executes (insert_edge fl r)) db).0)
        db
        (in_context s (executes (insert_edge fl r)) db).1
insert-Grows W fl s r db = elim (Result-cases (insert_edge fl r db)) [
  | inl ((a, db'), e) ↦ rw e (insert_edge-Grows W fl r db db' a e)
  | inr (x, e) ↦ rw e refl-Grows
]

module _ (W : Written) (fl : FloatOps) (json : Json) (hash : Text → Text) (driver : Driver)
    (now : Time) where
  edge_create-Grows :
      (e : Edge) (db : Db)
      → Grows W (created_by (Edge.create fl json e db).0) db (Edge.create fl json e db).1
  unfolding Edge.create
  edge_create-Grows e db = elim (Result-cases (marshal_nullable_json json e.meta)) [
    | inr (x, m) ↦ rw m refl-Grows
    | inl (meta, m) ↦ rw m (
        after-Grows (insert_edge_type-Grows e.type db)
          (insert-Grows W fl "create edge" (edge_row fl json e meta) (insert_edge_type e.type db)))
  ]

  -- A call that adds n to the number of edges it was given, and that many rows.
  abbrev pub Creates : Action ℕ → ℕ → Db → Type 0
  Creates action k db = (m : ℕ) × (db' : Db) × (action db ≡ (ok (k + m), db')) × Grows W m db db'

  after_edge-Creates :
      (next : ℕ → Action ℕ) (k : ℕ) (db : Db) (r : Result (Unit {0}) × Db)
      → Grows W (created_by r.0) db r.1
      → ((i : ℕ) (d : Db) → Creates (next i) i d)
      → Creates (λ _. after_edge fl json hash driver now next k r) k db
  after_edge-Creates next k db (ok a, d) g h =
      let (m, d', e, l) = h (suc k) d in
      (1 + m, d', e ∙ ap (λ z. (ok z, d')) (omega arith), trans-Grows g l)
  after_edge-Creates next k db (err x, d) g h =
      let (m, d', e, l) = h k d in (m, d', e, after-Grows g l)

  pub import_edges-Creates :
      (es : List Edge) (k : ℕ) (db : Db) → Creates (import_edges fl json hash driver now es k) k db
  unfolding import_edges
  import_edges-Creates [] k db = (0, db, ap (λ z. (ok z, db)) (omega arith), refl-Grows)
  import_edges-Creates (e ∷ es) k db =
      after_edge-Creates (import_edges fl json hash driver now es) k db (Edge.create fl json e db)
        (edge_create-Grows e db) (import_edges-Creates es)
