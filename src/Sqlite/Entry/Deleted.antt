-- ===== src/Sqlite/Entry/Deleted.antt =====
-- Delete of storage/sqlite/entry.go, with the cascades of the tables that refer to an entry.
use mathlib.Core.Path.{◌≡◌}
use known.Prelude.{
  if◌then◌else◌, ℕ, zero, suc, true, false, not, ◌&&◌, refl, ap, ◌∙◌, Option, none, some, List, [],
  ◌∷◌, map, arith, ◌==◌, keep, find_by, member, length, take, ==_iff, Bool-cases, Result-cases, inl,
  inr, not_found, ok, err,
}
use known.Prelude.Int.{ℤ, pos_part}
use known.Prelude.Float.{FloatOps}
use known.Prelude.Order.{order_by}
use known.Prelude.Rows.{
  mem-any, keep-mem, member-of_mem, find_by-some, keep-keep_same, keep-keep_none, find_by-keep_same,
  find_by-keep_none,
}
use known.Prelude.Text.{Text, text_lt}
use known.Model.Types.{Id128}
use known.Storage.{EdgeFilter}
use known.Sqlite.Tables.{EntryRow, EdgeRow, Db, Json}
use known.Sqlite.Edge.{
  is_entry, has_entry, limited, older, edges_from, edges_to, query_edges, of_type, scan_edges,
}
use known.Sqlite.Entry.Reads.{populate_entry-id}
use known.Sqlite.Entry.{delete, delete_entries, loses_end, load_labels, get, found, populate_entry}

-- The ids that a deletion by id removes.
abbrev gone : Id128 → List EntryRow → List Id128
gone id rows = map (λ (r : EntryRow). r.id) (keep (is_entry id) rows)

member-gone :
    (id other : Id128) (rows : List EntryRow)
    → (other == id) ≡ false
    → member other (gone id rows) ≡ false
unfolding keep member
member-gone id other [] h = refl
member-gone id other (r ∷ rows) h = elim (Bool-cases (r.id == id)) [
  | inl e ↦ rw e (ground (arith, member-gone id other rows))
  | inr e ↦ rw e (member-gone id other rows h)
]

self-gone :
    (id : Id128) (rows : List EntryRow) → has_entry id rows ≡ true → member id (gone id rows) ≡ true
unfolding has_entry
self-gone id rows h =
    let (r, m, e) = mem-any (is_entry id) rows h in
    let same : r.id ≡ id = (==_iff r.id id).0 e in
    rw same at (
      member-of_mem (λ (x : EntryRow). x.id) (keep (is_entry id) rows) r
        (keep-mem (is_entry id) rows r m e))

length-of_member :
    (id : Id128) (ids : List Id128) → member id ids ≡ true → (n : ℕ) × (length ids ≡ suc n)
unfolding member
length-of_member id [] h = cc h
length-of_member id (x ∷ ids) h = (length ids, refl)

load_labels-delete :
    (id other : Id128) (db : Db)
    → (other == id) ≡ false
    → load_labels (delete_entries (is_entry id) db).1 other ≡ load_labels db other
unfolding load_labels delete_entries
load_labels-delete id other db h =
    ap (λ (ls : List (Id128 × Text)). order_by text_lt (map (λ (l : Id128 × Text). l.1) ls))
      (keep-keep_same (λ (l : Id128 × Text). l.0 == other)
        (λ (l : Id128 × Text). not (member l.0 (gone id db.entries))) db.labels
        (λ l e. rw ((==_iff l.0 other).0 e, member-gone id other db.entries h) refl))

find-delete_other :
    (id other : Id128) (db : Db)
    → (other == id) ≡ false
    → find_by (is_entry other) (delete_entries (is_entry id) db).1.entries
      ≡ find_by (is_entry other) db.entries
unfolding delete_entries
find-delete_other id other db h =
    find_by-keep_same (is_entry other) (λ r. not (is_entry id r)) db.entries (λ r e. ground arith)

delete_run :
    (id : Id128) (db : Db)
    → has_entry id db.entries ≡ true
    → delete id db ≡ (ok tt, (delete_entries (is_entry id) db).1)
unfolding delete delete_entries
delete_run id db h =
    let (n, e) = length-of_member id (gone id db.entries) (self-gone id db.entries h) in rw e refl

module _ (json : Json) where
  found-delete :
      (id other : Id128) (db : Db) (o : Option EntryRow)
      → (other == id) ≡ false
      → ((r : EntryRow) → o ≡ some r → r.id ≡ other)
      → found json (delete_entries (is_entry id) db).1 o ≡ found json db o
  unfolding found
  found-delete id other db none h k = refl
  found-delete id other db (some r) h k = elim (Result-cases (populate_entry json r)) [
    | inr (x, e) ↦ rw e refl
    | inl (entry, e) ↦
        let at_id : entry.id ≡ other = populate_entry-id json r entry e ∙ k r refl in
        rw e (
          ap (λ ls. ok (record entry { labels = ls }))
            (load_labels-delete id entry.id db (rw at_id h)))
  ]

  get-delete_self :
      (id : Id128) (db : Db) → get json (delete_entries (is_entry id) db).1 id ≡ err not_found
  unfolding get found delete_entries
  get-delete_self id db =
      rw
        (find_by-keep_none (is_entry id) (λ r. not (is_entry id r)) db.entries
          (λ r e. ground arith))
        refl

  get-delete_other :
      (id other : Id128) (db : Db)
      → (other == id) ≡ false
      → get json (delete_entries (is_entry id) db).1 other ≡ get json db other
  unfolding get
  get-delete_other id other db h =
      ap (found json (delete_entries (is_entry id) db).1) (find-delete_other id other db h)
      ∙ found-delete id other db (find_by (is_entry other) db.entries) h
          (λ r e. (==_iff r.id other).0 (find_by-some (is_entry other) db.entries r e).1)

take-nil : (n : ℕ) → take {A = EdgeRow} n [] ≡ []
take-nil zero = refl
take-nil (suc n) = refl

module _ (fl : FloatOps) (json : Json) where
  limited-nil :
      (n : ℤ) → scan_edges fl json (limited fl json n (order_by (older fl json) [])) ≡ ok []
  unfolding scan_edges order_by
  limited-nil n = rw (take-nil (pos_part n)) (ground arith)

  query_edges-delete :
      (end : EdgeRow → Id128) (id : Id128) (db : Db) (f : EdgeFilter)
      → ((g : EdgeRow) → (end g == id) ≡ true → loses_end (gone id db.entries) g ≡ true)
      → query_edges fl json end (delete_entries (is_entry id) db).1 id f ≡ ok []
  unfolding query_edges delete_entries
  query_edges-delete end id db f h =
      rw
        (keep-keep_none (λ g. (end g == id) && of_type fl json f.type g)
          (λ g. not (loses_end (gone id db.entries) g)) db.edges (λ g e. ground (arith, h g)))
        (limited-nil f.limit)

  edges_from-delete :
      (id : Id128) (db : Db) (f : EdgeFilter)
      → member id (gone id db.entries) ≡ true
      → edges_from fl json (delete_entries (is_entry id) db).1 id f ≡ ok []
  unfolding edges_from query_edges
  edges_from-delete id db f h =
      query_edges-delete (λ g. g.from_id) id db f (λ g e. rw ((==_iff g.from_id id).0 e, h) refl)

  edges_to-delete :
      (id : Id128) (db : Db) (f : EdgeFilter)
      → member id (gone id db.entries) ≡ true
      → edges_to fl json (delete_entries (is_entry id) db).1 id f ≡ ok []
  unfolding edges_to query_edges
  edges_to-delete id db f h =
      query_edges-delete (λ g. g.to_id) id db f
        (λ g e. rw ((==_iff g.to_id id).0 e, h) (ground arith))

  -- Where an entry has the id, Delete succeeds; the entry is then not found, no edge leads from or
  -- to it, and every other id is looked up as before, labels included.
  pub delete_lem :
      (id : Id128) (db : Db)
      → has_entry id db.entries ≡ true
      → ((delete id db).0 ≡ ok tt)
        × ((f : EdgeFilter) → edges_from fl json (delete id db).1 id f ≡ ok [])
        × ((f : EdgeFilter) → edges_to fl json (delete id db).1 id f ≡ ok [])
        × ((other : Id128)
            → get json (delete id db).1 other
              ≡ (if other == id then err not_found else get json db other))
  delete_lem id db h =
      let self = self-gone id db.entries h in
      rw (delete_run id db h) (
        refl,
        λ f. edges_from-delete id db f self,
        λ f. edges_to-delete id db f self,
        λ other. elim (Bool-cases (other == id)) [
          | inl e ↦ rw (e, (==_iff other id).0 e) (get-delete_self json id db)
          | inr e ↦ rw e (get-delete_other json id other db e)
        ],
      )
