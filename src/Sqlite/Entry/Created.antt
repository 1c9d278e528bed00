-- ===== src/Sqlite/Entry/Created.antt =====
-- createInner of storage/sqlite/entry.go, and what Get then returns.
use Prim.Native.String.{String}
use mathlib.Core.Path.{◌≡◌}
use known.Prelude.{
  ◌<◌, false, not, ◌||◌, refl, sym, ap, ◌∙◌, some, List, [], ◌∷◌, ◌++◌, map, All, arith, ◌==◌, any,
  keep, find_by, inl, inr, Bool-cases, Result-cases, Result, ok, err, ok-injective, ==_self, ==_iff,
  with_context,
}
use mathlib.Core.List.{append_assoc, append-nil}
use known.Prelude.Order.{order_by}
use known.Prelude.Rows.{find_by-append_none, keep-keep_none, keep-none, keep-append, mem-any}
use known.Prelude.Text.{Text, text_lt}
use known.Model.Types.{Id128, Time}
use known.Model.Entry.{Entry}
use known.Sqlite.Tables.{EntryRow, Db, Json, pure, continue}
use known.Sqlite.Scope.{has_scope, ensure_hierarchy}
use known.Sqlite.Edge.{is_entry, has_entry}
use known.Sqlite.Entry.{
  with_defaults, encoded, insert_entry, create_inner, save_given_labels, save_labels, insert_labels,
  insert_label, delete_labels, has_label, load_labels, same_content, get, found, populate_entry,
}
use known.Sqlite.Consistent.{HasOwners}
use known.Sqlite.Entry.Same.{
  save_labels-KeepsEntries, KeepsEntries, ensure_hierarchy-entries, ensure_hierarchy-labels,
}
use known.Sqlite.Entry.Stored.{Decodes, as_columns, stored, populate-encoded}
use known.Sqlite.Entry.Versions.{encoded-row}

insert_entry-eq-ok :
    (row : EntryRow) (db db' : Db)
    → insert_entry row db ≡ ok (tt, db')
    → (has_entry row.id db.entries ≡ false) × (db' ≡ record db { entries = db.entries ++ row ∷ [] })
unfolding insert_entry
insert_entry-eq-ok row db db' h =
    elim (Bool-cases
      (has_entry row.id db.entries || any (same_content row.content_hash row.scope) db.entries)) [
        | inl e ↦ absurd (cc (rw e at h))
        | inr e ↦ elim (Bool-cases (has_scope row.scope db.scopes)) [
          | inr f ↦ absurd (cc (rw (e, f) at h))
          | inl f ↦ (ground arith, ap (λ p. p.1) (sym (ok-injective (rw (e, f) at h))))
        ]
      ]

insert_label-eq-ok :
    (id : Id128) (label : Text) (db db' : Db)
    → insert_label id label db ≡ ok (tt, db')
    → db' ≡ record db { labels = db.labels ++ (id, label) ∷ [] }
unfolding insert_label
insert_label-eq-ok id label db db' h = elim (Bool-cases (any (has_label id label) db.labels)) [
  | inl e ↦ absurd (cc (rw e at h))
  | inr e ↦ elim (Bool-cases (has_entry id db.entries)) [
    | inr f ↦ absurd (cc (rw (e, f) at h))
    | inl f ↦ ap (λ p. p.1) (sym (ok-injective (rw (e, f) at h)))
  ]
]

abbrev labels_of : Id128 → List Text → List (Id128 × Text)
labels_of id = map (λ l. (id, l))

insert_labels-eq-ok :
    (id : Id128) (labels : List Text) (db db' : Db)
    → insert_labels id labels db ≡ (ok tt, db')
    → db'.labels ≡ db.labels ++ labels_of id labels
unfolding insert_labels
insert_labels-eq-ok id [] db db' h = sym (ap (λ p. p.1.labels) h) ∙ sym (append-nil db.labels)
insert_labels-eq-ok id (l ∷ ls) db db' h = elim (Result-cases (insert_label id l db)) [
  | inr (x, e) ↦ absurd (cc (rw e at h))
  | inl ((t, db2), e) ↦
      insert_labels-eq-ok id ls db2 db' (rw e at h)
      ∙ ap (λ (d : Db). d.labels ++ labels_of id ls) (insert_label-eq-ok id l db db2 e)
      ∙ append_assoc db.labels ((id, l) ∷ []) (labels_of id ls)
]

keep-labels_of :
    (id : Id128) (labels : List Text)
    → map (λ (l : Id128 × Text). l.1) (keep (λ l. l.0 == id) (labels_of id labels)) ≡ labels
unfolding keep
keep-labels_of id [] = refl
keep-labels_of id (l ∷ ls) = rw (==_self id) (ap (λ r. l ∷ r) (keep-labels_of id ls))

-- The labels of an id that had none.
load_labels-added :
    (id : Id128) (labels : List Text) (db db' : Db)
    → keep (λ (l : Id128 × Text). l.0 == id) db.labels ≡ []
    → db'.labels ≡ db.labels ++ labels_of id labels
    → load_labels db' id ≡ order_by text_lt labels
unfolding load_labels
load_labels-added id labels db db' none_yet e =
    rw
      (
        e,
        keep-append (λ l. l.0 == id) db.labels (labels_of id labels),
        none_yet,
        keep-labels_of id labels,
      )
      refl

in_context-eq-ok :
    {A : Type 0} {a : A} {db' : Db} (m : String) (r : Result A × Db)
    → ◌≡◌ {A = Result A × Db} (with_context m r.0, r.1) (ok a, db')
    → ◌≡◌ {A = Result A × Db} r (ok a, db')
in_context-eq-ok m (ok b, db) h = h
in_context-eq-ok m (err x, db) h = absurd (cc (ap (λ p. p.0) h))

then_pure-eq-ok :
    {A B : Type 0} {b' : B} {db' : Db} (b : B) (r : Result A × Db)
    → continue (λ _. pure b) r ≡ (ok b', db')
    → (a : A) × (r ≡ (ok a, db')) × (b' ≡ b)
then_pure-eq-ok b (ok a, db) h =
    (a, ap (λ d. (ok a, d)) (ap (λ p. p.1) h), sym (ok-injective (ap (λ p. p.0) h)))
then_pure-eq-ok b (err x, db) h = absurd (cc (ap (λ p. p.0) h))

-- An id without an entry has no labels.
no_labels-of_owners :
    (id : Id128) (db : Db)
    → HasOwners db.entries db.labels
    → has_entry id db.entries ≡ false
    → keep (λ (l : Id128 × Text). l.0 == id) db.labels ≡ []
unfolding HasOwners
no_labels-of_owners id db owners h =
    elim (Bool-cases (any (λ (l : Id128 × Text). l.0 == id) db.labels)) [
      | inr e ↦ keep-none (λ (l : Id128 × Text). l.0 == id) db.labels e
      | inl e ↦
          let (l, m, same) = mem-any (λ (l : Id128 × Text). l.0 == id) db.labels e in
          absurd (cc (owners l m, h, (==_iff l.0 id).0 same))
    ]

module _ (json : Json) (hash : Text → Text) (now : Time) where
  save_given_labels-eq-ok :
      (id : Id128) (labels : List Text) (db db' : Db)
      → keep (λ (l : Id128 × Text). l.0 == id) db.labels ≡ []
      → save_given_labels json hash now id labels db ≡ (ok tt, db')
      → (load_labels db' id ≡ order_by text_lt labels) × (db'.entries ≡ db.entries)
  unfolding save_labels delete_labels KeepsEntries
  save_given_labels-eq-ok id [] db db' n h =
      let same : db' ≡ db = sym (ap (λ p. p.1) h) in
      (
        load_labels-added id [] db db' n
            (ap (λ (d : Db). d.labels) same ∙ sym (append-nil db.labels)),
        ap (λ (d : Db). d.entries) same,
      )
  save_given_labels-eq-ok id (l ∷ ls) db db' n h =
      let saved = in_context-eq-ok "save labels" (save_labels id (l ∷ ls) db) h in
      (
        load_labels-added id (l ∷ ls) (delete_labels id db) db'
            (keep-keep_none (λ (x : Id128 × Text). x.0 == id) (λ x. not (x.0 == id)) db.labels
              (λ x e. ground arith))
            (insert_labels-eq-ok id (l ∷ ls) (delete_labels id db) db' saved),
        ap (λ p. p.1.entries) (sym saved) ∙ save_labels-KeepsEntries id (l ∷ ls) db,
      )

  get-of_row :
      (id : Id128) (db : Db) (row : EntryRow) (e : Entry) (ls : List Text)
      → find_by (is_entry id) db.entries ≡ some row
      → populate_entry json row ≡ ok e
      → load_labels db e.id ≡ ls
      → get json db id ≡ ok (record e { labels = ls })
  unfolding get found
  get-of_row id db row e ls f p l = rw (f, p, l) refl

  find-added :
      (row : EntryRow) (db : Db)
      → has_entry row.id db.entries ≡ false
      → find_by (is_entry row.id) (db.entries ++ row ∷ []) ≡ some row
  unfolding has_entry find_by
  find-added row db h =
      find_by-append_none (is_entry row.id) db.entries (row ∷ []) h ∙ rw (==_self row.id) refl

  -- After createInner has succeeded, Get returns the entry with its default hash and version, as the
  -- columns keep it.
  pub create_inner-get :
      (entry e' : Entry) (db db' : Db)
      → HasOwners db.entries db.labels
      → All (λ f. f < 4_294_967_296) entry.embedding
      → Decodes json entry.meta
      → Decodes json entry.source.meta
      → create_inner json hash now entry db ≡ (ok e', db')
      → (e' ≡ with_defaults hash entry) × (get json db' entry.id ≡ ok (stored e'))
  unfolding create_inner stored as_columns
  create_inner-get entry e' db db' n fl dm ds h =
      let e = with_defaults hash entry in
      let db1 = ensure_hierarchy now entry.scope db in
      elim (Result-cases (encoded json (with_defaults hash entry))) [
        | inr (x, f) ↦ absurd (cc (rw f at h))
        | inl (row, f) ↦
            elim (Result-cases (insert_entry row (ensure_hierarchy now entry.scope db))) [
              | inr (x, g) ↦ absurd (cc (rw (f, g) at h))
              | inl ((t, db2), g) ↦
                  let (a, saved, same) =
                    then_pure-eq-ok (with_defaults hash entry)
                      (save_given_labels json hash now entry.id entry.labels db2)
                      (rw (f, g) at h) in
                  let (kept, added) = insert_entry-eq-ok row db1 db2 g in
                  let (id, version) = encoded-row json hash now e row f in
                  let no_labels : keep (λ (l : Id128 × Text). l.0 == entry.id) db2.labels ≡ [] =
                    rw (added, ensure_hierarchy-labels now entry.scope db)
                      (no_labels-of_owners entry.id db n
                        (rw (ensure_hierarchy-entries now entry.scope db, id) at kept)) in
                  let (labels, entries) =
                    save_given_labels-eq-ok entry.id entry.labels db2 db' no_labels saved in
                  let at_id : find_by (is_entry entry.id) db'.entries ≡ some row =
                    rw (entries, added, ← id) (find-added row db1 kept) in
                  (
                    same,
                    get-of_row entry.id db' row (as_columns e) (order_by text_lt entry.labels) at_id
                          (populate-encoded json e row fl dm ds f) labels
                        ∙ ap (λ x. ok (stored x)) (sym same),
                  )
            ]
      ]
