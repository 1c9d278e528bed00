-- ===== src/Sqlite/Entry/Versions.antt =====
-- Update of storage/sqlite/entry.go: the versions that guard it.
use known.Prelude.{
  ◌≡◌, refl, sym, ap, ◌∙◌, subst, ℕ, zero, suc, true, false, some, List, [], ◌∷◌, map, length, keep,
  any, member, ◌==◌, ltb, find_by, Option-cases, ok-injective, with_context, Result, ok, err,
  concurrent_modification, inl, inr, ==_iff, Bool-cases, Result-cases, arith,
}
use known.Prelude.Sets.{IsDistinct}
use known.Prelude.Text.{Text}
use known.Model.Types.{Id128, Time}
use known.Model.Entry.{Entry}
use known.Sqlite.Tables.{EntryRow, Db, Json, marshal_nullable_json}
use known.Sqlite.Scope.{has_scope, ensure_hierarchy}
use known.Sqlite.Edge.{is_entry}
use known.Sqlite.Entry.{
  is_other, revise, updated, is_version, update_entry, update, row_of, encoded, after_update,
  probes,
}
use known.Sqlite.Entry.Same.{
  bind-KeepsEntries, in_context-KeepsEntries, reads-KeepsEntries, pure-KeepsEntries, KeepsEntries,
  ensure_hierarchy-entries, save_labels-KeepsEntries,
}

abbrev ids : List EntryRow → List Id128
ids = map (λ (r : EntryRow). r.id)

-- After a row has been revised, no row has its id and old version.
revise-gone :
    (row : EntryRow) (rows : List EntryRow)
    → length (keep (is_version row.id row.version) (map (revise row) rows)) ≡ 0
unfolding keep updated
revise-gone row [] = refl
revise-gone row (x ∷ rows) = elim (Bool-cases (is_version row.id row.version x)) [
  | inl e ↦
      let no : is_version row.id row.version (updated row x) ≡ false = ground arith in
      rw (e, no) (revise-gone row rows)
  | inr e ↦ rw (e, e) (revise-gone row rows)
]

-- A row of another id stays.
find-other :
    (row : EntryRow) (rows : List EntryRow)
    → member row.id (ids rows) ≡ false
    → length (keep (is_version row.id row.version) rows) ≡ 0
unfolding keep member
find-other row [] h = refl
find-other row (x ∷ rows) h =
    let no : is_version row.id row.version x ≡ false = ground arith in
    rw no (find-other row rows (ground arith))

-- The row of the id, after a revision that found its version.
find-revised :
    (row : EntryRow) (rows : List EntryRow) (n : ℕ)
    → IsDistinct (ids rows)
    → length (keep (is_version row.id row.version) rows) ≡ suc n
    → (r : EntryRow) × (find_by (is_entry row.id) (map (revise row) rows) ≡ some r)
      × (r.version ≡ suc row.version)
unfolding keep find_by updated
find-revised row [] n d h = absurd (omega arith)
find-revised row (x ∷ rows) n d h = elim (Bool-cases (is_version row.id row.version x)) [
  | inl e ↦
      let same : (x.id == row.id) ≡ true = ground arith in rw e (updated row x, rw same refl, refl)
  | inr e ↦ elim (Bool-cases (x.id == row.id)) [
    | inr f ↦ rw (e, f) (find-revised row rows n d.1 (rw (e, keep) at h))
    | inl f ↦ absurd (
        let none_left =
          find-other row rows
            (subst (λ i. member i (ids rows) ≡ false) ((==_iff x.id row.id).0 f) d.0) in
        let some_left = rw (e, keep) at h in omega arith)
  ]
]

update_entry-rows :
    (row : EntryRow) (db db' : Db) (n : ℕ)
    → update_entry row db ≡ ok (n, db')
    → (n ≡ length (keep (is_version row.id row.version) db.entries))
      × (db'.entries ≡ map (revise row) db.entries)
unfolding update_entry
update_entry-rows row db db' n h =
    elim (Bool-cases (ltb 0 (length (keep (is_version row.id row.version) db.entries)))) [
      | inr e ↦ rows_of (rw e at h)
      | inl e ↦ elim (Bool-cases (any (is_other row) db.entries)) [
        | inl f ↦ absurd (cc (rw (e, f) at h))
        | inr f ↦ elim (Bool-cases (has_scope row.scope db.scopes)) [
          | inr g ↦ absurd (cc (rw (e, f, g) at h))
          | inl g ↦ rows_of (rw (e, f, g) at h)
        ]
      ]
    ]
  where
    rows_of :
        ◌≡◌ {A = Result (ℕ × Db)}
          (ok (
            length (keep (is_version row.id row.version) db.entries),
            record db { entries = map (revise row) db.entries },
          ))
          (ok (n, db'))
        → (n ≡ length (keep (is_version row.id row.version) db.entries))
          × (db'.entries ≡ map (revise row) db.entries)
    rows_of e = let p = ok-injective e in (sym (ap (λ q. q.0) p), sym (ap (λ q. q.1.entries) p))

map-revise_none :
    (row : EntryRow) (rows : List EntryRow)
    → length (keep (is_version row.id row.version) rows) ≡ 0
    → map (revise row) rows ≡ rows
unfolding keep
map-revise_none row [] h = refl
map-revise_none row (x ∷ rows) h = elim (Bool-cases (is_version row.id row.version x)) [
  | inl e ↦ absurd (let some_left = rw (e, keep) at h in omega arith)
  | inr e ↦ rw e (ap (λ r. x ∷ r) (map-revise_none row rows (rw (e, keep) at h)))
]

module _ (json : Json) (hash : Text → Text) (now : Time) where
  pub encoded-row :
      (e : Entry) (row : EntryRow)
      → encoded json e ≡ ok row
      → (row.id ≡ e.id) × (row.version ≡ e.version)
  unfolding encoded row_of
  encoded-row e row h =
      elim (Result-cases (with_context "marshal meta" (marshal_nullable_json json e.meta))) [
        | inr (x, f) ↦ absurd (cc (rw (f, encoded) at h))
        | inl (meta, f) ↦
            elim (Result-cases
              (with_context "marshal source meta" (marshal_nullable_json json e.source.meta))) [
                | inr (x, g) ↦ absurd (cc (rw (f, encoded, g) at h))
                | inl (source_meta, g) ↦
                    let p = sym (ok-injective (rw (f, encoded, g) at h)) in
                    (ap (λ (r : EntryRow). r.id) p, ap (λ (r : EntryRow). r.version) p)
              ]
      ]

  probes-KeepsEntries : (e : Entry) → KeepsEntries (probes json hash now e)
  probes-KeepsEntries e = reads-KeepsEntries _

  after_update-KeepsEntries : (e : Entry) (n : ℕ) → KeepsEntries (after_update json hash now e n)
  after_update-KeepsEntries e zero = probes-KeepsEntries e
  after_update-KeepsEntries e (suc zero) =
      search
        (bind-KeepsEntries, in_context-KeepsEntries, save_labels-KeepsEntries, pure-KeepsEntries)
  after_update-KeepsEntries e (suc (suc n)) = probes-KeepsEntries e

  probes-fails : (e e' : Entry) (db db' : Db) → probes json hash now e db ≡ (ok e', db') → ⊥
  probes-fails e e' db db' h = elim (Option-cases (find_by (is_entry e.id) db.entries)) [
    | inl n ↦ cc (rw n at h)
    | inr (r, n) ↦ cc (rw n at h)
  ]

  -- An update that succeeded has revised the row of the version that it was given.
  pub update-eq-ok :
      (entry e' : Entry) (db db' : Db)
      → update json hash now entry db ≡ (ok e', db')
      → (row : EntryRow) × (row.id ≡ entry.id)
        × (row.version ≡ entry.version)
        × (length (keep (is_version row.id row.version) db.entries) ≡ 1)
        × (db'.entries ≡ map (revise row) db.entries)
  unfolding update KeepsEntries
  update-eq-ok entry e' db db' h =
      elim (Result-cases (encoded json (record entry { content_hash = hash entry.content }))) [
        | inr (x, e) ↦ absurd (cc (rw e at h))
        | inl (row, e) ↦
            elim (Result-cases (update_entry row (ensure_hierarchy now entry.scope db))) [
              | inr (x, f) ↦ absurd (cc (rw (e, f) at h))
              | inl ((zero, db2), f) ↦ absurd (
                  probes-fails (record entry { content_hash = hash entry.content }) e' db2 db'
                    (rw (e, f) at h))
              | inl ((suc (suc n), db2), f) ↦ absurd (
                  probes-fails (record entry { content_hash = hash entry.content }) e' db2 db'
                    (rw (e, f) at h))
              | inl ((suc zero, db2), f) ↦
                  let (a, b) =
                    encoded-row (record entry { content_hash = hash entry.content }) row e in
                  let same = ensure_hierarchy-entries now entry.scope db in
                  let (count, rows) =
                    update_entry-rows row (ensure_hierarchy now entry.scope db) db2 1 f in
                  let after = rw (e, f) at h in
                  (
                    row,
                    a,
                    b,
                    sym (rw same at count),
                    sym (ap (λ p. p.1.entries) after)
                        ∙ after_update-KeepsEntries
                            (record entry { content_hash = hash entry.content }) 1 db2
                        ∙ rw same at rows,
                  )
            ]
      ]

  -- UPDATE where no row has the id and the version: it changes no row.
  update_entry-none :
      (row : EntryRow) (db : Db)
      → length (keep (is_version row.id row.version) db.entries) ≡ 0
      → (db' : Db) × (update_entry row db ≡ ok (0, db')) × (db'.entries ≡ db.entries)
  unfolding update_entry
  update_entry-none row db h = (
    record db { entries = map (revise row) db.entries },
    rw h refl,
    map-revise_none row db.entries h,
  )

  module _ (entry late e' : Entry) (db db' : Db) (now' : Time) where
    -- Two writers that read one version of an entry: once the update of the first has succeeded, that
    -- of the second, whatever it writes, fails with the conflict of the two versions and leaves the
    -- entries as they are, if its metadata can be encoded. The ids of the entries are distinct.
    pub update_stale :
        IsDistinct (ids db.entries)
        → update json hash now entry db ≡ (ok e', db')
        → late.id ≡ entry.id
        → late.version ≡ entry.version
        → (row : EntryRow)
        → encoded json (record late { content_hash = hash late.content }) ≡ ok row
        → ((update json hash now' late db').0
            ≡ err (concurrent_modification late.version (suc late.version)))
          × ((update json hash now' late db').1.entries ≡ db'.entries)
    unfolding update
    update_stale d h i v row e =
        let (first, i1, v1, count, rows) = update-eq-ok entry e' db db' h in
        let (i2, v2) = encoded-row (record late { content_hash = hash late.content }) row e in
        let tables = ensure_hierarchy now' late.scope db' in
        let same : tables.entries ≡ map (revise first) db.entries =
          ensure_hierarchy-entries now' late.scope db' ∙ rows in
        let gone : length (keep (is_version row.id row.version) tables.entries) ≡ 0 =
          rw (same, i2, v2, i, v, ← i1, ← v1) (revise-gone first db.entries) in
        let (db2, stale, kept) = update_entry-none row tables gone in
        let (r, at_id, version) = find-revised first db.entries 0 d count in
        let seen : find_by (is_entry late.id) db2.entries ≡ some r =
          rw (kept, same, i, ← i1) at_id in
        rw (e, stale, seen, version, v1, v)
          (refl, kept ∙ ensure_hierarchy-entries now' late.scope db')
