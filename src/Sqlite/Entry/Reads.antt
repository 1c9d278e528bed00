-- ===== src/Sqlite/Entry/Reads.antt =====
-- Get of storage/sqlite/entry.go: what it reads, and when.
use mathlib.Core.Path.{◌≡◌}
use mathlib.Core.List.{Memᴰ}
use known.Prelude.{
  true, refl, sym, ap, ◌∙◌, ◌⊎◌, inl, inr, Option, map, find_by, member, ==_iff, Option-cases,
  Result-cases, ok, err, Error, not_found, is_not_found, with_context, ok-injective,
}
use known.Prelude.Rows.{find_by-some, find_by-none, member-of_mem}
use known.Prelude.Text.{Text}
use known.Model.Types.{Id128, Metadata}
use known.Model.Entry.{Entry}
use known.Sqlite.Tables.{EntryRow, EdgeRow, Db, Json, unmarshal_nullable_json}
use known.Sqlite.Edge.{is_entry, has_entry}
use known.Sqlite.Entry.{populated, populate_entry, load_labels, get, found}

module _ (json : Json) where
  abbrev pub IsReadableColumn : Option Text → Type 0
  IsReadableColumn column = (m : Metadata) × (unmarshal_nullable_json json column ≡ ok m)

  abbrev pub IsReadableRow : EntryRow → Type 0
  IsReadableRow r = IsReadableColumn r.source_meta × IsReadableColumn r.meta

  -- Every metadata column decodes.
  pub record IsDecodable (db : Db) : Type 0 where
    pub entries : (r : EntryRow) → Memᴰ r db.entries → IsReadableRow r
    pub edges : (g : EdgeRow) → Memᴰ g db.edges → IsReadableColumn g.meta

  pub populate_entry_total :
      (r : EntryRow) → IsReadableRow r → (e : Entry) × (populate_entry json r ≡ ok e)
  unfolding populate_entry
  populate_entry_total r ((source_meta, p), (meta, q)) =
      (populated json r source_meta meta, rw (p, q, populate_entry) refl)

  pub populate_entry-id : (r : EntryRow) (e : Entry) → populate_entry json r ≡ ok e → e.id ≡ r.id
  unfolding populate_entry
  populate_entry-id r e h =
      elim (Result-cases
        (with_context "unmarshal source meta" (unmarshal_nullable_json json r.source_meta))) [
          | inr (x, f) ↦ absurd (cc (rw (f, populate_entry) at h))
          | inl (source_meta, f) ↦
              elim (Result-cases
                (with_context "unmarshal meta" (unmarshal_nullable_json json r.meta))) [
                  | inr (x, g) ↦ absurd (cc (rw (f, g, populate_entry) at h))
                  | inl (meta, g) ↦
                      ap (λ (x : Entry). x.id) (sym (ok-injective (rw (f, g, populate_entry) at h)))
                ]
        ]

  -- What Get returns has the id that it was asked for.
  pub get-id : (db : Db) (id : Id128) (e : Entry) → get json db id ≡ ok e → e.id ≡ id
  unfolding get found
  get-id db id e h = elim (Option-cases (find_by (is_entry id) db.entries)) [
    | inl n ↦ absurd (cc (rw n at h))
    | inr (r, f) ↦ elim (Result-cases (populate_entry json r)) [
      | inr (x, p) ↦ absurd (cc (rw (f, p) at h))
      | inl (entry, p) ↦
          ap (λ (x : Entry). x.id) (sym (ok-injective (rw (f, p) at h)))
          ∙ populate_entry-id r entry p
          ∙ (==_iff r.id id).0 (find_by-some (is_entry id) db.entries r f).1
    ]
  ]

  pub get-of_entry :
      (db : Db) (id : Id128)
      → IsDecodable db
      → has_entry id db.entries ≡ true
      → (e : Entry) × (get json db id ≡ ok e)
  unfolding get found has_entry
  get-of_entry db id d h = elim (Option-cases (find_by (is_entry id) db.entries)) [
    | inl n ↦ absurd (cc (find_by-none (is_entry id) db.entries n, h))
    | inr (r, f) ↦
        let (m, same) = find_by-some (is_entry id) db.entries r f in
        let (e, p) = populate_entry_total r (d.entries r m) in
        (record e { labels = load_labels db e.id }, rw (f, p) refl)
  ]

  pub get_total :
      (db : Db) (id : Id128)
      → IsDecodable db
      → ((e : Entry) × (get json db id ≡ ok e)
          × (member id (map (λ (r : EntryRow). r.id) db.entries) ≡ true))
        ⊎ ((x : Error) × (get json db id ≡ err x) × (is_not_found x ≡ true))
  unfolding get found is_not_found
  get_total db id d = elim (Option-cases (find_by (is_entry id) db.entries)) [
    | inl n ↦ inr (not_found, rw n refl, refl)
    | inr (r, f) ↦
        let (m, same) = find_by-some (is_entry id) db.entries r f in
        let (e, p) = populate_entry_total r (d.entries r m) in
        inl (
          record e { labels = load_labels db e.id },
          rw (f, p) refl,
          rw (← (==_iff r.id id).0 same) (member-of_mem (λ (x : EntryRow). x.id) db.entries r m),
        )
  ]
