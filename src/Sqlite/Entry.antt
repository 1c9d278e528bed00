-- ===== src/Sqlite/Entry.antt =====
-- storage/sqlite/entry.go: the rows of `entries` and `entry_labels`, and the methods that write and
-- read one entry. `hash` is model.ComputeContentHash, and `now` the time of the call.
pub mod Same
pub mod Reads
pub mod Versions
pub mod Deleted
pub mod Stored
pub mod Created
use Prim.Native.String.{String}
use known.Prelude.{
  ℕ, zero, suc, ◌+◌, ◌-◌, ◌*◌, ◌/◌, Bool, true, false, not, ◌&&◌, ◌||◌, Option, none, some, List,
  [], ◌∷◌, ◌++◌, map, any, keep, find_by, member, length, ltb, ◌==◌, if◌then◌else◌, Error,
  not_found, duplicate_content, concurrent_modification, sql, SqlError, unique_failed,
  foreign_key_failed, check_failed, errorf, wrap, Result, ok, err, with_context,
}
use known.Prelude.Order.{order_by}
use known.Prelude.Text.{Text, text_eq, text_lt, is_empty}
use known.Model.Types.{Id128, Time, Metadata, Source, Provenance, Freshness}
use known.Model.Entry.{Entry}
use known.Sqlite.Tables.{
  EntryRow, EdgeRow, Db, Action, affected, pure, raise, reads, executes, in_context, ◌>>=◌, ◌>>◌,
  format_time, parse_time, format_nullable_time, parse_nullable_time, nullable_string, string_of,
  nullable_int, int_of, map_option, Json, marshal_nullable_json, unmarshal_nullable_json,
}
use known.Sqlite.Vec.{serialize_float32, deserialize_float32}
use known.Sqlite.Scope.{has_scope, ensure_hierarchy}
use known.Sqlite.Edge.{is_entry, has_entry}

abbrev pub second : ℕ
second = 1_000_000_000

abbrev blob_of : List ℕ → Option (List ℕ)
blob_of [] = none
blob_of (f ∷ v) = some (serialize_float32 (f ∷ v))

abbrev floats_of : Option (List ℕ) → List ℕ
floats_of none = []
floats_of (some b) = deserialize_float32 b

-- The default hash and version of Create.
unfoldable pub with_defaults : (Text → Text) → Entry → Entry
with_defaults hash e = record e {
  content_hash = if is_empty e.content_hash then hash e.content else e.content_hash;
  version = if e.version == 0 then 1 else e.version;
}

-- The arguments of the statements, of an entry and its encoded metadata.
unfoldable pub row_of : Entry → Option Text → Option Text → EntryRow
row_of e meta source_meta = record {
  id = e.id;
  title = e.title;
  content = e.content;
  content_hash = e.content_hash;
  embedding = blob_of e.embedding;
  embedding_dim = nullable_int e.embedding_dim;
  embedding_model = nullable_string e.embedding_model;
  source_type = e.source.type;
  source_ref = e.source.reference;
  source_meta = source_meta;
  confidence = e.provenance.level;
  scope = e.scope;
  ttl_seconds = map_option (λ t. t / second) e.ttl;
  expires_at = format_nullable_time e.expires_at;
  meta = meta;
  version = e.version;
  created_at = format_time e.created_at;
  updated_at = format_time e.updated_at;
  observed_at = some (format_time e.freshness.observed_at);
  observed_by = nullable_string e.freshness.observed_by;
  source_hash = nullable_string e.freshness.source_hash;
}

-- The columns of the unique constraint on content hash and scope.
abbrev pub same_content : Text → Text → EntryRow → Bool
same_content content_hash scope r = text_eq r.content_hash content_hash && text_eq r.scope scope

-- INSERT INTO entries, under the constraints of the table.
unfoldable pub insert_entry : EntryRow → Db → Result (Unit {0} × Db)
unfolding has_entry has_scope
insert_entry r db =
    if has_entry r.id db.entries || any (same_content r.content_hash r.scope) db.entries
    then err (sql unique_failed)
    else if not (has_scope r.scope db.scopes)
    then err (sql foreign_key_failed)
    else ok (tt, record db { entries = db.entries ++ r ∷ [] })

-- DO UPDATE SET …: the id, the hash, the scope and the creation time stay, the version grows.
unfoldable pub merged : EntryRow → EntryRow → EntryRow
merged excluded old = record excluded {
  id = old.id;
  content_hash = old.content_hash;
  scope = old.scope;
  version = suc old.version;
  created_at = old.created_at;
}

abbrev pub merge : EntryRow → EntryRow → EntryRow
merge r old = if same_content r.content_hash r.scope old then merged r old else old

-- INSERT INTO entries … ON CONFLICT (content_hash, scope) DO UPDATE
unfoldable pub upsert_entry : EntryRow → Db → Result (Unit {0} × Db)
unfolding insert_entry merged
upsert_entry r db =
    if any (same_content r.content_hash r.scope) db.entries
    then ok (tt, record db { entries = map (merge r) db.entries })
    else insert_entry r db

-- `WHERE id = ? AND version = ?`
abbrev pub is_version : Id128 → ℕ → EntryRow → Bool
is_version id version r = (r.id == id) && (r.version == version)

-- The columns of UPDATE entries: all but the id and the creation time.
unfoldable pub updated : EntryRow → EntryRow → EntryRow
updated new old = record new { id = old.id; version = suc new.version; created_at = old.created_at }

abbrev pub revise : EntryRow → EntryRow → EntryRow
revise r old = if is_version r.id r.version old then updated r old else old

abbrev pub is_other : EntryRow → EntryRow → Bool
is_other r old = not (old.id == r.id) && same_content r.content_hash r.scope old

-- UPDATE entries, and the number of rows. A row of another id keeps its content hash and scope
-- unique.
unfoldable pub update_entry : EntryRow → Db → Result (ℕ × Db)
unfolding keep has_scope updated
update_entry r db =
    let n = length (keep (is_version r.id r.version) db.entries) in
    if ltb 0 n && any (is_other r) db.entries
    then err (sql unique_failed)
    else if ltb 0 n && not (has_scope r.scope db.scopes)
    then err (sql foreign_key_failed)
    else ok (n, record db { entries = map (revise r) db.entries })

-- ON DELETE CASCADE: the labels and the edges of the entries that are gone.
abbrev pub loses_end : List Id128 → EdgeRow → Bool
loses_end gone g = member g.from_id gone || member g.to_id gone

-- DELETE FROM entries WHERE …, and the number of rows.
unfoldable pub delete_entries : (EntryRow → Bool) → Db → ℕ × Db
unfolding keep member
delete_entries p db =
    let gone = map (λ (r : EntryRow). r.id) (keep p db.entries) in
    (
      length gone,
      record db {
        entries = keep (λ r. not (p r)) db.entries;
        labels = keep (λ (l : Id128 × Text). not (member l.0 gone)) db.labels;
        edges = keep (λ g. not (loses_end gone g)) db.edges;
      },
    )

abbrev pub has_label : Id128 → Text → Id128 × Text → Bool
has_label id label (k, l) = (k == id) && text_eq l label

-- INSERT INTO entry_labels, whose primary key is the pair.
unfoldable pub insert_label : Id128 → Text → Db → Result (Unit {0} × Db)
unfolding has_entry
insert_label id label db =
    if any (has_label id label) db.labels
    then err (sql unique_failed)
    else if not (has_entry id db.entries)
    then err (sql foreign_key_failed)
    else ok (tt, record db { labels = db.labels ++ (id, label) ∷ [] })

unfoldable pub insert_labels : Id128 → List Text → Action (Unit {0})
unfolding insert_label
insert_labels id [] = pure tt
insert_labels id (label ∷ rest) = do
  in_context "insert label" (executes (insert_label id label))
  insert_labels id rest

unfoldable pub delete_labels : Id128 → Db → Db
unfolding keep
delete_labels id db = record db { labels = keep (λ (l : Id128 × Text). not (l.0 == id)) db.labels }

unfoldable pub save_labels : Id128 → List Text → Action (Unit {0})
unfolding insert_labels delete_labels
save_labels id labels = do executes (λ db. ok (tt, delete_labels id db)); insert_labels id labels

-- loadLabels: the labels of an entry in their order.
unfoldable pub load_labels : Db → Id128 → List Text
unfolding keep order_by text_lt
load_labels db id =
    order_by text_lt
      (map (λ (l : Id128 × Text). l.1) (keep (λ (l : Id128 × Text). l.0 == id) db.labels))

-- isUniqueConstraintError: whether the text of an error holds "constraint failed".
unfoldable pub is_unique_constraint_error : SqlError → Bool
is_unique_constraint_error unique_failed = true
is_unique_constraint_error foreign_key_failed = true
is_unique_constraint_error check_failed = true
is_unique_constraint_error SqlError.syntax = false

abbrev create_error : Error → Error
create_error (sql e) =
    if is_unique_constraint_error e
    then wrap "content_hash+scope" duplicate_content
    else wrap "create entry" (sql e)
create_error e = wrap "create entry" e

abbrev pub create_result : {A : Type 0} → Result A × Db → Result A × Db
create_result (ok a, db) = (ok a, db)
create_result (err e, db) = (err (create_error e), db)

unfoldable pub delete : Id128 → Action (Unit {0})
unfolding delete_entries
delete id = do n ← executes (λ db. ok (delete_entries (is_entry id) db)); affected n

-- `expires_at IS NOT NULL AND expires_at <= ?`
abbrev pub is_expired_at : ℕ → EntryRow → Bool
is_expired_at now r = elim r.expires_at [ none ↦ false | some t ↦ not (ltb now t) ]

unfoldable pub delete_expired : Time → Db → ℕ × Db
unfolding delete_entries
delete_expired now db = delete_entries (is_expired_at (format_time now)) db

module _ (json : Json) where
  abbrev populated : EntryRow → Metadata → Metadata → Entry
  populated r source_meta meta = record {
    id = r.id;
    title = r.title;
    content = r.content;
    content_hash = r.content_hash;
    embedding = floats_of r.embedding;
    embedding_dim = int_of r.embedding_dim;
    embedding_model = string_of r.embedding_model;
    source = record { type = r.source_type; reference = r.source_ref; meta = source_meta };
    provenance = record { level = r.confidence };
    freshness = record {
      observed_at = parse_time (elim r.observed_at [ none ↦ r.created_at | some t ↦ t ]);
      observed_by = string_of r.observed_by;
      source_hash = string_of r.source_hash;
    };
    scope = r.scope;
    ttl = map_option (λ n. n * second) r.ttl_seconds;
    expires_at = parse_nullable_time r.expires_at;
    meta = meta;
    labels = [];
    version = r.version;
    created_at = parse_time r.created_at;
    updated_at = parse_time r.updated_at;
    conflicts_with = [];
    resolution_status = [];
  }

  unfoldable pub populate_entry : EntryRow → Result Entry
  populate_entry r =
      elim (with_context "unmarshal source meta" (unmarshal_nullable_json json r.source_meta)) [
        | err e ↦ err e
        | ok source_meta ↦
            elim (with_context "unmarshal meta" (unmarshal_nullable_json json r.meta)) [
              | err e ↦ err e
              | ok meta ↦ ok (populated r source_meta meta)
            ]
      ]

  -- A row that was found, with its labels.
  abbrev with_stored_labels : Db → Result Entry → Result Entry
  with_stored_labels db (err e) = err e
  with_stored_labels db (ok e) = ok (record e { labels = load_labels db e.id })

  found : Db → Option EntryRow → Result Entry
  unfolding populate_entry load_labels
  found db none = err not_found
  found db (some r) = with_stored_labels db (with_context "get entry" (populate_entry r))

  unfoldable pub get : Db → Id128 → Result Entry
  unfolding found find_by
  get db id = found db (find_by (is_entry id) db.entries)

  -- The encoded metadata, meta first.
  unfoldable pub encoded : Entry → Result EntryRow
  unfolding row_of
  encoded e = elim (with_context "marshal meta" (marshal_nullable_json json e.meta)) [
    | err x ↦ err x
    | ok meta ↦
        elim (with_context "marshal source meta" (marshal_nullable_json json e.source.meta)) [
          | err x ↦ err x
          | ok source_meta ↦ ok (row_of e meta source_meta)
        ]
  ]

  module _ (hash : Text → Text) (now : Time) where
    abbrev pub save_given_labels : Id128 → List Text → Action (Unit {0})
    save_given_labels id [] = pure tt
    save_given_labels id (l ∷ ls) = in_context "save labels" (save_labels id (l ∷ ls))

    -- createInner, with the entry that the argument points to after the call.
    unfoldable pub create_inner : Entry → Action Entry
    unfolding with_defaults encoded ensure_hierarchy insert_entry save_labels
    create_inner entry = do
      let e = with_defaults hash entry
      executes (λ db. ok (tt, ensure_hierarchy now e.scope db))
      row ← reads (λ _. encoded e)
      (λ db. create_result (executes (insert_entry row) db))
      save_given_labels e.id e.labels
      pure e

    unfoldable pub stored_as : Entry → Db → Result Entry
    unfolding populate_entry load_labels
    stored_as e db = elim (find_by (same_content e.content_hash e.scope) db.entries) [
      | none ↦ err (errorf "sql: no rows in result set")
      | some r ↦ with_stored_labels db (populate_entry r)
    ]

    abbrev pub save_labels_of : Entry → List Text → Action (Unit {0})
    save_labels_of e [] = pure tt
    save_labels_of e (l ∷ ls) = do
      r ← reads (λ db. elim (find_by (same_content e.content_hash e.scope) db.entries) [
        | none ↦ err (errorf "fetch result id")
        | some row ↦ ok row
      ])
      in_context "save labels" (save_labels r.id (l ∷ ls))

    -- createOrUpdateInner
    unfoldable pub create_or_update_inner : Entry → Action Entry
    unfolding with_defaults encoded ensure_hierarchy upsert_entry save_labels stored_as
    create_or_update_inner entry = do
      let e = with_defaults hash entry
      executes (λ db. ok (tt, ensure_hierarchy now e.scope db))
      row ← reads (λ _. encoded e)
      in_context "create or update entry" (executes (upsert_entry row))
      save_labels_of e e.labels
      reads (stored_as e)

    -- What follows an update that changed no row.
    abbrev pub probe : Entry → Option EntryRow → Result Entry
    probe e none = err not_found
    probe e (some r) = err (concurrent_modification e.version r.version)

    abbrev pub probes : Entry → Action Entry
    probes e = reads (λ db. probe e (find_by (is_entry e.id) db.entries))

    -- `n == 1`, or else the version in the table is looked up.
    abbrev pub after_update : Entry → ℕ → Action Entry
    after_update e zero = probes e
    after_update e (suc zero) = do
      in_context "save labels" (save_labels e.id e.labels)
      pure (record e { version = suc e.version })
    after_update e (suc (suc n)) = probes e

    unfoldable pub update : Entry → Action Entry
    unfolding encoded ensure_hierarchy update_entry save_labels
    update entry = do
      let e = record entry { content_hash = hash entry.content }
      executes (λ db. ok (tt, ensure_hierarchy now e.scope db))
      row ← reads (λ _. encoded e)
      n ← in_context "update entry" (executes (update_entry row))
      after_update e n
