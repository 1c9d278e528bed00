-- ===== src/Sqlite/Examples.antt =====
-- The stores of storage/sqlite on an entry that is created, updated, found and deleted.
use mathlib.Core.Path.{◌≡◌}
use known.Prelude.{
  ℕ, suc, true, false, ◌||◌, refl, none, some, List, [], ◌∷◌, arith, ◌==◌, if◌then◌else◌, Result,
  ok, err, not_found, concurrent_modification, keep, member, length, ◌≤◌,
}
use known.Prelude.Float.{Float32}
use known.Prelude.Text.{Text, codes, split, join, text_eq}
use known.Model.Types.{Id128}
use known.Model.Scope.{Scope, is_ancestor_of}
use known.Model.Entry.{Entry}
use known.Storage.{EdgeFilter}
use known.Storage.IdSlice.{IdCodec}
use known.Sqlite.Tables.{Db, Json, in_scope, marshal_nullable_json}
use known.Sqlite.Scope.{
  has_scope, ensure_hierarchy, ancestor_paths, insert_new_scopes, insert_new_scope,
}
use known.Sqlite.Scope.Below.{in_scope_lem}
use known.Sqlite.Vec.{serialize_float32, deserialize_float32}
use known.Sqlite.Vec.RoundTrip.{deserialize-serialize}
use known.Sqlite.Edge.{has_entry, edges_from, edges_to}
use known.Sqlite.Entry.{
  get, delete, encoded, row_of, with_defaults, update, create_inner, insert_entry, save_labels,
  insert_labels, insert_label, delete_labels, update_entry, updated,
}
use known.Sqlite.Entry.Stored.{stored}
use known.Sqlite.Entry.Versions.{update_stale}
use known.Sqlite.Entry.Deleted.{delete_lem}
use known.Sqlite.Tx.{Driver, create, with_tx, own_tx}
use known.Sqlite.Tx.Atomic.{IsAtomic, with_tx-IsAtomic}
use known.Sqlite.Tx.Created.{create-get}
use known.Sqlite.Consistent.{IsConsistent}
use known.Sqlite.Reachable.{Request, answer, migrated, IsReachable}
use known.Sqlite.Reachable.Holds.{reachable-IsConsistent}
use known.Sqlite.Migrate.{Schema, migrate, max_version, apply_pending, apply_one}
use known.Sqlite.Migrate.Twice.{migrate_twice}
use known.Fixture.Floats.{thousandths}
use known.Fixture.Store.{entry_of}

abbrev json : Json
json = record { marshal = λ m. ok (codes "json"); unmarshal = λ t. ok [] }

abbrev codec : IdCodec
codec = record {
  marshal = λ ss. ok (codes "json");
  unmarshal = λ t. ok [];
  string = λ id. id ∷ [];
  parse_id = λ t. ok 1;
}

abbrev hash : Text → Text
hash t = t

-- A driver that answers, and one that cannot commit.
abbrev driver : Driver
driver = record { begin = none; commit = none; rollback = none }

abbrev full_disk : Driver
full_disk = record { begin = none; commit = some not_found; rollback = none }

abbrev fresh : Db
fresh = migrated thousandths json codec hash []

abbrev first : Request
first = Request.create (record (entry_of 1) { labels = codes "b" ∷ codes "a" ∷ [] })

reachable-IsConsistent_example :
    IsConsistent (answer thousandths json codec hash driver 5 false first fresh).1
reachable-IsConsistent_example =
    reachable-IsConsistent thousandths json codec hash
      (IsReachable.alone driver 5 first (IsReachable.fresh []))

fresh-IsConsistent : IsConsistent fresh
fresh-IsConsistent = reachable-IsConsistent thousandths json codec hash (IsReachable.fresh [])

with_tx-IsAtomic_example :
    IsAtomic (delete 1) (with_tx full_disk false (λ t. delete 1)) fresh
    × (with_tx full_disk true (λ t. delete 1) fresh ≡ delete 1 fresh)
with_tx-IsAtomic_example = with_tx-IsAtomic full_disk (λ t. delete 1) fresh

abbrev labelled : Entry
labelled = record (entry_of 1) { labels = codes "b" ∷ codes "a" ∷ []; created_at = 5_400_000 }

abbrev with_entry : Db
with_entry = record fresh {
  scopes = record { path = codes "root"; meta = none; created_at = 0 } ∷ [];
  entries = row_of (with_defaults hash labelled) none none ∷ [];
  labels = (1, codes "b") ∷ (1, codes "a") ∷ [];
}

create_run :
    create driver json hash 5 false labelled fresh ≡ (ok (with_defaults hash labelled), with_entry)
unfolding create own_tx create_inner ensure_hierarchy split insert_entry save_labels with_defaults
    encoded marshal_nullable_json ancestor_paths insert_new_scopes insert_new_scope has_scope
    has_entry insert_labels insert_label delete_labels keep text_eq join row_of
create_run = refl

create-get_example :
    (with_defaults hash labelled ≡ with_defaults hash labelled)
    × (get json with_entry 1 ≡ ok (stored (with_defaults hash labelled)))
create-get_example =
    create-get driver json hash 5 false labelled (with_defaults hash labelled) fresh with_entry
      fresh-IsConsistent (omega arith) (λ m t e. absurd (cc e)) (λ m t e. absurd (cc e)) create_run

-- Two writers that read version 1.
abbrev early : Entry
early = record labelled { content = codes "early"; labels = []; version = 1 }

abbrev late : Entry
late = record early { content = codes "late" }

abbrev revised : Db
revised = record with_entry {
  entries =
      record (row_of (record early { content_hash = codes "early"; version = 2 }) none none) {
        created_at = 5;
      }
      ∷ [];
  labels = [];
}

update_run :
    update json hash 6 early with_entry
    ≡ (ok (record early { content_hash = codes "early"; version = 2 }), revised)
unfolding update ensure_hierarchy split update_entry save_labels encoded marshal_nullable_json
    ancestor_paths insert_new_scopes insert_new_scope has_scope keep text_eq join row_of updated
    insert_labels delete_labels with_defaults
update_run = refl

late_run :
    encoded json (record late { content_hash = hash late.content })
    ≡ ok (row_of (record late { content_hash = codes "late" }) none none)
unfolding encoded marshal_nullable_json
late_run = refl

update_stale_example :
    ((update json hash 7 late revised).0 ≡ err (concurrent_modification 1 2))
    × ((update json hash 7 late revised).1.entries ≡ revised.entries)
unfolding member with_defaults row_of
update_stale_example =
    update_stale json hash 6 early late (record early { content_hash = codes "early"; version = 2 })
      with_entry revised 7 (refl, tt) update_run refl refl
      (row_of (record late { content_hash = codes "late" }) none none) late_run

has_first : has_entry 1 with_entry.entries ≡ true
unfolding has_entry row_of with_defaults
has_first = refl

delete_lem_example :
    ((delete 1 with_entry).0 ≡ ok tt)
    × ((f : EdgeFilter) → edges_from thousandths json (delete 1 with_entry).1 1 f ≡ ok [])
    × ((f : EdgeFilter) → edges_to thousandths json (delete 1 with_entry).1 1 f ≡ ok [])
    × ((other : Id128)
        → get json (delete 1 with_entry).1 other
          ≡ (if other == 1 then err not_found else get json with_entry other))
delete_lem_example = delete_lem thousandths json 1 with_entry has_first

abbrev root : Scope
root = record { path = codes "root"; meta = none; created_at = 5 }

abbrev nested : Scope
nested = record { path = codes "root.cmd"; meta = none; created_at = 5 }

in_scope_lem_example :
    in_scope (codes "root") (codes "root.cmd")
    ≡ (text_eq (codes "root.cmd") (codes "root") || is_ancestor_of root nested)
in_scope_lem_example =
    in_scope_lem root nested
      ((refl, refl, refl), ((refl, refl, refl), ((refl, refl, refl), ((refl, refl, refl), tt))))
      (refl, (refl, (refl, (refl, (refl, (refl, (refl, (refl, tt))))))))

abbrev vector : List Float32
vector = 1_065_353_216 ∷ 3_212_836_864 ∷ []

deserialize-serialize_example : deserialize_float32 (serialize_float32 vector) ≡ vector
deserialize-serialize_example = deserialize-serialize vector (omega arith)

-- Two migrations, on a schema that counts those that ran.
abbrev exec : Text → ℕ → Result ℕ
exec file n = ok (suc n)

abbrev files : List Text
files = codes "tables" ∷ codes "title" ∷ []

abbrev empty_schema : Schema exec
empty_schema = record { versions = []; tables = 0 }

abbrev schema : Schema exec
schema = record { versions = 1 ∷ 2 ∷ []; tables = 2 }

migrate_run : migrate exec files empty_schema ≡ (ok tt, schema)
unfolding migrate apply_pending apply_one max_version member
migrate_run = refl

migrate_twice_example :
    (length files ≤ max_version exec schema.versions)
    × (migrate exec files schema ≡ (ok tt, schema))
migrate_twice_example = migrate_twice exec files empty_schema schema migrate_run
