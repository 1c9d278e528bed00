-- ===== src/Sqlite/Scope.antt =====
-- storage/sqlite/scope.go: the rows of `scopes`.
pub mod Below
use known.Prelude.{
  ℕ, keep, find_by, Bool, true, not, ◌&&◌, Option, none, some, List, [], ◌∷◌, ◌++◌, any, length,
  if◌then◌else◌, not_found, sql, foreign_key_failed, Result, ok, err, with_context,
}
use known.Prelude.Order.{order_by}
use known.Prelude.Text.{Text, text_eq, text_lt, codes, split, join}
use known.Model.Types.{Time}
use known.Model.Scope.{Scope, dot}
use known.Sqlite.Tables.{
  ScopeRow, EntryRow, Db, Action, affected, reads, executes, in_context, ◌>>=◌, format_time,
  parse_time, Json, marshal_nullable_json, unmarshal_nullable_json, like,
}

abbrev pub is_path : Text → ScopeRow → Bool
is_path path r = text_eq r.path path

unfoldable pub has_scope : Text → List ScopeRow → Bool
has_scope path rows = any (is_path path) rows

-- INSERT … ON CONFLICT (path) DO NOTHING
unfoldable pub insert_new_scope : Time → Text → Db → Db
unfolding has_scope
insert_new_scope now path db = if has_scope path db.scopes then db else record db {
  scopes = db.scopes ++ record { path = path; meta = none; created_at = format_time now } ∷ [];
}

-- The paths `strings.Join(segments[:i+1], ".")` in the order of the loop.
unfoldable pub ancestor_paths : List Text → List Text → List Text
ancestor_paths before [] = []
ancestor_paths before (seg ∷ rest) =
    join dot (before ++ seg ∷ []) ∷ ancestor_paths (before ++ seg ∷ []) rest

unfoldable pub insert_new_scopes : Time → List Text → Db → Db
unfolding insert_new_scope
insert_new_scopes now [] db = db
insert_new_scopes now (path ∷ rest) db = insert_new_scopes now rest (insert_new_scope now path db)

-- EnsureHierarchy: no statement of it fails.
unfoldable pub ensure_hierarchy : Time → Text → Db → Db
unfolding ancestor_paths insert_new_scopes
ensure_hierarchy now path db = insert_new_scopes now (ancestor_paths [] (split dot path)) db

unfoldable pub set_meta : Text → Option Text → List ScopeRow → List ScopeRow
set_meta path meta [] = []
set_meta path meta (r ∷ rows) =
    (if text_eq r.path path then record r { meta = meta } else r) ∷ set_meta path meta rows

-- INSERT … ON CONFLICT (path) DO UPDATE SET meta = excluded.meta
unfoldable pub upsert_row : ScopeRow → Db → Db
unfolding has_scope set_meta
upsert_row row db =
    if has_scope row.path db.scopes
    then record db { scopes = set_meta row.path row.meta db.scopes }
    else record db { scopes = db.scopes ++ row ∷ [] }

-- A scope that an entry refers to cannot be deleted.
unfoldable pub is_referenced : Text → List EntryRow → Bool
is_referenced path rows = any (λ (e : EntryRow). text_eq e.scope path) rows

-- DELETE FROM scopes WHERE path = ?, and the number of rows.
unfoldable pub delete_scope : Text → Db → Result (ℕ × Db)
unfolding has_scope is_referenced keep
delete_scope path db =
    if not (has_scope path db.scopes)
    then ok (0, db)
    else if is_referenced path db.entries
    then err (sql foreign_key_failed)
    else ok (1, record db { scopes = keep (λ r. not (is_path path r)) db.scopes })

-- The condition of DeleteEmpty: no entry in the scope, nor in one that LIKE finds below it.
unfoldable pub is_empty_scope : List EntryRow → ScopeRow → Bool
unfolding is_referenced
is_empty_scope entries r =
    not (is_referenced r.path entries)
    && not (any (λ (e : EntryRow). like (r.path ++ codes ".%") e.scope) entries)

count_scopes : (ScopeRow → Bool) → List ScopeRow → ℕ
unfolding keep
count_scopes p rows = length (keep p rows)

unfoldable pub delete_empty : Db → ℕ × Db
unfolding count_scopes keep is_empty_scope
delete_empty db = (
  count_scopes (is_empty_scope db.entries) db.scopes,
  record db { scopes = keep (λ r. not (is_empty_scope db.entries r)) db.scopes },
)

unfoldable pub delete : Text → Action (Unit {0})
unfolding delete_scope
delete path = do n ← in_context "delete scope" (executes (delete_scope path)); affected n

module _ (json : Json) where
  unfoldable pub upsert : Scope → Action (Unit {0})
  unfolding upsert_row
  upsert s = do
    meta ← reads (λ _. with_context "marshal meta" (marshal_nullable_json json s.meta))
    executes (λ db. ok (
      tt,
      upsert_row (record { path = s.path; meta = meta; created_at = format_time s.created_at }) db,
    ))

  scan_scope : ScopeRow → Result Scope
  scan_scope r = elim (with_context "unmarshal meta" (unmarshal_nullable_json json r.meta)) [
    | ok meta ↦ ok (record { path = r.path; meta = meta; created_at = parse_time r.created_at })
    | err e ↦ err e
  ]

  found : Option ScopeRow → Result Scope
  unfolding scan_scope
  found none = err not_found
  found (some r) = scan_scope r

  unfoldable pub get : Db → Text → Result Scope
  unfolding found find_by
  get db path = found (find_by (is_path path) db.scopes)

  scan_scopes : List ScopeRow → Result (List Scope)
  unfolding scan_scope
  scan_scopes [] = ok []
  scan_scopes (r ∷ rows) = elim (scan_scope r) [
    | err e ↦ err e
    | ok s ↦ elim (scan_scopes rows) [ err e ↦ err e | ok ss ↦ ok (s ∷ ss) ]
  ]

  by_path : (ScopeRow → Bool) → Db → Result (List Scope)
  unfolding scan_scopes keep
  by_path p db = scan_scopes (order_by (λ r t. text_lt r.path t.path) (keep p db.scopes))

  unfoldable pub list : Db → Result (List Scope)
  unfolding by_path
  list = by_path (λ r. true)

  unfoldable pub list_children : Db → Text → Result (List Scope)
  unfolding by_path
  list_children db parent =
      by_path
        (λ r. like (parent ++ codes ".%") r.path && not (like (parent ++ codes ".%.%") r.path)) db

  unfoldable pub list_descendants : Db → Text → Result (List Scope)
  unfolding by_path
  list_descendants db ancestor =
      by_path (λ r. like (ancestor ++ codes ".%") r.path && not (text_eq r.path ancestor)) db
