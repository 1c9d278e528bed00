-- ===== src/Sqlite/Consistent/Scopes.antt =====
-- The statements of storage/sqlite/scope.go on consistent tables.
use mathlib.Core.List.{Memᴰ}
use known.Prelude.{
  ◌≡◌, refl, Bool, true, false, not, ◌||◌, Option, List, [], ◌∷◌, ◌++◌, inl, inr, keep, ok,
  Bool-cases, ℕ, sym, ap, ◌∙◌,
}
use known.Prelude.Rows.{any-of_mem, mem-any, any-append, keep-mem}
use known.Prelude.Text.{Text, text_eq, text_eq_iff}
use known.Model.Types.{Time}
use known.Sqlite.Tables.{ScopeRow, EntryRow, Db}
use known.Sqlite.Scope.{
  has_scope, is_path, insert_new_scope, insert_new_scopes, upsert_row, set_meta, delete_scope,
  delete_empty, is_empty_scope, is_referenced,
}
use known.Sqlite.Consistent.{IsConsistent, written, HasScopes}

-- A change of the scopes alone, which keeps the scopes of the entries.
pub set_scopes-IsConsistent :
    (db : Db) (rows : List ScopeRow)
    → IsConsistent db
    → ((x : EntryRow)
        → Memᴰ x db.entries
        → has_scope x.scope db.scopes ≡ true
        → has_scope x.scope rows ≡ true)
    → IsConsistent (record db { scopes = rows })
unfolding HasScopes
set_scopes-IsConsistent db rows c h = record {
  entry_ids = c.entry_ids;
  contents = c.contents;
  scopes = λ x m. h x m (c.scopes x m);
  edge_ids = c.edge_ids;
  ends = c.ends;
  owners = c.owners;
  session_ids = c.session_ids;
  events = c.events;
  reinforced = c.reinforced;
}

has_scope-append :
    (path : Text) (rows : List ScopeRow) (r : ScopeRow)
    → has_scope path rows ≡ true
    → has_scope path (rows ++ r ∷ []) ≡ true
unfolding has_scope
has_scope-append path rows r h = rw (any-append (is_path path) rows (r ∷ []), h) refl

insert_new_scope-IsConsistent :
    (now : Time) (path : Text) (db : Db)
    → IsConsistent db
    → IsConsistent (insert_new_scope now path db)
unfolding insert_new_scope
insert_new_scope-IsConsistent now path db c = elim (Bool-cases (has_scope path db.scopes)) [
  | inl e ↦ rw e c
  | inr e ↦ rw e (set_scopes-IsConsistent db _ c (λ x m h. has_scope-append x.scope db.scopes _ h))
]

has_scope-set_meta :
    (p path : Text) (meta : Option Text) (rows : List ScopeRow)
    → has_scope p (set_meta path meta rows) ≡ has_scope p rows
unfolding has_scope set_meta
has_scope-set_meta p path meta [] = refl
has_scope-set_meta p path meta (r ∷ rows) = elim (Bool-cases (text_eq r.path path)) [
  | inl e ↦ rw e (ap (λ b. is_path p r || b) (has_scope-set_meta p path meta rows))
  | inr e ↦ rw e (ap (λ b. is_path p r || b) (has_scope-set_meta p path meta rows))
]

-- Deleting scopes that no entry is in.
keep-has_scope :
    (q : ScopeRow → Bool) (rows : List ScopeRow) (x : EntryRow)
    → ((r : ScopeRow) → Memᴰ r rows → r.path ≡ x.scope → q r ≡ true)
    → has_scope x.scope rows ≡ true
    → has_scope x.scope (keep q rows) ≡ true
unfolding has_scope
keep-has_scope q rows x k h =
    let (r, m, e) = mem-any (is_path x.scope) rows h in
    let same = (text_eq_iff r.path x.scope).0 e in
    any-of_mem (is_path x.scope) (keep q rows) r (keep-mem q rows r m (k r m same)) e

pub insert_new_scopes-IsConsistent :
    (now : Time) (paths : List Text) (db : Db)
    → IsConsistent db
    → IsConsistent (insert_new_scopes now paths db)
unfolding insert_new_scopes
insert_new_scopes-IsConsistent now [] db c = c
insert_new_scopes-IsConsistent now (p ∷ paths) db c =
    insert_new_scopes-IsConsistent now paths (insert_new_scope now p db)
      (insert_new_scope-IsConsistent now p db c)

pub upsert_row-IsConsistent :
    (row : ScopeRow) (db : Db) → IsConsistent db → IsConsistent (upsert_row row db)
unfolding upsert_row
upsert_row-IsConsistent row db c = elim (Bool-cases (has_scope row.path db.scopes)) [
  | inl e ↦ rw e (
      set_scopes-IsConsistent db (set_meta row.path row.meta db.scopes) c
        (λ x m h. has_scope-set_meta x.scope row.path row.meta db.scopes ∙ h))
  | inr e ↦ rw e (
      set_scopes-IsConsistent db (db.scopes ++ row ∷ []) c
        (λ x m h. has_scope-append x.scope db.scopes row h))
]

is_referenced-of_mem :
    (path : Text) (rows : List EntryRow) (x : EntryRow)
    → Memᴰ x rows
    → path ≡ x.scope
    → is_referenced path rows ≡ true
unfolding is_referenced
is_referenced-of_mem path rows x m e =
    any-of_mem (λ (r : EntryRow). text_eq r.scope path) rows x m
      ((text_eq_iff x.scope path).1 (sym e))

pub delete_scope-IsConsistent :
    (path : Text) (db db' : Db) (n : ℕ)
    → IsConsistent db
    → delete_scope path db ≡ ok (n, db')
    → IsConsistent db'
unfolding delete_scope
delete_scope-IsConsistent path db db' n c h = elim (Bool-cases (has_scope path db.scopes)) [
  | inr e ↦ written (rw e at h) c
  | inl e ↦ elim (Bool-cases (is_referenced path db.entries)) [
    | inl f ↦ absurd (cc (rw (e, f) at h))
    | inr f ↦ written (rw (e, f) at h) (
        set_scopes-IsConsistent db _ c (λ x m k.
          keep-has_scope (λ r. not (is_path path r)) db.scopes x (λ r i same. unused f x m r same)
            k))
  ]
]
  where
    unused :
        is_referenced path db.entries ≡ false
        → (x : EntryRow) → Memᴰ x db.entries
        → (r : ScopeRow) → r.path ≡ x.scope
        → not (is_path path r) ≡ true
    unused f x m r same = elim (Bool-cases (is_path path r)) [
      | inr e ↦ rw e refl
      | inl e ↦ absurd (
          cc (
            is_referenced-of_mem path db.entries x m (sym ((text_eq_iff r.path path).0 e) ∙ same),
            f,
          ))
    ]

pub delete_empty-IsConsistent : (db : Db) → IsConsistent db → IsConsistent (delete_empty db).1
unfolding delete_empty is_empty_scope
delete_empty-IsConsistent db c = set_scopes-IsConsistent db _ c (λ x m k.
    keep-has_scope (λ r. not (is_empty_scope db.entries r)) db.scopes x
      (λ r i same. rw (is_referenced-of_mem r.path db.entries x m same) refl) k)
