-- ===== src/Sqlite/Entry/Same.antt =====
-- What the statements of storage/sqlite/entry.go leave as it is in `entries`.
use Prim.Native.String.{String}
use known.Prelude.{◌≡◌, refl, ◌∙◌, List, [], ◌∷◌, any, Result, ok, err, inl, inr, Bool-cases}
use known.Prelude.Text.{Text, split}
use known.Model.Types.{Id128, Time}
use known.Model.Scope.{dot}
use known.Sqlite.Tables.{ScopeRow, Db, Action, pure, reads, executes, continue, in_context, ◌>>=◌}
use known.Sqlite.Scope.{
  has_scope, insert_new_scope, insert_new_scopes, ancestor_paths, ensure_hierarchy,
}
use known.Sqlite.Edge.{has_entry}
use known.Sqlite.Entry.{has_label, insert_label, insert_labels, delete_labels, save_labels}

-- What does not depend on the rows of `scopes` is the same after scopes have been added.
module _ {X : Type 0} (f : Db → X)
    (same : (db : Db) (rows : List ScopeRow) → f (record db { scopes = rows }) ≡ f db) where
  insert_new_scope-keeps :
      (now : Time) (path : Text) (db : Db) → f (insert_new_scope now path db) ≡ f db
  unfolding insert_new_scope
  insert_new_scope-keeps now path db = elim (Bool-cases (has_scope path db.scopes)) [
    | inl e ↦ rw e refl
    | inr e ↦ rw e (same db _)
  ]

  insert_new_scopes-keeps :
      (now : Time) (paths : List Text) (db : Db) → f (insert_new_scopes now paths db) ≡ f db
  unfolding insert_new_scopes
  insert_new_scopes-keeps now [] db = refl
  insert_new_scopes-keeps now (p ∷ paths) db =
      insert_new_scopes-keeps now paths (insert_new_scope now p db)
      ∙ insert_new_scope-keeps now p db

  pub ensure_hierarchy-keeps :
      (now : Time) (path : Text) (db : Db) → f (ensure_hierarchy now path db) ≡ f db
  unfolding ensure_hierarchy
  ensure_hierarchy-keeps now path db =
      insert_new_scopes-keeps now (ancestor_paths [] (split dot path)) db

pub ensure_hierarchy-entries :
    (now : Time) (path : Text) (db : Db) → (ensure_hierarchy now path db).entries ≡ db.entries
ensure_hierarchy-entries = ensure_hierarchy-keeps (λ db. db.entries) (λ db rows. refl)

pub ensure_hierarchy-labels :
    (now : Time) (path : Text) (db : Db) → (ensure_hierarchy now path db).labels ≡ db.labels
ensure_hierarchy-labels = ensure_hierarchy-keeps (λ db. db.labels) (λ db rows. refl)

-- A method that leaves the rows of `entries` as they are.
unfoldable pub KeepsEntries : {A : Type 0} → Action A → Type 0
KeepsEntries m = (db : Db) → (m db).1.entries ≡ db.entries

continue-entries :
    {A B : Type 0} (f : A → Action B) (r : Result A × Db)
    → ((a : A) → KeepsEntries (f a))
    → (continue f r).1.entries ≡ r.1.entries
unfolding KeepsEntries
continue-entries f (ok a, db) h = h a db
continue-entries f (err e, db) h = refl

pub bind-KeepsEntries :
    {A B : Type 0} (m : Action A) (f : A → Action B)
    → KeepsEntries m
    → ((a : A) → KeepsEntries (f a))
    → KeepsEntries (m >>= f)
unfolding KeepsEntries
bind-KeepsEntries m f h g db = continue-entries f (m db) g ∙ h db

pub reads-KeepsEntries : {A : Type 0} (f : Db → Result A) → KeepsEntries (reads f)
unfolding KeepsEntries
reads-KeepsEntries f db = refl

pub pure-KeepsEntries : {A : Type 0} (a : A) → KeepsEntries (pure a)
unfolding KeepsEntries
pure-KeepsEntries a db = refl

pub in_context-KeepsEntries :
    {A : Type 0} (s : String) (m : Action A) → KeepsEntries m → KeepsEntries (in_context s m)
unfolding KeepsEntries
in_context-KeepsEntries s m h = h

insert_label-KeepsEntries :
    (id : Id128) (label : Text) → KeepsEntries (executes (insert_label id label))
unfolding insert_label KeepsEntries
insert_label-KeepsEntries id label db = elim (Bool-cases (any (has_label id label) db.labels)) [
  | inl e ↦ rw e refl
  | inr e ↦ elim (Bool-cases (has_entry id db.entries)) [
    | inl f ↦ rw (e, f) refl
    | inr f ↦ rw (e, f) refl
  ]
]

insert_labels-KeepsEntries :
    (id : Id128) (labels : List Text) → KeepsEntries (insert_labels id labels)
unfolding insert_labels KeepsEntries
insert_labels-KeepsEntries id [] = λ db. refl
insert_labels-KeepsEntries id (label ∷ rest) = search (
  bind-KeepsEntries,
  in_context-KeepsEntries,
  insert_label-KeepsEntries,
  insert_labels-KeepsEntries id rest,
)

pub save_labels-KeepsEntries :
    (id : Id128) (labels : List Text) → KeepsEntries (save_labels id labels)
unfolding save_labels KeepsEntries
save_labels-KeepsEntries id labels db = insert_labels-KeepsEntries id labels (delete_labels id db)
