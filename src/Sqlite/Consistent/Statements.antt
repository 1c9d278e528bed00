-- ===== src/Sqlite/Consistent/Statements.antt =====
-- The statements of storage/sqlite, each as a method of one statement, on consistent tables.
use known.Prelude.{ℕ, zero, suc, Bool, Option, [], ok}
use known.Prelude.Float.{Float64, FloatOps}
use known.Prelude.Text.{Text, split}
use known.Model.Types.{Id128, Time}
use known.Model.Scope.{dot}
use known.Model.Edge.{EdgeType}
use known.Sqlite.Tables.{
  ScopeRow, EntryRow, EdgeRow, SessionRow, EventRow, Db, affected, executes, pure,
}
use known.Sqlite.Scope.{ancestor_paths, ensure_hierarchy, upsert_row, delete_scope}
use known.Sqlite.Edge.{insert_edge_type, insert_edge, update_edge, delete_edge}
use known.Sqlite.Entry.{
  insert_entry, upsert_entry, update_entry, delete_entries, insert_label, delete_labels,
}
use known.Sqlite.Session.{insert_session, set_ended, insert_reinforcement, insert_event}
use known.Sqlite.Consistent.{
  IsConsistent, Preserves, bind-Preserves, reads-Preserves, in_context-Preserves,
  executes-Preserves, written,
}
use known.Sqlite.Consistent.Scopes.{
  insert_new_scopes-IsConsistent, upsert_row-IsConsistent, delete_scope-IsConsistent,
}
use known.Sqlite.Consistent.Entries.{
  insert_entry-IsConsistent, upsert_entry-IsConsistent, update_entry-IsConsistent,
}
use known.Sqlite.Consistent.Deletions.{delete_entries-IsConsistent}
use known.Sqlite.Consistent.Edges.{
  insert_edge_type-IsConsistent, insert_edge-IsConsistent, update_edge-IsConsistent,
  delete_edge-IsConsistent, insert_label-IsConsistent, delete_labels-IsConsistent,
}
use known.Sqlite.Consistent.Sessions.{
  insert_session-IsConsistent, set_ended-IsConsistent, insert_reinforcement-IsConsistent,
  insert_event-IsConsistent,
}

-- A statement that never fails.
total-Preserves :
    {A : Type 0} (f : Db → A × Db)
    → ((db : Db) → IsConsistent db → IsConsistent (f db).1)
    → Preserves (executes (λ db. ok (f db)))
total-Preserves f h = executes-Preserves (λ db. ok (f db)) (λ db db' a c e. written e (h db c))

pub affected-Preserves : (n : ℕ) → Preserves (affected n)
unfolding Preserves
affected-Preserves zero db c = c
affected-Preserves (suc n) db c = c

pub pure-Preserves : {A : Type 0} (a : A) → Preserves (pure a)
unfolding Preserves
pure-Preserves a db c = c

pub ensure_hierarchy-Preserves :
    (now : Time) (path : Text)
    → Preserves (executes (λ db. ok (tt {0}, ensure_hierarchy now path db)))
unfolding ensure_hierarchy
ensure_hierarchy-Preserves now path =
    total-Preserves _
      (λ db c. insert_new_scopes-IsConsistent now (ancestor_paths [] (split dot path)) db c)

pub upsert_row-Preserves :
    (row : ScopeRow) → Preserves (executes (λ db. ok (tt {0}, upsert_row row db)))
upsert_row-Preserves row = total-Preserves _ (upsert_row-IsConsistent row)

pub insert_edge_type-Preserves :
    (type : EdgeType) → Preserves (executes (λ db. ok (tt {0}, insert_edge_type type db)))
insert_edge_type-Preserves type = total-Preserves _ (insert_edge_type-IsConsistent type)

pub delete_labels-Preserves :
    (id : Id128) → Preserves (executes (λ db. ok (tt {0}, delete_labels id db)))
delete_labels-Preserves id = total-Preserves _ (delete_labels-IsConsistent id)

pub delete_edge-Preserves : (id : Id128) → Preserves (executes (λ db. ok (delete_edge id db)))
delete_edge-Preserves id = total-Preserves _ (delete_edge-IsConsistent id)

pub set_ended-Preserves :
    (id : Id128) (now : Time) → Preserves (executes (λ db. ok (set_ended id now db)))
set_ended-Preserves id now = total-Preserves _ (set_ended-IsConsistent id now)

pub delete_entries-Preserves :
    (p : EntryRow → Bool) → Preserves (executes (λ db. ok (delete_entries p db)))
delete_entries-Preserves p = total-Preserves _ (delete_entries-IsConsistent p)

pub delete_scope-Preserves : (path : Text) → Preserves (executes (delete_scope path))
delete_scope-Preserves path =
    executes-Preserves _ (λ db db' n c e. delete_scope-IsConsistent path db db' n c e)

pub insert_entry-Preserves : (r : EntryRow) → Preserves (executes (insert_entry r))
insert_entry-Preserves r =
    executes-Preserves _ (λ db db' n c e. insert_entry-IsConsistent r db db' c e)

pub upsert_entry-Preserves : (r : EntryRow) → Preserves (executes (upsert_entry r))
upsert_entry-Preserves r =
    executes-Preserves _ (λ db db' n c e. upsert_entry-IsConsistent r db db' c e)

pub update_entry-Preserves : (r : EntryRow) → Preserves (executes (update_entry r))
update_entry-Preserves r =
    executes-Preserves _ (λ db db' n c e. update_entry-IsConsistent r db db' n c e)

pub insert_label-Preserves :
    (id : Id128) (label : Text) → Preserves (executes (insert_label id label))
insert_label-Preserves id label =
    executes-Preserves _ (λ db db' n c e. insert_label-IsConsistent id label db db' c e)

pub insert_edge-Preserves : (fl : FloatOps) (r : EdgeRow) → Preserves (executes (insert_edge fl r))
insert_edge-Preserves fl r =
    executes-Preserves _ (λ db db' n c e. insert_edge-IsConsistent fl r db db' c e)

pub update_edge-Preserves :
    (fl : FloatOps) (id : Id128) (weight : Option Float64) (meta : Option Text)
    → Preserves (executes (update_edge fl id weight meta))
update_edge-Preserves fl id weight meta =
    executes-Preserves _ (λ db db' n c e. update_edge-IsConsistent fl id weight meta db db' n c e)

pub insert_session-Preserves : (r : SessionRow) → Preserves (executes (insert_session r))
insert_session-Preserves r =
    executes-Preserves _ (λ db db' n c e. insert_session-IsConsistent r db db' c e)

pub insert_reinforcement-Preserves : (id : Id128) → Preserves (executes (insert_reinforcement id))
insert_reinforcement-Preserves id =
    executes-Preserves _ (λ db db' n c e. insert_reinforcement-IsConsistent id db db' c e)

pub insert_event-Preserves : (r : EventRow) → Preserves (executes (insert_event r))
insert_event-Preserves r =
    executes-Preserves _ (λ db db' n c e. insert_event-IsConsistent r db db' c e)

-- The rules for a do block.
pub ruleset keeps = (
  bind-Preserves, reads-Preserves, in_context-Preserves, affected-Preserves, pure-Preserves,
  ensure_hierarchy-Preserves, upsert_row-Preserves, delete_scope-Preserves, insert_entry-Preserves,
  upsert_entry-Preserves, update_entry-Preserves, delete_entries-Preserves, insert_label-Preserves,
  delete_labels-Preserves, insert_edge_type-Preserves, insert_edge-Preserves, update_edge-Preserves,
  delete_edge-Preserves, insert_session-Preserves, set_ended-Preserves,
  insert_reinforcement-Preserves, insert_event-Preserves,
)
