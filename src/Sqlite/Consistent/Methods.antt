-- ===== src/Sqlite/Consistent/Methods.antt =====
-- The methods of the stores of storage/sqlite on consistent tables.
use known.Prelude.{ℕ, zero, suc, List, [], ◌∷◌, Result, ok, err}
use known.Prelude.Float.{FloatOps}
use known.Prelude.Text.{Text}
use known.Storage.IdSlice.{IdCodec}
use known.Model.Types.{Id128, Time, Session, SessionEvent}
use known.Model.Scope.{Scope}
use known.Model.Edge.{Edge}
use known.Model.Entry.{Entry}
use known.Sqlite.Tables.{EntryRow, Db, Json, executes, format_time}
use known.Sqlite.Scope
use known.Sqlite.Edge
use known.Sqlite.Entry
use known.Sqlite.Entry.{
  insert_labels, save_labels, with_defaults, create_result, create_inner, create_or_update_inner,
  save_given_labels, save_labels_of, after_update, insert_entry, delete_entries, delete_expired,
  is_expired_at,
}
use known.Sqlite.Session.{create_session, end_session, mark_processed, log_event}
use known.Sqlite.Consistent.{IsConsistent, Preserves}
use known.Sqlite.Consistent.Statements.{keeps, insert_entry-Preserves}
use known.Sqlite.Consistent.Deletions.{delete_entries-IsConsistent}

pub scope_delete-Preserves : (path : Text) → Preserves (Scope.delete path)
unfolding Scope.delete
scope_delete-Preserves path = search keeps

pub scope_upsert-Preserves : (json : Json) (s : Scope) → Preserves (Scope.upsert json s)
unfolding Scope.upsert
scope_upsert-Preserves json s = search keeps

pub edge_create-Preserves :
    (fl : FloatOps) (json : Json) (e : Edge) → Preserves (Edge.create fl json e)
unfolding Edge.create
edge_create-Preserves fl json e = search keeps

pub edge_update-Preserves :
    (fl : FloatOps) (json : Json) (e : Edge) → Preserves (Edge.update fl json e)
unfolding Edge.update
edge_update-Preserves fl json e = search keeps

pub edge_delete-Preserves : (id : Id128) → Preserves (Edge.delete id)
unfolding Edge.delete
edge_delete-Preserves id = search keeps

pub create_session-Preserves : (s : Session) → Preserves (create_session s)
unfolding create_session
create_session-Preserves s = search keeps

pub end_session-Preserves : (now : Time) (id : Id128) → Preserves (end_session now id)
unfolding end_session
end_session-Preserves now id = search keeps

pub mark_processed-Preserves : (id : Id128) → Preserves (mark_processed id)
unfolding mark_processed
mark_processed-Preserves id = search keeps

pub log_event-Preserves : (codec : IdCodec) (ev : SessionEvent) → Preserves (log_event codec ev)
unfolding log_event
log_event-Preserves codec ev = search keeps

pub entry_delete-Preserves : (id : Id128) → Preserves (Entry.delete id)
unfolding Entry.delete
entry_delete-Preserves id = search keeps

insert_labels-Preserves : (id : Id128) (labels : List Text) → Preserves (insert_labels id labels)
unfolding insert_labels
insert_labels-Preserves id [] = search keeps
insert_labels-Preserves id (label ∷ rest) = search (keeps, insert_labels-Preserves id rest)

save_labels-Preserves : (id : Id128) (labels : List Text) → Preserves (save_labels id labels)
unfolding save_labels
save_labels-Preserves id labels = search (keeps, insert_labels-Preserves)

create_result-IsConsistent :
    {A : Type 0} (r : Result A × Db) → IsConsistent r.1 → IsConsistent (create_result r).1
create_result-IsConsistent (ok a, db) c = c
create_result-IsConsistent (err e, db) c = c

insert-Preserves : (r : EntryRow) → Preserves (λ db. create_result (executes (insert_entry r) db))
unfolding Preserves
insert-Preserves r db c = create_result-IsConsistent _ (insert_entry-Preserves r db c)

module _ (json : Json) (hash : Text → Text) (now : Time) where
  save_given_labels-Preserves :
      (id : Id128) (labels : List Text) → Preserves (save_given_labels json hash now id labels)
  save_given_labels-Preserves id [] = search keeps
  save_given_labels-Preserves id (l ∷ ls) = search (keeps, save_labels-Preserves)

  save_labels_of-Preserves :
      (e : Entry) (labels : List Text) → Preserves (save_labels_of json hash now e labels)
  save_labels_of-Preserves e [] = search keeps
  save_labels_of-Preserves e (l ∷ ls) = search (keeps, save_labels-Preserves)

  after_update-Preserves : (e : Entry) (n : ℕ) → Preserves (after_update json hash now e n)
  after_update-Preserves e zero = search keeps
  after_update-Preserves e (suc zero) = search (keeps, save_labels-Preserves)
  after_update-Preserves e (suc (suc n)) = search keeps

  pub create_inner-Preserves : (e : Entry) → Preserves (create_inner json hash now e)
  unfolding create_inner
  create_inner-Preserves e = search (keeps, insert-Preserves, save_given_labels-Preserves)

  pub create_or_update_inner-Preserves :
      (e : Entry) → Preserves (create_or_update_inner json hash now e)
  unfolding create_or_update_inner
  create_or_update_inner-Preserves e = search (keeps, save_labels_of-Preserves)

  pub entry_update-Preserves : (e : Entry) → Preserves (Entry.update json hash now e)
  unfolding Entry.update
  entry_update-Preserves e = search (keeps, after_update-Preserves)

pub delete_expired-IsConsistent :
    (now : Time) (db : Db) → IsConsistent db → IsConsistent (delete_expired now db).1
unfolding delete_expired
delete_expired-IsConsistent now = delete_entries-IsConsistent (is_expired_at (format_time now))
