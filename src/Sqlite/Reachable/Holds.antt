-- ===== src/Sqlite/Reachable/Holds.antt =====
-- The consistency of the states of the database.
use mathlib.Core.List.Memᴰ
use known.Prelude.{Bool, true, false, List, [], ◌∷◌, Result, ok, err, inl, inr, Option-cases}
use known.Prelude.Float.{FloatOps}
use known.Prelude.Text.{Text}
use known.Storage.IdSlice.{IdCodec}
use known.Model.Types.{Time}
use known.Model.Edge.{EdgeType}
use known.Model.Entry.{Entry}
use known.Sqlite.Tables.{Db, Action, Json}
use known.Sqlite.Scope.{ensure_hierarchy}
use known.Sqlite.Scope
use known.Sqlite.Entry
use known.Sqlite.Tx
use known.Sqlite.Tx.{Driver, with_tx, own_tx, close, close_own}
use known.Sqlite.Consistent.{
  IsConsistent, Preserves, HasUniqueContent, HasScopes, HasEnds, HasOwners, HasSessions,
  HasReinforced,
}
use known.Sqlite.Consistent.Scopes.{delete_empty-IsConsistent}
use known.Sqlite.Consistent.Statements.{keeps, ensure_hierarchy-Preserves}
use known.Sqlite.Consistent.Methods.{
  scope_delete-Preserves, scope_upsert-Preserves, edge_create-Preserves, edge_update-Preserves,
  edge_delete-Preserves, create_session-Preserves, end_session-Preserves, mark_processed-Preserves,
  log_event-Preserves, entry_delete-Preserves, create_inner-Preserves,
  create_or_update_inner-Preserves, entry_update-Preserves, delete_expired-IsConsistent,
}
use known.Sqlite.Reachable.{Request, answer, answers, migrated, IsReachable}

module _ (driver : Driver) {A : Type 0} where
  close-IsConsistent :
      (db : Db) (r : Result A × Db)
      → IsConsistent db
      → IsConsistent r.1
      → IsConsistent (close driver db r).1
  close-IsConsistent db (err e, db') c d = elim (Option-cases driver.rollback) [
    | inl e ↦ rw e c
    | inr (x, e) ↦ rw e c
  ]
  close-IsConsistent db (ok a, db') c d = elim (Option-cases driver.commit) [
    | inl e ↦ rw e d
    | inr (x, e) ↦ rw e c
  ]

  close_own-IsConsistent :
      (db : Db) (r : Result A × Db)
      → IsConsistent db
      → IsConsistent r.1
      → IsConsistent (close_own driver db r).1
  close_own-IsConsistent db (err e, db') c d = c
  close_own-IsConsistent db (ok a, db') c d = elim (Option-cases driver.commit) [
    | inl e ↦ rw e d
    | inr (x, e) ↦ rw e c
  ]

  with_tx-Preserves :
      (in_tx : Bool) (fn : Bool → Action A)
      → ((t : Bool) → Preserves (fn t))
      → Preserves (with_tx driver in_tx fn)
  unfolding with_tx Preserves
  with_tx-Preserves true fn h db c = h true db c
  with_tx-Preserves false fn h db c = elim (Option-cases driver.begin) [
    | inl e ↦ rw e (close-IsConsistent db (fn true db) c (h true db c))
    | inr (x, e) ↦ rw e c
  ]

  own_tx-Preserves : (m : Action A) → Preserves m → Preserves (own_tx driver m)
  unfolding own_tx Preserves
  own_tx-Preserves m h db c = elim (Option-cases driver.begin) [
    | inl e ↦ rw e (close_own-IsConsistent db (m db) c (h db c))
    | inr (x, e) ↦ rw e c
  ]

-- A method that cannot fail, for its effect.
effect_of :
    (f : Db → Db)
    → ((db : Db) → IsConsistent db → IsConsistent (f db))
    → Preserves (λ db. (ok tt, f db))
unfolding Preserves
effect_of f h = h

module _ (fl : FloatOps) (json : Json) (codec : IdCodec) (hash : Text → Text) where
  module _ (driver : Driver) (now : Time) where
    create-Preserves :
        (in_tx : Bool) (e : Entry) → Preserves (Tx.create driver json hash now in_tx e)
    unfolding Tx.create
    create-Preserves true e = create_inner-Preserves json hash now e
    create-Preserves false e = own_tx-Preserves driver _ (create_inner-Preserves json hash now e)

    create_or_update-Preserves :
        (in_tx : Bool) (e : Entry) → Preserves (Tx.create_or_update driver json hash now in_tx e)
    unfolding Tx.create_or_update
    create_or_update-Preserves true e = create_or_update_inner-Preserves json hash now e
    create_or_update-Preserves false e =
        own_tx-Preserves driver _ (create_or_update_inner-Preserves json hash now e)

    answer-Preserves :
        (in_tx : Bool) (r : Request) → Preserves (answer fl json codec hash driver now in_tx r)
    unfolding answer
    answer-Preserves in_tx (Request.create e) = search (keeps, create-Preserves)
    answer-Preserves in_tx (Request.create_or_update e) = search (keeps, create_or_update-Preserves)
    answer-Preserves in_tx (Request.update e) = search (keeps, entry_update-Preserves)
    answer-Preserves in_tx (Request.delete id) = entry_delete-Preserves id
    answer-Preserves in_tx Request.delete_expired =
        effect_of (λ db. (Entry.delete_expired now db).1) (delete_expired-IsConsistent now)
    answer-Preserves in_tx (Request.create_edge e) = edge_create-Preserves fl json e
    answer-Preserves in_tx (Request.update_edge e) = edge_update-Preserves fl json e
    answer-Preserves in_tx (Request.delete_edge id) = edge_delete-Preserves id
    answer-Preserves in_tx (Request.upsert_scope s) = scope_upsert-Preserves json s
    answer-Preserves in_tx (Request.ensure_hierarchy path) = ensure_hierarchy-Preserves now path
    answer-Preserves in_tx (Request.delete_scope path) = scope_delete-Preserves path
    answer-Preserves in_tx Request.delete_empty_scopes =
        effect_of (λ db. (Scope.delete_empty db).1) delete_empty-IsConsistent
    answer-Preserves in_tx (Request.create_session s) = create_session-Preserves s
    answer-Preserves in_tx (Request.end_session id) = end_session-Preserves now id
    answer-Preserves in_tx (Request.mark_processed id) = mark_processed-Preserves id
    answer-Preserves in_tx (Request.log_event ev) = log_event-Preserves codec ev

    answers-Preserves :
        (in_tx : Bool) (rs : List Request)
        → Preserves (answers fl json codec hash driver now in_tx rs)
    unfolding answers
    answers-Preserves in_tx [] = search keeps
    answers-Preserves in_tx (r ∷ rs) = search (keeps, answer-Preserves, answers-Preserves in_tx rs)

  migrated-IsConsistent : (types : List EdgeType) → IsConsistent (migrated fl json codec hash types)
  unfolding HasUniqueContent HasScopes HasEnds HasOwners HasSessions HasReinforced
  migrated-IsConsistent types = record {
    entry_ids = tt;
    contents = λ x y m. absurd (Memᴰ.not-nil m);
    scopes = λ x m. absurd (Memᴰ.not-nil m);
    edge_ids = tt;
    ends = λ g m. absurd (Memᴰ.not-nil m);
    owners = λ l m. absurd (Memᴰ.not-nil m);
    session_ids = tt;
    events = λ r m. absurd (Memᴰ.not-nil m);
    reinforced = λ id m. absurd (Memᴰ.not-nil m);
  }

  -- In every state that calls of the stores, alone or in transactions, lead to from migrated tables,
  -- ids of entries, edges and sessions are distinct, no two entries have one content hash and scope,
  -- and every entry has its scope, every edge its two entries, which differ, every label its entry, and
  -- every event and reinforcement its session.
  pub reachable-IsConsistent : {db : Db} → IsReachable fl json codec hash db → IsConsistent db
  unfolding Preserves
  reachable-IsConsistent (IsReachable.fresh types) = migrated-IsConsistent types
  reachable-IsConsistent (IsReachable.alone {db} driver now r h) =
      answer-Preserves driver now false r db (reachable-IsConsistent h)
  reachable-IsConsistent (IsReachable.together {db} driver now rs h) =
      with_tx-Preserves driver false _ (λ t. answers-Preserves driver now t rs) db
        (reachable-IsConsistent h)
