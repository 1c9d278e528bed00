-- ===== src/Sqlite/Reachable.antt =====
-- The states of the database: those that the methods of storage/sqlite lead to from migrated tables,
-- one call after the other, alone or in a transaction.
pub mod Holds
use known.Prelude.{ℕ, Bool, true, false, List, [], ◌∷◌, Result, ok, err}
use known.Prelude.Float.{FloatOps}
use known.Prelude.Text.{Text}
use known.Storage.IdSlice.{IdCodec}
use known.Model.Types.{Id128, Time, Session, SessionEvent}
use known.Model.Scope.{Scope}
use known.Model.Edge.{Edge, EdgeType}
use known.Model.Entry.{Entry}
use known.Sqlite.Tables.{Db, Action, Json, pure, ◌>>=◌, ◌>>◌}
use known.Sqlite.Scope
use known.Sqlite.Edge
use known.Sqlite.Entry
use known.Sqlite.Session
use known.Sqlite.Tx
use known.Sqlite.Tx.{Driver, with_tx}

-- The calls that write.
pub data Request : Type 0 where
  create create_or_update update : Entry → Request
  delete : Id128 → Request
  delete_expired : Request
  create_edge update_edge : Edge → Request
  delete_edge : Id128 → Request
  upsert_scope : Scope → Request
  ensure_hierarchy delete_scope : Text → Request
  delete_empty_scopes : Request
  create_session : Session → Request
  end_session mark_processed : Id128 → Request
  log_event : SessionEvent → Request

-- A call for its effect alone.
abbrev pub effect : {A : Type 0} → Action A → Action (Unit {0})
effect m = m >>= λ _. pure tt

module _ (fl : FloatOps) (json : Json) (codec : IdCodec) (hash : Text → Text) where
  -- A call at a time, in a transaction or not.
  unfoldable pub answer : Driver → Time → Bool → Request → Action (Unit {0})
  answer driver now in_tx (create e) = effect (Tx.create driver json hash now in_tx e)
  answer driver now in_tx (create_or_update e) =
      effect (Tx.create_or_update driver json hash now in_tx e)
  answer driver now in_tx (update e) = effect (Entry.update json hash now e)
  answer driver now in_tx (delete id) = Entry.delete id
  answer driver now in_tx delete_expired = λ db. (ok tt, (Entry.delete_expired now db).1)
  answer driver now in_tx (create_edge e) = Edge.create fl json e
  answer driver now in_tx (update_edge e) = Edge.update fl json e
  answer driver now in_tx (delete_edge id) = Edge.delete id
  answer driver now in_tx (upsert_scope s) = Scope.upsert json s
  answer driver now in_tx (ensure_hierarchy path) =
      λ db. (ok tt, Scope.ensure_hierarchy now path db)
  answer driver now in_tx (delete_scope path) = Scope.delete path
  answer driver now in_tx delete_empty_scopes = λ db. (ok tt, (Scope.delete_empty db).1)
  answer driver now in_tx (create_session s) = Session.create_session s
  answer driver now in_tx (end_session id) = Session.end_session now id
  answer driver now in_tx (mark_processed id) = Session.mark_processed id
  answer driver now in_tx (log_event ev) = Session.log_event codec ev

  -- The body of a transaction: calls until one fails.
  unfoldable pub answers : Driver → Time → Bool → List Request → Action (Unit {0})
  unfolding answer
  answers driver now in_tx [] = pure tt
  answers driver now in_tx (r ∷ rs) = do answer driver now in_tx r; answers driver now in_tx rs

  abbrev pub migrated : List EdgeType → Db
  migrated types = record {
    edge_types = types;
    scopes = [];
    entries = [];
    labels = [];
    edges = [];
    sessions = [];
    session_events = [];
    session_reinforcements = [];
  }

  pub data IsReachable : Db → Type 0 where
    fresh : (types : List EdgeType) → IsReachable (migrated types)
    alone :
        {db : Db} (driver : Driver) (now : Time) (r : Request)
        → IsReachable db
        → IsReachable (answer driver now false r db).1
    together :
        {db : Db} (driver : Driver) (now : Time) (rs : List Request)
        → IsReachable db
        → IsReachable (with_tx driver false (λ in_tx. answers driver now in_tx rs) db).1
