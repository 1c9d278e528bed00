-- ===== src/Sqlite/Repos.antt =====
-- Entries, Edges, Scopes and Sessions of storage/sqlite/sqlite.go: the stores as the repositories of
-- storage/storage.go, over the tables. A write that fails is given no tables: its caller ends, or
-- rolls the transaction back. `now` is the time of the calls.
pub mod Traversal
pub mod Examples
use known.Prelude.{ℕ, Bool, List, Result, ok, err}
use known.Prelude.Float.{Float64}
use known.Prelude.Text.{Text, codes}
use known.Model.Types.{Id128, Time}
use known.Storage.{EntryRepo, EdgeRepo, SessionRepo, ScopeRepo}
use known.Storage.IdSlice.{IdCodec}
use known.Sqlite.Tables.{Db, Action, Json}
use known.Sqlite.Vec.{VectorOps}
use known.Sqlite.Scope
use known.Sqlite.Edge
use known.Sqlite.Entry
use known.Sqlite.Session
use known.Sqlite.Search
use known.Sqlite.Search.{Candidate}
use known.Sqlite.Tx
use known.Sqlite.Tx.{Driver}

abbrev written : {A : Type 0} → Result A × Db → Result (A × Db)
written (ok a, db) = ok (a, db)
written (err e, db) = err e

abbrev changed : Result (Unit {0}) × Db → Result Db
changed (ok a, db) = ok db
changed (err e, db) = err e

module _ (v : VectorOps) (json : Json) (now : Time) where
  module _ (driver : Driver) (hash : Text → Text) (fields : Text → List Text)
      (fts : Db → Text → Result (List Candidate)) (in_tx : Bool) where
    abbrev pub entry_repo : EntryRepo Db
    entry_repo = record {
      create = λ db e. written (Tx.create driver json hash now in_tx e db);
      create_or_update = λ db e. written (Tx.create_or_update driver json hash now in_tx e db);
      get = Entry.get json;
      update = λ db e. written (Entry.update json hash now e db);
      delete = λ db id. changed (Entry.delete id db);
      list = Search.list json now;
      search_similar = Search.search_similar json now v;
      search_text = Search.search_text json now v fields fts;
      delete_expired = λ db. ok (Entry.delete_expired now db);
    }

  abbrev pub edge_repo : EdgeRepo Db
  edge_repo = record {
    create = λ db e. changed (Edge.create v.ops json e db);
    get = Edge.get v.ops json;
    update = λ db e. changed (Edge.update v.ops json e db);
    delete = λ db id. changed (Edge.delete id db);
    edges_from = Edge.edges_from v.ops json;
    edges_to = Edge.edges_to v.ops json;
    edges_between = Edge.edges_between v.ops json;
    find_conflicts = Search.find_conflicts json (codes "contradicts");
  }

  abbrev pub scope_repo : ScopeRepo Db
  scope_repo = record {
    upsert = λ db s. changed (Scope.upsert json s db);
    ensure_hierarchy = λ db path. ok (Scope.ensure_hierarchy now path db);
    get = Scope.get json;
    delete = λ db path. changed (Scope.delete path db);
    list = Scope.list json;
    list_children = Scope.list_children json;
    list_descendants = Scope.list_descendants json;
    delete_empty = λ db. ok (Scope.delete_empty db);
  }

  abbrev pub session_repo : IdCodec → SessionRepo Db
  session_repo codec = record {
    create_session = λ db s. changed (Session.create_session s db);
    end_session = λ db id. changed (Session.end_session now id db);
    get_session = Session.get_session;
    log_event = λ db ev. changed (Session.log_event codec ev db);
    list_events = Session.list_events codec;
    list_unprocessed_sessions = λ db. ok (Session.list_unprocessed_sessions db);
    mark_processed = λ db id. changed (Session.mark_processed id db);
  }
