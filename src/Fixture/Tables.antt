-- ===== src/Fixture/Tables.antt =====
-- Tables of two entries, of which the first depends on the second, and what the store calls.
use known.Prelude.{none, some, [], ◌∷◌, ◌++◌, ok}
use known.Prelude.Text.{codes}
use known.Model.Types.{Id128}
use known.Model.Edge.{edge_depends_on}
use known.Sqlite.Tables.{EntryRow, Db, Json}
use known.Sqlite.Vec.{VectorOps}
use known.Sqlite.Tx.{Driver}
use known.Fixture.Floats.{thousandths}

abbrev pub vector_ops : VectorOps
vector_ops = record { ops = thousandths; widen = λ a. a; sqrt = λ a. a }

abbrev pub json : Json
json = record { marshal = λ m. ok (codes "json"); unmarshal = λ t. ok [] }

abbrev pub driver : Driver
driver = record { begin = none; commit = none; rollback = none }

-- The row of an entry of the other fixture, with its embedding of 1 and 2.
abbrev pub entry_row : Id128 → EntryRow
entry_row id = record {
  id = id;
  title = [];
  content = codes "text";
  content_hash = codes "hash" ++ id ∷ [];
  embedding = some (1 ∷ 0 ∷ 0 ∷ 0 ∷ 2 ∷ 0 ∷ 0 ∷ 0 ∷ []);
  embedding_dim = some 2;
  embedding_model = some (codes "m");
  source_type = codes "file";
  source_ref = codes "a";
  source_meta = none;
  confidence = codes "inferred";
  scope = codes "root";
  ttl_seconds = none;
  expires_at = none;
  meta = none;
  version = 1;
  created_at = 0;
  updated_at = 0;
  observed_at = some 0;
  observed_by = none;
  source_hash = none;
}

abbrev pub tables : Db
tables = record {
  edge_types = [];
  scopes = record { path = codes "root"; meta = none; created_at = 0 } ∷ [];
  entries = entry_row 1 ∷ entry_row 2 ∷ [];
  labels = [];
  edges =
      record {
        id = 11;
        from_id = 1;
        to_id = 2;
        type = edge_depends_on;
        weight = none;
        meta = none;
        created_at = 0;
      }
      ∷ [];
  sessions = [];
  session_events = [];
  session_reinforcements = [];
}
