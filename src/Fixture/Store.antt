-- ===== src/Fixture/Store.antt =====
-- A store of three entries, 1 to 3, in a chain 1 → 2 → 3 of two edges.
use mathlib.Core.Path.{◌≡◌}
use known.Prelude.{
  refl, sym, ap, inl, inr, none, some, List, [], ◌∷◌, arith, ◌&&◌, leb, ◌==◌, member, if◌then◌else◌,
  Bool-cases, not_found, is_not_found, Result, ok, err, ok-injective,
}
use known.Prelude.Text.{codes}
use known.Model.Types.{Id128, Session, SessionEvent, recall, show}
use known.Model.Edge.{Edge, edge_depends_on}
use known.Model.Entry.{Entry}
use known.Storage.{SimilarityResult, EntryRepo, EdgeRepo, SessionRepo}
use known.Query.Types.{Engine}
use known.Query.Readable.{IsReadable}

abbrev pub entry_of : Id128 → Entry
entry_of id = record {
  id = id;
  title = [];
  content = codes "text";
  content_hash = [];
  embedding = 1 ∷ 2 ∷ [];
  embedding_dim = 2;
  embedding_model = codes "m";
  source = record { type = codes "file"; reference = codes "a"; meta = none };
  provenance = record { level = codes "inferred" };
  freshness = record { observed_at = 5; observed_by = []; source_hash = [] };
  scope = codes "root";
  ttl = none;
  expires_at = none;
  meta = none;
  labels = [];
  version = 1;
  created_at = 5;
  updated_at = 5;
  conflicts_with = [];
  resolution_status = [];
}

abbrev pub get_entry : Id128 → Result Entry
get_entry id = if leb 1 id && leb id 3 then ok (entry_of id) else err not_found

abbrev pub link : Id128 → Id128 → Id128 → Edge
link id from to = record {
  id = id;
  from_id = from;
  to_id = to;
  type = edge_depends_on;
  weight = none;
  meta = none;
  created_at = 5;
}

abbrev pub one_two : Edge
one_two = link 11 1 2

abbrev pub two_three : Edge
two_three = link 12 2 3

abbrev pub edges_out : Id128 → List Edge
edges_out id = if id == 1 then one_two ∷ [] else if id == 2 then two_three ∷ [] else []

abbrev pub edges_in : Id128 → List Edge
edges_in id = if id == 2 then one_two ∷ [] else if id == 3 then two_three ∷ [] else []

-- The nearest of the three entries.
abbrev pub nearest : List SimilarityResult
nearest =
    record { entry = entry_of 2; distance = 200 }
    ∷ record { entry = entry_of 3; distance = 500 }
    ∷ []

abbrev pub entries : EntryRepo (Unit {0})
entries = record {
  create = λ db e. ok (e, db);
  create_or_update = λ db e. ok (e, db);
  get = λ db id. get_entry id;
  update = λ db e. ok (e, db);
  delete = λ db id. ok db;
  list = λ db f. ok [];
  search_similar = λ db v s m n. ok nearest;
  search_text = λ db t s n. ok nearest;
  delete_expired = λ db. ok (0, db);
}

abbrev pub edges : EdgeRepo (Unit {0})
edges = record {
  create = λ db e. ok db;
  get = λ db id. err not_found;
  update = λ db e. ok db;
  delete = λ db id. ok db;
  edges_from = λ db id f. ok (edges_out id);
  edges_to = λ db id f. ok (edges_in id);
  edges_between = λ db a b. ok [];
  find_conflicts = λ db id. ok [];
}

abbrev pub events : List SessionEvent
events =
    record {
      id = 31;
      session_id = 21;
      event_type = recall;
      entry_ids = [];
      edge_ids = [];
      query = codes "text";
      created_at = 6;
    }
    ∷ record {
      id = 32;
      session_id = 21;
      event_type = show;
      entry_ids = 2 ∷ [];
      edge_ids = [];
      query = [];
      created_at = 7;
    }
    ∷ []

abbrev pub session : Session
session = record { id = 21; started_at = 5; ended_at = none; scope = []; agent = [] }

abbrev pub sessions : SessionRepo (Unit {0})
sessions = record {
  create_session = λ db s. ok db;
  end_session = λ db id. ok db;
  get_session = λ db id. ok session;
  log_event = λ db e. ok db;
  list_events = λ db id. ok events;
  list_unprocessed_sessions = λ db. ok (session ∷ []);
  mark_processed = λ db id. ok db;
}

abbrev pub engine : Engine (Unit {0})
engine = record {
  entries = entries;
  edges = edges;
  embedder = some (record { embed = λ t. ok (1 ∷ 2 ∷ []) });
}

same_id : (a b : Entry) → a ≡ b → b.id ≡ a.id
same_id a b e = sym (ap (λ (x : Entry). x.id) e)

pub get_entry-id : (id : Id128) (entry : Entry) → get_entry id ≡ ok entry → entry.id ≡ id
get_entry-id id entry h = elim (Bool-cases (leb 1 id && leb id 3)) [
  | inl e ↦ same_id (entry_of id) entry (ok-injective (rw e at h))
  | inr e ↦ cc (rw e at h)
]

pub engine-IsReadable : IsReadable engine tt (1 ∷ 2 ∷ 3 ∷ [])
unfolding member is_not_found
engine-IsReadable = record {
  from = λ id f. (edges_out id, refl);
  to = λ id f. (edges_in id, refl);
  conflicts = λ id. ([], refl);
  entries = λ id. elim (Bool-cases (leb 1 id && leb id 3)) [
    | inl e ↦ inl (entry_of id, rw e, ground arith)
    | inr e ↦ inr (not_found, rw e, refl)
  ];
}
