-- ===== src/Sqlite/Session.antt =====
-- storage/sqlite/session.go: the rows of `sessions`, `session_events` and `session_reinforcements`.
use known.Prelude.{
  ℕ, Bool, true, false, not, ◌&&◌, Option, none, some, List, [], ◌∷◌, ◌++◌, map, any, keep, find_by,
  member, length, ltb, ◌==◌, if◌then◌else◌, not_found, sql, unique_failed, foreign_key_failed,
  Result, ok, err, with_context,
}
use known.Prelude.Order.{order_by}
use known.Model.Types.{Id128, Time, Session, SessionEvent}
use known.Storage.IdSlice.{IdCodec, marshal_id_slice, unmarshal_id_slice}
use known.Sqlite.Tables.{
  SessionRow, EventRow, Db, Action, affected, reads, executes, in_context, ◌>>=◌, format_time,
  parse_time, format_nullable_time, parse_nullable_time, nullable_string, string_of,
}

abbrev pub is_session : Id128 → SessionRow → Bool
is_session id r = r.id == id

unfoldable pub has_session : Id128 → Db → Bool
has_session id db = any (is_session id) db.sessions

-- INSERT INTO sessions
unfoldable pub insert_session : SessionRow → Db → Result (Unit {0} × Db)
unfolding has_session
insert_session r db =
    if has_session r.id db
    then err (sql unique_failed)
    else ok (tt, record db { sessions = db.sessions ++ r ∷ [] })

unfoldable pub create_session : Session → Action (Unit {0})
unfolding insert_session
create_session s = in_context "create session" (
    executes (
      insert_session (record {
        id = s.id;
        started_at = format_time s.started_at;
        ended_at = format_nullable_time s.ended_at;
        scope = nullable_string s.scope;
        agent = nullable_string s.agent;
      })))

abbrev pub ended : Id128 → Time → SessionRow → SessionRow
ended id now r = if r.id == id then record r { ended_at = some (format_time now) } else r

-- UPDATE sessions SET ended_at = ? WHERE id = ?, and the number of rows.
unfoldable pub set_ended : Id128 → Time → Db → ℕ × Db
unfolding keep
set_ended id now db = (
  length (keep (is_session id) db.sessions),
  record db { sessions = map (ended id now) db.sessions },
)

unfoldable pub end_session : Time → Id128 → Action (Unit {0})
unfolding set_ended
end_session now id = do n ← executes (λ db. ok (set_ended id now db)); affected n

abbrev pub session_of : SessionRow → Session
session_of r = record {
  id = r.id;
  started_at = parse_time r.started_at;
  ended_at = parse_nullable_time r.ended_at;
  scope = string_of r.scope;
  agent = string_of r.agent;
}

found : Option SessionRow → Result Session
found none = err not_found
found (some r) = ok (session_of r)

unfoldable pub get_session : Db → Id128 → Result Session
unfolding found find_by
get_session db id = found (find_by (is_session id) db.sessions)

abbrev has_ended : SessionRow → Bool
has_ended r = elim r.ended_at [ none ↦ false | some t ↦ true ]

-- The WHERE of ListUnprocessedSessions.
abbrev pub is_unprocessed : Db → SessionRow → Bool
is_unprocessed db r = has_ended r && not (member r.id db.session_reinforcements)

unfoldable pub list_unprocessed_sessions : Db → List Session
unfolding keep order_by member
list_unprocessed_sessions db = map session_of (
    order_by (λ (r t : SessionRow). ltb r.started_at t.started_at)
      (keep (is_unprocessed db) db.sessions))

-- INSERT INTO session_reinforcements … ON CONFLICT (session_id) DO NOTHING
unfoldable pub insert_reinforcement : Id128 → Db → Result (Unit {0} × Db)
unfolding member has_session
insert_reinforcement id db =
    if member id db.session_reinforcements
    then ok (tt, db)
    else if not (has_session id db)
    then err (sql foreign_key_failed)
    else ok (tt, record db { session_reinforcements = db.session_reinforcements ++ id ∷ [] })

unfoldable pub mark_processed : Id128 → Action (Unit {0})
unfolding insert_reinforcement
mark_processed id = in_context "mark processed" (executes (insert_reinforcement id))

-- INSERT INTO session_events
unfoldable pub insert_event : EventRow → Db → Result (Unit {0} × Db)
unfolding has_session
insert_event r db =
    if any (λ (x : EventRow). x.id == r.id) db.session_events
    then err (sql unique_failed)
    else if not (has_session r.session_id db)
    then err (sql foreign_key_failed)
    else ok (tt, record db { session_events = db.session_events ++ r ∷ [] })

module _ (codec : IdCodec) where
  unfoldable pub log_event : SessionEvent → Action (Unit {0})
  unfolding insert_event
  log_event ev = do
    entry_ids ← reads (λ _. with_context "marshal entry_ids" (marshal_id_slice codec ev.entry_ids))
    edge_ids ← reads (λ _. with_context "marshal edge_ids" (marshal_id_slice codec ev.edge_ids))
    in_context "log event" (
        executes (
          insert_event (record {
            id = ev.id;
            session_id = ev.session_id;
            event_type = ev.event_type;
            entry_ids = entry_ids;
            edge_ids = edge_ids;
            query = nullable_string ev.query;
            created_at = format_time ev.created_at;
          })))

  unfoldable pub scan_session_event : EventRow → Result SessionEvent
  scan_session_event r =
      elim (with_context "unmarshal entry_ids" (unmarshal_id_slice codec r.entry_ids)) [
        | err e ↦ err e
        | ok entry_ids ↦
            elim (with_context "unmarshal edge_ids" (unmarshal_id_slice codec r.edge_ids)) [
              | err e ↦ err e
              | ok edge_ids ↦ ok (record {
                id = r.id;
                session_id = r.session_id;
                event_type = r.event_type;
                entry_ids = entry_ids;
                edge_ids = edge_ids;
                query = string_of r.query;
                created_at = parse_time r.created_at;
              })
            ]
      ]

  unfoldable pub scan_events : List EventRow → Result (List SessionEvent)
  unfolding scan_session_event
  scan_events [] = ok []
  scan_events (r ∷ rows) = elim (scan_session_event r) [
    | err e ↦ err e
    | ok ev ↦ elim (scan_events rows) [ err e ↦ err e | ok evs ↦ ok (ev ∷ evs) ]
  ]

  unfoldable pub list_events : Db → Id128 → Result (List SessionEvent)
  unfolding scan_events keep order_by
  list_events db id = scan_events (
      order_by (λ (r t : EventRow). ltb r.created_at t.created_at)
        (keep (λ (r : EventRow). r.session_id == id) db.session_events))
