-- ===== src/Sqlite/Consistent/Sessions.antt =====
-- The statements of storage/sqlite/session.go on consistent tables.
use known.Prelude.{
  ◌≡◌, refl, ◌∙◌, true, ◌==◌, List, [], ◌∷◌, ◌++◌, map, inl, inr, any, member, ok, Bool-cases,
  arith,
}
use known.Prelude.Rows.{any-append, mem-add, IsDistinct-add, map-same_ids}
use known.Prelude.Sets.{IsDistinct}
use known.Model.Types.{Id128, Time}
use known.Sqlite.Tables.{SessionRow, EventRow, Db}
use known.Sqlite.Session.{
  is_session, has_session, insert_session, ended, set_ended, insert_reinforcement, insert_event,
}
use known.Sqlite.Consistent.{IsConsistent, HasSessions, HasReinforced, written}

-- A change of the three tables that keeps the sessions among the sessions.
set_sessions-IsConsistent :
    (db : Db) (sessions : List SessionRow) (events : List EventRow) (reinforced : List Id128)
    → IsConsistent db
    → IsDistinct (map (λ (r : SessionRow). r.id) sessions)
    → HasSessions sessions events
    → HasReinforced sessions reinforced
    → IsConsistent (record db {
      sessions = sessions;
      session_events = events;
      session_reinforcements = reinforced;
    })
set_sessions-IsConsistent db sessions events reinforced c ids h k = record {
  entry_ids = c.entry_ids;
  contents = c.contents;
  scopes = c.scopes;
  edge_ids = c.edge_ids;
  ends = c.ends;
  owners = c.owners;
  session_ids = ids;
  events = h;
  reinforced = k;
}

any_session-add :
    (id : Id128) (rows : List SessionRow) (r : SessionRow)
    → any (is_session id) rows ≡ true
    → any (is_session id) (rows ++ r ∷ []) ≡ true
any_session-add id rows r h = rw (any-append (is_session id) rows (r ∷ []), h) refl

pub insert_session-IsConsistent :
    (r : SessionRow) (db db' : Db)
    → IsConsistent db
    → insert_session r db ≡ ok (tt, db')
    → IsConsistent db'
unfolding insert_session HasSessions HasReinforced
insert_session-IsConsistent r db db' c h = elim (Bool-cases (any (is_session r.id) db.sessions)) [
  | inl e ↦ absurd (cc (rw e at h))
  | inr e ↦ written (rw e at h) (
      set_sessions-IsConsistent db (db.sessions ++ r ∷ []) db.session_events
        db.session_reinforcements c
        (IsDistinct-add (λ (x : SessionRow). x.id) db.sessions r c.session_ids e)
        (λ x m. any_session-add x.session_id db.sessions r (c.events x m))
        (λ id m. any_session-add id db.sessions r (c.reinforced id m)))
]

ended_id : (id : Id128) (now : Time) (r : SessionRow) → (ended id now r).id ≡ r.id
ended_id id now r = elim (Bool-cases (r.id == id)) [ inl e ↦ rw e refl | inr e ↦ rw e refl ]

any_session-ended :
    (id : Id128) (now : Time) (a : Id128) (rows : List SessionRow)
    → any (is_session a) (map (ended id now) rows) ≡ any (is_session a) rows
any_session-ended id now a [] = refl
any_session-ended id now a (r ∷ rows) =
    ground (arith, ended_id id now r, any_session-ended id now a rows)

pub set_ended-IsConsistent :
    (id : Id128) (now : Time) (db : Db) → IsConsistent db → IsConsistent (set_ended id now db).1
unfolding set_ended HasSessions HasReinforced
set_ended-IsConsistent id now db c =
    set_sessions-IsConsistent db (map (ended id now) db.sessions) db.session_events
      db.session_reinforcements c
      (rw (map-same_ids (λ (r : SessionRow). r.id) (ended id now) db.sessions (ended_id id now))
        c.session_ids)
      (λ r m. any_session-ended id now r.session_id db.sessions ∙ c.events r m)
      (λ a m. any_session-ended id now a db.sessions ∙ c.reinforced a m)

pub insert_reinforcement-IsConsistent :
    (id : Id128) (db db' : Db)
    → IsConsistent db
    → insert_reinforcement id db ≡ ok (tt, db')
    → IsConsistent db'
unfolding insert_reinforcement has_session HasReinforced
insert_reinforcement-IsConsistent id db db' c h =
    elim (Bool-cases (member id db.session_reinforcements)) [
      | inl e ↦ written (rw e at h) c
      | inr e ↦ elim (Bool-cases (any (is_session id) db.sessions)) [
        | inr f ↦ absurd (cc (rw (e, f) at h))
        | inl f ↦ written (rw (e, f) at h) (
            set_sessions-IsConsistent db db.sessions db.session_events _ c c.session_ids c.events
              (λ a m. elim (mem-add db.session_reinforcements id a m) [
                | inl i ↦ c.reinforced a i
                | inr same ↦ rw same f
              ]))
      ]
    ]

pub insert_event-IsConsistent :
    (r : EventRow) (db db' : Db)
    → IsConsistent db
    → insert_event r db ≡ ok (tt, db')
    → IsConsistent db'
unfolding insert_event has_session HasSessions
insert_event-IsConsistent r db db' c h =
    elim (Bool-cases (any (λ (x : EventRow). x.id == r.id) db.session_events)) [
      | inl e ↦ absurd (cc (rw e at h))
      | inr e ↦ elim (Bool-cases (any (is_session r.session_id) db.sessions)) [
        | inr f ↦ absurd (cc (rw (e, f) at h))
        | inl f ↦ written (rw (e, f) at h) (
            set_sessions-IsConsistent db db.sessions _ db.session_reinforcements c c.session_ids
              (λ x m. elim (mem-add db.session_events r x m) [
                | inl i ↦ c.events x i
                | inr same ↦ rw same f
              ])
              c.reinforced)
      ]
    ]
