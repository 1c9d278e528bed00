-- ===== src/Query/Reinforce.antt =====
-- query/reinforce.go: edge weights from action-after-recall patterns.
-- The order in which Go ranges over the map `bestAction` is the argument `range`.
pub mod Weights
pub mod Once
pub mod Commits
pub mod Examples
use known.Prelude.{
  ℕ, zero, suc, ◌+◌, Bool, true, false, ◌||◌, ◌&&◌, Option, none, some, List, [], ◌∷◌, ◌++◌, map,
  any, ltb, ◌==◌, length, member, if◌then◌else◌, Error, Result, ok, err, wrap, with_context, ◌>>=◌,
}
use known.Prelude.Float.{Float64, FloatOps}
use known.Model.Types.{
  Id128, EventType, recall, search, show, add, update, link, delete, Session, SessionEvent,
}
use known.Model.Edge.{Edge, effective_weight, with_weight}
use known.Storage.{EdgeRepo, SessionRepo}
use known.Query.Types.{no_filter}

pub record ReinforceConfig : Type 0 where
  pub boost_amount : Float64
  pub show_boost : Float64
  pub update_boost : Float64
  pub link_boost : Float64
  pub decay_factor : Float64
  pub min_weight : Float64
  pub max_weight : Float64

pub record ReinforceResult : Type 0 where
  pub sessions_processed : ℕ
  pub edges_boosted : ℕ

-- The strength of an action as a signal.
unfoldable pub action_strength : EventType → ℕ
action_strength update = 2
action_strength link = 2
action_strength show = 1
action_strength recall = 0
action_strength search = 0
action_strength add = 0
action_strength delete = 0

-- What an event is for the scan: a recall, an action on entries, or neither.
pub data Role : Type 0 where
  recalls acts other : Role

pub role : EventType → Role
role recall = recalls
role search = recalls
role show = acts
role update = acts
role link = acts
role delete = acts
role add = other

-- The loop of findActedEvents, from the flag hadRecall.
scan_events : Bool → List SessionEvent → List SessionEvent
unfolding role
scan_events had_recall [] = []
scan_events had_recall (ev ∷ rest) = elim (role ev.event_type) [
  | recalls ↦ scan_events true rest
  | acts ↦
      if had_recall && ltb 0 (length ev.entry_ids)
      then ev ∷ scan_events had_recall rest
      else scan_events had_recall rest
  | other ↦ scan_events had_recall rest
]

unfoldable pub find_acted_events : List SessionEvent → List SessionEvent
unfolding scan_events
find_acted_events events = scan_events false events

-- findActedEntries: the set of the entries of those events.
unfoldable pub find_acted_entries : List SessionEvent → Id128 → Bool
find_acted_entries events id =
    any (λ (ev : SessionEvent). member id ev.entry_ids) (find_acted_events events)

abbrev pub Actions : Type 0
Actions = List (Id128 × EventType)

-- `bestAction[id]` keeps the strongest action, and the first of equals.
pub note_action : EventType → Id128 → Actions → Actions
note_action t id [] = (id, t) ∷ []
note_action t id ((k, existing) ∷ m) =
    if k == id
    then (k, if ltb (action_strength existing) (action_strength t) then t else existing) ∷ m
    else (k, existing) ∷ note_action t id m

pub note_entries : EventType → List Id128 → Actions → Actions
unfolding note_action
note_entries t [] m = m
note_entries t (id ∷ ids) m = note_entries t ids (note_action t id m)

pub best_actions : List SessionEvent → Actions → Actions
unfolding note_entries
best_actions [] m = m
best_actions (ev ∷ rest) m = best_actions rest (note_entries ev.event_type ev.entry_ids m)

module _ (fl : FloatOps) where
  open fl use {lt, mul, of_int, decimal}

  unfoldable pub default_reinforce_config : ReinforceConfig
  default_reinforce_config = record {
    boost_amount = of_int 0;
    show_boost = decimal 2 100;
    update_boost = decimal 5 100;
    link_boost = decimal 5 100;
    decay_factor = decimal 90 100;
    min_weight = decimal 1 100;
    max_weight = decimal 1 1;
  }

  -- `if boost > 0 { return boost }`, with the fallback.
  abbrev pub positive_or : Float64 → Float64 → Float64
  positive_or boost fallback = if lt (of_int 0) boost then boost else fallback

  unfoldable pub boost_for_action : ReinforceConfig → EventType → Float64
  boost_for_action cfg show = positive_or cfg.show_boost cfg.boost_amount
  boost_for_action cfg update = positive_or cfg.update_boost cfg.boost_amount
  boost_for_action cfg link = positive_or cfg.link_boost cfg.boost_amount
  boost_for_action cfg recall = cfg.boost_amount
  boost_for_action cfg search = cfg.boost_amount
  boost_for_action cfg add = cfg.boost_amount
  boost_for_action cfg delete = cfg.boost_amount

  -- `x <= 0`: below or equal, false at NaN.
  at_most_zero : Float64 → Bool
  at_most_zero x = lt x (of_int 0) || fl.eq x (of_int 0)

  unfoldable pub decay_of : ReinforceConfig → Float64
  unfolding at_most_zero
  decay_of cfg =
      if at_most_zero cfg.decay_factor || lt (of_int 1) cfg.decay_factor
      then of_int 1
      else cfg.decay_factor

  unfoldable pub min_weight_of : ReinforceConfig → Float64
  unfolding at_most_zero
  min_weight_of cfg = if at_most_zero cfg.min_weight then decimal 1 100 else cfg.min_weight

  -- Decay, boost, and the clamp to [min, max], the lower bound last.
  unfoldable pub reinforced : ReinforceConfig → Float64 → Edge → Float64
  reinforced cfg boost edge =
      let w = fl.add (mul (effective_weight fl edge) (decay_of cfg)) boost in
      let capped = if lt cfg.max_weight w then cfg.max_weight else w in
      if lt capped (min_weight_of cfg) then min_weight_of cfg else capped

  module _ {S : Type 0} (edges : EdgeRepo S) (sessions : SessionRepo S)
      (cfg : ReinforceConfig) where
    pub record Progress : Type 0 where
      pub db : S
      pub seen : List Id128
      pub boosted : ℕ

    -- An error comes with the count of the edges boosted before it.
    pub data Attempt : Type 0 where
      done : Progress → Attempt
      aborted : ℕ → Error → Attempt

    abbrev and_then : Attempt → (Progress → Attempt) → Attempt
    and_then (done p) f = f p
    and_then (aborted n e) f = aborted n e

    counted : Progress → Result S → Attempt
    counted p (ok db) = done (record p { db = db; boosted = suc p.boosted })
    counted p (err e) = aborted p.boosted (wrap "update edge" e)

    boost_edge : Float64 → Progress → Edge → Attempt
    unfolding counted
    boost_edge boost p edge =
        if member edge.id p.seen
        then done p
        else counted (record p { seen = edge.id ∷ p.seen })
            (edges.update p.db (with_weight edge (reinforced cfg boost edge)))

    boost_edges : Float64 → Progress → List Edge → Attempt
    unfolding boost_edge
    boost_edges boost p [] = done p
    boost_edges boost p (edge ∷ rest) =
        and_then (boost_edge boost p edge) (λ p'. boost_edges boost p' rest)

    adjacent : S → Id128 → Result (List Edge)
    adjacent db id = do
      out ← with_context "edges from" (edges.edges_from db id no_filter)
      in' ← with_context "edges to" (edges.edges_to db id no_filter)
      ok (out ++ in')

    boost_adjacent : Float64 → Progress → Result (List Edge) → Attempt
    unfolding boost_edges
    boost_adjacent boost p (ok all_edges) = boost_edges boost p all_edges
    boost_adjacent boost p (err e) = aborted p.boosted e

    boost_entries : Progress → Actions → Attempt
    unfolding boost_adjacent adjacent
    boost_entries p [] = done p
    boost_entries p ((id, action) ∷ rest) =
        and_then (boost_adjacent (boost_for_action cfg action) p (adjacent p.db id))
          (λ p'. boost_entries p' rest)

    start_at : S → Progress
    start_at db = record { db = db; seen = []; boosted = 0 }

    process_events : (Actions → Actions) → S → List SessionEvent → Attempt
    unfolding boost_entries best_actions start_at
    process_events range db [] = done (start_at db)
    process_events range db (ev ∷ rest) =
        boost_entries (start_at db) (range (best_actions (ev ∷ rest) []))

    unfoldable pub process_session : (Actions → Actions) → S → Id128 → Attempt
    unfolding process_events
    process_session range db session_id =
        elim (with_context "list events" (sessions.list_events db session_id)) [
          | ok events ↦ process_events range db (find_acted_events events)
          | err e ↦ aborted 0 e
        ]

    -- The body of the transaction: the boosts and the mark.
    pub in_tx : (Actions → Actions) → Id128 → S → Result (ℕ × S)
    in_tx range id db = elim (process_session range db id) [
      | aborted n e ↦ err (wrap "process session" e)
      | done p ↦ elim (sessions.mark_processed p.db id) [
        | ok db' ↦ ok (p.boosted, db')
        | err e ↦ err (wrap "mark processed" e)
      ]
    ]

    -- TxFunc: the state of the database after the call, and the result.
    abbrev pub TxFunc : Type 0
    TxFunc = S → (S → Result (ℕ × S)) → Result ℕ × S

    -- What follows the transaction of a session: the end on an error, or the sessions that are left.
    abbrev after_tx :
        (ReinforceResult → S → Result ReinforceResult × S)
        → ReinforceResult
        → Result ℕ × S
        → Result ReinforceResult × S
    after_tx others result (err e, db') = (err e, db')
    after_tx others result (ok boosted, db') =
        others
          (record {
            sessions_processed = suc result.sessions_processed;
            edges_boosted = result.edges_boosted + boosted;
          })
          db'

    reinforce_sessions :
        TxFunc
        → (Actions → Actions)
        → List Session
        → ReinforceResult
        → S
        → Result ReinforceResult × S
    unfolding in_tx
    reinforce_sessions with_tx range [] result db = (ok result, db)
    reinforce_sessions with_tx range (session ∷ rest) result db =
        after_tx (reinforce_sessions with_tx range rest) result
          (with_tx db (in_tx range session.id))

    unfoldable pub reinforce : TxFunc → (Actions → Actions) → S → Result ReinforceResult × S
    unfolding reinforce_sessions
    reinforce with_tx range db =
        elim (with_context "list unprocessed sessions" (sessions.list_unprocessed_sessions db)) [
          | err e ↦ (err e, db)
          | ok unprocessed ↦
              reinforce_sessions with_tx range unprocessed
                (record { sessions_processed = 0; edges_boosted = 0 }) db
        ]
