-- ===== src/Query/Reinforce/Once.antt =====
-- processSession of query/reinforce.go: the edges that a session updates, and their count.
use mathlib.Core.Path.{◌≡◌}
use known.Prelude.{
  suc, refl, subst, ap, inl, inr, List, [], ◌∷◌, length, member, Bool-cases, Result, ok, err,
  Result-cases,
}
use known.Prelude.Sets.{IsDistinct}
use known.Prelude.Float.{Float64, FloatOps}
use known.Model.Types.{Id128, SessionEvent}
use known.Model.Edge.{Edge, with_weight}
use known.Storage.{EdgeRepo, SessionRepo}
use known.Query.Reinforce.{
  ReinforceConfig, Actions, reinforced, boost_for_action, Progress, Attempt, done, aborted,
  and_then, counted, boost_edge, boost_edges, adjacent, boost_adjacent, boost_entries, start_at,
  process_events, process_session, find_acted_events, best_actions,
}

module _ (fl : FloatOps) {S : Type 0} (edges : EdgeRepo S) (sessions : SessionRepo S)
    (cfg : ReinforceConfig) where
  abbrev P : Type 0
  P = Progress fl edges sessions cfg

  -- The updates that lead from one state to another, each of an edge to a reinforced weight, and the
  -- ids of these edges, the last one first.
  pub data Updates (start : S) : List Id128 → S → Type 0 where
    none : {ids : List Id128} {db : S} → ids ≡ [] → db ≡ start → Updates start ids db
    then :
        {ids before : List Id128} {db db' : S} (edge : Edge) (boost : Float64)
        → Updates start before db
        → edges.update db (with_weight edge (reinforced fl cfg boost edge)) ≡ ok db'
        → ids ≡ edge.id ∷ before
        → Updates start ids db'

  -- The edges seen are distinct, they are those updated, and as many as the boosts.
  record IsCounted (start : S) (p : P) : Type 0 where
    distinct : IsDistinct p.seen
    counts : p.boosted ≡ length p.seen
    updates : Updates start p.seen p.db

  -- What holds of an attempt that succeeds.
  abbrev Ensures : S → Attempt fl edges sessions cfg → Type 0
  Ensures start (done p) = IsCounted start p
  Ensures start (aborted n e) = Unit

  Ensures-and_then :
      (start : S) (a : Attempt fl edges sessions cfg) (f : P → Attempt fl edges sessions cfg)
      → Ensures start a
      → ((p : P) → IsCounted start p → Ensures start (f p))
      → Ensures start (and_then fl edges sessions cfg a f)
  Ensures-and_then start (done p) f h k = k p h
  Ensures-and_then start (aborted n e) f h k = tt

  boost_edge-Ensures :
      (start : S) (boost : Float64) (p : P) (edge : Edge)
      → IsCounted start p
      → Ensures start (boost_edge fl edges sessions cfg boost p edge)
  unfolding boost_edge counted
  boost_edge-Ensures start boost p edge h = elim (Bool-cases (member edge.id p.seen)) [
    | inl m ↦ rw m h
    | inr m ↦
        elim (Result-cases (edges.update p.db (with_weight edge (reinforced fl cfg boost edge)))) [
          | inl (db, u) ↦
              rw (m, u)
                (record {
                  distinct = (m, h.distinct);
                  counts = ap suc h.counts;
                  updates = Updates.then edge boost h.updates u refl;
                })
          | inr (e, u) ↦ rw (m, u) tt
        ]
  ]

  boost_edges-Ensures :
      (start : S) (boost : Float64) (es : List Edge) (p : P)
      → IsCounted start p
      → Ensures start (boost_edges fl edges sessions cfg boost p es)
  unfolding boost_edges
  boost_edges-Ensures start boost [] p h = h
  boost_edges-Ensures start boost (e ∷ es) p h =
      Ensures-and_then start (boost_edge fl edges sessions cfg boost p e)
        (λ q. boost_edges fl edges sessions cfg boost q es) (boost_edge-Ensures start boost p e h)
        (λ q k. boost_edges-Ensures start boost es q k)

  boost_adjacent-Ensures :
      (start : S) (boost : Float64) (p : P) (r : Result (List Edge))
      → IsCounted start p
      → Ensures start (boost_adjacent fl edges sessions cfg boost p r)
  unfolding boost_adjacent
  boost_adjacent-Ensures start boost p (ok es) h = boost_edges-Ensures start boost es p h
  boost_adjacent-Ensures start boost p (err e) h = tt

  boost_entries-Ensures :
      (start : S) (m : Actions) (p : P)
      → IsCounted start p
      → Ensures start (boost_entries fl edges sessions cfg p m)
  unfolding boost_entries
  boost_entries-Ensures start [] p h = h
  boost_entries-Ensures start ((id, action) ∷ rest) p h =
      Ensures-and_then start
        (boost_adjacent fl edges sessions cfg (boost_for_action fl cfg action) p
          (adjacent fl edges sessions cfg p.db id))
        (λ q. boost_entries fl edges sessions cfg q rest)
        (boost_adjacent-Ensures start (boost_for_action fl cfg action) p
          (adjacent fl edges sessions cfg p.db id) h)
        (λ q k. boost_entries-Ensures start rest q k)

  process_events-Ensures :
      (range : Actions → Actions) (db : S) (evs : List SessionEvent)
      → Ensures db (process_events fl edges sessions cfg range db evs)
  unfolding process_events start_at
  process_events-Ensures range db [] = record {
    distinct = tt;
    counts = refl;
    updates = Updates.none refl refl;
  }
  process_events-Ensures range db (ev ∷ rest) =
      boost_entries-Ensures db (range (best_actions (ev ∷ rest) []))
        (start_at fl edges sessions cfg db)
        (record { distinct = tt; counts = refl; updates = Updates.none refl refl })

  -- In whatever order the entries are visited, a session that succeeds leaves the state that updates
  -- of edges to reinforced weights lead to from the one before it, no edge is updated twice, and its
  -- count is the number of the updates.
  pub process_session_once :
      (range : Actions → Actions) (db : S) (session_id : Id128) (p : P)
      → process_session fl edges sessions cfg range db session_id ≡ done p
      → Updates db p.seen p.db × IsDistinct p.seen × (p.boosted ≡ length p.seen)
  unfolding process_session
  process_session_once range db session_id p h =
      elim (Result-cases (sessions.list_events db session_id)) [
        | inr (e, l) ↦ cc (rw (l, process_session) at h)
        | inl (events, l) ↦
            let counted_p =
              subst (Ensures db) (rw (l, process_session) at h)
                (process_events-Ensures range db (find_acted_events events)) in
            (counted_p.updates, counted_p.distinct, counted_p.counts)
      ]
