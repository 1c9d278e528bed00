-- ===== src/Query/Reinforce/Examples.antt =====
-- The reinforcement of one session that recalls and then shows entry 2.
use mathlib.Core.Path.{◌≡◌}
use known.Prelude.{
  ℕ, true, false, refl, ◌⊎◌, inl, inr, [], ◌∷◌, length, member, Error, Result, ok, err,
  Result-cases,
}
use known.Prelude.Sets.{IsDistinct}
use known.Model.Types.{SessionEvent, show, recall}
use known.Query.Reinforce.{
  ReinforceConfig, Actions, Progress, done, role, reinforced, reinforce, process_session,
  find_acted_events, min_weight_of, best_actions, action_strength, boost_entries, adjacent,
}
use known.Query.Reinforce.Weights.{reinforced_bounds, find_acted_events_lem, actions}
use known.Query.Reinforce.Once.{Updates, process_session_once}
use known.Query.Reinforce.Commits.{Outcome, reinforce_commits}
use known.Fixture.Floats.{thousandths}
use known.Fixture.Store.{edges, sessions, session, one_two}

abbrev cfg : ReinforceConfig
cfg = record {
  boost_amount = 0;
  show_boost = 20;
  update_boost = 50;
  link_boost = 50;
  decay_factor = 900;
  min_weight = 10;
  max_weight = 1000;
}

min_weight_run : min_weight_of thousandths cfg ≡ 10
unfolding min_weight_of
min_weight_run = refl

reinforced_bounds_example :
    (thousandths.lt (reinforced thousandths cfg 20 one_two) (min_weight_of thousandths cfg) ≡ false)
    × ((thousandths.lt cfg.max_weight (min_weight_of thousandths cfg) ≡ true)
        ⊎ (thousandths.lt cfg.max_weight (reinforced thousandths cfg 20 one_two) ≡ false))
reinforced_bounds_example = reinforced_bounds thousandths cfg 20 one_two

abbrev recalled : SessionEvent
recalled = record {
  id = 31;
  session_id = 21;
  event_type = recall;
  entry_ids = [];
  edge_ids = [];
  query = [];
  created_at = 6;
}

abbrev shown : SessionEvent
shown = record recalled { id = 32; event_type = show; entry_ids = 2 ∷ [] }

find_acted_events_lem_example :
    (find_acted_events (shown ∷ []) ≡ [])
    × (find_acted_events (shown ∷ recalled ∷ shown ∷ []) ≡ actions (shown ∷ []))
unfolding role
find_acted_events_lem_example =
    find_acted_events_lem (shown ∷ []) (shown ∷ []) recalled (λ h. cc h, tt) refl

abbrev in_order : Actions → Actions
in_order m = m

abbrev after_session : Progress thousandths edges sessions cfg
after_session = record { db = tt; seen = 11 ∷ 12 ∷ []; boosted = 2 }

process_session_run :
    process_session thousandths edges sessions cfg in_order tt 21 ≡ done after_session
unfolding process_session find_acted_events role best_actions action_strength boost_entries adjacent
    member
process_session_run = refl

process_session_once_example :
    Updates thousandths edges sessions cfg tt after_session.seen after_session.db
    × IsDistinct after_session.seen
    × (after_session.boosted ≡ length after_session.seen)
process_session_once_example =
    process_session_once thousandths edges sessions cfg in_order tt 21 after_session
      process_session_run

-- A transaction on a store that never changes.
abbrev with_tx : Unit {0} → (Unit {0} → Result (ℕ × Unit {0})) → Result ℕ × Unit {0}
with_tx db f = elim (f db) [ ok (n, db') ↦ (ok n, db') | err e ↦ (err e, db) ]

with_tx-atomic :
    (db : Unit {0}) (f : Unit {0} → Result (ℕ × Unit {0}))
    → ((n : ℕ) × (db' : Unit {0}) × (f db ≡ ok (n, db')) × (with_tx db f ≡ (ok n, db')))
      ⊎ ((e : Error) × (with_tx db f ≡ (err e, db)))
with_tx-atomic db f = elim (Result-cases (f db)) [
  | inl ((n, db'), e) ↦ inl (n, db', e, rw (e, with_tx))
  | inr (x, e) ↦ inr (x, rw (e, with_tx))
]

reinforce_commits_example :
    Outcome thousandths edges sessions cfg with_tx with_tx-atomic in_order 0 tt
      (session ∷ [])
      (reinforce thousandths edges sessions cfg with_tx in_order tt)
reinforce_commits_example =
    reinforce_commits thousandths edges sessions cfg with_tx with_tx-atomic in_order tt
      (session ∷ []) refl
