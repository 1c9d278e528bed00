-- ===== src/Query/Reinforce/Weights.antt =====
-- The weights that reinforcement writes, and the events that it acts on.
use mathlib.Core.Path.{◌≡◌}
use known.Prelude.{
  true, false, refl, ◌⊎◌, inl, inr, List, [], ◌∷◌, ◌++◌, arith, All, length, ltb, if◌then◌else◌,
  Bool-cases,
}
use known.Prelude.Float.{Float64, FloatOps}
use known.Model.Types.{SessionEvent}
use known.Model.Edge.{Edge}
use known.Query.Reinforce.{
  ReinforceConfig, reinforced, min_weight_of, Role, recalls, acts, other, role, scan_events,
  find_acted_events,
}

module _ (fl : FloatOps) where
  -- Whatever the old weight, the boost and the decay, a reinforced weight is not below the minimal
  -- weight, and it is not above the maximal one unless the minimal weight is.
  pub reinforced_bounds :
      (cfg : ReinforceConfig) (boost : Float64) (edge : Edge)
      → (fl.lt (reinforced fl cfg boost edge) (min_weight_of fl cfg) ≡ false)
        × ((fl.lt cfg.max_weight (min_weight_of fl cfg) ≡ true)
            ⊎ (fl.lt cfg.max_weight (reinforced fl cfg boost edge) ≡ false))
  unfolding reinforced
  reinforced_bounds cfg boost edge =
      elim (Bool-cases (fl.lt cfg.max_weight (min_weight_of fl cfg))) [
        | inl h ↦ (ground (arith, fl.lt_irrefl (min_weight_of fl cfg)), inl h)
        | inr h ↦ (
          ground (arith, fl.lt_irrefl (min_weight_of fl cfg)),
          inr (ground (arith, fl.lt_irrefl cfg.max_weight)),
        )
      ]

-- An event of a role.
abbrev pub Has : Role → SessionEvent → Type 0
Has r ev = role ev.event_type ≡ r

-- The actions on at least one entry, in order.
pub actions : List SessionEvent → List SessionEvent
unfolding role
actions [] = []
actions (ev ∷ rest) = elim (role ev.event_type) [
  | acts ↦ if ltb 0 (length ev.entry_ids) then ev ∷ actions rest else actions rest
  | recalls ↦ actions rest
  | other ↦ actions rest
]

pub Role-cases : (r : Role) → (r ≡ recalls) ⊎ ((r ≡ acts) ⊎ (r ≡ other))
Role-cases recalls = inl refl
Role-cases acts = inr (inl refl)
Role-cases other = inr (inr refl)

scan_events-after : (events : List SessionEvent) → scan_events true events ≡ actions events
unfolding scan_events actions
scan_events-after [] = refl
scan_events-after (ev ∷ rest) = elim (Role-cases (role ev.event_type)) [
  | inl r ↦ rw (r, scan_events, actions) (scan_events-after rest)
  | inr (inl a) ↦ rw (a, scan_events, actions, scan_events-after rest)
  | inr (inr o) ↦ rw (o, scan_events, actions) (scan_events-after rest)
]

abbrev pub NoRecall : List SessionEvent → Type 0
NoRecall = All (λ ev. (role ev.event_type ≡ recalls) → ⊥)

-- Up to the first recall or search no event counts, and after it exactly the actions on entries do.
pub find_acted_events_lem :
    (before after : List SessionEvent) (ev : SessionEvent)
    → NoRecall before
    → Has recalls ev
    → (find_acted_events before ≡ []) × (find_acted_events (before ++ ev ∷ after) ≡ actions after)
unfolding find_acted_events scan_events
find_acted_events_lem [] after ev n r = (refl, rw (r, scan_events) (scan_events-after after))
find_acted_events_lem (x ∷ before) after ev n r =
    let (a, b) = find_acted_events_lem before after ev n.1 r in
    elim (Role-cases (role x.event_type)) [
      | inl y ↦ absurd (n.0 y)
      | inr (inl y) ↦ (rw (y, scan_events) a, rw (y, scan_events) b)
      | inr (inr y) ↦ (rw (y, scan_events) a, rw (y, scan_events) b)
    ]
