-- ===== src/Model/Types.antt =====
-- model/types.go and model/session.go.
-- A ULID is its 128-bit number: the zero id is 0, and the text of an id, by which the code keys
-- its maps, has one value for each id and the order of the ids.
use known.Prelude.{
  ℕ, ◌-◌, ◌/◌, Bool, Option, none, some, List, [], ◌∷◌, ltb, leb, ◌==◌, if◌then◌else◌, Result, ok,
  err, errorf, fail_if, ◌>>◌,
}
use known.Prelude.Float.{Float64}
use known.Prelude.Int.{ℤ}
use known.Prelude.Text.{Text, codes, text_eq, is_empty}

abbrev pub Id128 : Type 0
Id128 = ℕ

unfoldable pub is_zero : Id128 → Bool
is_zero id = id == 0

-- time.Time in nanoseconds, the zero time at 0; time.Duration in nanoseconds.
abbrev pub Time : Type 0
Time = ℕ

-- A value of `map[string]any`; `json` is any other one, by its encoding.
pub data Value : Type 0 where
  str json : Text → Value
  int int64 : ℤ → Value
  float64 : Float64 → Value

-- `nil` is `none`.
abbrev pub Metadata : Type 0
Metadata = Option (List (Text × Value))

lookup : Text → List (Text × Value) → Option Value
lookup key [] = none
lookup key ((k, v) ∷ m) = if text_eq k key then some v else lookup key m

unfoldable pub get : Metadata → Text → Option Value
unfolding lookup
get none key = none
get (some m) key = lookup key m

unfoldable pub get_string : Metadata → Text → Text
unfolding get
get_string m key = elim (get m key) [ some (str s) ↦ s | _ ↦ [] ]

-- Clone by a JSON round trip, `round_trip`, and by a shallow copy where that fails.
unfoldable pub clone : (List (Text × Value) → Result (List (Text × Value))) → Metadata → Metadata
clone round_trip none = none
clone round_trip (some m) = elim (round_trip m) [ ok c ↦ some c | err e ↦ some m ]

pub record Source : Type 0 where
  pub type : Text
  pub reference : Text
  pub meta : Metadata

unfoldable pub validate_source : Source → Result (Unit {0})
validate_source s = do
  fail_if (is_empty s.type) (errorf "source type is required")
  fail_if (is_empty s.reference) (errorf "source reference is required")
  ok tt

abbrev pub provenance_verified : Text
provenance_verified = codes "verified"

abbrev pub provenance_inferred : Text
provenance_inferred = codes "inferred"

abbrev pub provenance_uncertain : Text
provenance_uncertain = codes "uncertain"

pub record Provenance : Type 0 where
  pub level : Text

pub record Freshness : Type 0 where
  pub observed_at : Time
  pub observed_by : Text
  pub source_hash : Text

-- The label of a duration in days: `aging Nd` and `stale Nd` carry the days.
pub data Label : Type 0 where
  fresh : Label
  aging stale : ℕ → Label

abbrev pub day : ℕ
day = 86_400_000_000_000

-- FreshnessLabel at the time `now`. A reference in the future has a negative age, and `int` of a
-- negative number of days is below 7 as 0 is.
unfoldable pub freshness_label : Freshness → Time → Time → Label
freshness_label f created_at now =
    let ref = if f.observed_at == 0 then created_at else f.observed_at in
    let days = (now - ref) / day in
    if ltb days 7 then fresh else if leb days 30 then aging days else stale days

pub data EventType : Type 0 where
  recall search show add update link delete : EventType

pub record Session : Type 0 where
  pub id : Id128
  pub started_at : Time
  pub ended_at : Option Time
  pub scope : Text
  pub agent : Text

pub record SessionEvent : Type 0 where
  pub id : Id128
  pub session_id : Id128
  pub event_type : EventType
  pub entry_ids : List Id128
  pub edge_ids : List Id128
  pub query : Text
  pub created_at : Time
