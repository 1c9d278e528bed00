-- ===== src/Query/Conflict/Examples.antt =====
-- The conflicts of a store that lists the entries 1 and 2.
use mathlib.Core.Path.{◌≡◌}
use known.Prelude.{
  refl, sym, subst, inl, inr, List, [], ◌∷◌, All, member, ok, ok-injective, ◌==◌, ==_iff,
  Bool-cases, if◌then◌else◌,
}
use known.Prelude.Sets.{IsDistinct}
use known.Prelude.Text.{codes}
use known.Model.Types.{Id128}
use known.Model.Edge.{Edge, edge_contradicts}
use known.Model.Entry.{Entry}
use known.Query.Types.{ConflictPair, Engine}
use known.Query.Conflict.{scope_filter, contradicts_filter, detect_all_conflicts}
use known.Query.Conflict.Pairs.{IsConflict, edge_ids, detect_all_conflicts-IsConflict}
use known.Fixture.Store

abbrev listed : List Entry
listed = Store.entry_of 1 ∷ Store.entry_of 2 ∷ []

-- The edges of the fixture, as contradictions.
abbrev contradicting : Edge → Edge
contradicting e = record e { type = edge_contradicts }

abbrev from_entry : Id128 → List Edge
from_entry id =
    if id == 1
    then contradicting Store.one_two ∷ []
    else if id == 2
    then contradicting Store.two_three ∷ []
    else []

abbrev engine : Engine (Unit {0})
engine = record Store.engine {
  entries = record Store.entries { list = λ db f. ok listed };
  edges = record Store.edges { edges_from = λ db id f. ok (from_entry id) };
}

from_entry-All :
    (id : Id128) → All (λ e. (e.from_id ≡ id) × (e.type ≡ edge_contradicts)) (from_entry id)
from_entry-All id = elim (Bool-cases (id == 1)) [
  | inl a ↦ rw a ((sym ((==_iff id 1).0 a), refl), tt)
  | inr a ↦ elim (Bool-cases (id == 2)) [
    | inl b ↦ rw (a, b) ((sym ((==_iff id 2).0 b), refl), tt)
    | inr b ↦ rw (a, b) tt
  ]
]

filters :
    (id : Id128) (es : List Edge)
    → engine.edges.edges_from tt id contradicts_filter ≡ ok es
    → All (λ e. (e.from_id ≡ id) × (e.type ≡ edge_contradicts)) es
filters id es h =
    subst (All (λ e. (e.from_id ≡ id) × (e.type ≡ edge_contradicts))) (ok-injective h)
      (from_entry-All id)

abbrev found : List ConflictPair
found =
    record {
      entry_a = Store.entry_of 1;
      entry_b = Store.entry_of 2;
      edge = contradicting Store.one_two;
    }
    ∷ record {
      entry_a = Store.entry_of 2;
      entry_b = Store.entry_of 3;
      edge = contradicting Store.two_three;
    }
    ∷ []

detect_all_conflicts_run : detect_all_conflicts engine tt (codes "root") ≡ ok found
unfolding detect_all_conflicts member
detect_all_conflicts_run = refl

detect_all_conflicts-IsConflict_example :
    (all : List Entry) × (engine.entries.list tt (scope_filter (codes "root")) ≡ ok all)
    × All (IsConflict engine tt filters all) found
    × IsDistinct (edge_ids found)
detect_all_conflicts-IsConflict_example =
    detect_all_conflicts-IsConflict engine tt filters (codes "root") found detect_all_conflicts_run
