-- ===== src/Model/Examples.antt =====
-- Scopes, an edge and an entry of the data model.
use mathlib.Core.Path.{◌≡◌}
use known.Prelude.{true, refl, ◌≢◌, ◌↔◌, none, List, [], ◌∷◌, ◌++◌, ok}
use known.Prelude.Text.{Text, codes, split, join}
use known.Model.Scope.{
  Scope, dot, is_valid_scope_segment, check_segments, parse_scope_path, is_parent_of,
  is_ancestor_of, child, common_ancestor,
}
use known.Model.Scope.Paths.{AreSegments, parse_scope_path-eq-ok}
use known.Model.Scope.Ancestors.{is_ancestor_of_iff}
use known.Model.Scope.Family.{Starts, child_lem, common_ancestor_lem}
use known.Model.Edge.{validate}
use known.Model.Edge.Valid as EdgeValid
use known.Model.Edge.Valid.{validate_edge_iff}
use known.Model.Entry
use known.Model.Entry.Valid as EntryValid
use known.Model.Entry.Valid.{validate_entry_iff}
use known.Fixture.Floats.{thousandths}
use known.Fixture.Store.{one_two, entry_of}

abbrev a : Text
a = codes "a"

abbrev b : Text
b = codes "b"

abbrev c : Text
c = codes "c"

abbrev ab : List Text
ab = a ∷ b ∷ []

abbrev scope : Text → Scope
scope path = record { path = path; meta = none; created_at = 5 }

parse_ab : parse_scope_path (codes "a.b") ≡ ok ab
unfolding parse_scope_path check_segments is_valid_scope_segment split
parse_ab = refl

parse_ac : parse_scope_path (codes "a.c") ≡ ok (a ∷ c ∷ [])
unfolding parse_scope_path check_segments is_valid_scope_segment split
parse_ac = refl

parse_a : parse_scope_path a ≡ ok (a ∷ [])
unfolding parse_scope_path check_segments is_valid_scope_segment split
parse_a = refl

parse_scope_path-eq-ok_example :
    (parse_scope_path (codes "a.b") ≡ ok ab)
    ↔ ((ab ≢ []) × AreSegments ab × (codes "a.b" ≡ join dot ab))
parse_scope_path-eq-ok_example = parse_scope_path-eq-ok (codes "a.b") ab

is_ancestor_of_iff_example :
    (is_ancestor_of (scope a) (scope (codes "a.b")) ≡ true)
    ↔ ((r : Text) × (rs : List Text) × (ab ≡ (a ∷ []) ++ r ∷ rs))
is_ancestor_of_iff_example =
    is_ancestor_of_iff (scope a) (scope (codes "a.b")) (a ∷ []) ab parse_a parse_ab

child_run : child 5 (scope (codes "a.b")) c ≡ ok (scope (codes "a.b.c"))
unfolding child is_valid_scope_segment
child_run = refl

child_lem_example :
    (parse_scope_path (codes "a.b.c") ≡ ok (ab ++ c ∷ []))
    × (is_parent_of (scope (codes "a.b")) (scope (codes "a.b.c")) ≡ true)
    × (is_ancestor_of (scope (codes "a.b")) (scope (codes "a.b.c")) ≡ true)
child_lem_example =
    child_lem 5 (scope (codes "a.b")) (scope (codes "a.b.c")) c ab parse_ab child_run

common_ancestor_lem_example :
    (cs : List Text) × (common_ancestor (scope (codes "a.b")) (scope (codes "a.c")) ≡ join dot cs)
    × Starts cs ab
    × Starts cs (a ∷ c ∷ [])
    × ((p us vs : List Text) → ab ≡ p ++ us → (a ∷ c ∷ []) ≡ p ++ vs → Starts p cs)
common_ancestor_lem_example =
    common_ancestor_lem (scope (codes "a.b")) (scope (codes "a.c")) ab (a ∷ c ∷ []) parse_ab
      parse_ac

validate_edge_iff_example :
    (validate thousandths one_two ≡ ok tt) ↔ EdgeValid.IsWellFormed thousandths one_two
validate_edge_iff_example = validate_edge_iff thousandths one_two

validate_entry_iff_example :
    (Entry.validate (entry_of 1) ≡ ok tt) ↔ EntryValid.IsWellFormed (entry_of 1)
validate_entry_iff_example = validate_entry_iff (entry_of 1)
