-- ===== src/Query/Path/Examples.antt =====
-- The path from entry 1 to entry 3 in the chain 1 → 2 → 3.
use mathlib.Core.Path.{◌≡◌}
use known.Prelude.{
  refl, sym, subst, inl, inr, true, false, ◌||◌, List, [], ◌∷◌, ◌++◌, arith, All, ◌==◌, ==_iff,
  Bool-cases, member, ok, ok-injective,
}
use known.Prelude.Int.{pos}
use known.Model.Types.{Id128, is_zero}
use known.Model.Edge.{Edge}
use known.Query.Types.{QueryResult, hit, traversal, neighbor}
use known.Query.Bfs.{returned, loop}
use known.Query.Path.{
  pop, build_path_results, all_edges_at, path_edge, path_edges, path_turn, start_path, path_results,
  find_path,
}
use known.Query.Path.Returns.{find_path_returns}
use known.Fixture.Store.{
  engine, entry_of, one_two, two_three, edges_out, edges_in, engine-IsReadable,
}

abbrev found : List QueryResult
found =
    record (hit (entry_of 2) traversal 1) { edge_path = one_two ∷ [] }
    ∷ record (hit (entry_of 3) traversal 2) { edge_path = one_two ∷ two_three ∷ [] }
    ∷ []

find_path_run : find_path engine tt 1 3 (pos 0) 9 ≡ returned found
unfolding find_path path_results start_path path_turn path_edges path_edge all_edges_at
    build_path_results loop pop member neighbor is_zero
find_path_run = refl

ends :
    (id : Id128)
    → All (λ edge. member (neighbor edge id) (1 ∷ 2 ∷ 3 ∷ []) ≡ true) (edges_out id ++ edges_in id)
unfolding member neighbor
ends id = elim (Bool-cases (id == 1)) [
  | inl a ↦ subst Ends (sym ((==_iff id 1).0 a)) (refl, tt)
  | inr a ↦ elim (Bool-cases (id == 2)) [
    | inl b ↦ subst Ends (sym ((==_iff id 2).0 b)) (refl, (refl, tt))
    | inr b ↦ elim (Bool-cases (id == 3)) [
      | inl c ↦ subst Ends (sym ((==_iff id 3).0 c)) (refl, tt)
      | inr c ↦ rw (a, b, c) tt
    ]
  ]
]
  where
    Ends : Id128 → Type 0
    Ends id =
        All (λ edge. member (neighbor edge id) (1 ∷ 2 ∷ 3 ∷ []) ≡ true)
          (edges_out id ++ edges_in id)

closed :
    (id : Id128) (es : List Edge)
    → all_edges_at engine tt id ≡ ok es
    → All (λ edge. member (neighbor edge id) (1 ∷ 2 ∷ 3 ∷ []) ≡ true) es
unfolding all_edges_at
closed id es h =
    subst (All (λ edge. member (neighbor edge id) (1 ∷ 2 ∷ 3 ∷ []) ≡ true)) (ok-injective h)
      (ends id)

not_zero : (is_zero 1 || is_zero 3) ≡ false
unfolding is_zero
not_zero = refl

find_path_returns_example :
    (rs : List QueryResult) × (find_path engine tt 1 3 (pos 0) 9 ≡ returned rs)
find_path_returns_example =
    find_path_returns engine tt (1 ∷ 2 ∷ 3 ∷ []) engine-IsReadable closed 3 1 (pos 0) 9 not_zero
      (omega arith)
