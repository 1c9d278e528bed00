-- ===== src/Query/Suggest/Examples.antt =====
-- Suggestions for entry 1, which is linked to entry 2.
use mathlib.Core.Path.{◌≡◌}
use known.Prelude.{◌≤◌, refl, List, [], ◌∷◌, All, length, member, ok}
use known.Prelude.Text.{text_eq}
use known.Prelude.Int.{pos}
use known.Model.Edge.{Edge, edge_related_to}
use known.Model.Entry.{has_embedding}
use known.Query.Types.{no_filter}
use known.Query.Score.{distance_to_score}
use known.Query.Suggest.{
  LinkSuggestion, linked_ids, slice_stable, less, candidates, top, suggest_links,
}
use known.Query.Suggest.Filters.{IsSuggestion, suggest_links_lem}
use known.Fixture.Floats.{thousandths}
use known.Fixture.Store.{engine, entry_of}

abbrev suggested : List LinkSuggestion
suggested = record { entry = entry_of 3; score = 750; edge_type = edge_related_to } ∷ []

suggest_links_run : suggest_links thousandths engine tt (entry_of 1) (pos 2) ≡ ok suggested
unfolding suggest_links linked_ids slice_stable less candidates top has_embedding distance_to_score
    member text_eq
suggest_links_run = refl

suggest_links_lem_example :
    (out : List Edge) × (in' : List Edge) × (engine.edges.edges_from tt 1 no_filter ≡ ok out)
    × (engine.edges.edges_to tt 1 no_filter ≡ ok in')
    × All (IsSuggestion thousandths (entry_of 1) out in') suggested
    × (length suggested ≤ 2)
suggest_links_lem_example =
    suggest_links_lem thousandths (entry_of 1) engine tt (pos 2) suggested suggest_links_run
