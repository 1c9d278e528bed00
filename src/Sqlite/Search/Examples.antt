-- ===== src/Sqlite/Search/Examples.antt =====
-- A search of two entries for one whose embedding is that of the query.
use known.Prelude.{refl, List, [], ◌∷◌, ◌++◌, member}
use known.Prelude.Float.{Float32}
use known.Prelude.Sets.{IsDistinct}
use known.Prelude.Text.{codes}
use known.Model.Entry.{Entry}
use known.Storage.{SimilarityResult}
use known.Fixture.Store.{entry_of}

abbrev query : List Float32
query = 1 ∷ 2 ∷ []

abbrev first_entry : Entry
first_entry = record (entry_of 1) {
  content_hash = codes "hash" ++ 1 ∷ [];
  created_at = 0;
  updated_at = 0;
  freshness = record { observed_at = 0; observed_by = []; source_hash = [] };
}

abbrev found_results : List SimilarityResult
found_results = record { entry = first_entry; distance = 0 } ∷ []

distinct : IsDistinct (1 ∷ 2 ∷ [])
unfolding member
distinct = (refl, (refl, tt))
