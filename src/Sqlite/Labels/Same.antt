-- ===== src/Sqlite/Labels/Same.antt =====
-- loadLabelsForEntries and loadLabelsForResults of storage/sqlite/entry.go change only labels.
use mathlib.Core.Path.{◌≡◌}
use known.Prelude.{
  ℕ, zero, suc, refl, ap, ◌∙◌, List, [], ◌∷◌, map, length, member, take, drop, ◌==◌, Bool-cases,
  inl, inr,
}
use known.Prelude.Text.{Text}
use known.Model.Types.{Id128}
use known.Model.Entry.{Entry}
use known.Storage.{SimilarityResult}
use known.Sqlite.Tables.{Db}
use known.Sqlite.Labels.{
  attach, attach_all, load_batches, load_labels_for_entries, set_entries, load_labels_for_results,
  entry_ids, label_rows, label_batch_size,
}

-- An entry without its labels, and a result with such an entry.
abbrev pub bare_entry : Entry → Entry
bare_entry e = record e { labels = [] }

abbrev pub bare : SimilarityResult → SimilarityResult
bare r = record r { entry = bare_entry r.entry }

bare-attach :
    (row : Id128 × Text) (es : List Entry) → map bare_entry (attach row es) ≡ map bare_entry es
unfolding attach
bare-attach row [] = refl
bare-attach row (e ∷ es) = elim (Bool-cases (member row.0 (entry_ids es))) [
  | inl f ↦ rw f (ap (λ r. bare_entry e ∷ r) (bare-attach row es))
  | inr f ↦ elim (Bool-cases (e.id == row.0)) [
    | inl g ↦ rw (f, g) (ap (λ r. bare_entry e ∷ r) (bare-attach row es))
    | inr g ↦ rw (f, g) (ap (λ r. bare_entry e ∷ r) (bare-attach row es))
  ]
]

bare-attach_all :
    (rows : List (Id128 × Text)) (es : List Entry)
    → map bare_entry (attach_all rows es) ≡ map bare_entry es
unfolding attach_all
bare-attach_all [] es = refl
bare-attach_all (row ∷ rows) es = bare-attach_all rows (attach row es) ∙ bare-attach row es

bare-load_batches :
    (fuel : ℕ) (db : Db) (left es : List Entry)
    → map bare_entry (load_batches fuel db left es) ≡ map bare_entry es
unfolding load_batches
bare-load_batches zero db left es = refl
bare-load_batches (suc fuel) db [] es = refl
bare-load_batches (suc fuel) db (e ∷ left) es =
    let rows = label_rows db (entry_ids (take label_batch_size (e ∷ left))) in
    bare-load_batches fuel db (drop label_batch_size (e ∷ left)) (attach_all rows es)
    ∙ bare-attach_all rows es

pub bare-load_labels_for_entries :
    (db : Db) (es : List Entry) → map bare_entry (load_labels_for_entries db es) ≡ map bare_entry es
unfolding load_labels_for_entries
bare-load_labels_for_entries db es = bare-load_batches (length es) db es es

bare-set_entries :
    (rs : List SimilarityResult) (es : List Entry)
    → map bare_entry es ≡ map (λ (r : SimilarityResult). bare_entry r.entry) rs
    → map bare (set_entries rs es) ≡ map bare rs
unfolding set_entries
bare-set_entries [] es h = refl
bare-set_entries (r ∷ rs) [] h = refl
bare-set_entries (r ∷ rs) (e ∷ es) h =
    let head : bare_entry e ≡ bare_entry r.entry = cc h in
    let rest : map bare_entry es ≡ map (λ (r : SimilarityResult). bare_entry r.entry) rs = cc h in
    rw (bare-set_entries rs es rest) (ap (λ x. record r { entry = x } ∷ map bare rs) head)

map-entries :
    (rs : List SimilarityResult)
    → map bare_entry (map (λ (r : SimilarityResult). r.entry) rs)
      ≡ map (λ (r : SimilarityResult). bare_entry r.entry) rs
map-entries [] = refl
map-entries (r ∷ rs) = ap (λ x. bare_entry r.entry ∷ x) (map-entries rs)

pub bare-load_labels_for_results :
    (db : Db) (rs : List SimilarityResult) → map bare (load_labels_for_results db rs) ≡ map bare rs
unfolding load_labels_for_results
bare-load_labels_for_results db rs =
    let entries = map (λ (r : SimilarityResult). r.entry) rs in
    bare-set_entries rs (load_labels_for_entries db entries)
      (bare-load_labels_for_entries db entries ∙ map-entries rs)
