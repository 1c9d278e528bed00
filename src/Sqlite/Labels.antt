-- ===== src/Sqlite/Labels.antt =====
-- storage/sqlite/entry.go: the labels of many entries, loaded in batches, and of all entries.
pub mod Same
use known.Prelude.{
  ℕ, zero, suc, Bool, ◌&&◌, ◌||◌, List, [], ◌∷◌, ◌++◌, map, keep, member, length, take, drop, any,
  ltb, ◌==◌, if◌then◌else◌,
}
use known.Prelude.Order.{order_by}
use known.Prelude.Text.{Text, text_eq, text_lt}
use known.Model.Types.{Id128}
use known.Model.Entry.{Entry}
use known.Storage.{SimilarityResult}
use known.Sqlite.Tables.{Db}

abbrev pub label_batch_size : ℕ
label_batch_size = 500

abbrev pub entry_ids : List Entry → List Id128
entry_ids = map (λ (e : Entry). e.id)

-- ORDER BY entry_id, label
abbrev pub label_before : Id128 × Text → Id128 × Text → Bool
label_before (k, l) (j, m) = ltb k j || (k == j) && text_lt l m

-- The rows that the query of a batch returns.
unfoldable pub label_rows : Db → List Id128 → List (Id128 × Text)
unfolding keep order_by member text_lt
label_rows db ids = order_by label_before (keep (λ (l : Id128 × Text). member l.0 ids) db.labels)

-- `entries[idx].Labels = append(…)`, at the last index of the id, if it has one.
unfoldable pub attach : Id128 × Text → List Entry → List Entry
unfolding member
attach row [] = []
attach row (e ∷ es) =
    let rest = attach row es in
    if member row.0 (entry_ids es)
    then e ∷ rest
    else if e.id == row.0
    then record e { labels = e.labels ++ row.1 ∷ [] } ∷ rest
    else e ∷ rest

unfoldable pub attach_all : List (Id128 × Text) → List Entry → List Entry
unfolding attach
attach_all [] es = es
attach_all (row ∷ rows) es = attach_all rows (attach row es)

-- The loop over the batches of what is left.
unfoldable pub load_batches : ℕ → Db → List Entry → List Entry → List Entry
unfolding attach_all label_rows
load_batches zero db left es = es
load_batches (suc fuel) db [] es = es
load_batches (suc fuel) db (e ∷ left) es =
    load_batches fuel db (drop label_batch_size (e ∷ left))
      (attach_all (label_rows db (entry_ids (take label_batch_size (e ∷ left)))) es)

-- loadLabelsForEntries: a batch takes at least one entry, so there are at most as many batches.
unfoldable pub load_labels_for_entries : Db → List Entry → List Entry
unfolding load_batches
load_labels_for_entries db es = load_batches (length es) db es es

set_entries : List SimilarityResult → List Entry → List SimilarityResult
set_entries [] es = []
set_entries (r ∷ rs) [] = r ∷ rs
set_entries (r ∷ rs) (e ∷ es) = record r { entry = e } ∷ set_entries rs es

unfoldable pub load_labels_for_results : Db → List SimilarityResult → List SimilarityResult
unfolding set_entries load_labels_for_entries
load_labels_for_results db rs =
    set_entries rs (load_labels_for_entries db (map (λ (r : SimilarityResult). r.entry) rs))

-- SELECT DISTINCT label … ORDER BY label
distinct_texts : List Text → List Text
distinct_texts [] = []
distinct_texts (t ∷ ts) =
    let rest = distinct_texts ts in if any (text_eq t) rest then rest else t ∷ rest

unfoldable pub list_labels : Db → List Text
unfolding distinct_texts order_by text_lt
list_labels db = order_by text_lt (distinct_texts (map (λ (l : Id128 × Text). l.1) db.labels))
