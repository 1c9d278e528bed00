-- ===== src/Sqlite/Search/Reads.antt =====
-- FindConflicts of storage/sqlite/edge.go, where the metadata of the entries decodes.
use mathlib.Core.Path.{◌≡◌}
use known.Prelude.{not, ◌&&◌, refl, List, [], ◌∷◌, All, any, ◌==◌, ltb, ok}
use known.Prelude.Order.{All-order_by}
use known.Prelude.Perms.{All-of_mem}
use known.Prelude.Rows.{All-keep}
use known.Prelude.Text.{Text}
use known.Model.Types.{Id128}
use known.Model.Entry.{Entry}
use known.Sqlite.Tables.{EntryRow, Db, Json}
use known.Sqlite.Entry.Reads.{IsReadableRow, IsDecodable, populate_entry_total}
use known.Sqlite.Search.{scan_entries, find_conflicts, contradicts}

module _ (json : Json) where
  pub scan_entries_total :
      (rows : List EntryRow)
      → All (IsReadableRow json) rows
      → (es : List Entry) × (scan_entries json rows ≡ ok es)
  unfolding scan_entries
  scan_entries_total [] h = ([], refl)
  scan_entries_total (r ∷ rows) h =
      let (e, p) = populate_entry_total json r h.0 in
      let (es, q) = scan_entries_total rows h.1 in (e ∷ es, rw (p, q) refl)

  pub find_conflicts_total :
      (type : Text) (db : Db) (id : Id128)
      → IsDecodable json db
      → (es : List Entry) × (find_conflicts json type db id ≡ ok es)
  unfolding find_conflicts
  find_conflicts_total type db id d =
      let (es, p) = scan_entries_total _ (
        All-order_by (λ (r t : EntryRow). ltb r.created_at t.created_at) (IsReadableRow json) _
          (All-keep (IsReadableRow json)
            (λ (r : EntryRow). any (contradicts type id r.id) db.edges && not (r.id == id))
            db.entries (All-of_mem (IsReadableRow json) db.entries d.entries))) in
      (es, rw p refl)
