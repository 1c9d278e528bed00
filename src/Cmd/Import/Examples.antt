-- ===== src/Cmd/Import/Examples.antt =====
-- An import of two entries, of which the first depends on the second, in either order.
use known.Prelude.{ℕ, false, ◌≡◌, ◌⊎◌, refl, none, find_by, List, [], ◌∷◌, Error, Result, ok, err}
use known.Prelude.Text.{Text, codes, text_eq, split, join}
use known.Sqlite.Tables.{Db, marshal_nullable_json, unmarshal_nullable_json}
use known.Cmd.ReEmbed.{ExportEntry}
use known.Cmd.Import.{run_import}
use known.Cmd.Import.Writes.{IsSource, IsWritten, run_import_lem}
use known.Fixture.Floats.{thousandths}
use known.Fixture.Store.{entry_of, one_two}
use known.Fixture.Tables.{json, driver, tables}

abbrev hash : Text → Text
hash t = t

abbrev linking_export : ExportEntry
linking_export = record { entry = entry_of 1; edges = one_two ∷ [] }

abbrev linked_export : ExportEntry
linked_export = record { entry = record (entry_of 2) { content = codes "other" }; edges = [] }

abbrev no_rows : Db
no_rows = record tables { entries = []; edges = [] }

abbrev numbers : List ExportEntry → Result (ℕ × ℕ)
numbers exports = (run_import thousandths json hash driver 5 false none exports no_rows).0

linking_first : numbers (linking_export ∷ linked_export ∷ []) ≡ ok (2, 0)
unfolding run_import marshal_nullable_json split text_eq join find_by unmarshal_nullable_json
linking_first = refl

linked_first : numbers (linked_export ∷ linking_export ∷ []) ≡ ok (2, 1)
unfolding run_import marshal_nullable_json split text_eq join find_by unmarshal_nullable_json
linked_first = refl

abbrev exports : List ExportEntry
exports = linked_export ∷ linking_export ∷ []

run_import_lem_example :
    ((ends : ℕ × ℕ) × (db : Db) × (run_import thousandths json hash driver 5 false none exports
          no_rows
        ≡ (ok ends, db))
      × IsWritten thousandths json hash driver 5
          (IsSource thousandths json hash driver 5 exports)
          exports
          (0, 0)
          ends
          no_rows
          db)
    ⊎ ((e : Error) × (run_import thousandths json hash driver 5 false none exports no_rows
          ≡ (err e, no_rows)))
run_import_lem_example = run_import_lem thousandths json hash driver 5 false none exports no_rows
