-- ===== src/Cmd/Import.antt =====
-- runImport of cmd/import.go after the file is parsed: new embeddings where they are asked for, and
-- the entries and edges written in one transaction of the SQLite store. What is printed is left out,
-- but for the two numbers.
pub mod Grows
pub mod Edges
pub mod Entries
pub mod Writes
pub mod Examples
use known.Prelude.{ℕ, suc, Bool, false, Option, List, [], ◌∷◌, if◌then◌else◌, Result, ok, err}
use known.Prelude.Float.{FloatOps}
use known.Prelude.Text.{Text}
use known.Model.Types.{Time}
use known.Model.Edge.{Edge}
use known.Embed.Cache.{Embedder}
use known.Sqlite.Tables.{Db, Action, Json, reads, in_context, pure, ◌>>=◌}
use known.Sqlite.Edge
use known.Sqlite.Tx.{Driver, with_tx, create_or_update}
use known.Cmd.ReEmbed.{ExportEntry, re_embed}

module _ (fl : FloatOps) (json : Json) (hash : Text → Text) (driver : Driver) (now : Time) where
  -- What follows the creation of an edge: a failure is a warning.
  abbrev pub after_edge : (ℕ → Action ℕ) → ℕ → Result (Unit {0}) × Db → Result ℕ × Db
  after_edge next n (ok a, db) = next (suc n) db
  after_edge next n (err e, db) = next n db

  unfoldable pub import_edges : List Edge → ℕ → Action ℕ
  unfolding Edge.create
  import_edges [] n = pure n
  import_edges (e ∷ es) n = λ db. after_edge (import_edges es) n (Edge.create fl json e db)

  -- The body of the transaction, with the numbers of entries and edges so far.
  unfoldable pub import_entries : Bool → List ExportEntry → ℕ → ℕ → Action (ℕ × ℕ)
  unfolding create_or_update import_edges
  import_entries in_tx [] imported created = pure (imported, created)
  import_entries in_tx (x ∷ xs) imported created = do
    e ← in_context "import entry" (create_or_update driver json hash now in_tx x.entry)
    n ← import_edges x.edges created
    import_entries in_tx xs (suc imported) n

  unfoldable pub run_import : Bool → Option Embedder → List ExportEntry → Action (ℕ × ℕ)
  unfolding re_embed with_tx import_entries
  run_import asked embedder exports = do
    xs ← reads (λ _. if asked then re_embed embedder exports else ok exports)
    in_context "import" (with_tx driver false (λ in_tx. import_entries in_tx xs 0 0))
