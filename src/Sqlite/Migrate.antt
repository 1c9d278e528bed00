-- ===== src/Sqlite/Migrate.antt =====
-- Migrate of storage/sqlite/sqlite.go. The files are the migrations in the order of their names; the
-- argument `exec` runs one on the schema, as the driver does. The rows of `schema_migrations` are
-- the versions applied.
pub mod Twice
use known.Prelude.{
  ℕ, zero, suc, Bool, true, false, Option, none, some, List, [], ◌∷◌, ◌++◌, leb, ltb, if◌then◌else◌,
  member, Error, sql, unique_failed, wrap, Result, ok, err,
}
use known.Prelude.Text.{Text}

module _ {S : Type 0} (exec : Text → S → Result S) where
  pub record Schema : Type 0 where
    pub versions : List ℕ
    pub tables : S

  -- SELECT COALESCE(MAX(version), 0)
  unfoldable pub max_version : List ℕ → ℕ
  max_version [] = 0
  max_version (v ∷ vs) = let m = max_version vs in if ltb m v then v else m

  -- One migration, in a transaction of its own.
  unfoldable pub apply_one : ℕ → Text → Schema → Result Schema
  unfolding member
  apply_one version file s = elim (exec file s.tables) [
    | err e ↦ err (wrap "run migration" e)
    | ok tables ↦
        if member version s.versions
        then err (wrap "record migration" (sql unique_failed))
        else ok (record { versions = s.versions ++ version ∷ []; tables = tables })
  ]

  -- The schema after a loop that failed is that of the migrations committed before.
  abbrev pub and_then :
      Schema → Result Schema → (Schema → Result (Unit {0}) × Schema) → Result (Unit {0}) × Schema
  and_then s (ok t) rest = rest t
  and_then s (err e) rest = (err e, s)

  -- The loop, from the version of the first file.
  unfoldable pub apply_pending : ℕ → ℕ → List Text → Schema → Result (Unit {0}) × Schema
  unfolding apply_one
  apply_pending current version [] s = (ok tt, s)
  apply_pending current version (file ∷ files) s =
      let rest = apply_pending current (suc version) files in
      if leb version current then rest s else and_then s (apply_one version file s) rest

  unfoldable pub migrate : List Text → Schema → Result (Unit {0}) × Schema
  unfolding apply_pending max_version
  migrate files s = apply_pending (max_version s.versions) 1 files s
