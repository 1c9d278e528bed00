-- ===== src/Sqlite/Tx.antt =====
-- WithTx of storage/sqlite/sqlite.go, and the transactions of storage/sqlite/entry.go. Whether a
-- context carries a transaction is a Bool; what beginning, committing and rolling back answer is the
-- driver's. A transaction that is not committed leaves the tables as they were.
pub mod Atomic
pub mod Created
use Prim.Native.String.{String}
use known.Prelude.{
  Bool, true, false, Option, none, some, if◌then◌else◌, Error, wrap, Result, ok, err,
}
use known.Prelude.Text.{Text}
use known.Model.Types.{Time}
use known.Model.Entry.{Entry}
use known.Sqlite.Tables.{Db, Action, Json}
use known.Sqlite.Entry.{create_inner, create_or_update_inner}

pub record Driver : Type 0 where
  pub begin : Option Error
  pub commit : Option Error
  pub rollback : Option Error

module _ (driver : Driver) where
  -- What follows the function of WithTx: a rollback after an error, a commit otherwise.
  abbrev pub close : {A : Type 0} → Db → Result A × Db → Result A × Db
  close db (err e, _) = elim driver.rollback [
    | none ↦ (err e, db)
    | some x ↦ (err (wrap "tx error" e), db)
  ]
  close db (ok a, db') = elim driver.commit [
    | none ↦ (ok a, db')
    | some e ↦ (err (wrap "commit tx" e), db)
  ]

  unfoldable pub with_tx : {A : Type 0} → Bool → (Bool → Action A) → Action A
  with_tx in_tx fn db = if in_tx then fn true db else elim driver.begin [
    | some e ↦ (err (wrap "begin tx" e), db)
    | none ↦ close db (fn true db)
  ]

  abbrev pub close_own : {A : Type 0} → Db → Result A × Db → Result A × Db
  close_own db (err e, _) = (err e, db)
  close_own db (ok a, db') = elim driver.commit [ none ↦ (ok a, db') | some e ↦ (err e, db) ]

  -- EntryStore.withTx
  unfoldable pub own_tx : {A : Type 0} → Action A → Action A
  own_tx action db = elim driver.begin [
    | some e ↦ (err (wrap "begin tx" e), db)
    | none ↦ close_own db (action db)
  ]

  module _ (json : Json) (hash : Text → Text) (now : Time) where
    unfoldable pub create : Bool → Entry → Action Entry
    unfolding own_tx create_inner
    create in_tx e =
        if in_tx then create_inner json hash now e else own_tx (create_inner json hash now e)

    unfoldable pub create_or_update : Bool → Entry → Action Entry
    unfolding own_tx create_or_update_inner
    create_or_update in_tx e =
        if in_tx
        then create_or_update_inner json hash now e
        else own_tx (create_or_update_inner json hash now e)
