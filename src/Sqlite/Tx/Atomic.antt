-- ===== src/Sqlite/Tx/Atomic.antt =====
-- The transactions of storage/sqlite/sqlite.go and storage/sqlite/entry.go as atomic steps.
use known.Prelude.{
  ◌≡◌, refl, Bool, true, false, Error, wrap, Result, ok, err, ◌⊎◌, inl, inr, Option-cases,
}
use known.Sqlite.Tables.{Db, Action}
use known.Sqlite.Tx.{Driver, with_tx, own_tx, close, close_own}

-- A call commits what its body did in success, or fails and changes nothing.
abbrev pub IsAtomic : {A : Type 0} → Action A → Action A → Db → Type 0
IsAtomic {A} body call db =
    ((a : A) × (db' : Db) × (body db ≡ (ok a, db')) × (call db ≡ (ok a, db')))
    ⊎ ((e : Error) × (call db ≡ (err e, db)))

module _ (driver : Driver) {A : Type 0} where
  close-IsAtomic : (db : Db) (r : Result A × Db) → IsAtomic (λ _. r) (λ _. close driver db r) db
  close-IsAtomic db (err e, db') = elim (Option-cases driver.rollback) [
    | inl n ↦ inr (e, rw n refl)
    | inr (x, n) ↦ inr (wrap "tx error" e, rw n refl)
  ]
  close-IsAtomic db (ok a, db') = elim (Option-cases driver.commit) [
    | inl n ↦ inl (a, db', refl, rw n refl)
    | inr (x, n) ↦ inr (wrap "commit tx" x, rw n refl)
  ]

  close_own-IsAtomic :
      (db : Db) (r : Result A × Db) → IsAtomic (λ _. r) (λ _. close_own driver db r) db
  close_own-IsAtomic db (err e, db') = inr (e, refl)
  close_own-IsAtomic db (ok a, db') = elim (Option-cases driver.commit) [
    | inl n ↦ inl (a, db', refl, rw n refl)
    | inr (x, n) ↦ inr (x, rw n refl)
  ]

  -- WithTx outside a transaction either commits what the function did in success, or returns an error
  -- and leaves the tables as they were, whatever the driver answers; inside one it is the function.
  pub with_tx-IsAtomic :
      (fn : Bool → Action A) (db : Db)
      → IsAtomic (fn true) (with_tx driver false fn) db × (with_tx driver true fn db ≡ fn true db)
  unfolding with_tx
  with_tx-IsAtomic fn db = elim (Option-cases driver.begin) [
    | inl n ↦ (rw n (close-IsAtomic db (fn true db)), refl)
    | inr (x, n) ↦ (inr (wrap "begin tx" x, rw n refl), refl)
  ]

  pub own_tx-IsAtomic : (m : Action A) (db : Db) → IsAtomic m (own_tx driver m) db
  unfolding own_tx
  own_tx-IsAtomic m db = elim (Option-cases driver.begin) [
    | inl n ↦ rw n (close_own-IsAtomic db (m db))
    | inr (x, n) ↦ inr (wrap "begin tx" x, rw n refl)
  ]
