-- ===== src/Sqlite/Tx/Created.antt =====
-- Create of storage/sqlite/entry.go in a transaction, and what Get then returns.
use mathlib.Core.Path.{◌≡◌}
use known.Prelude.{◌<◌, Bool, true, false, inl, inr, All, ok}
use known.Prelude.Text.{Text}
use known.Model.Types.{Time}
use known.Model.Entry.{Entry}
use known.Sqlite.Tables.{Db, Json}
use known.Sqlite.Entry.{with_defaults, get, create_inner}
use known.Sqlite.Entry.Stored.{Decodes, stored}
use known.Sqlite.Entry.Created.{create_inner-get}
use known.Sqlite.Consistent.{IsConsistent}
use known.Sqlite.Tx.{Driver, create}
use known.Sqlite.Tx.Atomic.{own_tx-IsAtomic}

module _ (driver : Driver) (json : Json) (hash : Text → Text) (now : Time) where
  -- After Create has succeeded on consistent tables, in a transaction of the caller or of its own,
  -- Get returns the entry: with its default hash and version, its labels in order, its times to the
  -- millisecond, its time to live to the second and no empty map. The floats of the embedding have
  -- 32 bits, and the maps decode to themselves.
  pub create-get :
      (in_tx : Bool) (entry e' : Entry) (db db' : Db)
      → IsConsistent db
      → All (λ f. f < 4_294_967_296) entry.embedding
      → Decodes json entry.meta
      → Decodes json entry.source.meta
      → create driver json hash now in_tx entry db ≡ (ok e', db')
      → (e' ≡ with_defaults hash entry) × (get json db' entry.id ≡ ok (stored e'))
  unfolding create
  create-get true entry e' db db' c fl dm ds h =
      create_inner-get json hash now entry e' db db' c.owners fl dm ds h
  create-get false entry e' db db' c fl dm ds h =
      elim (own_tx-IsAtomic driver (create_inner json hash now entry) db) [
        | inl (a, db2, body, call) ↦
            create_inner-get json hash now entry e' db db' c.owners fl dm ds (cc (body, call, h))
        | inr (x, call) ↦ absurd (cc (call, h))
      ]
