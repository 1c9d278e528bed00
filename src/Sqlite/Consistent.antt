-- ===== src/Sqlite/Consistent.antt =====
-- What the constraints of storage/sqlite/migrations/*.sql say of the tables `scopes`, `entries`,
-- `entry_labels`, `edges`, `sessions`,
-- `session_events` and `session_reinforcements`.
pub mod Scopes
pub mod Entries
pub mod Deletions
pub mod Edges
pub mod Sessions
pub mod Statements
pub mod Methods
use Prim.Native.String.{String}
use mathlib.Core.List.{Memᴰ}
use known.Prelude.{
  ◌≡◌, refl, Bool, true, false, List, any, [], ◌∷◌, map, ◌==◌, Result, ok, err, subst, ap,
  ok-injective,
}
use known.Prelude.Sets.{IsDistinct}
use known.Prelude.Text.{Text, text_eq, text_eq_iff}
use known.Model.Types.{Id128}
use known.Sqlite.Tables.{
  ScopeRow, EntryRow, EdgeRow, SessionRow, EventRow, Db, Action, ◌>>=◌, continue, in_context,
  settle, executes, reads,
}
use known.Sqlite.Scope.{has_scope}
use known.Sqlite.Edge.{has_entry}
use known.Sqlite.Entry.{same_content}
use known.Sqlite.Session.{is_session}

-- UNIQUE (content_hash, scope)
unfoldable pub HasUniqueContent : List EntryRow → Type 0
HasUniqueContent rows =
    (x y : EntryRow)
    → Memᴰ x rows
    → Memᴰ y rows
    → same_content x.content_hash x.scope y ≡ true
    → x.id ≡ y.id

-- FOREIGN KEY (scope) REFERENCES scopes (path)
unfoldable pub HasScopes : List ScopeRow → List EntryRow → Type 0
HasScopes scopes rows = (x : EntryRow) → Memᴰ x rows → has_scope x.scope scopes ≡ true

-- The references of an edge to entries, and CHECK (from_id != to_id).
unfoldable pub HasEnds : List EntryRow → List EdgeRow → Type 0
HasEnds entries rows =
    (g : EdgeRow)
    → Memᴰ g rows
    → (has_entry g.from_id entries ≡ true)
      × (has_entry g.to_id entries ≡ true)
      × ((g.from_id == g.to_id) ≡ false)

unfoldable pub HasOwners : List EntryRow → List (Id128 × Text) → Type 0
HasOwners entries rows = (l : Id128 × Text) → Memᴰ l rows → has_entry l.0 entries ≡ true

-- FOREIGN KEY (session_id) REFERENCES sessions (id), of session_events and session_reinforcements
unfoldable pub HasSessions : List SessionRow → List EventRow → Type 0
HasSessions sessions rows =
    (r : EventRow) → Memᴰ r rows → any (is_session r.session_id) sessions ≡ true

unfoldable pub HasReinforced : List SessionRow → List Id128 → Type 0
HasReinforced sessions rows = (id : Id128) → Memᴰ id rows → any (is_session id) sessions ≡ true

pub record IsConsistent (db : Db) : Type 0 where
  pub entry_ids : IsDistinct (map (λ (r : EntryRow). r.id) db.entries)
  pub contents : HasUniqueContent db.entries
  pub scopes : HasScopes db.scopes db.entries
  pub edge_ids : IsDistinct (map (λ (r : EdgeRow). r.id) db.edges)
  pub ends : HasEnds db.entries db.edges
  pub owners : HasOwners db.entries db.labels
  pub session_ids : IsDistinct (map (λ (r : SessionRow). r.id) db.sessions)
  pub events : HasSessions db.sessions db.session_events
  pub reinforced : HasReinforced db.sessions db.session_reinforcements

-- A method that keeps the tables consistent, whether it fails or not.
unfoldable pub Preserves : {A : Type 0} → Action A → Type 0
Preserves m = (db : Db) → IsConsistent db → IsConsistent (m db).1

module _ {A : Type 0} where
  pub in_context-Preserves : (s : String) (m : Action A) → Preserves m → Preserves (in_context s m)
  unfolding Preserves
  in_context-Preserves s m h db k = h db k

  settle-IsConsistent :
      (db : Db) (r : Result (A × Db))
      → IsConsistent db
      → ((db' : Db) (a : A) → r ≡ ok (a, db') → IsConsistent db')
      → IsConsistent (settle db r).1
  settle-IsConsistent db (ok (a, db')) h g = g db' a refl
  settle-IsConsistent db (err e) h g = h

  pub executes-Preserves :
      (f : Db → Result (A × Db))
      → ((db db' : Db) (a : A) → IsConsistent db → f db ≡ ok (a, db') → IsConsistent db')
      → Preserves (executes f)
  unfolding Preserves
  executes-Preserves f h db k = settle-IsConsistent db (f db) k (λ db' a e. h db db' a k e)

-- The tables that a statement which succeeded leaves.
pub written :
    {A : Type 0} {a b : A} {db db' : Db}
    → ◌≡◌ {A = Result (A × Db)} (ok (a, db)) (ok (b, db'))
    → IsConsistent db
    → IsConsistent db'
written e c = subst IsConsistent (ap (λ p. p.1) (ok-injective e)) c

module _ {A B : Type 0} where
  continue-IsConsistent :
      (f : A → Action B) (r : Result A × Db)
      → ((a : A) → Preserves (f a))
      → IsConsistent r.1
      → IsConsistent (continue f r).1
  unfolding Preserves
  continue-IsConsistent f (ok a, db) g h = g a db h
  continue-IsConsistent f (err e, db) g h = h

  pub bind-Preserves :
      (m : Action A) (f : A → Action B)
      → Preserves m
      → ((a : A) → Preserves (f a))
      → Preserves (m >>= f)
  unfolding Preserves
  bind-Preserves m f h g db k = continue-IsConsistent f (m db) g (h db k)

pub reads-Preserves : {A : Type 0} (f : Db → Result A) → Preserves (reads f)
unfolding Preserves
reads-Preserves f db c = c
