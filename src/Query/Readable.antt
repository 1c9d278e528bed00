-- ===== src/Query/Readable.antt =====
-- A store of finitely many entries whose reads do not fail.
use mathlib.Core.Path.{◌≡◌}
use known.Prelude.{true, ◌⊎◌, List, member, Error, is_not_found, ok, err}
use known.Model.Types.{Id128}
use known.Model.Edge.{Edge}
use known.Model.Entry.{Entry}
use known.Storage.{EdgeFilter}
use known.Query.Types.{Engine}

-- Every read answers, and the entries that are found have their ids in a finite list.
pub record IsReadable {S : Type 0} (engine : Engine S) (db : S) (ids : List Id128) : Type 0 where
  pub from :
      (id : Id128) (f : EdgeFilter) → (es : List Edge) × (engine.edges.edges_from db id f ≡ ok es)
  pub to :
      (id : Id128) (f : EdgeFilter) → (es : List Edge) × (engine.edges.edges_to db id f ≡ ok es)
  pub conflicts : (id : Id128) → (cs : List Entry) × (engine.edges.find_conflicts db id ≡ ok cs)
  pub entries :
      (id : Id128)
      → ((entry : Entry) × (engine.entries.get db id ≡ ok entry) × (member id ids ≡ true))
        ⊎ ((e : Error) × (engine.entries.get db id ≡ err e) × (is_not_found e ≡ true))
