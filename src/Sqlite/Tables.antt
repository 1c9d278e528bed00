-- ===== src/Sqlite/Tables.antt =====
-- The tables of storage/sqlite/migrations/*.sql, and how the stores of storage/sqlite read and
-- write them. A query is the function on the tables that its SQL says, a failing statement changes
-- nothing, and an action keeps what the statements before a failing one have written. An id column
-- holds the id, a time column the milliseconds that formatTime keeps of a time. The indexes, the
-- tables of the full-text index and the defaults of columns that are always given are left out, and
-- the driver fails on no statement but by a constraint or the syntax.
use Prim.Native.String.{String}
use known.Prelude.{
  ℕ, zero, suc, ◌+◌, ◌*◌, ◌/◌, Bool, true, false, ◌||◌, ◌&&◌, Option, none, some, List, [], ◌∷◌,
  ◌++◌, leb, ◌==◌, if◌then◌else◌, Error, not_found, Result, ok, err, with_context,
}
use known.Prelude.Float.{Float64}
use known.Prelude.Text.{Text, text_eq, codes}
use known.Model.Types.{Id128, Time, Value, Metadata, EventType}

pub record ScopeRow : Type 0 where
  pub path : Text
  pub meta : Option Text
  pub created_at : ℕ

pub record EntryRow : Type 0 where
  pub id : Id128
  pub title : Text
  pub content : Text
  pub content_hash : Text
  pub embedding : Option (List ℕ)
  pub embedding_dim : Option ℕ
  pub embedding_model : Option Text
  pub source_type : Text
  pub source_ref : Text
  pub source_meta : Option Text
  pub confidence : Text
  pub scope : Text
  pub ttl_seconds : Option ℕ
  pub expires_at : Option ℕ
  pub meta : Option Text
  pub version : ℕ
  pub created_at : ℕ
  pub updated_at : ℕ
  pub observed_at : Option ℕ
  pub observed_by : Option Text
  pub source_hash : Option Text

pub record EdgeRow : Type 0 where
  pub id : Id128
  pub from_id : Id128
  pub to_id : Id128
  pub type : Text
  pub weight : Option Float64
  pub meta : Option Text
  pub created_at : ℕ

pub record SessionRow : Type 0 where
  pub id : Id128
  pub started_at : ℕ
  pub ended_at : Option ℕ
  pub scope : Option Text
  pub agent : Option Text

pub record EventRow : Type 0 where
  pub id : Id128
  pub session_id : Id128
  pub event_type : EventType
  pub entry_ids : Option Text
  pub edge_ids : Option Text
  pub query : Option Text
  pub created_at : ℕ

pub record Db : Type 0 where
  pub edge_types : List Text
  pub scopes : List ScopeRow
  pub entries : List EntryRow
  pub labels : List (Id128 × Text)
  pub edges : List EdgeRow
  pub sessions : List SessionRow
  pub session_events : List EventRow
  pub session_reinforcements : List Id128

-- A method of a store: its result, and the tables after it.
abbrev pub Action : Type 0 → Type 0
Action A = Db → Result A × Db

module _ {A : Type 0} where
  abbrev pub pure : A → Action A
  pure a db = (ok a, db)

  abbrev pub raise : Error → Action A
  raise e db = (err e, db)

  -- A step that reads or computes, and may fail.
  abbrev pub reads : (Db → Result A) → Action A
  reads f db = (f db, db)

  abbrev pub settle : Db → Result (A × Db) → Result A × Db
  settle db (ok (a, db')) = (ok a, db')
  settle db (err e) = (err e, db)

  -- A statement that writes: it succeeds as a whole, or fails and changes nothing.
  abbrev pub executes : (Db → Result (A × Db)) → Action A
  executes f db = settle db (f db)

  abbrev wrapped : String → Result A × Db → Result A × Db
  wrapped m (r, db) = (with_context m r, db)

  abbrev pub in_context : String → Action A → Action A
  in_context m action db = wrapped m (action db)

abbrev pub continue : {A B : Type 0} → (A → Action B) → Result A × Db → Result B × Db
continue f (ok a, db) = f a db
continue f (err e, db) = (err e, db)

infixl 5 ◌>>=◌ ◌>>◌
abbrev pub ◌>>=◌ : {A B : Type 0} → Action A → (A → Action B) → Action B
◌>>=◌ m f db = continue f (m db)

abbrev pub ◌>>◌ : {A B : Type 0} → Action A → Action B → Action B
m >> k = m >>= λ _. k

-- What follows a statement by the number of its rows: ErrNotFound, where there are none.
abbrev pub affected : ℕ → Action (Unit {0})
affected zero = raise not_found
affected (suc n) = pure tt

-- formatTime and parseTime: the column keeps whole milliseconds. `t.UnixNano()` counts from year 1.
abbrev pub nanos : ℕ
nanos = 1_000_000

abbrev pub format_time : Time → ℕ
format_time t = t / nanos

abbrev pub parse_time : ℕ → Time
parse_time c = c * nanos

abbrev pub map_option {ℓ κ} : {A : Type ℓ} {B : Type κ} → (A → B) → Option A → Option B
map_option f none = none
map_option f (some a) = some (f a)

-- formatNullableTime and parseNullableTime
abbrev pub format_nullable_time : Option Time → Option ℕ
format_nullable_time = map_option format_time

abbrev pub parse_nullable_time : Option ℕ → Option Time
parse_nullable_time = map_option parse_time

-- nullableString, and the reading of such a column.
abbrev pub nullable_string : Text → Option Text
nullable_string [] = none
nullable_string (c ∷ s) = some (c ∷ s)

abbrev pub string_of : Option Text → Text
string_of none = []
string_of (some s) = s

-- nullableInt, and the reading of such a column.
abbrev pub nullable_int : ℕ → Option ℕ
nullable_int zero = none
nullable_int (suc n) = some (suc n)

abbrev pub int_of : Option ℕ → ℕ
int_of none = 0
int_of (some n) = n

-- What is used of package encoding/json: the encoding of a map, and its decoder.
pub record Json : Type 0 where
  pub marshal : List (Text × Value) → Result Text
  pub unmarshal : Text → Result (List (Text × Value))

abbrev some_of {ℓ} : {A : Type ℓ} → Result A → Result (Option A)
some_of (ok a) = ok (some a)
some_of (err e) = err e

-- marshalNullableJSON: NULL for a map that is nil or empty.
unfoldable pub marshal_nullable_json : Json → Metadata → Result (Option Text)
marshal_nullable_json json none = ok none
marshal_nullable_json json (some []) = ok none
marshal_nullable_json json (some (kv ∷ m)) = some_of (json.marshal (kv ∷ m))

unfoldable pub unmarshal_nullable_json : Json → Option Text → Result Metadata
unmarshal_nullable_json json none = ok none
unmarshal_nullable_json json (some data') = some_of (json.unmarshal data')

-- LIKE of SQL, on ASCII texts: `%` stands for any text and `_` for any character, and the case of
-- letters does not count.
abbrev pub fold_case : ℕ → ℕ
fold_case c = if leb b'A' c && leb c b'Z' then c + 32 else c

unfoldable pub any_suffix : (Text → Bool) → Text → Bool
any_suffix p [] = p []
any_suffix p (c ∷ s) = p (c ∷ s) || any_suffix p s

abbrev pub matches_byte : ℕ → ℕ → Bool
matches_byte p c = p == b'_' || fold_case p == fold_case c

abbrev on_byte : ℕ → (Text → Bool) → Text → Bool
on_byte p rest [] = false
on_byte p rest (c ∷ s) = matches_byte p c && rest s

abbrev ends : Text → Bool
ends [] = true
ends (c ∷ s) = false

unfoldable pub like : Text → Text → Bool
unfolding any_suffix
like [] s = ends s
like (p ∷ ps) s = if p == b'%' then any_suffix (like ps) s else on_byte p (like ps) s

-- `scope = ? OR scope LIKE ?`, with the second argument scope + ".%".
unfoldable pub in_scope : Text → Text → Bool
unfolding like
in_scope prefix scope = text_eq scope prefix || like (prefix ++ codes ".%") scope
