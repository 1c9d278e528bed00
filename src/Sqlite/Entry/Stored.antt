-- ===== src/Sqlite/Entry/Stored.antt =====
-- What storage/sqlite/entry.go keeps of an entry: the columns that an entry is written to, and read
-- back from.
use mathlib.Core.Path.{◌≡◌}
use known.Prelude.{
  ℕ, zero, suc, ◌*◌, ◌/◌, ◌<◌, refl, sym, ap, ◌∙◌, Option, none, some, List, [], ◌∷◌, All, inl, inr,
  Result-cases, ok, with_context, with_context-eq-ok, ok-injective,
}
use known.Prelude.Order.{order_by}
use known.Prelude.Float.{Float32}
use known.Prelude.Text.{Text, text_lt}
use known.Model.Types.{Time, Value, Metadata}
use known.Model.Entry.{Entry}
use known.Sqlite.Tables.{
  EntryRow, Json, marshal_nullable_json, unmarshal_nullable_json, nanos, map_option,
  nullable_string, string_of, nullable_int, int_of, format_time, parse_time,
}
use known.Sqlite.Vec.RoundTrip.{deserialize-serialize}
use known.Sqlite.Entry.{encoded, row_of, populate_entry, second, blob_of, floats_of}

-- A time column keeps whole milliseconds.
abbrev pub millis : Time → Time
millis t = t / nanos * nanos

-- An empty map is read back as nil.
abbrev pub nonempty : Metadata → Metadata
nonempty none = none
nonempty (some []) = none
nonempty (some (kv ∷ m)) = some (kv ∷ m)

-- The columns of an entry, read back: times to the millisecond, the time to live to the second.
unfoldable pub as_columns : Entry → Entry
as_columns e = record {
  id = e.id;
  title = e.title;
  content = e.content;
  content_hash = e.content_hash;
  embedding = e.embedding;
  embedding_dim = e.embedding_dim;
  embedding_model = e.embedding_model;
  source = record {
    type = e.source.type;
    reference = e.source.reference;
    meta = nonempty e.source.meta;
  };
  provenance = e.provenance;
  freshness = record {
    observed_at = millis e.freshness.observed_at;
    observed_by = e.freshness.observed_by;
    source_hash = e.freshness.source_hash;
  };
  scope = e.scope;
  ttl = map_option (λ t. t / second * second) e.ttl;
  expires_at = map_option millis e.expires_at;
  meta = nonempty e.meta;
  labels = [];
  version = e.version;
  created_at = millis e.created_at;
  updated_at = millis e.updated_at;
  conflicts_with = [];
  resolution_status = [];
}

-- An entry as Get returns it: its columns, and its labels in their order.
unfoldable pub stored : Entry → Entry
unfolding as_columns
stored e = record (as_columns e) { labels = order_by text_lt e.labels }

string_of-nullable : (s : Text) → string_of (nullable_string s) ≡ s
string_of-nullable [] = refl
string_of-nullable (c ∷ s) = refl

int_of-nullable : (n : ℕ) → int_of (nullable_int n) ≡ n
int_of-nullable zero = refl
int_of-nullable (suc n) = refl

floats_of-blob : (v : List Float32) → All (λ f. f < 4_294_967_296) v → floats_of (blob_of v) ≡ v
floats_of-blob [] h = refl
floats_of-blob (f ∷ v) h = deserialize-serialize (f ∷ v) h

map_option-twice :
    {A B C : Type 0} (f : A → B) (g : B → C) (o : Option A)
    → map_option g (map_option f o) ≡ map_option (λ a. g (f a)) o
map_option-twice f g none = refl
map_option-twice f g (some a) = refl

module _ (json : Json) where
  -- A map that decodes to itself. The numbers of Go that are no float64 do not.
  abbrev pub Decodes : Metadata → Type 0
  Decodes meta =
      (m : List (Text × Value)) (t : Text)
      → meta ≡ some m
      → json.marshal m ≡ ok t
      → json.unmarshal t ≡ ok m

  unmarshal-marshal :
      (meta : Metadata) (column : Option Text)
      → Decodes meta
      → marshal_nullable_json json meta ≡ ok column
      → unmarshal_nullable_json json column ≡ ok (nonempty meta)
  unfolding marshal_nullable_json unmarshal_nullable_json
  unmarshal-marshal none column d h = rw (← ok-injective h) refl
  unmarshal-marshal (some []) column d h = rw (← ok-injective h) refl
  unmarshal-marshal (some (kv ∷ m)) column d h = elim (Result-cases (json.marshal (kv ∷ m))) [
    | inr (x, e) ↦ absurd (cc (rw e at h))
    | inl (t, e) ↦ rw (← ok-injective (rw e at h), d (kv ∷ m) t refl e) refl
  ]

  populate-row :
      (e : Entry) (meta source_meta : Option Text)
      → All (λ f. f < 4_294_967_296) e.embedding
      → unmarshal_nullable_json json meta ≡ ok (nonempty e.meta)
      → unmarshal_nullable_json json source_meta ≡ ok (nonempty e.source.meta)
      → populate_entry json (row_of e meta source_meta) ≡ ok (as_columns e)
  unfolding populate_entry row_of as_columns
  populate-row e meta source_meta fl p q =
      rw
        (
          q,
          p,
          populate_entry,
          floats_of-blob e.embedding fl,
          int_of-nullable e.embedding_dim,
          string_of-nullable e.embedding_model,
          string_of-nullable e.freshness.observed_by,
          string_of-nullable e.freshness.source_hash,
          map_option-twice (λ t. t / second) (λ n. n * second) e.ttl,
          map_option-twice format_time parse_time e.expires_at,
        )
        refl

  pub populate-encoded :
      (e : Entry) (row : EntryRow)
      → All (λ f. f < 4_294_967_296) e.embedding
      → Decodes e.meta
      → Decodes e.source.meta
      → encoded json e ≡ ok row
      → populate_entry json row ≡ ok (as_columns e)
  unfolding encoded
  populate-encoded e row fl dm ds h =
      elim (Result-cases (with_context "marshal meta" (marshal_nullable_json json e.meta))) [
        | inr (x, f) ↦ absurd (cc (rw (f, encoded) at h))
        | inl (meta, f) ↦
            elim (Result-cases
              (with_context "marshal source meta" (marshal_nullable_json json e.source.meta))) [
                | inr (x, g) ↦ absurd (cc (rw (f, encoded, g) at h))
                | inl (source_meta, g) ↦
                    ap (populate_entry json) (sym (ok-injective (rw (f, encoded, g) at h)))
                    ∙ populate-row e meta source_meta fl
                        (unmarshal-marshal e.meta meta dm (with_context-eq-ok _ _ f))
                        (unmarshal-marshal e.source.meta source_meta ds (with_context-eq-ok _ _ g))
              ]
      ]
