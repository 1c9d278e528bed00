-- ===== src/Model/Entry.antt =====
-- model/entry.go: entries, their validation and their life time. The hash of a content is the
-- argument `hash` (SHA-256 of the standard library), ids and times are arguments.
pub mod Valid
use known.Prelude.{
  ℕ, zero, suc, ◌+◌, Bool, true, false, not, ◌&&◌, Option, none, some, List, [], ◌∷◌, ltb, ◌==◌,
  length, Result, ok, errorf, fail_if, with_context, ◌>>◌, ◌>>=◌,
}
use known.Prelude.Float.{Float32}
use known.Prelude.Text.{Text, is_empty}
use known.Model.Types.{
  Id128, is_zero, Time, Metadata, Source, validate_source, Provenance, provenance_inferred,
  Freshness,
}
use known.Model.Scope.{Scope, root_scope, parse_scope_path}

abbrev pub max_content_length : ℕ
max_content_length = 4096

abbrev pub max_title_length : ℕ
max_title_length = 200

pub record Entry : Type 0 where
  pub id : Id128
  pub title : Text
  pub content : Text
  pub content_hash : Text
  pub embedding : List Float32
  pub embedding_dim : ℕ
  pub embedding_model : Text
  pub source : Source
  pub provenance : Provenance
  pub freshness : Freshness
  pub scope : Text
  pub ttl : Option ℕ
  pub expires_at : Option Time
  pub meta : Metadata
  pub labels : List Text
  pub version : ℕ
  pub created_at : Time
  pub updated_at : Time
  pub conflicts_with : List Id128
  pub resolution_status : Text

unfoldable pub new_entry : (Text → Text) → Id128 → Time → Text → Source → Entry
new_entry hash id now content source = record {
  id = id;
  title = [];
  content = content;
  content_hash = hash content;
  embedding = [];
  embedding_dim = 0;
  embedding_model = [];
  source = source;
  provenance = record { level = provenance_inferred };
  freshness = record { observed_at = now; observed_by = []; source_hash = [] };
  scope = root_scope;
  ttl = none;
  expires_at = none;
  meta = none;
  labels = [];
  version = 1;
  created_at = now;
  updated_at = now;
  conflicts_with = [];
  resolution_status = [];
}

unfoldable pub validate : Entry → Result (Unit {0})
unfolding is_zero validate_source
validate e = do
  fail_if (is_zero e.id) (errorf "entry ID is required")
  fail_if (ltb max_title_length (length e.title)) (errorf "title exceeds maximum length")
  fail_if (is_empty e.content) (errorf "entry content is required")
  fail_if (ltb max_content_length (length e.content)) (errorf "content exceeds maximum length")
  with_context "entry source" (validate_source e.source)
  fail_if (is_empty e.scope) (errorf "entry scope is required")
  with_context "entry scope" (parse_scope_path e.scope)
  fail_if (ltb 0 (length e.embedding) && not (e.embedding_dim == length e.embedding))
      (errorf "embedding dimension mismatch")
  ok tt

-- IsExpired at the time `now`: strictly after `expires_at`.
unfoldable pub is_expired : Time → Entry → Bool
is_expired now e = elim e.expires_at [ none ↦ false | some t ↦ ltb t now ]

unfoldable pub set_ttl : ℕ → Entry → Entry
set_ttl ttl e = record e { ttl = some ttl; expires_at = some (e.created_at + ttl) }

unfoldable pub with_embedding : Entry → List Float32 → Text → Entry
with_embedding e embedding model = record e {
  embedding = embedding;
  embedding_dim = length embedding;
  embedding_model = model;
}

unfoldable pub with_title : Entry → Text → Entry
with_title e title = record e { title = title }

unfoldable pub with_scope : Entry → Text → Entry
with_scope e scope = record e { scope = scope }

unfoldable pub with_provenance : Entry → Provenance → Entry
with_provenance e p = record e { provenance = p }

unfoldable pub with_freshness : Entry → Freshness → Entry
with_freshness e f = record e { freshness = f }

unfoldable pub with_meta : Entry → Metadata → Entry
with_meta e m = record e { meta = m }

unfoldable pub with_labels : Entry → List Text → Entry
with_labels e labels = record e { labels = labels }

unfoldable pub touch : (Text → Text) → Time → Entry → Entry
touch hash now e = record e { updated_at = now; content_hash = hash e.content }

unfoldable pub has_embedding : Entry → Bool
has_embedding e = ltb 0 (length e.embedding)

unfoldable pub has_conflicts : Entry → Bool
has_conflicts e = ltb 0 (length e.conflicts_with)

unfoldable pub scope_obj : Entry → Scope
scope_obj e = record { path = e.scope; meta = none; created_at = 0 }
