-- ===== src/Storage.antt =====
-- storage/storage.go: the repositories that the query engine and the commands work on. Their
-- implementations are the databases; here they are records of operations over a state S, so that
-- a client takes them as parameters. An operation that writes returns the new state, and the
-- entry that a `*model.Entry` argument points to after the call.
pub mod IdSlice
use known.Prelude.{ℕ, Bool, List, Result}
use known.Prelude.Float.{Float32, Float64}
use known.Prelude.Int.{ℤ}
use known.Prelude.Text.{Text}
use known.Model.Types.{Id128, Session, SessionEvent}
use known.Model.Scope.{Scope}
use known.Model.Edge.{Edge, EdgeType}
use known.Model.Entry.{Entry}

pub data SimilarityMetric : Type 0 where
  cosine l2 inner_product : SimilarityMetric

pub record SimilarityResult : Type 0 where
  pub entry : Entry
  pub distance : Float64

pub record EntryFilter : Type 0 where
  pub scope : Text
  pub scope_prefix : Text
  pub source_type : Text
  pub provenance_level : Text
  pub labels : List Text
  pub staler_than : ℤ
  pub include_expired : Bool
  pub limit : ℤ
  pub offset : ℤ

pub record EdgeFilter : Type 0 where
  pub type : EdgeType
  pub limit : ℤ

pub record EntryRepo (S : Type 0) : Type 0 where
  pub create : S → Entry → Result (Entry × S)
  pub create_or_update : S → Entry → Result (Entry × S)
  pub get : S → Id128 → Result Entry
  pub update : S → Entry → Result (Entry × S)
  pub delete : S → Id128 → Result S
  pub list : S → EntryFilter → Result (List Entry)
  pub search_similar :
      S → List Float32 → Text → SimilarityMetric → ℕ → Result (List SimilarityResult)
  pub search_text : S → Text → Text → ℕ → Result (List SimilarityResult)
  pub delete_expired : S → Result (ℕ × S)

pub record EdgeRepo (S : Type 0) : Type 0 where
  pub create : S → Edge → Result S
  pub get : S → Id128 → Result Edge
  pub update : S → Edge → Result S
  pub delete : S → Id128 → Result S
  pub edges_from : S → Id128 → EdgeFilter → Result (List Edge)
  pub edges_to : S → Id128 → EdgeFilter → Result (List Edge)
  pub edges_between : S → Id128 → Id128 → Result (List Edge)
  pub find_conflicts : S → Id128 → Result (List Entry)

pub record SessionRepo (S : Type 0) : Type 0 where
  pub create_session : S → Session → Result S
  pub end_session : S → Id128 → Result S
  pub get_session : S → Id128 → Result Session
  pub log_event : S → SessionEvent → Result S
  pub list_events : S → Id128 → Result (List SessionEvent)
  pub list_unprocessed_sessions : S → Result (List Session)
  pub mark_processed : S → Id128 → Result S

pub record ScopeRepo (S : Type 0) : Type 0 where
  pub upsert : S → Scope → Result S
  pub ensure_hierarchy : S → Text → Result S
  pub get : S → Text → Result Scope
  pub delete : S → Text → Result S
  pub list : S → Result (List Scope)
  pub list_children : S → Text → Result (List Scope)
  pub list_descendants : S → Text → Result (List Scope)
  pub delete_empty : S → Result (ℕ × S)
