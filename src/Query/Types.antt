-- ===== src/Query/Types.antt =====
-- query/query.go: results, options and the engine.

use known.Prelude.{
  ℕ, Bool, true, false, List, [], ◌∷◌, Option, Result, not, any, ◌==◌, if◌then◌else◌,
}
use known.Prelude.Float.{Float64, Float32}
use known.Prelude.Int.{ℤ, pos, or_default}
use known.Prelude.Text.{Text, text_eq}
use known.Model.Types.{Id128}
use known.Model.Edge.{Edge, EdgeType}
use known.Model.Entry.{Entry}
use known.Storage.{SimilarityMetric, EntryRepo, EdgeRepo, EdgeFilter}

pub data ReachMethod : Type 0 where
  direct traversal expansion text : ReachMethod

-- `Result` of the source. A nil list of ids is the empty list: both read the same in the code.
pub record QueryResult : Type 0 where
  pub entry : Entry
  pub score : Float64
  pub distance : Float64
  pub reach : ReachMethod
  pub depth : ℕ
  pub edge_path : List Edge
  pub has_conflict : Bool
  pub conflicts : List Id128
  pub is_superseded : Bool
  pub superseded_by : List Id128

-- `Result{Entry: …, Reach: …, Depth: …}` with every other field at its zero value.
abbrev pub hit : Entry → ReachMethod → ℕ → QueryResult
hit entry reach depth = record {
  entry = entry;
  score = 0;
  distance = 0;
  reach = reach;
  depth = depth;
  edge_path = [];
  has_conflict = false;
  conflicts = [];
  is_superseded = false;
  superseded_by = [];
}

pub record ConflictPair : Type 0 where
  pub entry_a : Entry
  pub entry_b : Entry
  pub edge : Edge

pub record VectorOptions : Type 0 where
  pub text : Text
  pub scope : Text
  pub limit : ℤ
  pub threshold : Float64
  pub recency_weight : Float64
  pub recency_half_life : ℤ
  pub exclude_content : List Text
  pub metric : SimilarityMetric

pub data GraphDirection : Type 0 where
  outgoing incoming both : GraphDirection

-- `direction == Outgoing || direction == Both`
abbrev pub follows_out : GraphDirection → Bool
follows_out outgoing = true
follows_out incoming = false
follows_out both = true

-- `direction == Incoming || direction == Both`
abbrev pub follows_in : GraphDirection → Bool
follows_in outgoing = false
follows_in incoming = true
follows_in both = true

pub record GraphOptions : Type 0 where
  pub start_id : Id128
  pub direction : GraphDirection
  pub max_depth : ℤ
  pub edge_types : List EdgeType
  pub include_start : Bool

pub record HybridOptions : Type 0 where
  pub vector : VectorOptions
  pub expand_depth : ℤ
  pub expand_direction : GraphDirection
  pub expand_edge_types : List EdgeType
  pub text_search : Bool
  pub rrfk : ℤ
  pub total_limit : ℤ
  pub include_superseded : Bool

unfoldable pub rrf_k : HybridOptions → ℕ
rrf_k o = or_default o.rrfk 60

-- embed.Embedder, as far as the engine calls it.
pub record Embedder : Type 0 where
  pub embed : Text → Result (List Float32)

-- A nil embedder is `none`.
pub record Engine (S : Type 0) : Type 0 where
  pub entries : EntryRepo S
  pub edges : EdgeRepo S
  pub embedder : Option Embedder

-- The filter `EdgeFilter{}`, and the one that Traverse and SearchHybrid build: the storage filters
-- by type when exactly one type is asked for.
abbrev pub no_filter : EdgeFilter
no_filter = record { type = []; limit = pos 0 }

abbrev pub filter_of : List EdgeType → EdgeFilter
filter_of (t ∷ []) = record { type = t; limit = pos 0 }
filter_of _ = no_filter

-- `len(edgeTypeSet) > 0 && !edgeTypeSet[edge.Type]`
abbrev pub is_excluded_type : List EdgeType → EdgeType → Bool
is_excluded_type [] t = false
is_excluded_type (u ∷ us) t = not (any (text_eq t) (u ∷ us))

-- The other end of an edge.
unfoldable pub neighbor : Edge → Id128 → Id128
neighbor edge current = if edge.to_id == current then edge.from_id else edge.to_id
