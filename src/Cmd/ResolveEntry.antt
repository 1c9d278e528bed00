-- ===== src/Cmd/ResolveEntry.antt =====
-- cmd/resolve.go: from a user's argument to one entry id. What is printed is left out. The
-- parameters are the ULID parser and what is used of package `strings` for Unicode texts.
pub mod Picks
pub mod Examples
use known.Prelude.{
  ℕ, zero, suc, Bool, true, false, not, ◌&&◌, ◌||◌, Option, none, some, List, [], ◌∷◌, map,
  if◌then◌else◌, Result, ok, err, errorf, wrap, fail_if, with_context, ◌>>=◌, ◌>>◌,
}
use known.Prelude.Float.{Float64, FloatOps}
use known.Prelude.Int.{pos}
use known.Prelude.Text.{Text, is_empty, contains}
use known.Model.Types.{Id128, Time}
use known.Model.Scope.{root_scope}
use known.Model.Entry.{Entry}
use known.Storage.{EntryFilter, cosine}
use known.Query.Types.{QueryResult, Engine, Embedder}
use known.Query.Vector.{search_vector}

-- The parts of a command's `App` that resolution reads. `new_embedder` is embed.NewEmbedder on the
-- loaded configuration.
pub record App (S : Type 0) : Type 0 where
  pub engine : Engine S
  pub default_scope : Text
  pub new_embedder : Result Embedder

pub record TextOps : Type 0 where
  pub to_lower : Text → Text
  pub trim_space : Text → Text
  pub equal_fold : Text → Text → Bool
  pub parse_id : Text → Result Id128

unfoldable pub resolve_scope : Text → Text
resolve_scope default_scope = if is_empty default_scope then root_scope else default_scope

-- The first entry whose content is the argument, up to case.
unfoldable pub exact_match : (Text → Text → Bool) → Text → List Entry → Option Entry
exact_match equal_fold arg [] = none
exact_match equal_fold arg (e ∷ rest) =
    if equal_fold e.content arg then some e else exact_match equal_fold arg rest

abbrev pub list_filter : Text → EntryFilter
list_filter scope = record {
  scope = [];
  scope_prefix = scope;
  source_type = [];
  provenance_level = [];
  labels = [];
  staler_than = pos 0;
  include_expired = false;
  limit = pos 200;
  offset = pos 0;
}

-- An engine with an embedder, which is made if there is none.
with_embedder : {S : Type 0} → Engine S → Option Embedder → Result Embedder → Result (Engine S)
with_embedder engine (some e) made = ok engine
with_embedder engine none (ok e) = ok (record engine { embedder = some e })
with_embedder engine none (err x) = err (wrap "embedder unavailable" x)

-- `len(semanticResults) > 1` reads the second score, which is 0 otherwise.
abbrev pub second_score : Float64 → List QueryResult → Float64
second_score z [] = z
second_score z (r ∷ rs) = r.score

module _ (fl : FloatOps) (ops : TextOps) where
  open fl use {lt, sub, decimal, of_int}

  -- `x >= y`: above or equal, false at NaN.
  pub at_least : Float64 → Float64 → Bool
  at_least x y = lt y x || fl.eq x y

  -- Top-1 dominance: the score, and the margin over the second.
  unfoldable pub dominates : QueryResult → List QueryResult → Bool
  unfolding at_least
  dominates top others =
      at_least top.score (decimal 80 100)
      && at_least (sub top.score (second_score (of_int 0) others)) (decimal 10 100)

  pub text_match : Text → Entry → Bool
  text_match query e =
      (not (is_empty e.title) && contains (ops.to_lower e.title) query)
      || contains (ops.to_lower e.content) query

  -- The loop of searchByText, which breaks at the tenth match.
  unfoldable pub matches : ℕ → Text → List Entry → List Entry
  unfolding text_match
  matches zero query entries = []
  matches (suc room) query [] = []
  matches (suc room) query (e ∷ rest) = elim (text_match query e) [
    | true ↦ e ∷ matches room query rest
    | false ↦ matches (suc room) query rest
  ]

  pub semantic_pick : Text → QueryResult → List QueryResult → Option Entry → Result Id128
  semantic_pick arg top others (some e) = ok e.id
  semantic_pick arg top others none =
      if dominates top others then ok top.entry.id else err (errorf "ambiguous query")

  pub text_pick : Text → List Entry → Result Id128
  text_pick arg [] = err (errorf "no entries matching")
  text_pick arg (e ∷ []) = ok e.id
  text_pick arg (e ∷ f ∷ rest) = elim (exact_match ops.equal_fold arg (e ∷ f ∷ rest)) [
    | some x ↦ ok x.id
    | none ↦ err (errorf "ambiguous query")
  ]

  module _ (now : Time) {S : Type 0} (app : App S) (db : S) where
    pub search_semantic_scored : Text → Result (List QueryResult)
    unfolding with_embedder
    search_semantic_scored q = do
      engine ← with_embedder app.engine app.engine.embedder app.new_embedder
      search_vector fl ops.to_lower now engine db (record {
        text = q;
        scope = resolve_scope app.default_scope;
        limit = pos 6;
        threshold = 0;
        recency_weight = 0;
        recency_half_life = pos 0;
        exclude_content = [];
        metric = cosine;
      })

    unfoldable pub search_by_text : Text → Result (List Entry)
    search_by_text q = do
      entries ← app.engine.entries.list db (list_filter (resolve_scope app.default_scope))
      ok (matches 10 (ops.to_lower q) entries)

    pub by_text : Text → Result Id128
    unfolding text_pick
    by_text arg = do
      candidates ← with_context "search entries" (search_by_text arg)
      text_pick arg candidates

    pub by_content : Text → Result (List QueryResult) → Result Id128
    unfolding semantic_pick by_text
    by_content arg (ok (top ∷ others)) =
        semantic_pick arg top others
          (exact_match ops.equal_fold arg (map (λ (r : QueryResult). r.entry) (top ∷ others)))
    by_content arg (ok []) = by_text arg
    by_content arg (err e) = by_text arg

    pub from_id : Text → Result Id128 → Result Id128
    unfolding by_content search_semantic_scored
    from_id arg (ok id) = ok id
    from_id arg (err e) = by_content arg (search_semantic_scored arg)

    unfoldable pub resolve_entry : Text → Result Id128
    unfolding from_id
    resolve_entry arg = do
      fail_if (is_empty (ops.trim_space arg)) (errorf "query must not be empty")
      from_id arg (ops.parse_id arg)
