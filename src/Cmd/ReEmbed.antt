-- ===== src/Cmd/ReEmbed.antt =====
-- The entries of a file for cmd/import.go, and their new embeddings.
use known.Prelude.{
  not, Option, none, some, List, [], ◌∷◌, map, length, ◌==◌, Result, ok, err, errorf, fail_if,
  with_context, ◌>>=◌, ◌>>◌,
}
use known.Prelude.Text.{Text}
use known.Model.Edge.{Edge}
use known.Model.Entry.{Entry, with_embedding}
use known.Embed.Cache.{Embedder, Vector}

-- exportEntry of cmd/export.go
pub record ExportEntry : Type 0 where
  pub entry : Entry
  pub edges : List Edge

-- `exports[i].Entry.WithEmbedding(embeddings[i], modelName)`, for as many embeddings as exports.
unfoldable pub embedded : Text → List ExportEntry → List Vector → List ExportEntry
unfolding with_embedding
embedded model [] vs = []
embedded model (x ∷ xs) [] = x ∷ xs
embedded model (x ∷ xs) (v ∷ vs) =
    record x { entry = with_embedding x.entry v model } ∷ embedded model xs vs

unfoldable pub re_embed : Option Embedder → List ExportEntry → Result (List ExportEntry)
unfolding embedded
re_embed none exports = err (errorf "--re-embed requires an embedder (none configured)")
re_embed (some e) exports = do
  vs ←
      with_context "batch embed"
        (e.embed_batch (map (λ (x : ExportEntry). x.entry.content) exports))
  fail_if (not (length vs == length exports)) (errorf "batch embed: got %d embeddings")
  ok (embedded e.model_name exports vs)
