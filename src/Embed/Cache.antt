-- ===== src/Embed/Cache.antt =====
-- embed/cache.go: an embedder behind a cache keyed by a hash of model and text. `hash` is the hex
-- SHA-256 of the standard library. The lock makes each of its sections one step; here a call runs
-- alone.
pub mod Transparent
pub mod Examples
use known.Prelude.{
  ℕ, zero, suc, Bool, true, false, Option, none, some, List, [], ◌∷◌, ◌++◌, if◌then◌else◌, length,
  Error, Result, ok, err, errorf, ◌>>=◌,
}
use known.Prelude.Float.{Float32}
use known.Prelude.Text.{Text, text_eq}

abbrev pub Vector : Type 0
Vector = List Float32

-- The interface embed.Embedder. The inner embedder is a pure function of its input.
pub record Embedder : Type 0 where
  pub embed : Text → Result Vector
  pub embed_batch : List Text → Result (List Vector)
  pub dimensions : ℕ
  pub model_name : Text

-- The map from keys to embeddings.
abbrev pub Cache : Type 0
Cache = List (Text × Vector)

unfoldable pub find : Text → Cache → Option Vector
find key [] = none
find key ((k, v) ∷ c) = if text_eq k key then some v else find key c

-- `c.cache[key] = emb`; the newest binding of a key is the one that is found.
unfoldable pub store : Text → Vector → Cache → Cache
store key v c = (key, v) ∷ c

module _ (hash : Text → Text) (inner : Embedder) where
  unfoldable pub cache_key : Text → Text
  cache_key text = hash (inner.model_name ++ 0 ∷ text)

  embed_miss : Text → Cache → Result Vector → Result Vector × Cache
  embed_miss text c (ok emb) = (ok emb, store (cache_key text) emb c)
  embed_miss text c (err e) = (err e, c)

  embed_at : Text → Cache → Option Vector → Result Vector × Cache
  unfolding embed_miss
  embed_at text c (some emb) = (ok emb, c)
  embed_at text c none = embed_miss text c (inner.embed text)

  unfoldable pub embed : Text → Cache → Result Vector × Cache
  unfolding embed_at
  embed text c = embed_at text c (find (cache_key text) c)

  -- The texts that are not cached, in order.
  unfoldable pub missing_texts : Cache → List Text → List Text
  missing_texts c [] = []
  missing_texts c (t ∷ ts) =
      let others = missing_texts c ts in
      elim (find (cache_key t) c) [ some v ↦ others | none ↦ t ∷ others ]

  -- The embeddings computed are stored, each under the key of its text.
  unfoldable pub store_all : List Text → List Vector → Cache → Cache
  store_all [] vs c = c
  store_all (t ∷ ts) [] c = c
  store_all (t ∷ ts) (v ∷ vs) c = store_all ts vs (store (cache_key t) v c)

  abbrev prepend : Vector → Option (List Vector) → Option (List Vector)
  prepend v none = none
  prepend v (some vs) = some (v ∷ vs)

  -- The cached embeddings, with `results[idx] = computed[j]` for the missing ones. An inner embedder
  -- that returns too few embeddings makes the source panic, here `none`.
  unfoldable pub fill : Cache → List Text → List Vector → Option (List Vector)
  fill c [] computed = some []
  fill c (t ∷ ts) computed = elim (find (cache_key t) c) [
    | some v ↦ prepend v (fill c ts computed)
    | none ↦ elim computed [ [] ↦ none | v ∷ vs ↦ prepend v (fill c ts vs) ]
  ]

  finish : Cache → List Text → Result (List Vector) → Option (Result (List Vector) × Cache)
  finish c texts (err e) = some (err e, c)
  finish c texts (ok computed) = elim (fill c texts computed) [
    | none ↦ none
    | some vs ↦ some (ok vs, store_all (missing_texts c texts) computed c)
  ]

  ask : Cache → List Text → List Text → Option (Result (List Vector) × Cache)
  ask c texts [] = finish c texts (ok [])
  ask c texts (m ∷ ms) = finish c texts (inner.embed_batch (m ∷ ms))

  unfoldable pub embed_batch : List Text → Cache → Option (Result (List Vector) × Cache)
  unfolding ask finish fill missing_texts store_all
  embed_batch texts c = ask c texts (missing_texts c texts)
