-- ===== src/Embed/Cache/Examples.antt =====
-- A cache in front of an embedder that embeds a text by its length.
use mathlib.Core.Path.{◌≡◌}
use known.Prelude.{
  refl, ap, ◌⊎◌, some, List, [], ◌∷◌, ◌++◌, map, length, Error, ok, err, ok-injective, subst,
}
use known.Prelude.Text.{Text}
use known.Embed.Cache.{Vector, Embedder, Cache, find, embed, missing_texts, embed_batch}
use known.Embed.Cache.Transparent.{IsFaithful, Agree, embed_transparent, embed_batch_transparent}

abbrev as_is : Text → Text
as_is t = t

abbrev measure : Text → Vector
measure t = length t ∷ []

abbrev inner : Embedder
inner = record {
  embed = λ t. ok (measure t);
  embed_batch = λ ts. ok (map measure ts);
  dimensions = 1;
  model_name = 109 ∷ [];
}

no_collision :
    (t u : Text)
    → as_is (inner.model_name ++ 0 ∷ t) ≡ as_is (inner.model_name ++ 0 ∷ u)
    → inner.embed t ≡ inner.embed u
no_collision t u h = ap (λ x. ok (measure x)) (cc h)

empty-IsFaithful : IsFaithful as_is inner no_collision []
unfolding find
empty-IsFaithful t v h = cc h

embed_transparent_example :
    ((embed as_is inner (7 ∷ []) []).0 ≡ inner.embed (7 ∷ []))
    × IsFaithful as_is inner no_collision (embed as_is inner (7 ∷ []) []).1
embed_transparent_example = embed_transparent as_is inner no_collision (7 ∷ []) [] empty-IsFaithful

-- The cache after the text `7` was embedded.
abbrev warm : Cache
warm = (embed as_is inner (7 ∷ []) []).1

warm-IsFaithful : IsFaithful as_is inner no_collision warm
warm-IsFaithful = (embed_transparent as_is inner no_collision (7 ∷ []) [] empty-IsFaithful).1

measures-Agree : (ts : List Text) → Agree as_is inner no_collision ts (map measure ts)
measures-Agree [] = tt
measures-Agree (t ∷ ts) = (refl, measures-Agree ts)

abbrev texts : List Text
texts = (7 ∷ []) ∷ (8 ∷ 9 ∷ []) ∷ []

embed_batch_transparent_example :
    ((vs : List Vector) × (c' : Cache) × (embed_batch as_is inner texts warm ≡ some (ok vs, c'))
      × Agree as_is inner no_collision texts vs
      × IsFaithful as_is inner no_collision c')
    ⊎ ((e : Error) × (embed_batch as_is inner texts warm ≡ some (err e, warm))
        × (inner.embed_batch (missing_texts as_is inner warm texts) ≡ err e))
embed_batch_transparent_example =
    embed_batch_transparent as_is inner no_collision
      (λ ts vs h. subst (Agree as_is inner no_collision ts) (ok-injective h) (measures-Agree ts))
      texts warm warm-IsFaithful
