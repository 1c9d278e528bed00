-- ===== src/Embed/Cache/Transparent.antt =====
-- embed/cache.go: the cache against the embedder behind it.
use mathlib.Core.Path.{◌≡◌}
use known.Prelude.{
  refl, sym, subst, ◌⊎◌, inl, inr, none, some, Option-cases, List, [], ◌∷◌, ◌++◌, Bool-cases, Error,
  ok, err, Result-cases,
}
use known.Prelude.Text.{Text, text_eq, text_eq_iff}
use known.Embed.Cache.{
  Vector, Embedder, Cache, find, store, cache_key, embed, missing_texts, store_all, fill, finish,
  ask, embed_batch,
}

module _ (hash : Text → Text) (inner : Embedder)
    -- Where the hash of the model's name, a zero byte and a text collides for two texts, they have the
    -- same embedding. It holds of a hash without collisions.
    (collide : (t u : Text)
      → hash (inner.model_name ++ 0 ∷ t) ≡ hash (inner.model_name ++ 0 ∷ u)
      → inner.embed t ≡ inner.embed u) where
  -- What is found under the key of a text is its embedding.
  abbrev pub IsFaithful : Cache → Type 0
  IsFaithful c =
      (t : Text) (v : Vector) → find (cache_key hash inner t) c ≡ some v → inner.embed t ≡ ok v

  store-IsFaithful :
      (c : Cache) (t : Text) (v : Vector)
      → IsFaithful c
      → inner.embed t ≡ ok v
      → IsFaithful (store (cache_key hash inner t) v c)
  unfolding store find cache_key
  store-IsFaithful c t v h e u w f =
      elim (Bool-cases (text_eq (cache_key hash inner t) (cache_key hash inner u))) [
        | inl same ↦
            let key = (text_eq_iff (cache_key hash inner t) (cache_key hash inner u)).0 same in
            cc (sym (collide t u key), e, rw same at f)
        | inr differ ↦ h u w (rw differ at f)
      ]

  -- If texts have one embedding where the hashes of the model's name, a zero byte and the text are
  -- equal: a call of Embed on a faithful cache answers as the inner embedder does, errors included,
  -- and leaves a faithful cache.
  pub embed_transparent :
      (t : Text) (c : Cache)
      → IsFaithful c
      → ((embed hash inner t c).0 ≡ inner.embed t) × IsFaithful (embed hash inner t c).1
  unfolding embed
  embed_transparent t c h = elim (Option-cases (find (cache_key hash inner t) c)) [
    | inr (v, f) ↦ rw (f, embed) (sym (h t v f), h)
    | inl f ↦ elim (Result-cases (inner.embed t)) [
      | inl (v, e) ↦ rw (f, e, embed) (refl, store-IsFaithful c t v h e)
      | inr (x, e) ↦ rw (f, e, embed) (refl, h)
    ]
  ]

  -- Each vector is the embedding of its text.
  abbrev pub Agree : List Text → List Vector → Type 0
  Agree [] [] = Unit
  Agree [] (v ∷ vs) = ⊥
  Agree (t ∷ ts) [] = ⊥
  Agree (t ∷ ts) (v ∷ vs) = (inner.embed t ≡ ok v) × Agree ts vs

  store_all-IsFaithful :
      (ts : List Text) (vs : List Vector) (c : Cache)
      → Agree ts vs
      → IsFaithful c
      → IsFaithful (store_all hash inner ts vs c)
  unfolding store_all
  store_all-IsFaithful [] vs c a h = h
  store_all-IsFaithful (t ∷ ts) [] c a h = h
  store_all-IsFaithful (t ∷ ts) (v ∷ vs) c a h =
      store_all-IsFaithful ts vs (store (cache_key hash inner t) v c) a.1
        (store-IsFaithful c t v h a.0)

  -- Filling in the embeddings of the missing texts gives one for each text.
  fill_agrees :
      (c : Cache) (ts : List Text) (computed : List Vector)
      → IsFaithful c
      → Agree (missing_texts hash inner c ts) computed
      → (vs : List Vector) × (fill hash inner c ts computed ≡ some vs) × Agree ts vs
  unfolding fill missing_texts
  fill_agrees c [] computed h a = ([], refl, tt)
  fill_agrees c (t ∷ ts) computed h a = elim (Option-cases (find (cache_key hash inner t) c)) [
    | inr (v, f) ↦
        let (vs, e, b) = fill_agrees c ts computed h (rw (f, missing_texts) at a) in
        (v ∷ vs, rw (f, e, fill), (h t v f, b))
    | inl f ↦
        next c t ts computed h f (rw (f, missing_texts) at a) (λ rest b. fill_agrees c ts rest h b)
  ]
    where
      next :
          (c : Cache) (t : Text) (ts : List Text) (computed : List Vector)
          → IsFaithful c
          → find (cache_key hash inner t) c ≡ none
          → Agree (t ∷ missing_texts hash inner c ts) computed
          → ((rest : List Vector)
              → Agree (missing_texts hash inner c ts) rest
              → (vs : List Vector) × (fill hash inner c ts rest ≡ some vs) × Agree ts vs)
          → (vs : List Vector) × (fill hash inner c (t ∷ ts) computed ≡ some vs) × Agree (t ∷ ts) vs
      next c t ts [] h f a ih = absurd a
      next c t ts (w ∷ ws) h f a ih =
          let (vs, e, b) = ih ws a.1 in (w ∷ vs, rw (f, e, fill), (a.0, b))

  finish_agrees :
      (texts : List Text) (c : Cache) (computed : List Vector)
      → IsFaithful c
      → Agree (missing_texts hash inner c texts) computed
      → (vs : List Vector) × (c' : Cache) × (finish hash inner c texts (ok computed)
          ≡ some (ok vs, c'))
        × Agree texts vs
        × IsFaithful c'
  unfolding finish
  finish_agrees texts c computed h good =
      let (vs, f, a) = fill_agrees c texts computed h good in
      (
        vs,
        store_all hash inner (missing_texts hash inner c texts) computed c,
        rw (finish, f),
        a,
        store_all-IsFaithful (missing_texts hash inner c texts) computed c good h,
      )

  -- If texts have one embedding where the hashes of the model's name, a zero byte and the text are
  -- equal, and the batches of the inner embedder agree with its single embeddings: a call of
  -- EmbedBatch on a faithful cache that succeeds returns the embedding of every text in its position
  -- and leaves a faithful cache; it fails only where the inner batch does, and it does not panic.
  pub embed_batch_transparent :
      ((ts : List Text) (vs : List Vector) → inner.embed_batch ts ≡ ok vs → Agree ts vs)
      → (texts : List Text) (c : Cache) → IsFaithful c
      → ((vs : List Vector) × (c' : Cache) × (embed_batch hash inner texts c ≡ some (ok vs, c'))
          × Agree texts vs
          × IsFaithful c')
        ⊎ ((e : Error) × (embed_batch hash inner texts c ≡ some (err e, c))
            × (inner.embed_batch (missing_texts hash inner c texts) ≡ err e))
  unfolding embed_batch
  embed_batch_transparent batch texts c h = elim (texts-cases (missing_texts hash inner c texts)) [
    | inl none_left ↦
        let (vs, c', f, a, h') = finish_agrees texts c [] h (rw none_left tt) in
        inl (vs, c', rw (none_left, ask) f, a, h')
    | inr (m, ms, some_left) ↦ elim (Result-cases (inner.embed_batch (m ∷ ms))) [
      | inl (computed, e) ↦
          let good = subst (λ x. Agree x computed) (sym some_left) (batch (m ∷ ms) computed e) in
          let (vs, c', f, a, h') = finish_agrees texts c computed h good in
          inl (vs, c', rw (some_left, ask, e) f, a, h')
      | inr (x, e) ↦ inr (x, rw (some_left, ask, e, finish), rw some_left e)
    ]
  ]
    where
      texts-cases : (ts : List Text) → (ts ≡ []) ⊎ ((m : Text) × (ms : List Text) × (ts ≡ m ∷ ms))
      texts-cases [] = inl refl
      texts-cases (m ∷ ms) = inr (m, ms, refl)
