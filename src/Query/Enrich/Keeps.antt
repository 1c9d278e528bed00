-- ===== src/Query/Enrich/Keeps.antt =====
-- The enrichments: which fields they fill, and from what.
use mathlib.Core.Path.{◌≡◌}
use mathlib.Core.List.{Memᴰ}
use mathlib.Core.List.Memᴰ
use known.Prelude.{
  true, false, ◌||◌, not, ap, refl, sym, ◌∙◌, subst, inl, inr, List, [], ◌∷◌, map, All, Bool-cases,
  ok-injective, ok, Result-cases,
}
use known.Model.Types.{Id128}
use known.Model.Edge.{Edge}
use known.Model.Entry.{Entry}
use known.Storage.{EdgeRepo}
use known.Query.Types.{QueryResult}
use known.Query.Enrich.{
  is_nil, set_conflicts, set_superseded, enrich_conflict, enrich_conflicts, enrich_one_superseded,
  enrich_superseded, supersedes_filter,
}

module _ {S : Type 0} (edges : EdgeRepo S) (db : S) where
  -- A result is left as it is if it has conflicts already, and gets those of the repository if not.
  pub data Conflicted (r r' : QueryResult) : Type 0 where
    kept : (r.has_conflict || not (is_nil r.conflicts)) ≡ true → r' ≡ r → Conflicted r r'
    filled :
        (r.has_conflict || not (is_nil r.conflicts)) ≡ false
        → (cs : List Entry) → edges.find_conflicts db r.entry.id ≡ ok cs
        → r' ≡ set_conflicts r cs
        → Conflicted r r'

  pub data Superseded (r r' : QueryResult) : Type 0 where
    kept : (r.is_superseded || not (is_nil r.superseded_by)) ≡ true → r' ≡ r → Superseded r r'
    filled :
        (r.is_superseded || not (is_nil r.superseded_by)) ≡ false
        → (es : List Edge) → edges.edges_to db r.entry.id supersedes_filter ≡ ok es
        → r' ≡ set_superseded r es
        → Superseded r r'

  enrich_conflict-Conflicted :
      (r r' : QueryResult) → enrich_conflict edges db r ≡ ok r' → Conflicted r r'
  unfolding enrich_conflict
  enrich_conflict-Conflicted r r' h =
      elim (Bool-cases (r.has_conflict || not (is_nil r.conflicts))) [
        | inl k ↦ Conflicted.kept k (cc (rw k at h))
        | inr k ↦ elim (Result-cases (edges.find_conflicts db r.entry.id)) [
          | inl (cs, f) ↦ Conflicted.filled k cs f (cc (rw (k, f) at h))
          | inr (e, f) ↦ cc (rw (k, f) at h)
        ]
      ]

  enrich_one_superseded-Superseded :
      (r r' : QueryResult) → enrich_one_superseded edges db r ≡ ok r' → Superseded r r'
  unfolding enrich_one_superseded
  enrich_one_superseded-Superseded r r' h =
      elim (Bool-cases (r.is_superseded || not (is_nil r.superseded_by))) [
        | inl k ↦ Superseded.kept k (cc (rw k at h))
        | inr k ↦ elim (Result-cases (edges.edges_to db r.entry.id supersedes_filter)) [
          | inl (es, f) ↦ Superseded.filled k es f (cc (rw (k, f) at h))
          | inr (e, f) ↦ cc (rw (k, f) at h)
        ]
      ]

  -- Two lists of the same length, related element by element.
  abbrev pub Zip :
      (QueryResult → QueryResult → Type 0) → List QueryResult → List QueryResult → Type 0
  Zip R [] [] = Unit
  Zip R [] (y ∷ ys) = ⊥
  Zip R (x ∷ xs) [] = ⊥
  Zip R (x ∷ xs) (y ∷ ys) = R x y × Zip R xs ys

  pub All-Zip :
      (P : QueryResult → Type 0) (R : QueryResult → QueryResult → Type 0)
      → ((r r' : QueryResult) → R r r' → P r → P r')
      → (rs rs' : List QueryResult) → Zip R rs rs'
      → All P rs
      → All P rs'
  All-Zip P R f [] [] z h = tt
  All-Zip P R f [] (y ∷ ys) z h = absurd z
  All-Zip P R f (x ∷ xs) [] z h = absurd z
  All-Zip P R f (x ∷ xs) (y ∷ ys) z h = (f x y z.0 h.0, All-Zip P R f xs ys z.1 h.1)

  pub enrich_conflicts-Zip :
      (rs rs' : List QueryResult) → enrich_conflicts edges db rs ≡ ok rs' → Zip Conflicted rs rs'
  unfolding enrich_conflicts
  enrich_conflicts-Zip [] [] h = tt
  enrich_conflicts-Zip [] (y ∷ ys) h = cc h
  enrich_conflicts-Zip (r ∷ rs) out h = elim (Result-cases (enrich_conflict edges db r)) [
    | inl (r', e) ↦ elim (Result-cases (enrich_conflicts edges db rs)) [
      | inl (rs', f) ↦
          subst (Zip Conflicted (r ∷ rs)) (ok-injective (rw (e, f, enrich_conflicts) at h))
            (enrich_conflict-Conflicted r r' e, enrich_conflicts-Zip rs rs' f)
      | inr (x, f) ↦ cc (rw (e, f, enrich_conflicts) at h)
    ]
    | inr (x, e) ↦ cc (rw (e, enrich_conflicts) at h)
  ]

  pub enrich_superseded-Zip :
      (rs rs' : List QueryResult) → enrich_superseded edges db rs ≡ ok rs' → Zip Superseded rs rs'
  unfolding enrich_superseded
  enrich_superseded-Zip [] [] h = tt
  enrich_superseded-Zip [] (y ∷ ys) h = cc h
  enrich_superseded-Zip (r ∷ rs) out h = elim (Result-cases (enrich_one_superseded edges db r)) [
    | inl (r', e) ↦ elim (Result-cases (enrich_superseded edges db rs)) [
      | inl (rs', f) ↦
          subst (Zip Superseded (r ∷ rs)) (ok-injective (rw (e, f, enrich_superseded) at h))
            (enrich_one_superseded-Superseded r r' e, enrich_superseded-Zip rs rs' f)
      | inr (x, f) ↦ cc (rw (e, f, enrich_superseded) at h)
    ]
    | inr (x, e) ↦ cc (rw (e, enrich_superseded) at h)
  ]

  Conflicted-keeps :
      (P : QueryResult → Type 0)
      → ((r : QueryResult) (cs : List Entry) → P r → P (set_conflicts r cs))
      → (r r' : QueryResult) → Conflicted r r'
      → P r
      → P r'
  Conflicted-keeps P f r r' (Conflicted.kept _ e) p = subst P (sym e) p
  Conflicted-keeps P f r r' (Conflicted.filled _ cs _ e) p = subst P (sym e) (f r cs p)

  Superseded-keeps :
      (P : QueryResult → Type 0)
      → ((r : QueryResult) (es : List Edge) → P r → P (set_superseded r es))
      → (r r' : QueryResult) → Superseded r r'
      → P r
      → P r'
  Superseded-keeps P f r r' (Superseded.kept _ e) p = subst P (sym e) p
  Superseded-keeps P f r r' (Superseded.filled _ es _ e) p = subst P (sym e) (f r es p)

  -- A predicate that does not read the filled fields holds after the enrichment too.
  pub All-enrich_conflicts :
      (P : QueryResult → Type 0)
      → ((r : QueryResult) (cs : List Entry) → P r → P (set_conflicts r cs))
      → (rs rs' : List QueryResult) → enrich_conflicts edges db rs ≡ ok rs'
      → All P rs
      → All P rs'
  All-enrich_conflicts P f rs rs' h =
      All-Zip P Conflicted (Conflicted-keeps P f) rs rs' (enrich_conflicts-Zip rs rs' h)

  pub All-enrich_superseded :
      (P : QueryResult → Type 0)
      → ((r : QueryResult) (es : List Edge) → P r → P (set_superseded r es))
      → (rs rs' : List QueryResult) → enrich_superseded edges db rs ≡ ok rs'
      → All P rs
      → All P rs'
  All-enrich_superseded P f rs rs' h =
      All-Zip P Superseded (Superseded-keeps P f) rs rs' (enrich_superseded-Zip rs rs' h)

  -- A projection that does not read the filled fields has the same values in the same order.
  map-Zip {ℓ} :
      {A : Type ℓ} (f : QueryResult → A) (R : QueryResult → QueryResult → Type 0)
      → ((r r' : QueryResult) → R r r' → f r' ≡ f r)
      → (rs rs' : List QueryResult) → Zip R rs rs'
      → map f rs' ≡ map f rs
  map-Zip f R keep [] [] z = refl
  map-Zip f R keep [] (y ∷ ys) z = absurd z
  map-Zip f R keep (x ∷ xs) [] z = absurd z
  map-Zip f R keep (x ∷ xs) (y ∷ ys) z = cc (keep x y z.0, map-Zip f R keep xs ys z.1)

  pub map-enrich_conflicts {ℓ} :
      {A : Type ℓ} (f : QueryResult → A)
      → ((r : QueryResult) (cs : List Entry) → f (set_conflicts r cs) ≡ f r)
      → (rs rs' : List QueryResult) → enrich_conflicts edges db rs ≡ ok rs'
      → map f rs' ≡ map f rs
  map-enrich_conflicts f keep rs rs' h =
      map-Zip f Conflicted
        (λ r r'. elim [
          | Conflicted.kept _ e ↦ ap f e
          | Conflicted.filled _ cs _ e ↦ ap f e ∙ keep r cs
        ])
        rs rs' (enrich_conflicts-Zip rs rs' h)

  pub map-enrich_superseded {ℓ} :
      {A : Type ℓ} (f : QueryResult → A)
      → ((r : QueryResult) (es : List Edge) → f (set_superseded r es) ≡ f r)
      → (rs rs' : List QueryResult) → enrich_superseded edges db rs ≡ ok rs'
      → map f rs' ≡ map f rs
  map-enrich_superseded f keep rs rs' h =
      map-Zip f Superseded
        (λ r r'. elim [
          | Superseded.kept _ e ↦ ap f e
          | Superseded.filled _ es _ e ↦ ap f e ∙ keep r es
        ])
        rs rs' (enrich_superseded-Zip rs rs' h)

  same_entry : (r r' : QueryResult) → Conflicted r r' → r'.entry ≡ r.entry
  unfolding set_conflicts
  same_entry r r' (Conflicted.kept _ e) = ap (λ (x : QueryResult). x.entry) e
  same_entry r r' (Conflicted.filled _ [] _ e) = ap (λ (x : QueryResult). x.entry) e
  same_entry r r' (Conflicted.filled _ (c ∷ cs) _ e) = ap (λ (x : QueryResult). x.entry) e

  same_depth : (r r' : QueryResult) → Conflicted r r' → r'.depth ≡ r.depth
  unfolding set_conflicts
  same_depth r r' (Conflicted.kept _ e) = ap (λ (x : QueryResult). x.depth) e
  same_depth r r' (Conflicted.filled _ [] _ e) = ap (λ (x : QueryResult). x.depth) e
  same_depth r r' (Conflicted.filled _ (c ∷ cs) _ e) = ap (λ (x : QueryResult). x.depth) e

  mem-Zip :
      (R : QueryResult → QueryResult → Type 0) (rs rs' : List QueryResult) (r : QueryResult)
      → Zip R rs rs'
      → Memᴰ r rs
      → (r' : QueryResult) × Memᴰ r' rs' × R r r'
  mem-Zip R [] rs' r z m = absurd (Memᴰ.not-nil m)
  mem-Zip R (x ∷ rs) [] r z m = absurd z
  mem-Zip R (x ∷ rs) (y ∷ ys) r z (Memᴰ.head e) =
      (y, Memᴰ.head refl, subst (λ (a : QueryResult). R a y) (sym e) z.0)
  mem-Zip R (x ∷ rs) (y ∷ ys) r z (Memᴰ.tail m) =
      let (r', m', k) = mem-Zip R rs ys r z.1 m in (r', Memᴰ.tail m', k)

  -- Each result is still there after the enrichment, with its entry and its depth.
  pub mem-enrich_conflicts :
      (rs rs' : List QueryResult) (r : QueryResult)
      → enrich_conflicts edges db rs ≡ ok rs'
      → Memᴰ r rs
      → (r' : QueryResult) × Memᴰ r' rs' × (r'.entry ≡ r.entry) × (r'.depth ≡ r.depth)
  mem-enrich_conflicts rs rs' r h m =
      let (r', m', k) = mem-Zip Conflicted rs rs' r (enrich_conflicts-Zip rs rs' h) m in
      (r', m', same_entry r r' k, same_depth r r' k)

  -- Enriching succeeds if the repository answers.
  pub enrich_conflicts_returns :
      ((id : Id128) → (cs : List Entry) × (edges.find_conflicts db id ≡ ok cs))
      → (rs : List QueryResult) → (rs' : List QueryResult) × (enrich_conflicts edges db rs ≡ ok rs')
  unfolding enrich_conflicts enrich_conflict
  enrich_conflicts_returns answers [] = ([], refl)
  enrich_conflicts_returns answers (r ∷ rs) =
      let (rs', e) = enrich_conflicts_returns answers rs in
      let (cs, f) = answers r.entry.id in
      elim (Bool-cases (r.has_conflict || not (is_nil r.conflicts))) [
        | inl k ↦ (r ∷ rs', rw (k, e))
        | inr k ↦ (set_conflicts r cs ∷ rs', rw (k, f, e))
      ]
