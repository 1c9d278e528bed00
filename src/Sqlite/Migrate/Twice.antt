-- ===== src/Sqlite/Migrate/Twice.antt =====
-- Migrate of storage/sqlite/sqlite.go, called again.
use known.Prelude.{
  ℕ, suc, ◌+◌, ◌≤◌, ◌≡◌, refl, sym, ap, true, List, [], ◌∷◌, ◌++◌, leb, member, length, Bool-cases,
  Result-cases, Result, ok, ok-injective, inl, inr, arith,
}
use known.Prelude.Text.{Text}
use known.Sqlite.Migrate.{Schema, max_version, apply_one, apply_pending, migrate}

module _ {S : Type 0} (exec : Text → S → Result S) where
  max_version-concat : (vs : List ℕ) (v : ℕ) → v ≤ max_version exec (vs ++ v ∷ [])
  unfolding max_version
  max_version-concat [] v = ground arith
  max_version-concat (x ∷ vs) v = ground (arith, max_version-concat vs v)

  -- Files up to a version that is applied are passed over.
  apply_pending-done :
      (current version : ℕ) (files : List Text) (s : Schema exec)
      → version + length files ≤ suc current
      → apply_pending exec current version files s ≡ (ok tt, s)
  unfolding apply_pending
  apply_pending-done current version [] s h = refl
  apply_pending-done current version (f ∷ files) s h =
      let passed : leb version current ≡ true = ground arith in
      rw passed (apply_pending-done current (suc version) files s (omega arith))

  max_version-grows : (vs : List ℕ) (v : ℕ) → max_version exec vs ≤ max_version exec (vs ++ v ∷ [])
  unfolding max_version
  max_version-grows [] v = ground arith
  max_version-grows (x ∷ vs) v = ground (arith, max_version-grows vs v)

  apply_one-versions :
      (version : ℕ) (file : Text) (s t : Schema exec)
      → apply_one exec version file s ≡ ok t
      → t.versions ≡ s.versions ++ version ∷ []
  unfolding apply_one
  apply_one-versions version file s t h = elim (Result-cases (exec file s.tables)) [
    | inr (x, e) ↦ absurd (cc (rw (e, apply_one) at h))
    | inl (tables, e) ↦ elim (Bool-cases (member version s.versions)) [
      | inl f ↦ absurd (cc (rw (e, apply_one, f) at h))
      | inr f ↦
          ap (λ (x : Schema exec). x.versions) (sym (ok-injective (rw (e, apply_one, f) at h)))
    ]
  ]

  -- A loop that succeeds leaves the version of the last file, or a greater one.
  apply_pending-max :
      (current version : ℕ) (files : List Text) (s s' : Schema exec)
      → version ≤ suc (max_version exec s.versions)
      → current ≤ max_version exec s.versions
      → apply_pending exec current version files s ≡ (ok tt, s')
      → version + length files ≤ suc (max_version exec s'.versions)
  unfolding apply_pending
  apply_pending-max current version [] s s' h k e = rw (← ap (λ p. p.1) e) (omega arith)
  apply_pending-max current version (f ∷ files) s s' h k e =
      elim (Bool-cases (leb version current)) [
        | inl passed ↦ omega (
          arith,
          apply_pending-max current (suc version) files s s' (ground arith) k (rw passed at e),
        )
        | inr new ↦ elim (Result-cases (apply_one exec version f s)) [
          | inr (x, a) ↦ absurd (cc (rw (new, a) at e))
          | inl (t, a) ↦
              let v = apply_one-versions version f s t a in
              let grows = max_version-grows s.versions version in
              let new_max = max_version-concat s.versions version in
              omega (
                arith,
                apply_pending-max current (suc version) files t s' (rw v (omega arith))
                    (rw v (omega arith)) (rw (new, a) at e),
              )
        ]
      ]

  -- After a Migrate that succeeded, whatever of the files had been applied before, the greatest version
  -- is at least the number of the files, and a further Migrate runs no file and changes nothing.
  pub migrate_twice :
      (files : List Text) (s s' : Schema exec)
      → migrate exec files s ≡ (ok tt, s')
      → (length files ≤ max_version exec s'.versions) × (migrate exec files s' ≡ (ok tt, s'))
  unfolding migrate
  migrate_twice files s s' h =
      let done =
        apply_pending-max (max_version exec s.versions) 1 files s s' (omega arith) (omega arith)
          h in
      (omega arith, apply_pending-done (max_version exec s'.versions) 1 files s' done)
