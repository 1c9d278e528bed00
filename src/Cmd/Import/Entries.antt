-- ===== src/Cmd/Import/Entries.antt =====
-- What CreateOrUpdate leaves of the entries, for an import.
use Prim.Native.String.{String}
use mathlib.Core.Path.{◌≡◌}
use known.Prelude.{refl, sym, ap, ◌∙◌, subst, inl, inr, Result, ok, err, ok-injective, Result-cases}
use known.Prelude.Text.{Text}
use known.Model.Types.{Time}
use known.Model.Entry.{Entry}
use known.Sqlite.Tables.{
  EntryRow, Db, Action, Json, ◌>>=◌, continue, in_context, executes, reads, ◌>>◌,
  marshal_nullable_json,
}
use known.Sqlite.Scope.{ensure_hierarchy}
use known.Sqlite.Entry.{
  with_defaults, encoded, row_of, upsert_entry, save_labels_of, create_or_update_inner, stored_as,
}
use known.Cmd.Import.Grows.{
  Written, Grows, after-Grows, HasRow, Keeps, ensure_hierarchy-Keeps, upsert_entry-Grows,
  save_labels_of-Keeps, bind-Keeps, reads-Keeps,
}

module _ {A B : Type 0} where
  continue-eq-ok :
      (f : A → Action B) (r : Result A × Db) (b : B) (db' : Db)
      → continue f r ≡ (ok b, db')
      → (a : A) × (d : Db) × (r ≡ (ok a, d)) × (f a d ≡ (ok b, db'))
  continue-eq-ok f (ok a, d) b db' h = (a, d, refl, h)
  continue-eq-ok f (err e, d) b db' h = absurd (cc (ap (λ p. p.0) h))

  -- The two steps of a do block that succeeded.
  bind-eq-ok :
      (m : Action A) (f : A → Action B) (db db' : Db) (b : B)
      → (m >>= f) db ≡ (ok b, db')
      → (a : A) × (d : Db) × (m db ≡ (ok a, d)) × (f a d ≡ (ok b, db'))
  bind-eq-ok m f db db' b h = continue-eq-ok f (m db) b db' h

-- The columns of a row that an entry is encoded to.
encoded_columns :
    (json : Json) (e : Entry) (row : EntryRow)
    → encoded json e ≡ ok row
    → (row.content_hash ≡ e.content_hash) × (row.scope ≡ e.scope) × (row.content ≡ e.content)
unfolding encoded row_of
encoded_columns json e row h = elim (Result-cases (marshal_nullable_json json e.meta)) [
  | inr (x, f) ↦ absurd (cc (rw (f, encoded) at h))
  | inl (meta, f) ↦ elim (Result-cases (marshal_nullable_json json e.source.meta)) [
    | inr (x, g) ↦ absurd (cc (rw (f, encoded, g) at h))
    | inl (source_meta, g) ↦
        let same : row_of e meta source_meta ≡ row = ok-injective (rw (f, encoded, g) at h) in
        (
          ap (λ (r : EntryRow). r.content_hash) (sym same),
          ap (λ (r : EntryRow). r.scope) (sym same),
          ap (λ (r : EntryRow). r.content) (sym same),
        )
  ]
]

-- Where a method that keeps the entries succeeds.
keeps-eq-ok :
    {A : Type 0} (W : Written) (m : Action A) (db db' : Db) (a : A)
    → Keeps W m
    → m db ≡ (ok a, db')
    → Grows W 0 db db'
unfolding Keeps
keeps-eq-ok W m db db' a k h = subst (Grows W 0 db) (ap (λ p. p.1) h) (k db)

-- Nothing is written.
abbrev nothing : Written
nothing h s c = ⊥

stays-HasRow :
    (h s c : Text) (db db' : Db) → Grows nothing 0 db db' → HasRow h s c db → HasRow h s c db'
stays-HasRow h s c db db' g (r, m, i, j, k) =
    let (t, n, (p, q, o, kept)) = g.rows r m in
    elim kept [
      | inl same ↦ (t, n, q ∙ i, o ∙ j, ap (λ (z : EntryRow). z.content) same ∙ k)
      | inr never ↦ absurd never
    ]

upsert-eq-ok :
    (W : Written) (s : String) (row : EntryRow) (db db' : Db) (a : Unit {0})
    → W row.content_hash row.scope row.content
    → in_context s (executes (upsert_entry row)) db ≡ (ok a, db')
    → Grows W 0 db db' × HasRow row.content_hash row.scope row.content db'
upsert-eq-ok W s row db db' a w h = elim (Result-cases (upsert_entry row db)) [
  | inr (e, u) ↦ absurd (cc (ap (λ p. p.0) (rw u at h)))
  | inl ((b, d), u) ↦
      subst (λ z. Grows W 0 db z × HasRow row.content_hash row.scope row.content z)
        (ap (λ p. p.1) (rw u at h)) (upsert_entry-Grows row db d b w u)
]

module _ (json : Json) (hash : Text → Text) (now : Time) where
  -- The statements after the upsert.
  abbrev finish : Entry → Action Entry
  finish e = do save_labels_of json hash now e e.labels; reads (stored_as json hash now e)

  finish-Keeps : (W : Written) (e : Entry) → Keeps W (finish e)
  finish-Keeps W e = search (bind-Keeps, reads-Keeps, save_labels_of-Keeps)

  upsert-Grows :
      (W : Written) (e a : Entry) (row : EntryRow) (db db' : Db)
      → W row.content_hash row.scope row.content
      → (in_context "create or update entry" (executes (upsert_entry row)) >>= λ _. finish e) db
        ≡ (ok a, db')
      → Grows W 0 db db' × HasRow row.content_hash row.scope row.content db'
  upsert-Grows W e a row db db' w h =
      let upsert = in_context "create or update entry" (executes (upsert_entry row)) in
      let (u, d, p, q) = bind-eq-ok upsert (λ _. finish e) db db' a h in
      let (g, r) = upsert-eq-ok W "create or update entry" row db d u w p in
      (
        after-Grows g (keeps-eq-ok W (finish e) d db' a (finish-Keeps W e) q),
        stays-HasRow _ _ _ d db' (keeps-eq-ok nothing (finish e) d db' a (finish-Keeps nothing e) q)
            r,
      )

  -- Where it succeeds, the entries stay, and one has the hash, scope and content of the argument.
  pub create_or_update_inner-Grows :
      (W : Written) (entry : Entry) (db db' : Db) (a : Entry)
      → W (with_defaults hash entry).content_hash entry.scope entry.content
      → create_or_update_inner json hash now entry db ≡ (ok a, db')
      → Grows W 0 db db'
        × HasRow (with_defaults hash entry).content_hash entry.scope entry.content db'
  unfolding create_or_update_inner with_defaults
  create_or_update_inner-Grows W entry db db' a w h =
      let e = with_defaults hash entry in
      let d = ensure_hierarchy now e.scope db in
      let ensured =
        keeps-eq-ok W (executes (λ z. ok (tt {0}, ensure_hierarchy now e.scope z))) db d tt
          (ensure_hierarchy-Keeps W now e.scope) refl in
      elim (Result-cases (encoded json e)) [
        | inr (x, f) ↦ absurd (cc (ap (λ p. p.0) (rw f at h)))
        | inl (row, f) ↦
            let (hs, sc, co) = encoded_columns json e row f in
            let written =
              subst (λ z. z)
                (sym (
                  ap (λ z. W z row.scope row.content) hs
                  ∙ ap (λ z. W e.content_hash z row.content) sc
                  ∙ ap (λ z. W e.content_hash e.scope z) co))
                w in
            let (g, (r, m, i, j, k)) = upsert-Grows W e a row d db' written (rw f at h) in
            (after-Grows ensured g, (r, m, i ∙ hs, j ∙ sc, k ∙ co))
      ]
