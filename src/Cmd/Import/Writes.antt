-- ===== src/Cmd/Import/Writes.antt =====
-- What an import has written.
use mathlib.Core.Path.{◌≡◌}
use mathlib.Core.List.{Memᴰ}
use known.Prelude.{
  ℕ, suc, ◌+◌, Bool, true, false, refl, sym, ap, ◌∙◌, subst, inl, inr, ◌⊎◌, List, [], ◌∷◌, map, All,
  arith, length, Option, none, some, Bool-cases, Error, wrap, Result, ok, err, if◌then◌else◌,
  ok-injective, Result-cases, ◌==◌,
}
use known.Prelude.Float.{FloatOps}
use known.Prelude.Text.{Text}
use known.Model.Types.{Time}
use known.Model.Entry.{Entry, with_embedding}
use known.Sqlite.Tables.{EntryRow, Db, Json, ◌>>=◌, in_context}
use known.Sqlite.Entry.{with_defaults, create_or_update_inner}
use known.Sqlite.Tx.{Driver, create_or_update}
use known.Sqlite.Tx.Atomic.{with_tx-IsAtomic}
use known.Embed.Cache.{Embedder, Vector}
use known.Cmd.ReEmbed.{ExportEntry, embedded, re_embed}
use known.Cmd.Import.{import_edges, import_entries, run_import}
use known.Cmd.Import.Grows.{Written, HasRow, Grows, refl-Grows, trans-Grows, after-Grows}
use known.Cmd.Import.Edges.{import_edges-Creates}
use known.Cmd.Import.Entries.{create_or_update_inner-Grows}

module _ (fl : FloatOps) (json : Json) (hash : Text → Text) (driver : Driver) (now : Time) where
  -- A content that an entry of the file has, under its hash and scope.
  abbrev pub IsSource : List ExportEntry → Written
  IsSource exports h s c =
      (y : ExportEntry) × Memᴰ y exports
      × ((with_defaults hash y.entry).content_hash ≡ h)
      × (y.entry.scope ≡ s)
      × (y.entry.content ≡ c)

  abbrev Holds : Written → ExportEntry → Type 0
  Holds W x = W (with_defaults hash x.entry).content_hash x.entry.scope x.entry.content

  -- An entry is stored under the hash and scope of an exported one, with a content written for them.
  abbrev pub HasContent : Written → Db → ExportEntry → Type 0
  HasContent W db x =
      (r : EntryRow) × Memᴰ r db.entries
      × (r.content_hash ≡ (with_defaults hash x.entry).content_hash)
      × (r.scope ≡ x.entry.scope)
      × W r.content_hash r.scope r.content

  HasRow-HasContent :
      (W : Written) (n : ℕ) (x : ExportEntry) (db db' : Db)
      → Holds W x
      → HasRow (with_defaults hash x.entry).content_hash x.entry.scope x.entry.content db
      → Grows W n db db'
      → HasContent W db' x
  HasRow-HasContent W n x db db' w (r, m, i, j, k) g =
      let (t, l, (p, q, o, kept)) = g.rows r m in
      let old : W r.content_hash r.scope r.content =
        subst (λ z. z)
          (sym (
            ap (λ z. W z r.scope r.content) i
            ∙ ap (λ z. W (with_defaults hash x.entry).content_hash z r.content) j
            ∙ ap (λ z. W (with_defaults hash x.entry).content_hash x.entry.scope z) k))
          w in
      (
        t,
        l,
        q ∙ i,
        o ∙ j,
        elim kept [
          | inl same ↦ subst (λ (z : EntryRow). W z.content_hash z.scope z.content) (sym same) old
          | inr v ↦
              subst (λ z. W z t.scope t.content) (sym q)
                (subst (λ z. W r.content_hash z t.content) (sym o) v)
        ],
      )

  -- What entries written one after the other leave, and the numbers that are reported.
  abbrev pub IsWritten : Written → List ExportEntry → ℕ × ℕ → ℕ × ℕ → Db → Db → Type 0
  IsWritten W xs (i, k) (n, m) db db' =
      (n ≡ i + length xs) × ((j : ℕ) × (m ≡ k + j) × Grows W j db db' × All (HasContent W db') xs)

  import_entry-IsWritten :
      (W : Written) (x : ExportEntry) (xs : List ExportEntry) (i k : ℕ) (ends : ℕ × ℕ) (db db' : Db)
      (r : Result Entry × Db)
      → create_or_update_inner json hash now x.entry db ≡ r
      → Holds W x
      → (in_context "import entry" (λ _. r) >>= λ e.
            import_edges fl json hash driver now x.edges k >>= λ c.
            import_entries fl json hash driver now true xs (suc i) c)
          db
        ≡ (ok ends, db')
      → ((c : ℕ) (d : Db)
          → import_entries fl json hash driver now true xs (suc i) c d ≡ (ok ends, db')
          → IsWritten W xs (suc i, c) ends d db')
      → IsWritten W (x ∷ xs) (i, k) ends db db'
  import_entry-IsWritten W x xs i k (n, m) db db' (err e, d) s w h next =
      absurd (cc (ap (λ p. p.0) h))
  import_entry-IsWritten W x xs i k (n, m) db db' (ok a, d) s w h next =
      let (g, row) = create_or_update_inner-Grows json hash now W x.entry db d a w s in
      let (l, d', e, p) = import_edges-Creates W fl json hash driver now x.edges k d in
      let (u, (j, v, q, all)) = next (k + l) d' (rw e at h) in
      (
        omega (arith, u),
        (
          l + j,
          omega (arith, v),
          trans-Grows (after-Grows g p) q,
          (HasRow-HasContent W (l + j) x d db' w row (trans-Grows p q), all),
        ),
      )

  import_entries-IsWritten :
      (W : Written) (xs : List ExportEntry) (i k : ℕ) (ends : ℕ × ℕ) (db db' : Db)
      → All (Holds W) xs
      → import_entries fl json hash driver now true xs i k db ≡ (ok ends, db')
      → IsWritten W xs (i, k) ends db db'
  unfolding import_entries create_or_update
  import_entries-IsWritten W [] i k (n, m) db db' hold h =
      let same = ok-injective (ap (λ p. p.0) h) in
      (
        omega (arith, ap (λ p. p.0) same),
        (
          0,
          omega (arith, ap (λ p. p.1) same),
          subst (Grows W 0 db) (ap (λ p. p.1) h) refl-Grows,
          tt,
        ),
      )
  import_entries-IsWritten W (x ∷ xs) i k ends db db' (w, hold) h =
      import_entry-IsWritten W x xs i k ends db db'
        (create_or_update_inner json hash now x.entry db) refl w h
        (λ c d. import_entries-IsWritten W xs (suc i) c ends d db' hold)

  embedded-IsWritten :
      (W : Written) (model : Text) (xs : List ExportEntry) (vs : List Vector) (db : Db)
      → All (HasContent W db) (embedded model xs vs)
      → All (HasContent W db) xs × (length (embedded model xs vs) ≡ length xs)
  unfolding embedded with_embedding with_defaults
  embedded-IsWritten W model [] vs db h = (tt, refl)
  embedded-IsWritten W model (x ∷ xs) [] db h = (h, refl)
  embedded-IsWritten W model (x ∷ xs) (v ∷ vs) db (p, h) =
      let (k, l) = embedded-IsWritten W model xs vs db h in ((p, k), ap suc l)

  -- A new embedding changes no content, hash or scope.
  embedded-Holds :
      (W : Written) (model : Text) (xs : List ExportEntry) (vs : List Vector)
      → All (Holds W) xs
      → All (Holds W) (embedded model xs vs)
  unfolding embedded with_embedding with_defaults
  embedded-Holds W model [] vs h = tt
  embedded-Holds W model (x ∷ xs) [] h = h
  embedded-Holds W model (x ∷ xs) (v ∷ vs) (p, h) = (p, embedded-Holds W model xs vs h)

  sources :
      (exports xs : List ExportEntry)
      → ((y : ExportEntry) → Memᴰ y xs → Memᴰ y exports)
      → All (Holds (IsSource exports)) xs
  sources exports [] f = tt
  sources exports (x ∷ xs) f =
      ((x, f x (Memᴰ.head refl), refl, refl, refl), sources exports xs (λ y m. f y (Memᴰ.tail m)))

  -- The entries written under their new embeddings.
  re_embed-IsWritten :
      (asked : Bool) (embedder : Option Embedder) (exports xs : List ExportEntry)
      → (if asked then re_embed embedder exports else ok exports) ≡ ok xs
      → All (Holds (IsSource exports)) xs
        × ((ends : ℕ × ℕ) (db db' : Db)
            → IsWritten (IsSource exports) xs (0, 0) ends db db'
            → IsWritten (IsSource exports) exports (0, 0) ends db db')
  unfolding re_embed
  re_embed-IsWritten false embedder exports xs h =
      subst
        (λ ys.
          All (Holds (IsSource exports)) ys
          × ((ends : ℕ × ℕ) (db db' : Db)
              → IsWritten (IsSource exports) ys (0, 0) ends db db'
              → IsWritten (IsSource exports) exports (0, 0) ends db db'))
        (ok-injective h) (sources exports exports (λ y m. m), λ ends db db' w. w)
  re_embed-IsWritten true none exports xs h = absurd (cc h)
  re_embed-IsWritten true (some e) exports xs h =
      elim (Result-cases (e.embed_batch (map (λ (x : ExportEntry). x.entry.content) exports))) [
        | inr (x, b) ↦ absurd (cc (rw (b, re_embed) at h))
        | inl (vs, b) ↦ elim (Bool-cases (length vs == length exports)) [
          | inr l ↦ absurd (cc (rw (b, l, re_embed) at h))
          | inl l ↦
              let W = IsSource exports in
              let same : embedded e.model_name exports vs ≡ xs =
                ok-injective (rw (b, l, re_embed) at h) in
              (
                subst (All (Holds W)) same
                    (embedded-Holds W e.model_name exports vs (sources exports exports (λ y m. m))),
                λ ends db db' (n, (j, m, g, all)).
                    let (k, same_length) =
                      embedded-IsWritten W e.model_name exports vs db'
                        (subst (All (HasContent W db')) (sym same) all) in
                    (omega (arith, n, same_length, ap length same), (j, m, g, k)),
              )
        ]
      ]

  -- An import either answers with the number of the entries of the file and the number of edges that
  -- it added, or fails and changes nothing. Where it answers, each entry of the file has one stored
  -- under its hash and scope, whose content is that of an entry of the file with this hash and scope;
  -- every entry that was there stays under its id, hash and scope, as it was or with such a content;
  -- and the edges that were there stay.
  pub run_import_lem :
      (asked : Bool) (embedder : Option Embedder) (exports : List ExportEntry) (db : Db)
      → ((ends : ℕ × ℕ) × (db' : Db) × (run_import fl json hash driver now asked embedder exports db
            ≡ (ok ends, db'))
          × IsWritten (IsSource exports) exports (0, 0) ends db db')
        ⊎ ((e : Error) × (run_import fl json hash driver now asked embedder exports db
              ≡ (err e, db)))
  unfolding run_import
  run_import_lem asked embedder exports db =
      elim (Result-cases (if asked then re_embed embedder exports else ok exports)) [
        | inr (e, p) ↦ inr (e, rw p refl)
        | inl (xs, p) ↦
            let (hold, back) = re_embed-IsWritten asked embedder exports xs p in
            elim (with_tx-IsAtomic driver
              (λ in_tx. import_entries fl json hash driver now in_tx xs 0 0) db).0 [
                | inl (ends, db', run, tx) ↦ inl (
                  ends,
                  db',
                  rw (p, tx) refl,
                  back ends db db'
                      (import_entries-IsWritten (IsSource exports) xs 0 0 ends db db' hold run),
                )
                | inr (e, tx) ↦ inr (wrap "import" e, rw (p, tx) refl)
              ]
      ]
