-- ===== src/Sqlite/Search/Nearest.antt =====
-- SearchSimilar of storage/sqlite/entry.go: the candidates of the first pass, and their rows.
use mathlib.Core.Path.{◌≡◌}
use mathlib.Core.List.{Memᴰ}
use mathlib.Core.List.Memᴰ
use known.Prelude.{
  ℕ, ◌≤◌, Bool, true, false, ◌&&◌, refl, sym, ap, ◌∙◌, ◌⊎◌, inl, inr, List, [], ◌∷◌, map, All,
  All-take, All-mono, arith, ◌==◌, ==_iff, Bool-cases, Result-cases, length, length-take, keep,
  member, ok, ok-injective, subst,
}
use known.Prelude.Float.{Float32, Float64}
use known.Prelude.Order.{order_by, All-order_by, take-IsOrdered, mem-order_by, order_by-IsOrdered}
use known.Prelude.Perms.{mem-All, All-of_mem}
use known.Prelude.Rows.{mem-keep, keep-mem, row-of_id, mem-of_member}
use known.Prelude.Sets.{IsDistinct}
use known.Prelude.Text.{Text}
use known.Model.Types.{Id128, Time}
use known.Model.Entry.{Entry}
use known.Storage.{SimilarityResult, SimilarityMetric}
use known.Sqlite.Tables.{EntryRow, Db, Json}
use known.Sqlite.Vec.{VectorOps}
use known.Sqlite.Entry.{populate_entry}
use known.Sqlite.Entry.Reads.{populate_entry-id}
use known.Sqlite.Labels.Same.{bare_entry}
use known.Sqlite.Search.{
  Candidate, candidate_ids, scan_entries, distance_of, fetched, is_candidate, dist_fn, has_dim,
  embedding_of, rank_rows, nearer, candidates,
}

module _ (json : Json) (now : Time) (v : VectorOps) (metric : SimilarityMetric)
    (query : List Float32) (scope : Text) (db : Db) where
  -- The distance of a row, and whether the search considers it.
  abbrev pub dist : EntryRow → Float64
  dist row = dist_fn json now v metric query (embedding_of json now v row)

  abbrev pub selected : EntryRow → Bool
  selected row = has_dim json now v (length query) row && is_candidate json now scope row

  abbrev pub has_length : EntryRow → Bool
  has_length row = length (embedding_of json now v row) == length query

  abbrev pub IsConsidered : EntryRow → Type 0
  IsConsidered row = Memᴰ row db.entries × (selected row ≡ true) × (has_length row ≡ true)

  abbrev pub IsRanked : Candidate → Type 0
  IsRanked c = (row : EntryRow) × IsConsidered row × (c ≡ (row.id, dist row))

  rank_rows-IsRanked :
      (rows : List EntryRow)
      → All (λ row. Memᴰ row db.entries × (selected row ≡ true)) rows
      → All IsRanked (rank_rows json now v metric query rows)
  unfolding rank_rows
  rank_rows-IsRanked [] h = tt
  rank_rows-IsRanked (row ∷ rows) h = elim (Bool-cases (has_length row)) [
    | inl e ↦ rw e ((row, (h.0.0, h.0.1, e), refl), rank_rows-IsRanked rows h.1)
    | inr e ↦ rw e (rank_rows-IsRanked rows h.1)
  ]

  mem-rank_rows :
      (rows : List EntryRow) (row : EntryRow)
      → Memᴰ row rows
      → has_length row ≡ true
      → Memᴰ (row.id, dist row) (rank_rows json now v metric query rows)
  unfolding rank_rows
  mem-rank_rows [] row m h = absurd (Memᴰ.not-nil m)
  mem-rank_rows (r ∷ rows) row m h = elim (Memᴰ.cases_cons m) [
    | inl e ↦ rw (← e, h) (Memᴰ.head refl)
    | inr k ↦ elim (Bool-cases (has_length r)) [
      | inl f ↦ rw f (Memᴰ.tail (mem-rank_rows rows row k h))
      | inr f ↦ rw f (mem-rank_rows rows row k h)
    ]
  ]

  abbrev all_ranked : List Candidate
  all_ranked = rank_rows json now v metric query (keep selected db.entries)

  all_ranked-IsRanked : All IsRanked all_ranked
  all_ranked-IsRanked =
      rank_rows-IsRanked (keep selected db.entries)
        (All-of_mem _ (keep selected db.entries) (λ row m. mem-keep selected db.entries row m))

  pub candidates-IsRanked : (n : ℕ) → All IsRanked (candidates json now v db query scope metric n)
  unfolding candidates
  candidates-IsRanked n =
      All-take IsRanked n _
        (All-order_by (nearer json now v) IsRanked all_ranked all_ranked-IsRanked)

  all_ranked-numbers :
      ((row : EntryRow) → Memᴰ row db.entries → v.ops.is_nan (dist row) ≡ false)
      → All (λ (c : Candidate). v.ops.is_nan c.1 ≡ false) all_ranked
  all_ranked-numbers numbers =
      All-mono all_ranked (λ c (row, w, e). rw e (numbers row w.0)) all_ranked-IsRanked

  mem-sorted :
      (row : EntryRow)
      → IsConsidered row
      → Memᴰ (row.id, dist row) (order_by (nearer json now v) all_ranked)
  mem-sorted row (m, s, l) =
      mem-order_by (nearer json now v) all_ranked (row.id, dist row)
        (mem-rank_rows (keep selected db.entries) row (keep-mem selected db.entries row m s) l)

  -- A row that is considered is a candidate, or no candidate is farther.
  pub candidates-nearest :
      ((row : EntryRow) → Memᴰ row db.entries → v.ops.is_nan (dist row) ≡ false)
      → (n : ℕ) (row : EntryRow) → IsConsidered row
      → Memᴰ (row.id, dist row) (candidates json now v db query scope metric n)
        ⊎ All
            (λ (c : Candidate). v.ops.lt (dist row) c.1 ≡ false)
            (candidates json now v db query scope metric n)
  unfolding candidates
  candidates-nearest numbers n row w =
      take-IsOrdered (nearer json now v) n (order_by (nearer json now v) all_ranked)
        (row.id, dist row)
        (order_by-IsOrdered (nearer json now v) (λ c. v.ops.is_nan c.1 ≡ false)
          (λ a. v.ops.lt_irrefl a.1) (λ a b c. v.ops.lt_trans a.1 b.1 c.1)
          (λ a b c p. v.ops.lt_split a.1 b.1 c.1 p) all_ranked (all_ranked-numbers numbers))
        (mem-sorted row w)

  -- The distance that the second pass looks up.
  distance-of_ranked :
      (cs : List Candidate) (row : EntryRow)
      → IsDistinct (map (λ (r : EntryRow). r.id) db.entries)
      → All IsRanked cs
      → Memᴰ row db.entries
      → member row.id (candidate_ids cs) ≡ true
      → distance_of row.id cs ≡ dist row
  unfolding distance_of member
  distance-of_ranked [] row d h m k = cc k
  distance-of_ranked ((i, x) ∷ cs) row d ((r, w, e), h) m k = elim (Bool-cases (i == row.id)) [
    | inl f ↦
        let same : r ≡ row =
          row-of_id (λ (r : EntryRow). r.id) db.entries r row d w.0 m
            (sym (ap (λ p. p.0) e) ∙ (==_iff i row.id).0 f) in
        rw f (ap (λ p. p.1) e ∙ ap dist same)
    | inr f ↦ rw f (distance-of_ranked cs row d h m (rw f at k))
  ]

  IsConsidered-of_ranked :
      (cs : List Candidate) (row : EntryRow)
      → IsDistinct (map (λ (r : EntryRow). r.id) db.entries)
      → All IsRanked cs
      → Memᴰ row db.entries
      → member row.id (candidate_ids cs) ≡ true
      → IsConsidered row
  IsConsidered-of_ranked cs row d h m k =
      let (c, mc, same) = mem-of_member (λ (c : Candidate). c.0) row.id cs k in
      let (r, w, e) = mem-All IsRanked cs c h mc in
      subst IsConsidered
        (row-of_id (λ (r : EntryRow). r.id) db.entries r row d w.0 m (sym (ap (λ p. p.0) e) ∙ same))
        w

  -- A result of the second pass: a considered row with its distance, up to the labels.
  abbrev pub IsNear : SimilarityResult → Type 0
  IsNear r =
      (row : EntryRow) × (e : Entry) × IsConsidered row
      × (populate_entry json row ≡ ok e)
      × (bare_entry r.entry ≡ bare_entry e)
      × (r.distance ≡ dist row)

  pub fetched-IsNear :
      (cs : List Candidate) (rows : List EntryRow) (es : List Entry)
      → IsDistinct (map (λ (r : EntryRow). r.id) db.entries)
      → All IsRanked cs
      → All (λ row. Memᴰ row db.entries × (member row.id (candidate_ids cs) ≡ true)) rows
      → scan_entries json rows ≡ ok es
      → All IsNear (fetched cs es)
        × (map (λ (r : SimilarityResult). r.entry.id) (fetched cs es)
            ≡ map (λ (r : EntryRow). r.id) rows)
  unfolding scan_entries fetched
  fetched-IsNear cs [] es d h k e = rw (← ok-injective e) (tt, refl)
  fetched-IsNear cs (row ∷ rows) es d h k e = elim (Result-cases (populate_entry json row)) [
    | inr (x, f) ↦ absurd (cc (rw f at e))
    | inl (entry, f) ↦ elim (Result-cases (scan_entries json rows)) [
      | inr (x, g) ↦ absurd (cc (rw (f, g) at e))
      | inl (more, g) ↦
          let (near, ids) = fetched-IsNear cs rows more d h k.1 g in
          let id = populate_entry-id json row entry f in
          let w = IsConsidered-of_ranked cs row d h k.0.0 k.0.1 in
          rw (← ok-injective (rw (f, g) at e)) (
            ((row, entry, w, f, refl, rw id (distance-of_ranked cs row d h k.0.0 k.0.1)), near),
            rw (id, ids) refl,
          )
    ]
  ]

  distance_of-All :
      (Q : Float64 → Type 0) (cs : List Candidate) (id : Id128)
      → All (λ (c : Candidate). Q c.1) cs
      → member id (candidate_ids cs) ≡ true
      → Q (distance_of id cs)
  unfolding distance_of member
  distance_of-All Q [] id h k = cc k
  distance_of-All Q ((i, x) ∷ cs) id h k = elim (Bool-cases (i == id)) [
    | inl f ↦ rw f h.0
    | inr f ↦ rw f (distance_of-All Q cs id h.1 (rw f at k))
  ]

  pub fetched-All :
      (Q : Float64 → Type 0) (cs : List Candidate) (rows : List EntryRow) (es : List Entry)
      → All (λ (c : Candidate). Q c.1) cs
      → All (λ row. Memᴰ row db.entries × (member row.id (candidate_ids cs) ≡ true)) rows
      → scan_entries json rows ≡ ok es
      → All (λ (r : SimilarityResult). Q r.distance) (fetched cs es)
  unfolding scan_entries fetched
  fetched-All Q cs [] es h k e = rw (← ok-injective e) tt
  fetched-All Q cs (row ∷ rows) es h k e = elim (Result-cases (populate_entry json row)) [
    | inr (x, f) ↦ absurd (cc (rw f at e))
    | inl (entry, f) ↦ elim (Result-cases (scan_entries json rows)) [
      | inr (x, g) ↦ absurd (cc (rw (f, g) at e))
      | inl (more, g) ↦ rw (← ok-injective (rw (f, g) at e)) (
        rw (populate_entry-id json row entry f) (distance_of-All Q cs row.id h k.0.1),
        fetched-All Q cs rows more h k.1 g,
      )
    ]
  ]

  pub length-candidates : (n : ℕ) → length (candidates json now v db query scope metric n) ≤ n
  unfolding candidates
  length-candidates n = omega (arith, length-take {0} n (order_by (nearer json now v) all_ranked))
