-- ===== src/Query/Conflict/Pairs.antt =====
-- DetectAllConflicts of query/conflict.go: the pairs, and the ids of their edges.
use mathlib.Core.Path.{◌≡◌}
use mathlib.Core.List.{Memᴰ, map-append}
use known.Prelude.{
  true, false, refl, subst, inl, inr, List, [], ◌∷◌, ◌++◌, map, arith, All, All-append, member,
  Bool-cases, is_not_found, ok, ok-injective, Result-cases,
}
use known.Prelude.Perms.{mem-All}
use known.Prelude.Sets.{IsDistinct, IsDistinct-concat, member-append}
use known.Prelude.Text.{Text, is_empty}
use known.Model.Types.{Id128}
use known.Model.Edge.{Edge, edge_contradicts}
use known.Model.Entry.{Entry}
use known.Query.Types.{ConflictPair, Engine}
use known.Query.Conflict.{
  Scan, contradicts_filter, scope_filter, add_pair, scan_edge, scan_edges, scan_entries,
  detect_all_conflicts,
}

abbrev pub edge_ids : List ConflictPair → List Id128
edge_ids = map (λ (p : ConflictPair). p.edge.id)

module _ {S : Type 0} (engine : Engine S) (db : S) where
  -- An entry of the scope, an edge that the repository answers with for it, and the entry at the other
  -- end.
  record IsPair (all : List Entry) (p : ConflictPair) : Type 0 where
    listed : Memᴰ p.entry_a all
    stored :
        (es : List Edge) × (engine.edges.edges_from db p.entry_a.id contradicts_filter ≡ ok es)
        × Memᴰ p.edge es
    other : engine.entries.get db p.edge.to_id ≡ ok p.entry_b

  record IsScanned (all : List Entry) (s : Scan) : Type 0 where
    conflicts : All (IsPair all) s.pairs
    distinct : IsDistinct (edge_ids s.pairs)
    seen : (a : Id128) → member a (edge_ids s.pairs) ≡ true → member a s.seen_edges ≡ true

  marked-IsScanned :
      (all : List Entry) (s : Scan) (id : Id128)
      → IsScanned all s
      → IsScanned all (record s { seen_edges = id ∷ s.seen_edges })
  unfolding member
  marked-IsScanned all s id h = record {
    conflicts = h.conflicts;
    distinct = h.distinct;
    seen = λ a k. ground (arith, h.seen a k);
  }

  added-IsScanned :
      (all : List Entry) (s : Scan) (p : ConflictPair)
      → IsScanned all s
      → IsPair all p
      → member p.edge.id s.seen_edges ≡ false
      → IsScanned all (record { seen_edges = p.edge.id ∷ s.seen_edges; pairs = s.pairs ++ p ∷ [] })
  unfolding member
  added-IsScanned all s p h c new =
      let ids : edge_ids (s.pairs ++ p ∷ []) ≡ edge_ids s.pairs ++ p.edge.id ∷ [] =
        map-append _ s.pairs (p ∷ []) in
      let fresh : member p.edge.id (edge_ids s.pairs) ≡ false =
        elim (Bool-cases (member p.edge.id (edge_ids s.pairs))) [
          | inl old ↦ cc (new, h.seen p.edge.id old)
          | inr k ↦ k
        ] in
      record {
        conflicts = All-append (IsPair all) s.pairs (p ∷ []) h.conflicts (c, tt);
        distinct = rw ids (IsDistinct-concat (edge_ids s.pairs) p.edge.id h.distinct fresh);
        seen = λ a k.
            ground (arith, h.seen a, member-append a (edge_ids s.pairs) (p.edge.id ∷ []), ids, k);
      }

  scan_edge-IsScanned :
      (all : List Entry) (entry : Entry) (es : List Edge) (s : Scan) (edge : Edge) (s' : Scan)
      → Memᴰ entry all
      → engine.edges.edges_from db entry.id contradicts_filter ≡ ok es
      → Memᴰ edge es
      → IsScanned all s
      → scan_edge engine db entry s edge ≡ ok s'
      → IsScanned all s'
  unfolding scan_edge add_pair
  scan_edge-IsScanned all entry es s edge s' m st k h e =
      elim (Bool-cases (member edge.id s.seen_edges)) [
        | inl old ↦ subst (IsScanned all) (ok-injective (rw old at e)) h
        | inr new ↦ elim (Result-cases (engine.entries.get db edge.to_id)) [
          | inl (other, g) ↦ subst (IsScanned all) (ok-injective (rw (new, g) at e)) (
              added-IsScanned all s (record { entry_a = entry; entry_b = other; edge = edge }) h
                (record { listed = m; stored = (es, st, k); other = g }) new)
          | inr (x, g) ↦ elim (Bool-cases (is_not_found x)) [
            | inl gone ↦
                subst (IsScanned all) (ok-injective (rw (new, g, gone) at e))
                  (marked-IsScanned all s edge.id h)
            | inr bad ↦ cc (rw (new, g, bad) at e)
          ]
        ]
      ]

  scan_edges-IsScanned :
      (all : List Entry) (entry : Entry) (es rest : List Edge) (s s' : Scan)
      → Memᴰ entry all
      → engine.edges.edges_from db entry.id contradicts_filter ≡ ok es
      → ((edge : Edge) → Memᴰ edge rest → Memᴰ edge es)
      → IsScanned all s
      → scan_edges engine db entry s rest ≡ ok s'
      → IsScanned all s'
  unfolding scan_edges
  scan_edges-IsScanned all entry es [] s s' m st k h e = subst (IsScanned all) (ok-injective e) h
  scan_edges-IsScanned all entry es (edge ∷ rest) s s' m st k h e =
      elim (Result-cases (scan_edge engine db entry s edge)) [
        | inl (t, f) ↦
            scan_edges-IsScanned all entry es rest t s' m st (λ x y. k x (Memᴰ.tail y))
              (scan_edge-IsScanned all entry es s edge t m st (k edge (Memᴰ.head refl)) h f)
              (rw (f, scan_edges) at e)
        | inr (x, f) ↦ cc (rw (f, scan_edges) at e)
      ]

  scan_entries-IsScanned :
      (all rest : List Entry) (s s' : Scan)
      → ((entry : Entry) → Memᴰ entry rest → Memᴰ entry all)
      → IsScanned all s
      → scan_entries engine db s rest ≡ ok s'
      → IsScanned all s'
  unfolding scan_entries
  scan_entries-IsScanned all [] s s' k h e = subst (IsScanned all) (ok-injective e) h
  scan_entries-IsScanned all (entry ∷ rest) s s' k h e =
      elim (Result-cases (engine.edges.edges_from db entry.id contradicts_filter)) [
        | inr (x, f) ↦ cc (rw (f, scan_entries) at e)
        | inl (es, f) ↦ elim (Result-cases (scan_edges engine db entry s es)) [
          | inr (x, g) ↦ cc (rw (f, g, scan_entries) at e)
          | inl (t, g) ↦
              scan_entries-IsScanned all rest t s' (λ x y. k x (Memᴰ.tail y))
                (scan_edges-IsScanned all entry es es s t (k entry (Memᴰ.head refl)) f (λ x y. y) h
                  g)
                (rw (f, g, scan_entries) at e)
        ]
      ]

  detect_all_conflicts-IsPair :
      (scope : Text) (pairs : List ConflictPair)
      → detect_all_conflicts engine db scope ≡ ok pairs
      → (all : List Entry) × (engine.entries.list db (scope_filter scope) ≡ ok all)
        × All (IsPair all) pairs
        × IsDistinct (edge_ids pairs)
  unfolding detect_all_conflicts member
  detect_all_conflicts-IsPair scope pairs h = elim (Bool-cases (is_empty scope)) [
    | inl x ↦ cc (rw x at h)
    | inr x ↦ elim (Result-cases (engine.entries.list db (scope_filter scope))) [
      | inr (e, l) ↦ cc (rw (x, l) at h)
      | inl (all, l) ↦
          elim (Result-cases
            (scan_entries engine db (record { seen_edges = []; pairs = [] }) all)) [
              | inr (e, f) ↦ cc (rw (x, l, f) at h)
              | inl (s, f) ↦
                  let scanned =
                    scan_entries-IsScanned all all (record { seen_edges = []; pairs = [] }) s
                      (λ a m. m) empty f in
                  let same : s.pairs ≡ pairs = ok-injective (rw (x, l, f) at h) in
                  (
                    all,
                    l,
                    subst (All (IsPair all)) same scanned.conflicts,
                    subst (λ (ps : List ConflictPair). IsDistinct (edge_ids ps)) same
                        scanned.distinct,
                  )
            ]
    ]
  ]
    where
      empty : {all : List Entry} → IsScanned all (record { seen_edges = []; pairs = [] })
      empty = record { conflicts = tt; distinct = tt; seen = λ a k. cc k }

module _ {S : Type 0} (engine : Engine S) (db : S)
    -- The contract of EdgesFrom with a filter: edges from the entry, of the type asked for.
    (filters : (id : Id128) (es : List Edge)
      → engine.edges.edges_from db id contradicts_filter ≡ ok es
      → All (λ e. (e.from_id ≡ id) × (e.type ≡ edge_contradicts)) es) where
  -- An entry of the scope, a contradicts edge from it that is stored, and the entry that it leads to.
  pub record IsConflict (all : List Entry) (p : ConflictPair) : Type 0 where
    pub listed : Memᴰ p.entry_a all
    pub from : p.edge.from_id ≡ p.entry_a.id
    pub type : p.edge.type ≡ edge_contradicts
    pub stored :
        (es : List Edge) × (engine.edges.edges_from db p.entry_a.id contradicts_filter ≡ ok es)
        × Memᴰ p.edge es
    pub other : engine.entries.get db p.edge.to_id ≡ ok p.entry_b

  IsPair-IsConflict :
      (all : List Entry) (ps : List ConflictPair)
      → All (IsPair engine db all) ps
      → All (IsConflict all) ps
  IsPair-IsConflict all [] h = tt
  IsPair-IsConflict all (p ∷ ps) (c, h) =
      let (es, answer, m) = c.stored in
      let (from, type) =
        mem-All (λ (e : Edge). (e.from_id ≡ p.entry_a.id) × (e.type ≡ edge_contradicts)) es p.edge
          (filters p.entry_a.id es answer) m in
      (
        record { listed = c.listed; from = from; type = type; stored = c.stored; other = c.other },
        IsPair-IsConflict all ps h,
      )

  -- If EdgesFrom with a filter by type answers with edges from the entry and of the type: where the
  -- scan of a scope for conflicts succeeds, every pair is an entry listed for the scope, a contradicts
  -- edge stored from it, and the entry that the edge leads to, and no edge gives two pairs.
  pub detect_all_conflicts-IsConflict :
      (scope : Text) (pairs : List ConflictPair)
      → detect_all_conflicts engine db scope ≡ ok pairs
      → (all : List Entry) × (engine.entries.list db (scope_filter scope) ≡ ok all)
        × All (IsConflict all) pairs
        × IsDistinct (edge_ids pairs)
  detect_all_conflicts-IsConflict scope pairs h =
      let (all, l, ps, d) = detect_all_conflicts-IsPair engine db scope pairs h in
      (all, l, IsPair-IsConflict all pairs ps, d)
