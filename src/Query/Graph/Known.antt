-- ===== src/Query/Graph/Known.antt =====
-- The entries that a search of Traverse has reached, with their depths, and how a visit adds one.
use mathlib.Core.Path.{◌≡◌}
use mathlib.Core.List.{Memᴰ}
use mathlib.Core.List.Memᴰ
use known.Prelude.{
  ℕ, suc, ◌≤◌, true, false, refl, sym, subst, ap, ◌∙◌, ◌⊎◌, inl, inr, List, [], ◌∷◌, ◌++◌, arith,
  All, All-append, member, ◌==◌, ==_iff, Bool-cases, ok, err,
}
use known.Prelude.{Error}
use known.Model.Types.{Id128}
use known.Model.Edge.{Edge}
use known.Model.Entry.{Entry}
use known.Query.Types.{QueryResult, Engine, GraphOptions, neighbor, is_excluded_type}
use known.Query.Graph.{Item, Search, found, found_item}
use known.Query.Graph.Visits.{Visit, skipped, absent, fresh, marked, reported}

-- The depths of a queue do not fall.
abbrev pub IsLayered : List Item → Type 0
IsLayered [] = Unit
IsLayered (i ∷ rest) = All (λ (j : Item). i.depth ≤ j.depth) rest × IsLayered rest

IsLayered-concat :
    (q : List Item) (i : Item)
    → IsLayered q
    → All (λ (j : Item). j.depth ≤ i.depth) q
    → IsLayered (q ++ i ∷ [])
IsLayered-concat [] i h k = (tt, tt)
IsLayered-concat (j ∷ q) i h k =
    (All-append _ q (i ∷ []) h.0 (k.0, tt), IsLayered-concat q i h.1 k.1)

pub All-of_mem {ℓ} :
    {A : Type 0} (P : A → Type ℓ) (xs : List A) → ((x : A) → Memᴰ x xs → P x) → All P xs
All-of_mem P [] f = tt
All-of_mem P (x ∷ xs) f = (f x (Memᴰ.head refl), All-of_mem P xs (λ y m. f y (Memᴰ.tail m)))

pub mem-All {ℓ} : {A : Type 0} (P : A → Type ℓ) (xs : List A) (x : A) → Memᴰ x xs → All P xs → P x
mem-All P [] x m h = absurd (Memᴰ.not-nil m)
mem-All P (y ∷ xs) x (Memᴰ.head e) h = subst P (sym e) h.0
mem-All P (y ∷ xs) x (Memᴰ.tail m) h = mem-All P xs x m h.1

module _ {S : Type 0} (engine : Engine S) (db : S)
    (named : (id : Id128) (entry : Entry) → engine.entries.get db id ≡ ok entry → entry.id ≡ id)
    (opts : GraphOptions) where
  -- The start is known at depth 0, a result at its depth.
  pub data Known (s : Search) (id : Id128) (k : ℕ) : Type 0 where
    at_start : id ≡ opts.start_id → k ≡ 0 → Known s id k
    reached : (r : QueryResult) → Memᴰ r s.results → r.entry.id ≡ id → r.depth ≡ k → Known s id k

  abbrev pub Grows : Search → Search → Type 0
  Grows s s' = (id : Id128) (k : ℕ) → Known s id k → Known s' id k

  abbrev pub Waits : Search → Id128 → ℕ → Type 0
  Waits s id k = (i : Item) × Memᴰ i s.queue × (i.entry_id ≡ id) × (i.depth ≡ k)

  -- The other end of a stored edge is known, if it is an entry.
  abbrev pub Covers : Search → Id128 → Edge → Type 0
  Covers s id edge =
      is_excluded_type opts.edge_types edge.type ≡ false
      → (entry : Entry) → engine.entries.get db (neighbor edge id) ≡ ok entry
      → (j : ℕ) × Known s (neighbor edge id) j

  -- The state while the edges of `current` are scanned.
  pub record Scanning (current : Item) (s : Search) : Type 0 where
    pub near : (id : Id128) (k : ℕ) → Known s id k → k ≤ suc current.depth
    pub layered : IsLayered s.queue
    pub later : All (λ (i : Item). current.depth ≤ i.depth) s.queue
    pub items : (i : Item) → Memᴰ i s.queue → Known s i.entry_id i.depth
    pub seen :
        (id : Id128) (entry : Entry)
        → member id s.visited ≡ true
        → engine.entries.get db id ≡ ok entry
        → (k : ℕ) × Known s id k

  Known-reported :
      (current : Item) (edge : Edge) (n : Id128) (entry : Entry) (s : Search)
      → Grows s (reported engine db opts current edge n entry s)
  Known-reported current edge n entry s id k (at_start e z) = at_start e z
  Known-reported current edge n entry s id k (reached r m e d) =
      reached r (Memᴰ.append_left (found current edge entry ∷ []) m) e d

  -- What is known after a report was known before, or is the entry reported.
  pub reported-Known :
      (current : Item) (edge : Edge) (n : Id128) (entry : Entry) (s : Search)
      → entry.id ≡ n
      → (id : Id128) (k : ℕ) → Known (reported engine db opts current edge n entry s) id k
      → Known s id k ⊎ ((id ≡ n) × (k ≡ suc current.depth))
  unfolding found
  reported-Known current edge n entry s same id k (at_start e z) = inl (at_start e z)
  reported-Known current edge n entry s same id k (reached r m e d) =
      elim (Memᴰ.append_cases s.results m) [
        | inl old ↦ inl (reached r old e d)
        | inr last ↦
            let is = Memᴰ.eq_of_singleton last in
            inr (
              sym e ∙ ap (λ (x : QueryResult). x.entry.id) is ∙ same,
              sym d ∙ ap (λ (x : QueryResult). x.depth) is,
            )
      ]

  found-Known :
      (current : Item) (edge : Edge) (n : Id128) (entry : Entry) (s : Search)
      → entry.id ≡ n
      → Known (reported engine db opts current edge n entry s) n (suc current.depth)
  unfolding found
  found-Known current edge n entry s same =
      reached (found current edge entry) (Memᴰ.append_right s.results (Memᴰ.head refl)) same refl

  fresh-Scanning :
      (current : Item) (edge : Edge) (n : Id128) (entry : Entry) (s : Search)
      → entry.id ≡ n
      → Scanning current s
      → Scanning current (reported engine db opts current edge n entry s)
  unfolding found_item member
  fresh-Scanning current edge n entry s same h =
      let item = found_item current edge n in
      record {
        near = λ id k known. elim (reported-Known current edge n entry s same id k known) [
          | inl old ↦ h.near id k old
          | inr (_, d) ↦ omega arith
        ];
        layered =
            IsLayered-concat s.queue item h.layered
              (All-of_mem _ s.queue (λ j m. h.near j.entry_id j.depth (h.items j m)));
        later = All-append _ s.queue (item ∷ []) h.later (omega arith, tt);
        items = λ i m. elim (Memᴰ.append_cases s.queue m) [
          | inl old ↦ Known-reported current edge n entry s i.entry_id i.depth (h.items i old)
          | inr last ↦ rw (Memᴰ.eq_of_singleton last) (found-Known current edge n entry s same)
        ];
        seen = λ id e m g. elim (Bool-cases (n == id)) [
          | inl eq ↦ (
            suc current.depth,
            rw (← (==_iff n id).0 eq) (found-Known current edge n entry s same),
          )
          | inr ne ↦
              let (k, known) = h.seen id e (rw ne at m) g in
              (k, Known-reported current edge n entry s id k known)
        ];
      }

  -- Marking an id as visited changes nothing that is known.
  marked-Known :
      (s : Search) {n : Id128} (id : Id128) (k : ℕ)
      → Known s id k
      → Known (marked engine db opts n s) id k
  marked-Known s id k (at_start e z) = at_start e z
  marked-Known s id k (reached r m e d) = reached r m e d

  Known-marked :
      (s : Search) {n : Id128} (id : Id128) (k : ℕ)
      → Known (marked engine db opts n s) id k
      → Known s id k
  Known-marked s id k (at_start e z) = at_start e z
  Known-marked s id k (reached r m e d) = reached r m e d

  -- From one state of the scan to a later one: what is known and waits stays so, and what is newly
  -- known waits.
  pub record Extends (s s' : Search) : Type 0 where
    pub grows : Grows s s'
    pub waiting : (id : Id128) (k : ℕ) → Waits s id k → Waits s' id k
    pub news : (id : Id128) (k : ℕ) → Known s' id k → Known s id k ⊎ Waits s' id k

  pub Extends-refl : (s : Search) → Extends s s
  Extends-refl s = record { grows = λ id k h. h; waiting = λ id k h. h; news = λ id k h. inl h }

  pub Extends-trans : (s t u : Search) → Extends s t → Extends t u → Extends s u
  Extends-trans s t u a b = record {
    grows = λ id k h. b.grows id k (a.grows id k h);
    waiting = λ id k h. b.waiting id k (a.waiting id k h);
    news = λ id k h. elim (b.news id k h) [
      | inl mid ↦ elim (a.news id k mid) [ inl old ↦ inl old | inr w ↦ inr (b.waiting id k w) ]
      | inr w ↦ inr w
    ];
  }

  absent-Scanning :
      (current : Item) (n : Id128) (e : Error) (s : Search)
      → engine.entries.get db n ≡ err e
      → Scanning current s
      → Scanning current (marked engine db opts n s)
  unfolding member
  absent-Scanning current n e s g h = record {
    near = λ id k known. h.near id k (Known-marked s id k known);
    layered = h.layered;
    later = h.later;
    items = λ i m. marked-Known s i.entry_id i.depth (h.items i m);
    seen = λ id entry m k. elim (Bool-cases (n == id)) [
      | inl eq ↦ cc (g, k, (==_iff n id).0 eq)
      | inr ne ↦ let (j, known) = h.seen id entry (rw ne at m) k in (j, marked-Known s id j known)
    ];
  }

  fresh-Extends :
      (current : Item) (edge : Edge) (n : Id128) (entry : Entry) (s : Search)
      → entry.id ≡ n
      → Extends s (reported engine db opts current edge n entry s)
  unfolding found_item
  fresh-Extends current edge n entry s same =
      let item = found_item current edge n in
      record {
        grows = Known-reported current edge n entry s;
        waiting = λ id k (i, m, e, d). (i, Memᴰ.append_left (item ∷ []) m, e, d);
        news = λ id k known. elim (reported-Known current edge n entry s same id k known) [
          | inl old ↦ inl old
          | inr (e, d) ↦ inr (item, Memᴰ.append_right s.queue (Memᴰ.head refl), sym e, sym d)
        ];
      }

  -- One visit keeps the state, forgets nothing, and covers its edge.
  pub Visit-Scanning :
      (current : Item) (s : Search) (edge : Edge) (s' : Search)
      → Scanning current s
      → Visit engine db opts current s edge s'
      → Scanning current s' × Extends s s' × Covers s' current.entry_id edge
  Visit-Scanning current s edge s' h (skipped why e) = rw e (
    h,
    Extends-refl s,
    λ allowed entry g. elim why [
      | inl x ↦ cc (allowed, x)
      | inr m ↦ h.seen (neighbor edge current.entry_id) entry m g
    ],
  )
  Visit-Scanning current s edge s' h (absent x _ _ g e) = rw e (
    absent-Scanning current (neighbor edge current.entry_id) x s g h,
    record {
      grows = λ id k known. marked-Known s id k known;
      waiting = λ id k w. w;
      news = λ id k known. inl (Known-marked s id k known);
    },
    λ allowed entry k. cc (g, k),
  )
  Visit-Scanning current s edge s' h (fresh entry x v g e) =
      let n = neighbor edge current.entry_id in
      let same = named n entry g in
      rw e (
        fresh-Scanning current edge n entry s same h,
        fresh-Extends current edge n entry s same,
        λ allowed entry' k. (suc current.depth, found-Known current edge n entry s same),
      )
