-- ===== src/Sqlite/Consistent/Entries.antt =====
-- The statements of storage/sqlite/entry.go that insert and update, on consistent tables.
use mathlib.Core.List.{Memᴰ}
use mathlib.Core.List.Memᴰ
use known.Prelude.{
  ◌≡◌, refl, sym, ap, ◌∙◌, subst, true, false, ℕ, ◌==◌, ltb, List, [], ◌∷◌, ◌++◌, map, inl, inr,
  any, keep, length, ok, Bool-cases, ==_iff, arith,
}
use known.Prelude.Rows.{mem-add, any-none, any-append, IsDistinct-add, map-same_ids}
use known.Prelude.Sets.{IsDistinct}
use known.Prelude.Text.{Text, text_eq_iff}
use known.Model.Types.{Id128}
use known.Sqlite.Tables.{ScopeRow, EntryRow, Db}
use known.Sqlite.Scope.{has_scope}
use known.Sqlite.Edge.{has_entry, is_entry}
use known.Sqlite.Entry.{
  same_content, insert_entry, upsert_entry, merge, merged, is_other, revise, update_entry, updated,
  is_version,
}
use known.Sqlite.Consistent.{IsConsistent, HasUniqueContent, HasScopes, HasEnds, HasOwners, written}

-- A change of the entries alone that keeps their ids among the ids.
pub set_entries-IsConsistent :
    (db : Db) (rows : List EntryRow)
    → IsConsistent db
    → IsDistinct (map (λ (r : EntryRow). r.id) rows)
    → HasUniqueContent rows
    → HasScopes db.scopes rows
    → ((id : Id128) → has_entry id db.entries ≡ true → has_entry id rows ≡ true)
    → IsConsistent (record db { entries = rows })
unfolding HasEnds HasOwners
set_entries-IsConsistent db rows c ids contents scopes h = record {
  entry_ids = ids;
  contents = contents;
  scopes = scopes;
  edge_ids = c.edge_ids;
  ends = λ g m. let (a, b, d) = c.ends g m in (h g.from_id a, h g.to_id b, d);
  owners = λ l m. h l.0 (c.owners l m);
  session_ids = c.session_ids;
  events = c.events;
  reinforced = c.reinforced;
}

same_content_iff-lr :
    (hash scope : Text) (r : EntryRow)
    → same_content hash scope r ≡ true
    → (r.content_hash ≡ hash) × (r.scope ≡ scope)
same_content_iff-lr hash scope r h =
    ground (arith, text_eq_iff r.content_hash hash, text_eq_iff r.scope scope)

same_content_sym :
    (x y : EntryRow)
    → same_content x.content_hash x.scope y ≡ true
    → same_content y.content_hash y.scope x ≡ true
same_content_sym x y h = ground (
  arith,
  text_eq_iff y.content_hash x.content_hash,
  text_eq_iff y.scope x.scope,
  text_eq_iff x.content_hash y.content_hash,
  text_eq_iff x.scope y.scope,
)

add-HasUniqueContent :
    (rows : List EntryRow) (r : EntryRow)
    → HasUniqueContent rows
    → any (same_content r.content_hash r.scope) rows ≡ false
    → HasUniqueContent (rows ++ r ∷ [])
unfolding HasUniqueContent
add-HasUniqueContent rows r h k x y mx my e = elim (mem-add rows r x mx) [
  | inl inx ↦ elim (mem-add rows r y my) [
    | inl iny ↦ h x y inx iny e
    | inr b ↦ absurd (
        cc (
          fresh x inx,
          same_content_sym x r (subst (λ z. same_content x.content_hash x.scope z ≡ true) b e),
        ))
  ]
  | inr a ↦ elim (mem-add rows r y my) [
    | inl iny ↦
        absurd (cc (fresh y iny, subst (λ z. same_content z.content_hash z.scope y ≡ true) a e))
    | inr b ↦ ap (λ z. z.id) (a ∙ sym b)
  ]
]
  where
    fresh : (z : EntryRow) → Memᴰ z rows → same_content r.content_hash r.scope z ≡ false
    fresh z m = any-none (same_content r.content_hash r.scope) rows z k m

add-HasScopes :
    (scopes : List ScopeRow) (rows : List EntryRow) (r : EntryRow)
    → HasScopes scopes rows
    → has_scope r.scope scopes ≡ true
    → HasScopes scopes (rows ++ r ∷ [])
unfolding HasScopes
add-HasScopes scopes rows r h k x m = elim (mem-add rows r x m) [
  | inl i ↦ h x i
  | inr same ↦ rw (ap (λ z. z.scope) same) k
]

has_entry-add :
    (id : Id128) (rows : List EntryRow) (r : EntryRow)
    → has_entry id rows ≡ true
    → has_entry id (rows ++ r ∷ []) ≡ true
unfolding has_entry
has_entry-add id rows r h = rw (any-append (is_entry id) rows (r ∷ []), h) refl

pub insert_entry-IsConsistent :
    (r : EntryRow) (db db' : Db)
    → IsConsistent db
    → insert_entry r db ≡ ok (tt, db')
    → IsConsistent db'
unfolding insert_entry has_entry
insert_entry-IsConsistent r db db' c h = elim (Bool-cases (has_entry r.id db.entries)) [
  | inl e ↦ absurd (cc (rw e at h))
  | inr e ↦ elim (Bool-cases (any (same_content r.content_hash r.scope) db.entries)) [
    | inl f ↦ absurd (cc (rw (e, f) at h))
    | inr f ↦ elim (Bool-cases (has_scope r.scope db.scopes)) [
      | inr g ↦ absurd (cc (rw (e, f, g) at h))
      | inl g ↦ written (rw (e, f, g) at h) (
          set_entries-IsConsistent db _ c
            (IsDistinct-add (λ (x : EntryRow). x.id) db.entries r c.entry_ids e)
            (add-HasUniqueContent db.entries r c.contents f)
            (add-HasScopes db.scopes db.entries r c.scopes g)
            (λ id k. has_entry-add id db.entries r k))
    ]
  ]
]

-- A map over the rows that keeps their ids.
has_entry-map :
    (f : EntryRow → EntryRow)
    → ((r : EntryRow) → (f r).id ≡ r.id)
    → (id : Id128) (rows : List EntryRow) → has_entry id (map f rows) ≡ has_entry id rows
unfolding has_entry
has_entry-map f h id [] = refl
has_entry-map f h id (r ∷ rows) = ground (arith, h r, has_entry-map f h id rows)

-- A map over the rows that keeps their ids.
map-IsConsistent :
    (f : EntryRow → EntryRow) (db : Db)
    → IsConsistent db
    → ((r : EntryRow) → (f r).id ≡ r.id)
    → ((r : EntryRow) → Memᴰ r db.entries → has_scope (f r).scope db.scopes ≡ true)
    → ((x y : EntryRow)
        → Memᴰ x db.entries
        → Memᴰ y db.entries
        → same_content (f x).content_hash (f x).scope (f y) ≡ true
        → x.id ≡ y.id)
    → IsConsistent (record db { entries = map f db.entries })
unfolding HasScopes HasUniqueContent
map-IsConsistent f db c ids scopes contents =
    set_entries-IsConsistent db (map f db.entries) c
      (rw (map-same_ids (λ (r : EntryRow). r.id) f db.entries ids) c.entry_ids)
      (λ x y mx my e.
        let (u, i, p) = Memᴰ.of_map f db.entries mx in
        let (v, j, q) = Memᴰ.of_map f db.entries my in
        ap (λ z. z.id) (sym p)
        ∙ ids u
        ∙ contents u v i j (
            subst (λ z. same_content z.content_hash z.scope (f v) ≡ true) (sym p)
              (subst (λ z. same_content x.content_hash x.scope z ≡ true) (sym q) e))
        ∙ sym (ids v)
        ∙ ap (λ z. z.id) q)
      (λ x m.
        let (r, i, e) = Memᴰ.of_map f db.entries m in
        subst (λ z. has_scope z.scope db.scopes ≡ true) e (scopes r i))
      (λ id k. has_entry-map f ids id db.entries ∙ k)

pub merge_same :
    (r old : EntryRow)
    → ((merge r old).id ≡ old.id)
      × ((merge r old).content_hash ≡ old.content_hash)
      × ((merge r old).scope ≡ old.scope)
unfolding merged
merge_same r old = elim (Bool-cases (same_content r.content_hash r.scope old)) [
  | inl e ↦ rw e (refl, refl, refl)
  | inr e ↦ rw e (refl, refl, refl)
]

pub upsert-insert :
    (r : EntryRow) (db : Db)
    → any (same_content r.content_hash r.scope) db.entries ≡ false
    → upsert_entry r db ≡ insert_entry r db
unfolding upsert_entry
upsert-insert r db e = rw e refl

pub upsert_entry-IsConsistent :
    (r : EntryRow) (db db' : Db)
    → IsConsistent db
    → upsert_entry r db ≡ ok (tt, db')
    → IsConsistent db'
unfolding upsert_entry HasUniqueContent HasScopes
upsert_entry-IsConsistent r db db' c h =
    elim (Bool-cases (any (same_content r.content_hash r.scope) db.entries)) [
      | inr e ↦ insert_entry-IsConsistent r db db' c (sym (upsert-insert r db e) ∙ h)
      | inl e ↦ written (rw e at h) (
          map-IsConsistent (merge r) db c (λ x. (merge_same r x).0)
            (λ x m. rw (merge_same r x).2 (c.scopes x m))
            (λ x y mx my k. c.contents x y mx my (
              rw ((merge_same r x).1, (merge_same r x).2, (merge_same r y).1, (merge_same r y).2) at
                k)))
    ]

revise_id : (r old : EntryRow) → (revise r old).id ≡ old.id
unfolding updated
revise_id r old = elim (Bool-cases (is_version r.id r.version old)) [
  | inl e ↦ rw e refl
  | inr e ↦ rw e refl
]

-- An update of a row whose new content no row of another id has, in a scope that is there.
revised_contents :
    (r : EntryRow) (rows : List EntryRow)
    → HasUniqueContent rows
    → any (is_other r) rows ≡ false
    → (x y : EntryRow) → Memᴰ x rows
    → Memᴰ y rows
    → same_content (revise r x).content_hash (revise r x).scope (revise r y) ≡ true
    → x.id ≡ y.id
unfolding HasUniqueContent updated
revised_contents r rows c h x y mx my k = elim (Bool-cases (is_version r.id r.version x)) [
  | inl e ↦ elim (Bool-cases (is_version r.id r.version y)) [
    | inl f ↦ ground (arith, ==_iff x.id r.id, ==_iff y.id r.id)
    | inr f ↦
        let same = new y my (rw (e, f) at k) in ground (arith, ==_iff x.id r.id, ==_iff y.id r.id)
  ]
  | inr e ↦ elim (Bool-cases (is_version r.id r.version y)) [
    | inl f ↦
        let same = new x mx (same_content_sym x r (rw (e, f) at k)) in
        ground (arith, ==_iff x.id r.id, ==_iff y.id r.id)
    | inr f ↦ c x y mx my (rw (e, f) at k)
  ]
]
  where
    new :
        (z : EntryRow)
        → Memᴰ z rows
        → same_content r.content_hash r.scope z ≡ true
        → (z.id == r.id) ≡ true
    new z m e = elim (Bool-cases (z.id == r.id)) [
      | inl same ↦ same
      | inr other ↦ let no = any-none (is_other r) rows z h m in ground arith
    ]

revise-none :
    (r : EntryRow) (rows : List EntryRow)
    → ltb 0 (length (keep (is_version r.id r.version) rows)) ≡ false
    → map (revise r) rows ≡ rows
unfolding keep
revise-none r [] h = refl
revise-none r (x ∷ rows) h = elim (Bool-cases (is_version r.id r.version x)) [
  | inl e ↦ absurd (let k = rw (e, keep) at h in ground arith)
  | inr e ↦ rw e (ap (λ t. x ∷ t) (revise-none r rows (rw e at h)))
]

pub update_entry-IsConsistent :
    (r : EntryRow) (db db' : Db) (n : ℕ)
    → IsConsistent db
    → update_entry r db ≡ ok (n, db')
    → IsConsistent db'
unfolding update_entry HasScopes updated
update_entry-IsConsistent r db db' n c h =
    elim (Bool-cases (ltb 0 (length (keep (is_version r.id r.version) db.entries)))) [
      | inr e ↦ written (rw (e, revise-none r db.entries e) at h) c
      | inl e ↦ elim (Bool-cases (any (is_other r) db.entries)) [
        | inl f ↦ absurd (cc (rw (e, f) at h))
        | inr f ↦ elim (Bool-cases (has_scope r.scope db.scopes)) [
          | inr g ↦ absurd (cc (rw (e, f, g) at h))
          | inl g ↦ written (rw (e, f, g) at h) (
              map-IsConsistent (revise r) db c (revise_id r)
                (λ x m. elim (Bool-cases (is_version r.id r.version x)) [
                  | inl v ↦ rw v g
                  | inr v ↦ rw v (c.scopes x m)
                ])
                (revised_contents r db.entries c.contents f))
        ]
      ]
    ]
