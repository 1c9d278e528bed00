-- ===== src/Cmd/Import/Grows.antt =====
-- What the statements of an import leave in the tables: the entries that are there, and the edges.
use Prim.Native.String.{String}
use mathlib.Core.Path.{◌≡◌}
use mathlib.Core.List.{Memᴰ, append-nil, append_assoc}
use mathlib.Core.List.Memᴰ
use known.Prelude.{
  ℕ, ◌+◌, ◌||◌, true, refl, sym, ap, ◌∙◌, subst, inl, inr, ◌⊎◌, List, [], ◌∷◌, ◌++◌, any, arith,
  length, length-append, Bool-cases, Result, ok, err, ok-injective,
}
use known.Prelude.Rows.{mem-any}
use known.Prelude.Text.{Text, split, text_eq, text_eq_iff}
use known.Model.Types.{Id128, Time}
use known.Model.Scope.{dot}
use known.Model.Edge.{EdgeType}
use known.Model.Entry.{Entry}
use known.Sqlite.Tables.{
  EntryRow, EdgeRow, Db, Action, Json, ◌>>=◌, continue, in_context, settle, executes, reads, pure,
}
use known.Sqlite.Scope.{
  has_scope, ensure_hierarchy, ancestor_paths, insert_new_scopes, insert_new_scope,
}
use known.Sqlite.Edge.{has_entry, insert_edge_type}
use known.Sqlite.Entry.{
  same_content, has_label, merge, insert_entry, upsert_entry, merged, insert_label, insert_labels,
  delete_labels, save_labels, save_labels_of,
}
use known.Sqlite.Consistent.Entries.{merge_same, upsert-insert}

-- What may be written: a content, for an entry of a hash and a scope.
abbrev pub Written : Type 1
Written = Text → Text → Text → Type 0

-- A row that stays: under its id, hash and scope, and as it was, or with a content written for them.
abbrev pub Kept : Written → EntryRow → EntryRow → Type 0
Kept W r r' =
    (r'.id ≡ r.id)
    × (r'.content_hash ≡ r.content_hash)
    × (r'.scope ≡ r.scope)
    × ((r' ≡ r) ⊎ W r.content_hash r.scope r'.content)

-- Edges are added, as many as n, and every entry stays.
pub record Grows (W : Written) (n : ℕ) (db db' : Db) : Type 0 where
  pub new_edges : List EdgeRow
  pub edges : db'.edges ≡ db.edges ++ new_edges
  pub added : length new_edges ≡ n
  pub rows :
      (r : EntryRow) → Memᴰ r db.entries → (r' : EntryRow) × Memᴰ r' db'.entries × Kept W r r'

pub refl-Kept : (W : Written) (r : EntryRow) → Kept W r r
refl-Kept W r = (refl, refl, refl, inl refl)

trans-Kept : (W : Written) (r s t : EntryRow) → Kept W r s → Kept W s t → Kept W r t
trans-Kept W r s t (i, h, c, inl same) k = subst (λ z. Kept W z t) same k
trans-Kept W r s t (i, h, c, inr w) (j, g, d, inl same) =
    (j ∙ i, g ∙ h, d ∙ c, inr (subst (λ z. W r.content_hash r.scope z.content) (sym same) w))
trans-Kept W r s t (i, h, c, inr w) (j, g, d, inr v) = (
  j ∙ i,
  g ∙ h,
  d ∙ c,
  inr (subst (λ z. W z r.scope t.content) h (subst (λ z. W s.content_hash z t.content) c v)),
)

pub same-Grows :
    {W : Written} {db db' : Db} → db'.entries ≡ db.entries → db'.edges ≡ db.edges → Grows W 0 db db'
same-Grows {W} {db} {db'} e g = record {
  new_edges = [];
  edges = g ∙ sym (append-nil db.edges);
  added = refl;
  rows = λ r m. (r, subst (λ rows. Memᴰ r rows) (sym e) m, refl-Kept W r);
}

pub refl-Grows : {W : Written} {db : Db} → Grows W 0 db db
refl-Grows = same-Grows refl refl

pub trans-Grows :
    {W : Written} {m n : ℕ} {a b c : Db} → Grows W m a b → Grows W n b c → Grows W (m + n) a c
trans-Grows {W = W} {a = a} g k = record {
  new_edges = g.new_edges ++ k.new_edges;
  edges =
      k.edges ∙ ap (λ es. es ++ k.new_edges) g.edges ∙ append_assoc a.edges g.new_edges k.new_edges;
  added = omega (arith, length-append g.new_edges k.new_edges, g.added, k.added);
  rows = λ r m.
      let (s, i, p) = g.rows r m in let (t, j, q) = k.rows s i in (t, j, trans-Kept W r s t p q);
}

pub after-Grows : {W : Written} {n : ℕ} {a b c : Db} → Grows W 0 a b → Grows W n b c → Grows W n a c
after-Grows {W} {n} {a} {b} {c} g k = subst (λ m. Grows W m a c) (the_sum n) (trans-Grows g k)
  where
    the_sum : (n : ℕ) → 0 + n ≡ n
    the_sum n = omega arith

-- A call that adds no edge, whether it fails or not.
unfoldable pub Keeps : Written → {A : Type 0} → Action A → Type 0
Keeps W m = (db : Db) → Grows W 0 db (m db).1

module _ (W : Written) {A : Type 0} where
  settle-Grows :
      (db : Db) (r : Result (A × Db))
      → ((db' : Db) (a : A) → r ≡ ok (a, db') → Grows W 0 db db')
      → Grows W 0 db (settle db r).1
  settle-Grows db (ok (a, db')) g = g db' a refl
  settle-Grows db (err e) g = refl-Grows

  executes-Keeps :
      (f : Db → Result (A × Db))
      → ((db db' : Db) (a : A) → f db ≡ ok (a, db') → Grows W 0 db db')
      → Keeps W (executes f)
  unfolding Keeps
  executes-Keeps f h db = settle-Grows db (f db) (h db)

  total-Keeps :
      (f : Db → A × Db) → ((db : Db) → Grows W 0 db (f db).1) → Keeps W (executes (λ db. ok (f db)))
  unfolding Keeps
  total-Keeps f h = h

  in_context-Keeps : (s : String) (m : Action A) → Keeps W m → Keeps W (in_context s m)
  unfolding Keeps
  in_context-Keeps s m h db = h db

  pub reads-Keeps : (f : Db → Result A) → Keeps W (reads f)
  unfolding Keeps
  reads-Keeps f db = refl-Grows

  pure-Keeps : (a : A) → Keeps W (pure a)
  unfolding Keeps
  pure-Keeps a db = refl-Grows

module _ (W : Written) {A B : Type 0} where
  continue-Keeps :
      (f : A → Action B) (db : Db) (r : Result A × Db)
      → ((a : A) → Keeps W (f a))
      → Grows W 0 db r.1
      → Grows W 0 db (continue f r).1
  unfolding Keeps
  continue-Keeps f db (ok a, db') g h = trans-Grows h (g a db')
  continue-Keeps f db (err e, db') g h = h

  pub bind-Keeps :
      (m : Action A) (f : A → Action B) → Keeps W m → ((a : A) → Keeps W (f a)) → Keeps W (m >>= f)
  unfolding Keeps
  bind-Keeps m f h g db = continue-Keeps f db (m db) g (h db)

-- The tables that a statement which succeeded leaves.
pub written :
    {W : Written} {A : Type 0} {a b : A} {n : ℕ} {db db₁ db₂ : Db}
    → ◌≡◌ {A = Result (A × Db)} (ok (a, db₁)) (ok (b, db₂))
    → Grows W n db db₁
    → Grows W n db db₂
written {W = W} {n = n} {db = db} e g = subst (Grows W n db) (ap (λ p. p.1) (ok-injective e)) g

-- The statements.
insert_new_scope-Grows :
    {W : Written} (now : Time) (path : Text) (db : Db) → Grows W 0 db (insert_new_scope now path db)
unfolding insert_new_scope
insert_new_scope-Grows now path db = elim (Bool-cases (has_scope path db.scopes)) [
  | inl e ↦ rw e refl-Grows
  | inr e ↦ rw e (same-Grows refl refl)
]

insert_new_scopes-Grows :
    {W : Written} (now : Time) (paths : List Text) (db : Db)
    → Grows W 0 db (insert_new_scopes now paths db)
unfolding insert_new_scopes
insert_new_scopes-Grows now [] db = refl-Grows
insert_new_scopes-Grows now (p ∷ ps) db =
    trans-Grows (insert_new_scope-Grows now p db)
      (insert_new_scopes-Grows now ps (insert_new_scope now p db))

pub ensure_hierarchy-Keeps :
    (W : Written) (now : Time) (path : Text)
    → Keeps W (executes (λ db. ok (tt {0}, ensure_hierarchy now path db)))
unfolding ensure_hierarchy
ensure_hierarchy-Keeps W now path =
    total-Keeps W _ (insert_new_scopes-Grows now (ancestor_paths [] (split dot path)))

delete_labels-Keeps :
    (W : Written) (id : Id128) → Keeps W (executes (λ db. ok (tt {0}, delete_labels id db)))
unfolding delete_labels
delete_labels-Keeps W id = total-Keeps W _ (λ db. same-Grows refl refl)

pub insert_edge_type-Grows :
    {W : Written} (type : EdgeType) (db : Db) → Grows W 0 db (insert_edge_type type db)
unfolding insert_edge_type
insert_edge_type-Grows type db = elim (Bool-cases (any (text_eq type) db.edge_types)) [
  | inl e ↦ rw e refl-Grows
  | inr e ↦ rw e (same-Grows refl refl)
]

insert_label-Keeps :
    (W : Written) (id : Id128) (label : Text) → Keeps W (executes (insert_label id label))
unfolding insert_label
insert_label-Keeps W id label = executes-Keeps W _ (λ db db' a h.
    elim (Bool-cases (any (has_label id label) db.labels)) [
      | inl e ↦ absurd (cc (rw (e, insert_label) at h))
      | inr e ↦ elim (Bool-cases (has_entry id db.entries)) [
        | inl f ↦ written (rw (e, f, insert_label) at h) (same-Grows refl refl)
        | inr f ↦ absurd (cc (rw (e, f, insert_label) at h))
      ]
    ])

same_content-eq :
    (h s : Text) (x : EntryRow) → same_content h s x ≡ true → (x.content_hash ≡ h) × (x.scope ≡ s)
same_content-eq h s x e = elim (Bool-cases (text_eq x.content_hash h)) [
  | inl k ↦ ((text_eq_iff x.content_hash h).0 k, (text_eq_iff x.scope s).0 (rw k at e))
  | inr k ↦ absurd (cc (rw k at e))
]

map-Kept :
    (W : Written) (r x : EntryRow) → W r.content_hash r.scope r.content → Kept W x (merge r x)
unfolding merged
map-Kept W r x w = elim (Bool-cases (same_content r.content_hash r.scope x)) [
  | inr e ↦ rw e (refl-Kept W x)
  | inl e ↦
      let (h, c) = same_content-eq r.content_hash r.scope x e in
      rw e (
        refl,
        refl,
        refl,
        inr (
            subst (λ z. W z x.scope r.content) (sym h)
              (subst (λ z. W r.content_hash z r.content) (sym c) w)),
      )
]

insert_entry-added :
    (r : EntryRow) (db db' : Db) (a : Unit {0})
    → insert_entry r db ≡ ok (a, db')
    → db' ≡ record db { entries = db.entries ++ r ∷ [] }
unfolding insert_entry
insert_entry-added r db db' a h =
    elim (Bool-cases
      (has_entry r.id db.entries || any (same_content r.content_hash r.scope) db.entries)) [
        | inl e ↦ absurd (cc (rw (e, insert_entry) at h))
        | inr e ↦ elim (Bool-cases (has_scope r.scope db.scopes)) [
          | inr f ↦ absurd (cc (rw (e, f, insert_entry) at h))
          | inl f ↦ sym (ap (λ p. p.1) (ok-injective (rw (e, f, insert_entry) at h)))
        ]
      ]

insert_entry-Grows :
    {W : Written} (r : EntryRow) (db db' : Db) (a : Unit {0})
    → insert_entry r db ≡ ok (a, db')
    → Grows W 0 db db' × Memᴰ r db'.entries
insert_entry-Grows {W} r db db' a h =
    subst (λ d. Grows W 0 db d × Memᴰ r d.entries) (sym (insert_entry-added r db db' a h))
      (
        record {
          new_edges = [];
          edges = sym (append-nil db.edges);
          added = refl;
          rows = λ x m. (x, Memᴰ.append_left (r ∷ []) m, refl-Kept W x);
        },
        Memᴰ.append_right db.entries (Memᴰ.head refl),
      )

-- A row with the hash, the scope and the content of another.
abbrev pub HasRow : Text → Text → Text → Db → Type 0
HasRow h s c db =
    (r : EntryRow) × Memᴰ r db.entries × (r.content_hash ≡ h) × (r.scope ≡ s) × (r.content ≡ c)

-- An upsert keeps every row, and one then has the content it was given.
pub upsert_entry-Grows :
    {W : Written} (r : EntryRow) (db db' : Db) (a : Unit {0})
    → W r.content_hash r.scope r.content
    → upsert_entry r db ≡ ok (a, db')
    → Grows W 0 db db' × HasRow r.content_hash r.scope r.content db'
unfolding upsert_entry merged
upsert_entry-Grows {W} r db db' a w h =
    elim (Bool-cases (any (same_content r.content_hash r.scope) db.entries)) [
      | inr e ↦
          let (g, m) = insert_entry-Grows r db db' a (sym (upsert-insert r db e) ∙ h) in
          (g, (r, m, refl, refl, refl))
      | inl e ↦
          let (x, m, k) = mem-any (same_content r.content_hash r.scope) db.entries e in
          let (c, s) = same_content-eq r.content_hash r.scope x k in
          subst (λ d. Grows W 0 db d × HasRow r.content_hash r.scope r.content d)
            (ap (λ p. p.1) (ok-injective (rw (e, upsert_entry) at h)))
            (
              record {
                new_edges = [];
                edges = sym (append-nil db.edges);
                added = refl;
                rows = λ y i. (merge r y, Memᴰ.map (merge r) i, map-Kept W r y w);
              },
              (
                merge r x,
                Memᴰ.map (merge r) m,
                (merge_same r x).1 ∙ c,
                (merge_same r x).2 ∙ s,
                rw k refl,
              ),
            )
    ]

ruleset keeps = (
  bind-Keeps, reads-Keeps, in_context-Keeps, pure-Keeps, ensure_hierarchy-Keeps,
  delete_labels-Keeps, insert_label-Keeps,
)

insert_labels-Keeps :
    (W : Written) (id : Id128) (labels : List Text) → Keeps W (insert_labels id labels)
unfolding insert_labels
insert_labels-Keeps W id [] = search keeps
insert_labels-Keeps W id (label ∷ rest) = search (keeps, insert_labels-Keeps W id rest)

save_labels-Keeps :
    (W : Written) (id : Id128) (labels : List Text) → Keeps W (save_labels id labels)
unfolding save_labels
save_labels-Keeps W id labels = search (keeps, insert_labels-Keeps)

module _ (json : Json) (hash : Text → Text) (now : Time) where
  pub save_labels_of-Keeps :
      (W : Written) (e : Entry) (labels : List Text)
      → Keeps W (save_labels_of json hash now e labels)
  save_labels_of-Keeps W e [] = search keeps
  save_labels_of-Keeps W e (l ∷ ls) = search (keeps, save_labels-Keeps)
