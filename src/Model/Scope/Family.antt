-- ===== src/Model/Scope/Family.antt =====
-- Parents, children and common ancestors of scopes with valid paths.
use mathlib.Core.Path.{◌≡◌}
use mathlib.Core.List.{append_assoc}
use known.Prelude.{
  suc, ◌-◌, true, false, ◌≢◌, refl, sym, ap, ◌∙◌, inl, inr, List, [], ◌∷◌, ◌++◌, arith, All-append,
  length, length-append, take, leb, ◌==◌, if◌then◌else◌, Bool-cases, ok,
}
use known.Prelude.Text.{Text, text_eq, text_eq_iff, join}
use known.Model.Types.{Time}
use known.Model.Scope.{
  Scope, dot, is_valid_scope_segment, parse_scope_path, segments, parent, child, is_parent_of,
  is_ancestor_of, common_segments, common_ancestor,
}
use known.Model.Scope.Paths.{parse_scope_path-eq-ok}
use known.Model.Scope.Ancestors.{is_ancestor_of_iff}

join-concat :
    (segs : List Text) (seg : Text)
    → segs ≢ []
    → join dot (segs ++ seg ∷ []) ≡ join dot segs ++ dot ∷ seg
unfolding join
join-concat [] seg ne = absurd (ne refl)
join-concat (a ∷ []) seg ne = refl
join-concat (a ∷ b ∷ rest) seg ne =
    ap (λ r. a ++ dot ∷ r) (join-concat (b ∷ rest) seg (λ e. cc))
    ∙ sym (append_assoc a (dot ∷ join dot (b ∷ rest)) (dot ∷ seg))

take-concat {ℓ} : {A : Type ℓ} (xs : List A) (x : A) → take (length xs) (xs ++ x ∷ []) ≡ xs
take-concat [] x = refl
take-concat (y ∷ xs) x = ap (λ r. y ∷ r) (take-concat xs x)

pub segments-of_parsed :
    (s : Scope) (segs : List Text) → parse_scope_path s.path ≡ ok segs → segments s ≡ segs
unfolding segments
segments-of_parsed s segs h = rw (h, segments)

concat-ne-nil : (segs : List Text) (seg : Text) → segs ++ seg ∷ [] ≢ []
concat-ne-nil [] seg e = cc e
concat-ne-nil (a ∷ segs) seg e = cc e

parse-child :
    (path : Text) (segs : List Text) (seg : Text)
    → parse_scope_path path ≡ ok segs
    → is_valid_scope_segment seg ≡ true
    → parse_scope_path (path ++ dot ∷ seg) ≡ ok (segs ++ seg ∷ [])
parse-child path segs seg h v =
    let (ne, valid, e) = (parse_scope_path-eq-ok path segs).0 h in
    (parse_scope_path-eq-ok (path ++ dot ∷ seg) (segs ++ seg ∷ [])).1 (
      concat-ne-nil segs seg,
      All-append _ segs (seg ∷ []) valid (v, tt),
      ap (λ (p : Text). p ++ dot ∷ seg) e ∙ sym (join-concat segs seg ne),
    )

parent-concat :
    (s : Scope) (segs : List Text) (seg : Text)
    → segs ≢ []
    → segments s ≡ segs ++ seg ∷ []
    → parent s ≡ join dot segs
unfolding parent
parent-concat s [] seg ne h = absurd (ne refl)
parent-concat s (a ∷ segs) seg ne h =
    let n : length (segments s) ≡ suc (suc (length segs)) =
      ap (λ (x : List Text). length x) h ∙ omega (arith, length-append {0} (a ∷ segs) (seg ∷ [])) in
    let m : length (segments s) - 1 ≡ length (a ∷ segs) = omega arith in
    let big : leb (length (segments s)) 1 ≡ false = ground arith in
    rw (big, m, h) (ap (join dot) (take-concat (a ∷ segs) seg))

child-eq-ok :
    (now : Time) (s c : Scope) (seg : Text)
    → child now s seg ≡ ok c
    → (is_valid_scope_segment seg ≡ true) × (c.path ≡ s.path ++ dot ∷ seg)
unfolding child
child-eq-ok now s c seg made = elim (Bool-cases (is_valid_scope_segment seg)) [
  | inl v ↦ (v, cc (rw v at made))
  | inr v ↦ cc (rw v at made)
]

-- A child of a scope with a valid path has a valid path, the segments of the scope and its own
-- segment; the scope is its parent and an ancestor.
pub child_lem :
    (now : Time) (s c : Scope) (seg : Text) (segs : List Text)
    → parse_scope_path s.path ≡ ok segs
    → child now s seg ≡ ok c
    → (parse_scope_path c.path ≡ ok (segs ++ seg ∷ []))
      × (is_parent_of s c ≡ true)
      × (is_ancestor_of s c ≡ true)
unfolding is_parent_of
child_lem now s c seg segs h made =
    let (v, e) = child-eq-ok now s c seg made in
    let (ne, _, es) = (parse_scope_path-eq-ok s.path segs).0 h in
    let parsed : parse_scope_path c.path ≡ ok (segs ++ seg ∷ []) =
      ap parse_scope_path e ∙ parse-child s.path segs seg h v in
    let up : parent c ≡ s.path =
      parent-concat c segs seg ne (segments-of_parsed c (segs ++ seg ∷ []) parsed) ∙ sym es in
    (
      parsed,
      (text_eq_iff (parent c) s.path).1 up,
      (is_ancestor_of_iff s c segs (segs ++ seg ∷ []) h parsed).1 (seg, [], refl),
    )

-- `p` starts `xs`.
abbrev pub Starts : List Text → List Text → Type 0
Starts p xs = (rs : List Text) × (xs ≡ p ++ rs)

common_segments-Starts :
    (xs ys : List Text) → Starts (common_segments xs ys) xs × Starts (common_segments xs ys) ys
unfolding common_segments
common_segments-Starts [] ys = (([], refl), (ys, refl))
common_segments-Starts (x ∷ xs) [] = ((x ∷ xs, refl), ([], refl))
common_segments-Starts (x ∷ xs) (y ∷ ys) = elim (Bool-cases (text_eq x y)) [
  | inl same ↦
      let ((us, e), (vs, f)) = common_segments-Starts xs ys in
      let head = (text_eq_iff x y).0 same in rw same ((us, ap (λ r. x ∷ r) e), (vs, cc (head, f)))
  | inr differ ↦ rw differ ((x ∷ xs, refl), (y ∷ ys, refl))
]

common_segments_longest :
    (p xs ys us vs : List Text) → xs ≡ p ++ us → ys ≡ p ++ vs → Starts p (common_segments xs ys)
unfolding common_segments
common_segments_longest [] xs ys us vs e f = (common_segments xs ys, refl)
common_segments_longest (q ∷ p) [] ys us vs e f = cc e
common_segments_longest (q ∷ p) (x ∷ xs) [] us vs e f = cc f
common_segments_longest (q ∷ p) (x ∷ xs) (y ∷ ys) us vs e f =
    let (rs, k) = common_segments_longest p xs ys us vs (cc e) (cc f) in
    (rs, rw ((text_eq_iff x y).1 (cc (e, f))) (cc (e, k)))

join-if-nil : (xs : List Text) → (if length xs == 0 then [] else join dot xs) ≡ join dot xs
unfolding join
join-if-nil [] = refl
join-if-nil (x ∷ xs) = ground arith

-- The common ancestor of two scopes with valid paths is the join of segments that start both paths,
-- and that every list of segments that starts both paths starts.
pub common_ancestor_lem :
    (a b : Scope) (xs ys : List Text)
    → parse_scope_path a.path ≡ ok xs
    → parse_scope_path b.path ≡ ok ys
    → (cs : List Text) × (common_ancestor a b ≡ join dot cs)
      × Starts cs xs
      × Starts cs ys
      × ((p us vs : List Text) → xs ≡ p ++ us → ys ≡ p ++ vs → Starts p cs)
unfolding common_ancestor
common_ancestor_lem a b xs ys ha hb =
    let both = common_segments-Starts xs ys in
    (
      common_segments xs ys,
      rw (segments-of_parsed a xs ha, segments-of_parsed b ys hb)
          (join-if-nil (common_segments xs ys)),
      both.0,
      both.1,
      λ p us vs e f. common_segments_longest p xs ys us vs e f,
    )
