-- ===== src/Model/Scope/Paths.antt =====
-- Scope paths and their segments: the parser against `join`.
use mathlib.Core.Path.{◌≡◌}
use known.Prelude.{
  ℕ, true, false, ◌≢◌, ◌↔◌, refl, sym, ap, ◌∙◌, inl, inr, List, [], ◌∷◌, arith, All, All-mono, ◌==◌,
  Bool-cases, ok, Result-cases,
}
use known.Prelude.Text.{Text, is_empty, split, join}
use known.Prelude.Text.Split.{Lacks, split-cons, join-split, split-join}
use known.Model.Scope.{
  dot, is_letter, is_segment_byte, all_segment_bytes, is_valid_scope_segment, check_segments,
  parse_scope_path,
}

abbrev pub AreSegments : List Text → Type 0
AreSegments = All (λ s. is_valid_scope_segment s ≡ true)

segment_byte_not_dot : (c : ℕ) → is_segment_byte c ≡ true → (c == dot) ≡ false
unfolding is_segment_byte
segment_byte_not_dot c h = ground arith

letter_not_dot : (c : ℕ) → is_letter c ≡ true → (c == dot) ≡ false
unfolding is_letter
letter_not_dot c h = ground arith

bytes-Lacks : (s : Text) → all_segment_bytes s ≡ true → Lacks dot s
unfolding all_segment_bytes
bytes-Lacks [] h = tt
bytes-Lacks (c ∷ s) h = elim (Bool-cases (is_segment_byte c)) [
  | inl e ↦ (segment_byte_not_dot c e, bytes-Lacks s (rw e at h))
  | inr e ↦ cc (rw e at h)
]

pub segment-Lacks : (s : Text) → is_valid_scope_segment s ≡ true → Lacks dot s
unfolding is_valid_scope_segment
segment-Lacks [] h = tt
segment-Lacks (c ∷ s) h = elim (Bool-cases (is_letter c)) [
  | inl e ↦ (letter_not_dot c e, bytes-Lacks s (rw e at h))
  | inr e ↦ cc (rw e at h)
]

pub segments-Lack : (segs : List Text) → AreSegments segs → All (Lacks dot) segs
segments-Lack segs h = All-mono segs segment-Lacks h

check_segments-ok : (segs : List Text) → AreSegments segs → check_segments segs ≡ ok tt
unfolding check_segments is_valid_scope_segment
check_segments-ok [] h = refl
check_segments-ok ([] ∷ rest) h = cc h.0
check_segments-ok ((c ∷ s) ∷ rest) h = rw h.0 (check_segments-ok rest h.1)

check_segments-AreSegments : (segs : List Text) → check_segments segs ≡ ok tt → AreSegments segs
unfolding check_segments
check_segments-AreSegments [] h = tt
check_segments-AreSegments (seg ∷ rest) h = elim (Bool-cases (is_empty seg)) [
  | inl e ↦ cc (rw e at h)
  | inr e ↦ elim (Bool-cases (is_valid_scope_segment seg)) [
    | inl v ↦ (v, check_segments-AreSegments rest (rw (e, v) at h))
    | inr v ↦ cc (rw (e, v) at h)
  ]
]

parse_scope_path-split :
    (path : Text) (segs : List Text)
    → parse_scope_path path ≡ ok segs
    → (split dot path ≡ segs) × (check_segments (split dot path) ≡ ok tt)
unfolding parse_scope_path
parse_scope_path-split [] segs h = cc
parse_scope_path-split (c ∷ s) segs h = elim (Result-cases (check_segments (split dot (c ∷ s)))) [
  | inl (u, e) ↦ (cc (rw (e, parse_scope_path) at h), e)
  | inr (x, e) ↦ cc (rw (e, parse_scope_path) at h)
]

parse_scope_path-checked :
    (path : Text)
    → is_empty path ≡ false
    → check_segments (split dot path) ≡ ok tt
    → parse_scope_path path ≡ ok (split dot path)
unfolding parse_scope_path
parse_scope_path-checked path ne checked = rw (ne, checked)

join-ne-empty : (segs : List Text) → segs ≢ [] → AreSegments segs → is_empty (join dot segs) ≡ false
unfolding join is_valid_scope_segment
join-ne-empty [] ne h = absurd (ne refl)
join-ne-empty ([] ∷ rest) ne h = cc h.0
join-ne-empty ((c ∷ s) ∷ []) ne h = refl
join-ne-empty ((c ∷ s) ∷ q ∷ rest) ne h = refl

pub split-join-segments :
    (segs : List Text) → segs ≢ [] → AreSegments segs → split dot (join dot segs) ≡ segs
split-join-segments segs ne h = split-join dot segs ne (segments-Lack segs h)

-- A path parses to `segs` exactly when `segs` are valid segments, at least one, and the path is
-- their join by dots.
pub parse_scope_path-eq-ok :
    (path : Text) (segs : List Text)
    → (parse_scope_path path ≡ ok segs) ↔ ((segs ≢ []) × AreSegments segs × (path ≡ join dot segs))
parse_scope_path-eq-ok path segs = (
  λ h.
      let (e, checked) = parse_scope_path-split path segs h in
      let (p, ps, c) = split-cons dot path in
      (
        λ none. cc (sym c ∙ e ∙ none),
        check_segments-AreSegments segs (rw e at checked),
        sym (join-split dot path) ∙ ap (join dot) e,
      ),
  λ (ne, valid, e).
      let back = split-join-segments segs ne valid in
      rw e (
        parse_scope_path-checked (join dot segs) (join-ne-empty segs ne valid)
          (rw back (check_segments-ok segs valid))
        ∙ ap (λ (x : List Text). ok x) back),
)
