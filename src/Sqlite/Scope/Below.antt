-- ===== src/Sqlite/Scope/Below.antt =====
-- The scope filter of storage/sqlite/entry.go, `scope = ? OR scope LIKE ?`, beside IsAncestorOf of
-- model/scope.go.
use mathlib.Core.Path.{◌≡◌}
use known.Prelude.{
  ℕ, true, false, refl, [], ◌∷◌, ◌++◌, ◌||◌, ◌&&◌, arith, All, ◌==◌, leb, Bool-cases, inl, inr,
}
use known.Prelude.Text.{Text, codes, text_eq, text_eq_iff, has_prefix}
use known.Model.Scope.{Scope, dot, is_ancestor_of}
use known.Sqlite.Tables.{like, in_scope, any_suffix, fold_case, matches_byte}

-- A byte that is no capital letter.
abbrev pub IsLower : ℕ → Type 0
IsLower c = (leb b'A' c && leb c b'Z') ≡ false

-- A byte that stands for itself in a pattern.
abbrev pub IsPlain : ℕ → Type 0
IsPlain c = ((c == b'%') ≡ false) × ((c == b'_') ≡ false) × IsLower c

fold_case-lower : (c : ℕ) → IsLower c → fold_case c ≡ c
fold_case-lower c h = rw h refl

any_suffix-ends : (s : Text) → any_suffix (like []) s ≡ true
unfolding any_suffix like
any_suffix-ends [] = refl
any_suffix-ends (c ∷ s) = any_suffix-ends s

matches-lower :
    (p c : ℕ) → (p == b'_') ≡ false → IsLower p → IsLower c → matches_byte p c ≡ (c == p)
matches-lower p c u hp hc = rw (u, fold_case-lower p hp, fold_case-lower c hc) (ground arith)

like_below :
    (p s : Text)
    → All IsPlain p
    → All IsLower s
    → like (p ++ codes ".%") s ≡ has_prefix s (p ++ dot ∷ [])
unfolding like has_prefix
like_below [] [] h k = refl
like_below [] (c ∷ s) h k = rw (any_suffix-ends s, matches-lower dot c refl refl k.0) refl
like_below (x ∷ p) [] h k = rw h.0.0 refl
like_below (x ∷ p) (c ∷ s) h k =
    rw (h.0.0, matches-lower x c h.0.1 h.0.2 k.0, like_below p s h.1 k.1) refl

has_prefix-append_nil : (p : Text) → has_prefix [] (p ++ dot ∷ []) ≡ false
unfolding has_prefix
has_prefix-append_nil [] = refl
has_prefix-append_nil (x ∷ p) = refl

has_prefix-dotted :
    (s p : Text)
    → has_prefix (s ++ dot ∷ []) (p ++ dot ∷ []) ≡ (text_eq s p || has_prefix s (p ++ dot ∷ []))
unfolding has_prefix text_eq
has_prefix-dotted [] [] = refl
has_prefix-dotted [] (y ∷ p) = rw (has_prefix-append_nil p) (ground arith)
has_prefix-dotted (x ∷ s) [] = refl
has_prefix-dotted (x ∷ s) (y ∷ p) = ground (arith, has_prefix-dotted s p)

text_eq_sym : (a b : Text) → text_eq a b ≡ text_eq b a
text_eq_sym a b = ground (arith, text_eq_iff a b, text_eq_iff b a)

-- For a scope of whose path no byte is a wildcard of LIKE or a capital letter, and another without
-- capital letters, the filter by the first finds exactly the scope itself and those that it is an
-- ancestor of.
pub in_scope_lem :
    (s other : Scope)
    → All IsPlain s.path
    → All IsLower other.path
    → in_scope s.path other.path ≡ (text_eq other.path s.path || is_ancestor_of s other)
unfolding in_scope is_ancestor_of
in_scope_lem s other h k = elim (Bool-cases (text_eq other.path s.path)) [
  | inl e ↦ rw e refl
  | inr e ↦
      rw (e, text_eq_sym s.path other.path, e, has_prefix-dotted other.path s.path, e)
        (like_below s.path other.path h k)
]
