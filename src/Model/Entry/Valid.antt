-- ===== src/Model/Entry/Valid.antt =====
-- Entry.Validate of model/entry.go against the conditions that it checks.
use mathlib.Core.Path.{◌≡◌}
use known.Prelude.{
  ℕ, ◌≤◌, false, not, ◌&&◌, ◌≢◌, ◌↔◌, refl, ◌⊎◌, inl, inr, List, [], ◌∷◌, arith, ltb, ◌==◌, length,
  Result-cases, ok,
}
use known.Prelude.Text.{Text, is_empty}
use known.Model.Types.{is_zero, validate_source}
use known.Model.Scope.{parse_scope_path}
use known.Model.Entry.{Entry, validate, max_title_length, max_content_length}

pub record IsWellFormed (e : Entry) : Type 0 where
  pub id : e.id ≢ 0
  pub title : length e.title ≤ max_title_length
  pub content : e.content ≢ []
  pub size : length e.content ≤ max_content_length
  pub source_type : e.source.type ≢ []
  pub source_reference : e.source.reference ≢ []
  pub scope : (segs : List Text) × (parse_scope_path e.scope ≡ ok segs)
  pub dimension : (e.embedding ≡ []) ⊎ (e.embedding_dim ≡ length e.embedding)

is_empty_iff : (t : Text) → (is_empty t ≡ false) ↔ (t ≢ [])
is_empty_iff [] = (λ h. cc h, λ h. absurd (h refl))
is_empty_iff (c ∷ t) = (λ h e. cc e, λ h. refl)

-- The test of the embedding.
dimension_iff :
    (v : List ℕ) (dim : ℕ)
    → ((ltb 0 (length v) && not (dim == length v)) ≡ false) ↔ ((v ≡ []) ⊎ (dim ≡ length v))
dimension_iff [] dim = ground arith
dimension_iff (x ∷ v) dim = ground arith

parse-nonempty : (path : Text) (segs : List Text) → parse_scope_path path ≡ ok segs → path ≢ []
unfolding parse_scope_path
parse-nonempty [] segs h e = cc h
parse-nonempty (c ∷ p) segs h e = cc e

-- Validate accepts exactly the entries whose id is not zero, whose title and content are within their
-- lengths, whose content and source are not empty, whose scope parses, and whose embedding, if there
-- is one, has the declared dimension.
pub validate_entry_iff : (e : Entry) → (validate e ≡ ok tt) ↔ IsWellFormed e
unfolding validate validate_source is_zero
validate_entry_iff e = elim (Result-cases (parse_scope_path e.scope)) [
  | inl (segs, p) ↦ ground (
    arith,
    p,
    is_empty_iff e.content,
    is_empty_iff e.source.type,
    is_empty_iff e.source.reference,
    is_empty_iff e.scope,
    parse-nonempty e.scope segs p,
    dimension_iff e.embedding e.embedding_dim,
  )
  | inr (x, p) ↦ ground (arith, p)
]
