-- ===== src/Model/Scope/Ancestors.antt =====
-- IsAncestorOf of model/scope.go: the test on path texts against the prefix order on segments.
use mathlib.Core.Path.{◌≡◌}
use mathlib.Core.List.{append_assoc, append-nil}
use known.Prelude.{
  ℕ, true, false, ◌≢◌, ◌↔◌, refl, sym, ap, ◌∙◌, inl, inr, List, [], ◌∷◌, ◌++◌, arith, All, length,
  length-append, ==_iff, Bool-cases, ok-injective, ok,
}
use known.Prelude.Text.{Text, text_eq, text_eq_iff, has_prefix, join}
use known.Prelude.Text.Split.{Lacks}
use known.Model.Scope.{Scope, dot, parse_scope_path, is_ancestor_of}
use known.Model.Scope.Paths.{segments-Lack, parse_scope_path-eq-ok}

-- Each segment, ended by a dot.
terminated : List Text → Text
terminated [] = []
terminated (a ∷ as') = a ++ dot ∷ terminated as'

join-terminated : (segs : List Text) → segs ≢ [] → join dot segs ++ dot ∷ [] ≡ terminated segs
unfolding join terminated
join-terminated [] ne = absurd (ne refl)
join-terminated (a ∷ []) ne = refl
join-terminated (a ∷ b ∷ rest) ne =
    append_assoc a (dot ∷ join dot (b ∷ rest)) (dot ∷ [])
    ∙ ap (λ r. a ++ dot ∷ r) (join-terminated (b ∷ rest) (λ e. cc))

-- Texts up to their first dot are equal if one is a prefix of the other, dot included.
prefix-dotted :
    (b a : Text) (B A : Text)
    → Lacks dot b
    → Lacks dot a
    → (has_prefix (b ++ dot ∷ B) (a ++ dot ∷ A) ≡ true) ↔ ((a ≡ b) × (has_prefix B A ≡ true))
unfolding has_prefix
prefix-dotted [] [] B A hb ha = ground arith
prefix-dotted [] (y ∷ a) B A hb ha = ground (arith, ==_iff y dot, ==_iff dot y)
prefix-dotted (x ∷ b) [] B A hb ha = ground (arith, ==_iff x dot)
prefix-dotted (x ∷ b) (y ∷ a) B A hb ha =
    ground (arith, ==_iff x y, prefix-dotted b a B A hb.1 ha.1)

has_prefix-nil : (a : Text) (y : ℕ) (z : Text) → has_prefix [] (a ++ y ∷ z) ≡ false
unfolding has_prefix
has_prefix-nil [] y z = refl
has_prefix-nil (x ∷ a) y z = refl

has_prefix-terminated :
    (as' bs : List Text)
    → All (Lacks dot) as'
    → All (Lacks dot) bs
    → (has_prefix (terminated bs) (terminated as') ≡ true) ↔ ((rs : List Text) × (bs ≡ as' ++ rs))
unfolding terminated has_prefix
has_prefix-terminated [] bs ha hb = (λ h. (bs, refl), λ h. refl)
has_prefix-terminated (a ∷ as') [] ha hb =
    (λ h. cc (has_prefix-nil a dot (terminated as'), h), λ (rs, e). cc e)
has_prefix-terminated (a ∷ as') (b ∷ bs) ha hb =
    let heads = prefix-dotted b a (terminated bs) (terminated as') hb.0 ha.0 in
    let tails = has_prefix-terminated as' bs ha.1 hb.1 in
    (
      λ h. let (e, t) = heads.0 h in let (rs, k) = tails.0 t in (rs, cc (e, k)),
      λ (rs, e). heads.1 (cc e, tails.1 (rs, cc e)),
    )

-- A longer list has a first extra segment.
strict-of-ne :
    (as' bs rs : List Text)
    → bs ≡ as' ++ rs
    → as' ≢ bs
    → (r : Text) × (more : List Text) × (bs ≡ as' ++ r ∷ more)
strict-of-ne as' bs [] e ne = absurd (ne (sym (e ∙ append-nil as')))
strict-of-ne as' bs (r ∷ more) e ne = (r, more, e)

append-ne_self : (as' : List Text) (r : Text) (rs : List Text) → as' ≢ as' ++ r ∷ rs
append-ne_self as' r rs e =
    absurd (omega (arith, ap (λ (x : List Text). length x) e, length-append {0} as' (r ∷ rs)))

-- Of two scopes with valid paths the first is an ancestor exactly when its segments, followed by
-- at least one more segment, are those of the second.
pub is_ancestor_of_iff :
    (s other : Scope) (as' bs : List Text)
    → parse_scope_path s.path ≡ ok as'
    → parse_scope_path other.path ≡ ok bs
    → (is_ancestor_of s other ≡ true) ↔ ((r : Text) × (rs : List Text) × (bs ≡ as' ++ r ∷ rs))
unfolding is_ancestor_of
is_ancestor_of_iff s other as' bs hs ho =
    let (na, va, ea) = (parse_scope_path-eq-ok s.path as').0 hs in
    let (nb, vb, eb) = (parse_scope_path-eq-ok other.path bs).0 ho in
    let prefix = has_prefix-terminated as' bs (segments-Lack as' va) (segments-Lack bs vb) in
    let ta = ap (λ (p : Text). p ++ dot ∷ []) ea ∙ join-terminated as' na in
    let tb = ap (λ (p : Text). p ++ dot ∷ []) eb ∙ join-terminated bs nb in
    let back =
      λ (e : as' ≡ bs). (text_eq_iff s.path other.path).1 (ea ∙ ap (join dot) e ∙ sym eb) in
    elim (Bool-cases (text_eq s.path other.path)) [
      | inl same ↦
          let paths = (text_eq_iff s.path other.path).0 same in
          let e : as' ≡ bs = ok-injective (sym hs ∙ ap parse_scope_path paths ∙ ho) in
          rw same (λ h. cc h, λ (r, rs, k). absurd (append-ne_self as' r rs (e ∙ k)))
      | inr differ ↦
          rw (differ, ta, tb)
            (
              λ h. let (rs, k) = prefix.0 h in strict-of-ne as' bs rs k (λ e. cc (differ, back e)),
              λ (r, rs, k). prefix.1 (r ∷ rs, k),
            )
    ]
