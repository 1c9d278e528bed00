-- ===== src/Prelude/Text/Split.antt =====
-- `split` and `join` are inverse to each other.
use Prim.Native.Nat.{ℕ}
use mathlib.Core.Path.{◌≡◌, refl, sym, ap, ◌∙◌}
use mathlib.Core.Logic.{◌≢◌, inl, inr}
use mathlib.Core.Bool.{false}
use mathlib.Core.List.{List, [], ◌∷◌, ◌++◌}
use native.Mathlib.Omega.{arith}
use known.Prelude.Tests.{◌==◌, ==_iff, Bool-cases}
use known.Prelude.Lists.{All}
use known.Prelude.Text.{Text, onto_first, split, join}

-- No byte of the text is `sep`.
abbrev pub Lacks : ℕ → Text → Type 0
Lacks sep s = All (λ c. (c == sep) ≡ false) s

module _ (sep : ℕ) where
  pub split-cons : (s : Text) → (p : Text) × (ps : List Text) × (split sep s ≡ p ∷ ps)
  unfolding split
  split-cons [] = ([], [], refl)
  split-cons (c ∷ s) = elim (Bool-cases (c == sep)) [
    | inl e ↦ ([], split sep s, rw e)
    | inr e ↦ let (p, ps, h) = split-cons s in (c ∷ p, ps, rw (e, h))
  ]

  join-onto_first :
      (c : ℕ) (p : Text) (ps : List Text) → join sep (onto_first c (p ∷ ps)) ≡ c ∷ join sep (p ∷ ps)
  unfolding join
  join-onto_first c p [] = refl
  join-onto_first c p (q ∷ ps) = refl

  pub join-split : (s : Text) → join sep (split sep s) ≡ s
  unfolding split join
  join-split [] = refl
  join-split (c ∷ s) =
      let (p, ps, h) = split-cons s in
      elim (Bool-cases (c == sep)) [
        | inl e ↦ rw (e, h) (ground (arith, join-split s, ==_iff c sep, h))
        | inr e ↦
            rw (e, h)
              (join-onto_first c p ps ∙ ap (λ r. c ∷ r) (ap (join sep) (sym h) ∙ join-split s))
      ]

  split_lacking : (s : Text) → Lacks sep s → split sep s ≡ s ∷ []
  unfolding split
  split_lacking [] h = refl
  split_lacking (c ∷ s) h = rw (h.0, split_lacking s h.1)

  split-append : (s t : Text) → Lacks sep s → split sep (s ++ sep ∷ t) ≡ s ∷ split sep t
  unfolding split
  split-append [] t h = ground (arith, ==_iff sep sep)
  split-append (c ∷ s) t h = rw (h.0, split-append s t h.1)

  pub split-join : (ps : List Text) → ps ≢ [] → All (Lacks sep) ps → split sep (join sep ps) ≡ ps
  unfolding join
  split-join [] ne h = absurd (ne refl)
  split-join (p ∷ []) ne h = split_lacking p h.0
  split-join (p ∷ q ∷ ps) ne h =
      split-append p (join sep (q ∷ ps)) h.0 ∙ ap (λ r. p ∷ r) (split-join (q ∷ ps) (λ e. cc) h.1)
