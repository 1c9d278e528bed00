-- ===== src/Query/Bfs/Rules.antt =====
-- The invariant rule of the loop, and that a falling measure below the fuel ends it.
use mathlib.Core.Path.{◌≡◌}
use known.Prelude.{
  ℕ, zero, suc, ◌<◌, subst, inl, inr, Option, none, some, Option-cases, Result, ok, Result-cases,
  arith,
}
use known.Query.Bfs.{returned, Turn, next, stop, loop}

returned-injective : {A : Type 0} {a b : A} → returned a ≡ returned b → a ≡ b
returned-injective e = cc e

module _ {S I R : Type 0} (pop : S → Option (I × S)) (turn : I → S → Result (Turn S R)) where
  -- What holds after a round.
  abbrev pub After : (S → Type 0) → (R → Type 0) → Turn S R → Type 0
  After P Q (next s) = P s
  After P Q (stop r) = Q r

  -- What holds after the loop: its test has failed, or it was left by a `return`.
  abbrev pub Ended : (S → Type 0) → (R → Type 0) → Turn S R → Type 0
  Ended P Q (next s) = P s × (pop s ≡ none)
  Ended P Q (stop r) = Q r

  pub loop_rule :
      (P : S → Type 0) (Q : R → Type 0)
      → ((s s' : S) (i : I) (t : Turn S R)
          → pop s ≡ some (i, s')
          → P s
          → turn i s' ≡ ok t
          → After P Q t)
      → (fuel : ℕ) (s : S) (t : Turn S R) → P s
      → loop pop turn fuel s ≡ returned t
      → Ended P Q t
  unfolding loop
  loop_rule P Q keep zero s t p h = cc
  loop_rule P Q keep (suc fuel) s t p h = elim (Option-cases (pop s)) [
    | inl empty ↦ subst (Ended P Q) (returned-injective (rw (empty, loop) at h)) (p, empty)
    | inr ((i, s'), e) ↦ elim (Result-cases (turn i s')) [
      | inl (next u, k) ↦
          loop_rule P Q keep fuel u t (keep s s' i (next u) e p k) (rw (e, k, loop) at h)
      | inl (stop r, k) ↦
          subst (Ended P Q) (returned-injective (rw (e, k, loop) at h)) (keep s s' i (stop r) e p k)
      | inr (x, k) ↦ cc (rw (e, k, loop) at h)
    ]
  ]

  -- After a round that does not leave the loop the measure is lower.
  abbrev pub Falls : (S → Type 0) → (S → ℕ) → S → Turn S R → Type 0
  Falls P measure s (next u) = P u × (measure u < measure s)
  Falls P measure s (stop r) = Unit

  abbrev Returns : ℕ → S → Type 0
  Returns fuel s = (t : Turn S R) × (loop pop turn fuel s ≡ returned t)

  round-Returns :
      (P : S → Type 0) (measure : S → ℕ) (fuel : ℕ) (s s' : S) (i : I) (t : Turn S R)
      → pop s ≡ some (i, s')
      → turn i s' ≡ ok t
      → Falls P measure s t
      → measure s < suc fuel
      → ((u : S) → P u → measure u < fuel → Returns fuel u)
      → Returns (suc fuel) s
  unfolding loop
  round-Returns P measure fuel s s' i (next u) e k (q, lower) m rest =
      let (t, done) = rest u q (omega arith) in (t, rw (e, k, loop) done)
  round-Returns P measure fuel s s' i (stop r) e k f m rest = (stop r, rw (e, k, loop))

  pub loop_returns :
      (P : S → Type 0) (measure : S → ℕ)
      → ((s s' : S) (i : I)
          → pop s ≡ some (i, s')
          → P s
          → (t : Turn S R) × (turn i s' ≡ ok t) × Falls P measure s t)
      → (fuel : ℕ) (s : S) → P s
      → measure s < fuel
      → (t : Turn S R) × (loop pop turn fuel s ≡ returned t)
  unfolding loop
  loop_returns P measure keep zero s p m = absurd (omega arith)
  loop_returns P measure keep (suc fuel) s p m = elim (Option-cases (pop s)) [
    | inl empty ↦ (next s, rw (empty, loop))
    | inr ((i, s'), e) ↦
        let (t, k, f) = keep s s' i e p in
        round-Returns P measure fuel s s' i t e k f m
          (λ u q l. loop_returns P measure keep fuel u q l)
  ]
