-- ===== src/Query/Bfs.antt =====
-- The `for len(queue) > 0` loop that Traverse, FindPath and expandFromEntry share, on fuel.
pub mod Rules
pub mod Runs
use known.Prelude.{
  ℕ, zero, suc, Bool, true, false, Option, none, some, Error, Result, ok, err, wrap,
}
use Prim.Native.String.{String}

-- The outcome of a computation that may fail, or run out of fuel.
pub data Run {ℓ} (A : Type ℓ) : Type ℓ where
  returned : A → Run A
  failed : Error → Run A
  out_of_fuel : Run A

infixl 5 ◌>>=◌
abbrev pub ◌>>=◌ {ℓ κ} : {A : Type ℓ} {B : Type κ} → Run A → (A → Run B) → Run B
returned a >>= f = f a
failed e >>= f = failed e
out_of_fuel >>= f = out_of_fuel

abbrev pub lift {ℓ} : {A : Type ℓ} → Result A → Run A
lift (ok a) = returned a
lift (err e) = failed e

-- `fmt.Errorf("…: %w", err)` on the way out.
abbrev pub in_context {ℓ} : {A : Type ℓ} → String → Run A → Run A
in_context m (returned a) = returned a
in_context m (failed e) = failed (wrap m e)
in_context m out_of_fuel = out_of_fuel

-- A round goes on from a new state, or leaves the loop by a `return`.
pub data Turn (S R : Type 0) : Type 0 where
  next : S → Turn S R
  stop : R → Turn S R

-- `pop` takes the head of the queue off a state, `turn` is the body of the loop.
module _ {S I R : Type 0} (pop : S → Option (I × S)) (turn : I → S → Result (Turn S R)) where
  unfoldable pub loop : ℕ → S → Run (Turn S R)
  loop zero s = out_of_fuel
  loop (suc fuel) s = elim (pop s) [
    | none ↦ returned (next s)
    | some (i, s') ↦ elim (turn i s') [
      | ok (next u) ↦ loop fuel u
      | ok (stop r) ↦ returned (stop r)
      | err e ↦ failed e
    ]
  ]
