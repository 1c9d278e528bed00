-- ===== src/Query/Bfs/Runs.antt =====
-- Inversion of runs that return.
use Prim.Native.String.{String}
use mathlib.Core.Path.{◌≡◌}
use known.Prelude.{refl, ◌⊎◌, inl, inr, Error, Result, ok, err}
use known.Query.Bfs.{Run, returned, failed, out_of_fuel, ◌>>=◌, lift, in_context}

pub bind-eq-returned :
    {A B : Type 0} (m : Run A) (f : A → Run B) {b : B}
    → (m >>= f) ≡ returned b
    → (a : A) × (m ≡ returned a) × (f a ≡ returned b)
bind-eq-returned (returned a) f h = (a, refl, h)
bind-eq-returned (failed e) f h = cc
bind-eq-returned out_of_fuel f h = cc

pub lift-eq-returned : {A : Type 0} (r : Result A) {a : A} → lift r ≡ returned a → r ≡ ok a
lift-eq-returned (ok x) h = cc
lift-eq-returned (err e) h = cc

pub in_context-eq-returned :
    {A : Type 0} (m : String) (r : Run A) {a : A} → in_context m r ≡ returned a → r ≡ returned a
in_context-eq-returned m (returned x) h = h
in_context-eq-returned m (failed e) h = cc
in_context-eq-returned m out_of_fuel h = cc

pub Run-cases :
    {A : Type 0} (r : Run A)
    → ((a : A) × (r ≡ returned a)) ⊎ (((e : Error) × (r ≡ failed e)) ⊎ (r ≡ out_of_fuel))
Run-cases (returned a) = inl (a, refl)
Run-cases (failed e) = inr (inl (e, refl))
Run-cases out_of_fuel = inr (inr refl)
