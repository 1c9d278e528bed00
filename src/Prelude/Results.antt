-- ===== src/Prelude/Results.antt =====
-- Go's `(value, error)` results. An error is the text of its format, and `%w` keeps its cause.
use Prim.Native.Nat.{ℕ}
use Prim.Native.String.{String}
use mathlib.Core.Path.{◌≡◌, refl}
use mathlib.Core.Logic.{◌⊎◌, inl, inr}
use mathlib.Core.Bool.{Bool, true, false}

-- What a statement of SQL fails with.
pub data SqlError : Type 0 where
  unique_failed foreign_key_failed check_failed syntax : SqlError

-- storage.ErrNotFound, query.ErrNoEmbedder, storage.ErrDuplicateContent, and the expected and actual
-- version of a ConcurrentModificationError.
pub data Error : Type 0 where
  not_found no_embedder duplicate_content : Error
  concurrent_modification : ℕ → ℕ → Error
  sql : SqlError → Error
  errorf : String → Error
  wrap : String → Error → Error

-- errors.Is(err, storage.ErrNotFound)
unfoldable pub is_not_found : Error → Bool
is_not_found not_found = true
is_not_found no_embedder = false
is_not_found duplicate_content = false
is_not_found (concurrent_modification expected actual) = false
is_not_found (sql e) = false
is_not_found (errorf m) = false
is_not_found (wrap m e) = is_not_found e

pub data Result {ℓ} (A : Type ℓ) : Type ℓ where
  ok : A → Result A
  err : Error → Result A

-- `if cond { return …, err }`
abbrev pub fail_if : Bool → Error → Result (Unit {0})
fail_if true e = err e
fail_if false e = ok tt

-- `if err != nil { return …, fmt.Errorf("…: %w", err) }`
abbrev pub with_context {ℓ} : {A : Type ℓ} → String → Result A → Result A
with_context m (ok a) = ok a
with_context m (err e) = err (wrap m e)

pub Result-cases {ℓ} :
    {A : Type ℓ} (r : Result A) → ((a : A) × (r ≡ ok a)) ⊎ ((e : Error) × (r ≡ err e))
Result-cases (ok a) = inl (a, refl)
Result-cases (err e) = inr (e, refl)

pub with_context-eq-ok {ℓ} :
    {A : Type ℓ} (m : String) (r : Result A) {a : A} → with_context m r ≡ ok a → r ≡ ok a
with_context-eq-ok m (ok a) h = h
with_context-eq-ok m (err e) h = cc

pub ok-injective {ℓ} : {A : Type ℓ} {a b : A} → ok a ≡ ok b → a ≡ b
ok-injective e = cc e

infixl 5 ◌>>=◌ ◌>>◌
abbrev pub ◌>>=◌ {ℓ κ} : {V : Type ℓ} {W : Type κ} → Result V → (V → Result W) → Result W
err e >>= next = err e
ok v >>= next = next v

abbrev pub ◌>>◌ {ℓ κ} : {V : Type ℓ} {W : Type κ} → Result V → Result W → Result W
first >> after = first >>= λ _. after
