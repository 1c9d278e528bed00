-- ===== src/Fixture/Floats.antt =====
-- A toy arithmetic in thousandths, without NaN: its product is the smaller factor.
use mathlib.Core.Path.{◌≡◌}
use known.Prelude.{
  ℕ, ◌+◌, ◌-◌, ◌*◌, ◌/◌, true, false, min, ◌⊎◌, inl, inr, refl, arith, ltb, ◌==◌, Bool-cases,
}
use known.Prelude.Float.{FloatOps}

pub less_irrefl : (a : ℕ) → ltb a a ≡ false
less_irrefl a = ground arith

pub less_trans : (a b c : ℕ) → ltb a b ≡ true → ltb b c ≡ true → ltb a c ≡ true
less_trans a b c h k = ground arith

pub less_split : (a b c : ℕ) → ltb a c ≡ true → (ltb a b ≡ true) ⊎ (ltb b c ≡ true)
less_split a b c h = elim (Bool-cases (ltb a b)) [ inl e ↦ inl e | inr e ↦ inr (ground arith) ]

pub not_nan : {P : Type 0} → false ≡ true → P
not_nan h = cc h

pub min_shrinks : (a b : ℕ) → ltb a (min a b) ≡ false
min_shrinks a b = ground arith

pub above_zero : (a : ℕ) → ltb a 0 ≡ false
above_zero a = ground arith

abbrev pub thousandths : FloatOps
thousandths = record {
  lt = ltb;
  eq = ◌==◌;
  add = ◌+◌;
  sub = ◌-◌;
  mul = min;
  div = λ a b. a * 1000 / b;
  abs = λ a. a;
  exp = λ a. 1000;
  neg = λ a. a;
  of_int = λ n. n * 1000;
  decimal = λ n d. n * 1000 / d;
  ln2 = 693;
  is_nan = λ a. false;
  zero_lt_one = refl;
  lt_irrefl = less_irrefl;
  lt_trans = less_trans;
  lt_split = λ a b c n h. less_split a b c h;
  lt-nan = λ a b h. not_nan h;
  mul-nan = λ a b h. not_nan h;
  mul_shrinks = λ a b h k. min_shrinks a b;
  mul_nonneg = λ a b h k. above_zero (min a b);
}
