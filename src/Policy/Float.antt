-- ===== src/Policy/Float.antt =====
-- The floating-point numbers of the policy: what it computes with, and the documented behaviour
-- that the theorems rely on.
use fieldwatchai_comms_openk.Prelude.{ℕ, ◌*◌, ◌/◌, ◌≤◌, ◌≡◌, Bool, true, arith, leb, leb→le}

-- `float64`, its product and its `>=`; `tenths n` is the literal n / 10.
pub record Float64 : Type 1 where
  pub F : Type 0
  pub tenths : ℕ → F
  pub mul : F → F → F
  pub ge : F → F → Bool

-- From 0 to 1, NaN excluded.
abbrev pub InUnit : (f : Float64) → f.F → Type 0
InUnit f s = (f.ge s (f.tenths 0) ≡ true) × (f.ge (f.tenths 10) s ≡ true)

-- IEEE 754: the order of the numbers, false of a NaN on either side, and the products of numbers
-- from 0 to 1, where rounding keeps the order and 1 is neutral.
pub record IsFloat64 (f : Float64) : Type 0 where
  pub ge_trans : (a b c : f.F) → f.ge a b ≡ true → f.ge b c ≡ true → f.ge a c ≡ true
  pub tenths_ge : (m n : ℕ) → m ≤ n → n ≤ 10 → f.ge (f.tenths n) (f.tenths m) ≡ true
  pub mul_mono :
      (a b c : f.F)
      → InUnit f a
      → InUnit f b
      → InUnit f c
      → f.ge a b ≡ true
      → f.ge (f.mul a c) (f.mul b c) ≡ true
  pub unit_mul : (n : ℕ) → n ≤ 10 → f.mul (f.tenths 10) (f.tenths n) ≡ f.tenths n
  pub mul_shrinks : (a : f.F) (n : ℕ) → n ≤ 10 → InUnit f a → f.ge a (f.mul a (f.tenths n)) ≡ true
  pub mul_nonneg :
      (a : f.F) (n : ℕ) → n ≤ 10 → InUnit f a → f.ge (f.mul a (f.tenths n)) (f.tenths 0) ≡ true

-- Fixed-point numbers of six decimals, which behave so.
abbrev pub millionths : Float64
millionths = record {
  F = ℕ;
  tenths = λ n. n * 100000;
  mul = λ a b. a * b / 1000000;
  ge = λ a b. leb b a;
}

mul_le : (a b c : ℕ) → a ≤ b → a * c ≤ b * c
mul_le a b c h = grind arith

scaled_le : (x y : ℕ) → x ≤ y → leb (x / 1000000) (y / 1000000) ≡ true
scaled_le x y h = ground arith

shrunk_le : (a n : ℕ) → n ≤ 10 → a * (n * 100000) ≤ a * 1000000
shrunk_le a n h = grind arith

shrunk_div : (a x : ℕ) → x ≤ a * 1000000 → leb (x / 1000000) a ≡ true
shrunk_div a x h = ground arith

pub millionths-IsFloat64 : IsFloat64 millionths
millionths-IsFloat64 = record {
  ge_trans = λ a b c p q. ground arith;
  tenths_ge = λ m n h k. ground arith;
  mul_mono = λ a b c u v x p. scaled_le (b * c) (a * c) (mul_le b a c (leb→le b a p));
  unit_mul = λ n h. omega arith;
  mul_shrinks = λ a n h u. shrunk_div a (a * (n * 100000)) (shrunk_le a n h);
  mul_nonneg = λ a n h u. ground arith;
}
