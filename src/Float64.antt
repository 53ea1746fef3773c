-- ===== src/Float64.antt =====
-- `f64` values, which are their 64-bit patterns: tests, orders, and the rounded arithmetic of the
-- hardware as a parameter.
use ennbo.Prelude.{List, ℕ, ◌+◌, ◌-◌, ◌/◌, ◌%◌, ◌^◌, Bool, ◌||◌, ◌&&◌, not}
use ennbo.Prelude.{◌==◌, ltb, if◌then◌else◌}

-- `f64::is_finite`: the exponent is not all ones.
abbrev pub is_finite64 : ℕ → Bool
is_finite64 bits = not (bits / 2 ^ 52 % 2 ^ 11 == 2047)

abbrev pub is_nan64 : ℕ → Bool
is_nan64 bits = not (is_finite64 bits) && not (bits % 2 ^ 52 == 0)

-- `f64::total_cmp` is the order of these numbers: a set sign bit turns the order round.
unfoldable pub total_key : ℕ → ℕ
total_key bits = if ltb bits (2 ^ 63) then bits + 2 ^ 63 else 2 ^ 64 - 1 - bits

-- `<` and `==` on values that are not NaN are the order of these numbers: the zeros are one.
unfoldable pub order_key64 : ℕ → ℕ
unfolding total_key
order_key64 bits = if bits == 2 ^ 63 then total_key 0 else total_key bits

unfoldable pub f64_lt : ℕ → ℕ → Bool
unfolding order_key64
f64_lt x y = not (is_nan64 x) && not (is_nan64 y) && ltb (order_key64 x) (order_key64 y)

unfoldable pub f64_eq : ℕ → ℕ → Bool
unfolding order_key64
f64_eq x y = not (is_nan64 x) && not (is_nan64 y) && order_key64 x == order_key64 y

unfoldable pub f64_le : ℕ → ℕ → Bool
unfolding f64_lt f64_eq
f64_le x y = f64_lt x y || f64_eq x y

abbrev pub neg_infinity64 : ℕ
neg_infinity64 = 0xfff0_0000_0000_0000

abbrev pub infinity64 : ℕ
infinity64 = 0x7ff0_0000_0000_0000

pub record F64 : Type 0 where
  pub of_u64 : ℕ → ℕ  -- `n as f64`
  pub to_i32 : ℕ → ℕ  -- `x as i32`, for the values that are not negative
  pub add : ℕ → ℕ → ℕ
  pub sub : ℕ → ℕ → ℕ
  pub mul : ℕ → ℕ → ℕ
  pub div : ℕ → ℕ → ℕ
  pub min64 : ℕ → ℕ → ℕ  -- `f64::min`
  pub max64 : ℕ → ℕ → ℕ  -- `f64::max`
  pub clamp01 : ℕ → ℕ  -- `x.clamp(0.0, 1.0)`
  pub sqrt : ℕ → ℕ
  pub ln : ℕ → ℕ
  pub ceil : ℕ → ℕ
  pub cos : ℕ → ℕ
  pub clamp : ℕ → ℕ → ℕ → ℕ  -- `x.clamp(least, greatest)`
  pub square : ℕ → ℕ  -- `x.powi(2)`
  pub sum : List ℕ → ℕ  -- `Iterator::sum`
  pub mean : ℕ → List ℕ → ℕ  -- `mean` of a list that is not empty, given by its head and tail

abbrev pub half64 : ℕ
half64 = 0x3fe0_0000_0000_0000

abbrev pub one64 : ℕ
one64 = 0x3ff0_0000_0000_0000

abbrev pub two64 : ℕ
two64 = 0x4000_0000_0000_0000
