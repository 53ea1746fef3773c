-- ===== src/Ennx/Float.antt =====
-- Tests on `f32` values, which are their 32-bit patterns: sign, eight exponent bits, 23 mantissa bits.
use ennbo.Prelude.{ℕ, ◌+◌, ◌-◌, ◌/◌, ◌%◌, ◌^◌, Bool, ◌||◌, ◌&&◌, not}
use ennbo.Prelude.{◌==◌, ltb, leb, if◌then◌else◌}

-- `f32::is_finite`: the exponent is not all ones.
abbrev pub is_finite : ℕ → Bool
is_finite bits = not (bits / 2 ^ 23 % 256 == 255)

abbrev pub is_nan : ℕ → Bool
is_nan bits = not (is_finite bits) && not (bits % 2 ^ 23 == 0)

-- `x <= 0.0`, where `x` is not a NaN: a zero of either sign, or the sign bit is set.
abbrev pub le_zero : ℕ → Bool
le_zero bits = bits % 2 ^ 31 == 0 || leb (2 ^ 31) bits

-- `x < 0.0`, where `x` is not a NaN.
abbrev pub lt_zero : ℕ → Bool
lt_zero bits = not (bits % 2 ^ 31 == 0) && leb (2 ^ 31) bits

abbrev pub neg_infinity : ℕ
neg_infinity = 0xff80_0000

abbrev pub infinity : ℕ
infinity = 0x7f80_0000

-- A number whose order is that of the values that are no NaN; the two zeros have the same.
unfoldable pub order_key : ℕ → ℕ
order_key bits = if leb (2 ^ 31) bits then 2 ^ 31 - bits % 2 ^ 31 else 2 ^ 31 + bits

-- `x < y` on `f32`; false with a NaN.
unfoldable pub f32_lt : ℕ → ℕ → Bool
f32_lt x y = not (is_nan x) && not (is_nan y) && ltb (order_key x) (order_key y)

-- `x == y` on `f32`; false with a NaN.
unfoldable pub f32_eq : ℕ → ℕ → Bool
f32_eq x y = not (is_nan x) && not (is_nan y) && order_key x == order_key y
