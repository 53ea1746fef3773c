-- ===== src/Ennx/Trials/Decode.antt =====
-- The decoders of trials.rs. Rounded `f32` arithmetic is a parameter: values are bit patterns and
-- `F32` holds the operations of the hardware that the code calls.
use ennbo.Prelude.{ℕ, ◌+◌, ◌*◌, ◌/◌, ◌%◌, ◌^◌, List, [], ◌∷◌, ◌==◌, ◌&&◌, if◌then◌else◌, get_or}
use ennbo.Ennx.Trials.Leaf.{EncodingType, int4, int8, fp4_e2m1, fp8_e4m3, fp8_e5m2}
use ennbo.Ennx.Float.{infinity}

pub record F32 : Type 0 where
  pub of_u32 : ℕ → ℕ  -- `n as f32`
  pub to_u32 : ℕ → ℕ  -- `x as u32`
  pub add : ℕ → ℕ → ℕ
  pub sub : ℕ → ℕ → ℕ
  pub mul : ℕ → ℕ → ℕ
  pub div : ℕ → ℕ → ℕ
  pub mul_add : ℕ → ℕ → ℕ → ℕ  -- `a.mul_add(b, c)`
  pub max_f32 : ℕ → ℕ → ℕ  -- `f32::max`
  pub clamp : ℕ → ℕ → ℕ → ℕ  -- `x.clamp(low, high)`
  pub floor : ℕ → ℕ
  pub sqrt : ℕ → ℕ

abbrev pub one : ℕ
one = 0x3f80_0000

abbrev pub minus_one : ℕ
minus_one = 0xbf80_0000

abbrev pub nan : ℕ
nan = 0x7fc0_0000

-- `(2.0f32).powi(e)`, for the biased exponent `e + 127`.
abbrev power_of_two : ℕ → ℕ
power_of_two biased = biased * 2 ^ 23

abbrev pub fp4_e2m1_lut : List ℕ
fp4_e2m1_lut =
    0 ∷ 0x3f00_0000 ∷ 0x3f80_0000 ∷ 0x3fc0_0000 ∷ 0x4000_0000 ∷ 0x4040_0000 ∷ 0x4080_0000
    ∷ 0x40c0_0000 ∷ 0x8000_0000 ∷ 0xbf00_0000 ∷ 0xbf80_0000 ∷ 0xbfc0_0000 ∷ 0xc000_0000
    ∷ 0xc040_0000 ∷ 0xc080_0000 ∷ 0xc0c0_0000 ∷ []

module _ (f : F32) where
  unfoldable pub decode_fp8_e4m3 : ℕ → ℕ
  decode_fp8_e4m3 byte =
      let sign = if byte / 128 % 2 == 0 then one else minus_one in
      let exp = byte / 8 % 16 in
      let mant = byte % 8 in
      let part = f.div (f.of_u32 mant) 0x4100_0000 in
      if exp == 0
      then f.mul (f.mul sign part) (power_of_two 121)
      else (if (exp == 15) && (mant == 7)
          then nan
          else f.mul (f.mul sign (f.add one part)) (power_of_two (exp + 120)))

  unfoldable pub decode_fp8_e5m2 : ℕ → ℕ
  decode_fp8_e5m2 byte =
      let sign = if byte / 128 % 2 == 0 then one else minus_one in
      let exp = byte / 4 % 32 in
      let mant = byte % 4 in
      let part = f.div (f.of_u32 mant) 0x4080_0000 in
      if exp == 0
      then f.mul (f.mul sign part) (power_of_two 113)
      else (if exp == 31
          then (if mant == 0 then f.mul sign infinity else nan)
          else f.mul (f.mul sign (f.add one part)) (power_of_two (exp + 112)))

  unfoldable pub decode_code : ℕ → EncodingType → ℕ → ℕ
  unfolding decode_fp8_e4m3 decode_fp8_e5m2
  decode_code code int4 scale = f.mul (f.of_u32 code) scale
  decode_code code int8 scale = f.mul (f.of_u32 code) scale
  decode_code code fp4_e2m1 scale = f.mul (get_or fp4_e2m1_lut (code % 16) 0) scale
  decode_code code fp8_e4m3 scale = f.mul (decode_fp8_e4m3 (code % 256)) scale
  decode_code code fp8_e5m2 scale = f.mul (decode_fp8_e5m2 (code % 256)) scale
