-- ===== src/Ennx/Trials/Perturb.antt =====
-- `hash` and `perturb` of trials.rs, and `Step` of trials/layout.rs.
pub mod Range
use Prim.Native.Nat.{bit_xor}
use ennbo.Prelude.{ℕ, ◌+◌, ◌-◌, ◌*◌, ◌/◌, ◌%◌, ◌^◌, min, ◌==◌, ltb, leb, if◌then◌else◌}

pub record Step : Type 0 where
  pub byte_offset : ℕ
  pub element_offset : ℕ
  pub length : ℕ
  pub bits : ℕ
  pub encoding : ℕ
  pub scale : ℕ
  pub weight : ℕ
  pub whole : ℕ
  pub threshold : ℕ

abbrev pub wrapping_mul32 : ℕ → ℕ → ℕ
wrapping_mul32 a b = a * b % 2 ^ 32

abbrev pub wrapping_add32 : ℕ → ℕ → ℕ
wrapping_add32 a b = (a + b) % 2 ^ 32

-- `a ^ (a >> k)`
abbrev xor_shift : ℕ → ℕ → ℕ
xor_shift a k = bit_xor a (a / 2 ^ k)

-- `seed` has 64 bits, `element` has 32.
unfoldable pub hash : ℕ → ℕ → ℕ
hash seed element =
    let mixed = bit_xor (seed % 2 ^ 32) (wrapping_mul32 element 0x9e37_79b9) in
    let once = wrapping_mul32 (xor_shift mixed 16) 0x7feb_352d in
    let twice = wrapping_mul32 (bit_xor once (seed / 2 ^ 32)) 0x846c_a68b in xor_shift twice 15

-- The random word is a number of its own, as `hash` gives it.
unfoldable pub move_code : ℕ → ℕ → Step → ℕ
move_code code random step =
    let sign = random % 2 in
    let extra = if ltb (random / 2) (step.threshold / 2) then 1 else 0 in
    let amount = wrapping_add32 step.whole extra in
    let max_code = 2 ^ step.bits - 1 in
    let up = wrapping_add32 code amount in
    if amount == 0
    then code
    else (if sign == 0
        then (if leb amount code then code - amount else min up max_code)
        else (if leb up max_code then up else code - amount))

unfoldable pub perturb : ℕ → ℕ → ℕ → Step → ℕ
perturb code seed element step = move_code code (hash seed element) step
