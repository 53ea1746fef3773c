-- ===== src/Ennx/Forward/Linear/Sizes.antt =====
-- What `KdaPackedLinear::validate` accepts, and the sizes of an accepted layer.
use ennbo.Prelude.{
  ◌==◌, if◌then◌else◌, ℕ, ◌+◌, ◌*◌, ◌/◌, ◌%◌, ◌^◌, ◌≤◌, ◌<◌, ◌≡◌, refl, ◌↔◌, ◌⊎◌, inl, inr, arith,
}
use ennbo.Prelude.{List, [], ◌∷◌, All, Result-cases, ok}
use ennbo.Ennx.Forward.Linear.{KdaPackedLinear, validate_linear, validate_linears, packed_bytes}
use ennbo.Ennx.Forward.Linear.{PackedAffinePlan, validate_affine}

pub record IsLinear (l : KdaPackedLinear) : Type 0 where
  pub has_input : 1 ≤ l.input_width
  pub has_output : 1 ≤ l.output_width
  pub has_group : 1 ≤ l.group_size
  pub packed : (l.bits ≡ 4) ⊎ (l.bits ≡ 8)

pub validate_linear_iff : (l : KdaPackedLinear) → (validate_linear l ≡ ok tt) ↔ IsLinear l
unfolding validate_linear
validate_linear_iff l = (λ h. ground arith, λ v. ground arith)

pub validate_linears_iff :
    (ls : List KdaPackedLinear) → (validate_linears ls ≡ ok tt) ↔ All IsLinear ls
unfolding validate_linears
validate_linears_iff [] = (λ h. tt, λ h. refl)
validate_linears_iff (l ∷ ls) = elim (Result-cases (validate_linear l)) [
  | inl (tt, e) ↦ (
    λ h. ((validate_linear_iff l).0 e, (validate_linears_iff ls).0 (rw e at h)),
    λ v. rw e ((validate_linears_iff ls).1 v.1),
  )
  | inr (x, e) ↦ (λ h. absurd (cc (rw e at h)), λ v. absurd (cc ((validate_linear_iff l).1 v.0)))
]

-- What `PackedAffinePlan::validate` accepts for a layer.
pub record IsAffine (a : PackedAffinePlan) (l : KdaPackedLinear) : Type 0 where
  pub linear : IsLinear l
  pub tokens : 1 ≤ a.token_tile
  pub outputs : 1 ≤ a.output_tile
  pub inputs : 1 ≤ a.input_tile
  pub threads : 1 ≤ a.threads_per_group
  pub divides : l.input_width % a.input_tile ≡ 0

pub validate_affine_iff :
    (a : PackedAffinePlan) (l : KdaPackedLinear) → (validate_affine a l ≡ ok tt) ↔ IsAffine a l
unfolding validate_affine
validate_affine_iff a l = elim (Result-cases (validate_linear l)) [
  | inl (tt, e) ↦
      let v : IsLinear l = (validate_linear_iff l).0 e in (λ h. ground arith, λ w. ground arith)
  | inr (x, e) ↦ (λ h. ground arith, λ w. absurd (cc ((validate_linear_iff l).1 w.linear)))
]

-- `n.div_ceil(8)`
abbrev bytes_for : ℕ → ℕ
bytes_for n = n / 8 + (if n % 8 == 0 then 0 else 1)

bytes_for_bounds : (n : ℕ) → (n ≤ 8 * bytes_for n) × (8 * bytes_for n ≤ n + 7)
bytes_for_bounds n = ground arith

bytes_for-mul : (n : ℕ) → bytes_for (n * 8) ≡ n
bytes_for-mul n = ground arith

le-mul_pos : (a b : ℕ) → 1 ≤ b → a ≤ a * b
le-mul_pos a b h = grind arith

mul_le : (a b c : ℕ) → a ≤ b → a * c ≤ b * c
mul_le a b c h = grind arith

mod_self : (n : ℕ) → n < 2 ^ 64 → n % 2 ^ 64 ≡ n
mod_self n h = omega arith

-- Without overflow, no product of `packed_bytes` wraps.
packed_bytes-exact :
    (l : KdaPackedLinear)
    → 1 ≤ l.output_width
    → (l.input_width * l.bits + 7) * l.output_width < 2 ^ 64
    → packed_bytes l ≡ bytes_for (l.input_width * l.bits) * l.output_width
unfolding packed_bytes
packed_bytes-exact l v h =
    let bits = l.input_width * l.bits in
    let few : bits < 2 ^ 64 = omega (arith, le-mul_pos (bits + 7) l.output_width v) in
    let small : bytes_for bits * l.output_width < 2 ^ 64 = omega (
      arith,
      (bytes_for_bounds bits).1,
      mul_le (8 * bytes_for bits) (bits + 7) l.output_width (bytes_for_bounds bits).1,
    ) in
    rw (mod_self bits few) (mod_self (bytes_for bits * l.output_width) small)

-- For an accepted layer whose total of bits does not overflow, `packed_bytes` gives every row whole
-- bytes: enough for the row's weights, and less than one byte more for each row. With 8 bits it is
-- one byte for each weight.
pub packed_bytes_bounds :
    (l : KdaPackedLinear)
    → validate_linear l ≡ ok tt
    → (l.input_width * l.bits + 7) * l.output_width < 2 ^ 64
    → (l.input_width * l.bits * l.output_width ≤ 8 * packed_bytes l)
      × (8 * packed_bytes l ≤ (l.input_width * l.bits + 7) * l.output_width)
      × (l.bits ≡ 8 → packed_bytes l ≡ l.input_width * l.output_width)
packed_bytes_bounds l valid h =
    let v : IsLinear l = (validate_linear_iff l).0 valid in
    let bits = l.input_width * l.bits in
    let exact = packed_bytes-exact l v.has_output h in
    let (lo, hi) = bytes_for_bounds bits in
    (
      omega (arith, exact, mul_le bits (8 * bytes_for bits) l.output_width lo),
      omega (arith, exact, mul_le (8 * bytes_for bits) (bits + 7) l.output_width hi),
      λ e. rw (exact, e, bytes_for-mul l.input_width),
    )
