-- ===== src/Ennx/Trials/Leaf.antt =====
-- `EncodingType` and `Leaf` of rust/crates/ennx/src/trials.rs.
use Prim.Native.String.{String}
use ennbo.Prelude.{ℕ, ◌+◌, ◌/◌, ◌%◌, Bool, ◌||◌, ◌&&◌, not, Option, none, some, ◌==◌, if◌then◌else◌}
use ennbo.Prelude.{Result, ok, err, ◌>>=◌, ◌>>◌, fail_if}
use text.Mathlib.Text.{◌==◌ as str_eq}
use ennbo.Ennx.Float.{is_finite, le_zero}

pub data EncodingType : Type 0 where
  int4 int8 fp4_e2m1 fp8_e4m3 fp8_e5m2 : EncodingType

pub data TrialError : Type 0 where
  unsupported_encoding leaf_length_zero : TrialError
  leaf_bits : ℕ → TrialError
  scale_not_positive weight_not_positive radius_not_positive : TrialError
  no_leaves leaf_offset parameter_overflow row_overflow layout_too_large : TrialError
  base_not_finite capacity_range base_row_length : TrialError
  pending_before_ask no_seeds neighbor_count length_bad epistemic_bad aleatoric_bad : TrialError
  y_scale_bad beta_bad no_free_slot value_not_finite : TrialError
  row_not_materialized wrong_trial nothing_pending : TrialError
  history_pending history_empty history_too_long history_overflow history_bytes : TrialError
  no_slots resolve_failed resolved_bytes : TrialError
  regions_zero candidate_overflow seed_count : TrialError
  region_centers center_order center_depth center_bounds : TrialError
  -- An index out of range, where the code panics.
  panicked : TrialError

-- One of the two texts.
abbrev either : String → String → String → Bool
either s a b = str_eq s a || str_eq s b

-- `EncodingType::parse`; `mode` is given trimmed and in lower case.
unfoldable pub parse : ℕ → Option String → Result TrialError EncodingType
parse bits none =
    if bits == 4 then ok int4 else (if bits == 8 then ok int8 else err unsupported_encoding)
parse bits (some mode) =
    if bits == 4 && either mode "int" "int4"
    then ok int4
    else (if bits == 8 && either mode "int" "int8"
        then ok int8
        else (if bits == 4 && (str_eq mode "fp4" || either mode "fp4_e2m1" "e2m1")
            then ok fp4_e2m1
            else (if bits == 8 && (str_eq mode "fp8" || either mode "fp8_e4m3" "e4m3")
                then ok fp8_e4m3
                else (if bits == 8 && either mode "fp8_e5m2" "e5m2"
                    then ok fp8_e5m2
                    else err unsupported_encoding))))

pub record Leaf : Type 0 where
  pub offset : ℕ
  pub length : ℕ
  pub bits : ℕ  -- u8
  pub encoding : EncodingType
  pub scale : ℕ  -- f32
  pub weight : ℕ  -- f32
  pub radius : ℕ  -- f32

-- `!value.is_finite() || value <= 0.0`
abbrev pub not_positive : ℕ → Bool
not_positive value = not (is_finite value) || le_zero value

-- `Leaf::new_with_encoding`
unfoldable pub new_with_encoding : Leaf → Result TrialError Leaf
new_with_encoding leaf = do
  fail_if (leaf.length == 0) leaf_length_zero
  fail_if (not (leaf.bits == 4) && not (leaf.bits == 8)) (leaf_bits leaf.bits)
  fail_if (not_positive leaf.scale) scale_not_positive
  fail_if (not_positive leaf.weight) weight_not_positive
  fail_if (not_positive leaf.radius) radius_not_positive
  ok leaf

-- `Leaf::new`
unfoldable pub new_leaf : ℕ → ℕ → ℕ → ℕ → ℕ → ℕ → Result TrialError Leaf
unfolding parse new_with_encoding
new_leaf offset length bits scale weight radius = do
  encoding ← parse bits none
  new_with_encoding (record {
    offset = offset;
    length = length;
    bits = bits;
    encoding = encoding;
    scale = scale;
    weight = weight;
    radius = radius;
  })

-- `Leaf::bytes`; a width other than 4 and 8 is unreachable after construction and panics.
unfoldable pub bytes : Leaf → Option ℕ
bytes leaf =
    if leaf.bits == 4
    then some (leaf.length / 2 + leaf.length % 2)
    else (if leaf.bits == 8 then some leaf.length else none)
