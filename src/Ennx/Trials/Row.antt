-- ===== src/Ennx/Trials/Row.antt =====
-- `make_steps` of trials/layout.rs and the row routines of trials.rs: `materialize` and
-- `trial_distance`. An index out of range, where the code panics, is `none`.
use Prim.Native.Nat.{bit_or}
use ennbo.Prelude.{◌>>?◌}
use ennbo.Prelude.{ℕ, zero, suc, ◌+◌, ◌-◌, ◌*◌, ◌/◌, ◌%◌, ◌^◌, Option, some, ◌==◌}
use ennbo.Prelude.{List, [], ◌∷◌, length, get_elem?, set, replicate, if◌then◌else◌, as_u32}
use ennbo.Ennx.Trials.Leaf.{Leaf, EncodingType, bytes, int4, int8, fp4_e2m1, fp8_e4m3, fp8_e5m2}
use ennbo.Ennx.Trials.Decode.{F32, decode_code}
use ennbo.Ennx.Trials.Perturb.{Step, perturb, wrapping_add32}

-- `leaf.encoding as u32`
abbrev encoding_number : EncodingType → ℕ
encoding_number int4 = 0
encoding_number int8 = 1
encoding_number fp4_e2m1 = 2
encoding_number fp8_e4m3 = 3
encoding_number fp8_e5m2 = 4

-- The code of element `element` of a leaf at `byte_offset`, and where it stands.
abbrev pub code_byte : Leaf → ℕ → ℕ → ℕ
code_byte leaf byte_offset element =
    if leaf.bits == 4 then byte_offset + element / 2 else byte_offset + element

abbrev pub code_shift : ℕ → ℕ
code_shift element = element % 2 * 4

-- The code in the byte: `(byte >> shift) & 0x0f` or the byte.
abbrev pub read_code : Leaf → ℕ → ℕ → ℕ
read_code leaf element byte = if leaf.bits == 4 then byte / 2 ^ code_shift element % 16 else byte

-- The byte with the new code: `byte | (value as u8) << shift` or the value.
abbrev pub write_code : Leaf → ℕ → ℕ → ℕ → ℕ
write_code leaf element byte value =
    if leaf.bits == 4 then bit_or byte (value % 256 * 2 ^ code_shift element % 256) else value % 256

-- The new code of an element.
abbrev pub moved_code : Leaf → Step → ℕ → ℕ → ℕ → ℕ
moved_code leaf step seed element byte =
    perturb (read_code leaf element byte) seed
      (wrapping_add32 (as_u32 leaf.offset) (as_u32 element)) step

-- `for element in element..element + count`
unfoldable pub materialize_leaf : ℕ → ℕ → List ℕ → Leaf → Step → ℕ → List ℕ → Option (List ℕ)
materialize_leaf zero element base leaf step seed row = some row
materialize_leaf (suc count) element base leaf step seed row =
    let at_byte = code_byte leaf step.byte_offset element in
    get_elem? base at_byte >>? λ byte. get_elem? row at_byte >>? λ old.
    materialize_leaf count (suc element) base leaf step seed
      (set row at_byte (write_code leaf element old (moved_code leaf step seed element byte)))

-- `leaves.iter().zip(steps)`; another width than 4 and 8 panics.
unfoldable pub materialize_leaves : List Leaf → List Step → List ℕ → ℕ → List ℕ → Option (List ℕ)
materialize_leaves [] steps base seed row = some row
materialize_leaves (leaf ∷ leaves) [] base seed row = some row
materialize_leaves (leaf ∷ leaves) (step ∷ steps) base seed row = bytes leaf >>? λ width.
    materialize_leaf leaf.length 0 base leaf step seed row >>? λ row'.
    materialize_leaves leaves steps base seed row'

unfoldable pub materialize : List ℕ → List Leaf → List Step → ℕ → Option (List ℕ)
materialize base leaves steps seed =
    materialize_leaves leaves steps base seed (replicate (length base) 0)

module _ (f : F32) where
  unfoldable pub make_step : Leaf → ℕ → ℕ → Step
  make_step leaf byte_offset length =
      let max_code = 2 ^ leaf.bits - 1 in
      let amplitude = f.clamp (f.div (f.mul length leaf.radius) leaf.scale) 0 (f.of_u32 max_code) in
      let whole = f.to_u32 (f.floor amplitude) in
      record {
        byte_offset = as_u32 byte_offset;
        element_offset = as_u32 leaf.offset;
        length = as_u32 leaf.length;
        bits = leaf.bits;
        encoding = encoding_number leaf.encoding;
        scale = leaf.scale;
        weight = leaf.weight;
        whole = whole;
        threshold =
            if whole == max_code
            then 0
            else f.to_u32 (f.mul (f.sub amplitude (f.of_u32 whole)) (f.of_u32 (2 ^ 32 - 1)));
      }

  -- The closure of `make_steps`, from a byte offset; the panic of `bytes` is `none`.
  unfoldable pub make_steps_from : List Leaf → ℕ → ℕ → Option (List Step)
  make_steps_from [] byte_offset length = some []
  make_steps_from (leaf ∷ leaves) byte_offset length = bytes leaf >>? λ width.
      make_steps_from leaves (byte_offset + width) length >>? λ steps.
      some (make_step leaf byte_offset length ∷ steps)

  unfoldable pub make_steps : List Leaf → ℕ → Option (List Step)
  make_steps leaves length = make_steps_from leaves 0 length

  unfoldable pub leaf_distance : ℕ → ℕ → List ℕ → List ℕ → Leaf → Step → ℕ → ℕ → Option ℕ
  leaf_distance zero element base observation leaf step seed distance = some distance
  leaf_distance (suc count) element base observation leaf step seed distance =
      let at_byte = code_byte leaf step.byte_offset element in
      get_elem? base at_byte >>? λ byte. get_elem? observation at_byte >>? λ observed.
      let candidate_val =
        decode_code f (moved_code leaf step seed element byte) leaf.encoding leaf.scale in
      let observed_val = decode_code f (read_code leaf element observed) leaf.encoding leaf.scale in
      let delta = f.sub candidate_val observed_val in
      leaf_distance count (suc element) base observation leaf step seed
        (f.mul_add delta (f.mul delta leaf.weight) distance)

  unfoldable pub leaves_distance : List Leaf → List Step → List ℕ → List ℕ → ℕ → ℕ → Option ℕ
  leaves_distance [] steps base observation seed distance = some distance
  leaves_distance (leaf ∷ leaves) [] base observation seed distance = some distance
  leaves_distance (leaf ∷ leaves) (step ∷ steps) base observation seed distance =
      leaf_distance leaf.length 0 base observation leaf step seed distance >>? λ distance'.
      leaves_distance leaves steps base observation seed distance'

  unfoldable pub trial_distance : List ℕ → List ℕ → List Leaf → List Step → ℕ → Option ℕ
  trial_distance base observation leaves steps seed =
      leaves_distance leaves steps base observation seed 0
