-- ===== src/Bpann/Distance.antt =====
-- rust/crates/bpann/src/distance.rs: the squared distance of `f32` rows, in eight lanes.
use ennbo.Prelude.{ℕ, zero, suc, List, [], ◌∷◌, length, take, drop, replicate, leb}
use ennbo.Prelude.{if◌then◌else◌}
use ennbo.Bpann.Floats.{Floats}

abbrev pub lanes : ℕ
lanes = 8

-- `chunks_exact(LANES)` and its remainder; a chunk takes at least one of the `fuel` entries.
abbrev pub chunks_exact : ℕ → List ℕ → List (List ℕ) × List ℕ
chunks_exact zero xs = ([], xs)
chunks_exact (suc fuel) xs =
    let (chunks, rest) = chunks_exact fuel (drop lanes xs) in
    if leb lanes (length xs) then (take lanes xs ∷ chunks, rest) else ([], xs)

module _ (f : Floats) where
  -- `acc + (x - y) * (x - y)`
  abbrev pub add_square : ℕ → ℕ → ℕ → ℕ
  add_square acc x y = let d = f.sub x y in f.add acc (f.mul d d)

  -- `acc.iter_mut().zip(ca).zip(cb)`
  abbrev pub add_lanes : List ℕ → List ℕ → List ℕ → List ℕ
  add_lanes [] xs ys = []
  add_lanes (a ∷ acc) [] ys = a ∷ acc
  add_lanes (a ∷ acc) (x ∷ xs) [] = a ∷ acc
  add_lanes (a ∷ acc) (x ∷ xs) (y ∷ ys) = add_square a x y ∷ add_lanes acc xs ys

  abbrev pub add_chunks : List ℕ → List (List ℕ) → List (List ℕ) → List ℕ
  add_chunks acc [] yss = acc
  add_chunks acc (xs ∷ xss) [] = acc
  add_chunks acc (xs ∷ xss) (ys ∷ yss) = add_chunks (add_lanes acc xs ys) xss yss

  abbrev pub add_rest : ℕ → List ℕ → List ℕ → ℕ
  add_rest sum [] ys = sum
  add_rest sum (x ∷ xs) [] = sum
  add_rest sum (x ∷ xs) (y ∷ ys) = add_rest (add_square sum x y) xs ys

  unfoldable pub l2_sq_f32 : List ℕ → List ℕ → ℕ
  l2_sq_f32 a b =
      let (a_chunks, a_rest) = chunks_exact (length a) a in
      let (b_chunks, b_rest) = chunks_exact (length b) b in
      add_rest (f.sum (add_chunks (replicate lanes 0) a_chunks b_chunks)) a_rest b_rest
