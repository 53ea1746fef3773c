-- ===== src/Bpann/Floats.antt =====
-- The rounded arithmetic of the crate, a parameter: an `f32` and an `f64` are their bit patterns.
use ennbo.Prelude.{ℕ, List, [], ◌∷◌, Result, err, ok, ◌>>=◌}

pub record Floats : Type 0 where
  pub of_usize : ℕ → ℕ  -- `n as f32`
  pub add : ℕ → ℕ → ℕ  -- on `f32`
  pub sub : ℕ → ℕ → ℕ
  pub mul : ℕ → ℕ → ℕ
  pub div : ℕ → ℕ → ℕ
  pub sum : List ℕ → ℕ  -- `Iterator::sum`
  pub min : ℕ → ℕ → ℕ  -- `f32::min`
  pub narrow : ℕ → ℕ  -- `x as f32`, from `f64`
  pub of_usize64 : ℕ → ℕ  -- `n as f64`
  pub add64 : ℕ → ℕ → ℕ
  pub div64 : ℕ → ℕ → ℕ
  pub sum_axis : ℕ → List (List ℕ) → List ℕ  -- `x.sum_axis(Axis(0))`, of so many columns

-- `BpannError`; `panicked` is an index out of range or an entry that a map does not have, and
-- `unfinished` is no value of the code: a recursion went deeper than the fuel of a run.
pub data BpannError : Type 0 where
  invalid_shape invalid_parameter panicked unfinished : BpannError

-- `for (j, &v) in row.iter().enumerate() { acc[j] += v }`
unfoldable pub add_row : (ℕ → ℕ → ℕ) → List ℕ → List ℕ → Result BpannError (List ℕ)
add_row plus acc [] = ok acc
add_row plus [] (v ∷ vs) = err panicked
add_row plus (a ∷ acc) (v ∷ vs) = do rest ← add_row plus acc vs; ok (plus a v ∷ rest)

unfoldable pub add_rows : (ℕ → ℕ → ℕ) → List ℕ → List (List ℕ) → Result BpannError (List ℕ)
add_rows plus acc [] = ok acc
add_rows plus acc (row ∷ rows) = do acc' ← add_row plus acc row; add_rows plus acc' rows
