-- ===== src/Bpann/Rows.antt =====
-- rust/crates/bpann/src/mmap_store.rs and distance.rs: the observed rows, and a row as `f32`. The
-- mapped file is the list of its rows; the calls that map, grow and release it are left out.
use ennbo.Prelude.{ℕ, leb, List, [], ◌∷◌, map, Bool, true, false, get_elem?}
use ennbo.Prelude.{if◌then◌else◌}
use ennbo.Prelude.{Result, err}
use ennbo.Bpann.Floats.{Floats, BpannError, invalid_parameter}
use ennbo.Bpann.Index.{present}

pub record MmapColumnStore : Type 0 where
  pub ncols : ℕ
  pub nrows : ℕ
  pub mmap : List (List ℕ)

-- `IndexBuildContext`, less the directory and the count of metrics, which only the file system sees.
pub record IndexBuildContext : Type 0 where
  pub train_x : MmapColumnStore
  pub num_dim : ℕ
  pub scale_x : Bool
  pub x_scale : List ℕ

unfoldable pub mmap_row_slice : MmapColumnStore → ℕ → Result BpannError (List ℕ)
mmap_row_slice store i =
    if leb store.nrows i then err invalid_parameter else present (get_elem? store.mmap i)

module _ (f : Floats) where
  -- `row.iter().zip(x_scale.iter()).map(|(&v, &s)| (v / s) as f32)`
  abbrev pub scaled_row : List ℕ → List ℕ → List ℕ
  scaled_row [] scale = []
  scaled_row (v ∷ vs) [] = []
  scaled_row (v ∷ vs) (s ∷ scale) = f.narrow (f.div64 v s) ∷ scaled_row vs scale

  unfoldable pub bpann_row_to_f32 : List ℕ → Bool → List ℕ → List ℕ
  bpann_row_to_f32 row true x_scale = scaled_row row x_scale
  bpann_row_to_f32 row false x_scale = map f.narrow row
