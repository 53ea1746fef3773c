-- ===== src/Bpann/Samples.antt =====
-- Arithmetic, a generator and a store for the examples.
use ennbo.Prelude.{ℕ, ◌+◌, ◌-◌, ◌*◌, ◌/◌, min, List, [], ◌∷◌, replicate, false}
use ennbo.Bpann.Floats.{Floats}
use ennbo.Bpann.Kmeans.{Random}
use ennbo.Bpann.Rows.{IndexBuildContext}

abbrev pub total : List ℕ → ℕ
total [] = 0
total (x ∷ xs) = x + total xs

-- Arithmetic on the patterns themselves.
abbrev pub simple : Floats
simple = record {
  of_usize = λ n. n;
  add = λ a b. a + b;
  sub = λ a b. a - b;
  mul = λ a b. a * b;
  div = λ a b. a / b;
  sum = total;
  min = λ a b. min a b;
  narrow = λ x. x;
  of_usize64 = λ n. n;
  add64 = λ a b. a + b;
  div64 = λ a b. a / b;
  sum_axis = λ columns rows. replicate columns 0;
}

-- A generator that always gives zero.
abbrev pub constant : Random
constant = record {
  Seeded = ℕ;
  seed_from_u64 = λ seed. seed;
  gen_range = λ n rng. (0, rng);
  gen_f32 = λ rng. (0, rng);
}

abbrev pub three_rows : IndexBuildContext
three_rows = record {
  train_x = record { ncols = 1; nrows = 3; mmap = (5 ∷ []) ∷ (6 ∷ []) ∷ (7 ∷ []) ∷ [] };
  num_dim = 1;
  scale_x = false;
  x_scale = 1 ∷ [];
}
