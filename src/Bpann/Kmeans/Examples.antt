-- ===== src/Bpann/Kmeans/Examples.antt =====
-- Three zero rows, and leaves of one row.
use ennbo.Prelude.{◌≡◌, refl, arith, [], ◌∷◌, replicate, err}
use ennbo.Bpann.Floats.{unfinished}
use ennbo.Bpann.Samples.{simple, constant}
use ennbo.Bpann.Kmeans.{partition_recursive}
use ennbo.Bpann.Kmeans.Zeros.{IsUsual, zeros}
use ennbo.Bpann.Kmeans.Stuck.{partition_recursive_stuck}

simple-IsUsual : IsUsual simple constant
simple-IsUsual = record {
  add_zero = refl;
  div_zero = λ n. omega arith;
  in_range = λ n rng. omega arith;
}

partition_recursive_stuck_example :
    partition_recursive simple constant 9 1 (0 ∷ 1 ∷ 2 ∷ []) (replicate 3 (zeros 2)) 7
    ≡ err unfinished
partition_recursive_stuck_example =
    partition_recursive_stuck simple constant 9 1 2 3 (0 ∷ 1 ∷ 2 ∷ []) 7 simple-IsUsual
      (omega arith) (omega arith) refl
