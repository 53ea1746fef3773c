-- ===== src/Ennx/Hash/Examples.antt =====
-- Three indices, one of them twice, two seeds and two metrics.
use ennbo.Prelude.{ℕ, ◌≡◌, refl, arith, some, ok, List, [], ◌∷◌, length, map, get_or}
use ennbo.Sort.{sort_by}
use ennbo.Ennx.Regions.Examples.{small}
use ennbo.Ennx.Hash.{unique_index_inverse, normal_hash_batch_multi_seed_fast}
use ennbo.Ennx.Hash.Inverse.{IsIncreasing, unique_index_inverse_read}
use ennbo.Ennx.Hash.Direct.{direct_values, normal_hash_batch_direct}
use ennbo.Prelude.{member, All, ◌<◌}

abbrev indices : List ℕ
indices = 9 ∷ (4 ∷ (9 ∷ []))

indices_inverse : unique_index_inverse indices ≡ some (4 ∷ (9 ∷ []), 1 ∷ (0 ∷ (1 ∷ [])))
unfolding unique_index_inverse sort_by
indices_inverse = refl

unique_index_inverse_read_example :
    (unique inverse : List ℕ) × (unique_index_inverse indices ≡ some (unique, inverse))
    × IsIncreasing unique
    × ((k : ℕ) → member k unique ≡ member k indices)
    × All (λ p. p < length unique) inverse
    × (map (λ p. get_or unique p 0) inverse ≡ indices)
unique_index_inverse_read_example = unique_index_inverse_read indices

normal_hash_batch_direct_example :
    normal_hash_batch_multi_seed_fast small (1 ∷ (2 ∷ [])) indices 2
    ≡ ok (direct_values small (1 ∷ (2 ∷ [])) indices 2)
normal_hash_batch_direct_example =
    normal_hash_batch_direct small (1 ∷ (2 ∷ [])) indices 2 (omega arith) (omega arith)
