-- ===== src/Bpann/Page/Canonical.antt =====
-- What a page keeps of itself in the byte format of page.rs.
use ennbo.Prelude.{ℕ, zero, suc, ◌≤◌, ◌≡◌, refl, none, some, List, [], ◌∷◌, map}
use ennbo.Prelude.{All, IsU32, length, arith, ap, ap₂}
use ennbo.Bpann.Page.{Page, internal, leaf, empty_range_leaf, centroid_or_empty}

-- A vector cut or padded with zeros to `num_dim` entries.
unfoldable pub fit : ℕ → List ℕ → List ℕ
fit zero v = []
fit (suc n) [] = 0 ∷ fit n []
fit (suc n) (x ∷ v) = x ∷ fit n v

unfoldable pub canonical : ℕ → Page → Page
canonical num_dim (internal id centroids child_page_ids) =
    internal id (map (fit num_dim) centroids) child_page_ids
canonical num_dim (leaf id row_ids (some (start, end)) vectors stored) =
    empty_range_leaf id start end (fit num_dim (centroid_or_empty stored))
canonical num_dim (leaf id row_ids none [] stored) =
    leaf id row_ids none [] (some (fit num_dim (centroid_or_empty stored)))
canonical num_dim (leaf id row_ids none (v ∷ vectors) stored) =
    leaf id row_ids none (map (fit num_dim) (v ∷ vectors)) none

abbrev pub Words : List ℕ → Type 0
Words = All IsU32

abbrev pub Rows : List (List ℕ) → Type 0
Rows = All Words

-- Every number fits its 32 bits, each id has its vector, and a range is not reversed.
abbrev pub IsStorable : Page → Type 0
IsStorable (internal id centroids child_page_ids) =
    IsU32 id
    × IsU32 (length centroids)
    × Rows centroids
    × Words child_page_ids
    × (length child_page_ids ≡ length centroids)
IsStorable (leaf id row_ids (some (start, end)) vectors stored) =
    IsU32 id × IsU32 start × IsU32 end × (start ≤ end) × Words (centroid_or_empty stored)
IsStorable (leaf id row_ids none [] stored) =
    IsU32 id × IsU32 (length row_ids) × Words row_ids × Words (centroid_or_empty stored)
IsStorable (leaf id row_ids none (v ∷ vectors) stored) =
    IsU32 id
    × IsU32 (length row_ids)
    × Words row_ids
    × Rows (v ∷ vectors)
    × (length row_ids ≡ length (v ∷ vectors))

abbrev HasDim : ℕ → List ℕ → Type 0
HasDim n v = length v ≡ n

-- A page as the builders make them: vectors of the index's dimension, and nothing that the format
-- drops.
abbrev pub IsExact : ℕ → Page → Type 0
IsExact n (internal id centroids child_page_ids) = All (HasDim n) centroids
IsExact n (leaf id row_ids (some (start, end)) vectors stored) =
    (row_ids ≡ []) × (vectors ≡ []) × (c : List ℕ) × (stored ≡ some c) × HasDim n c
IsExact n (leaf id row_ids none [] stored) = (c : List ℕ) × (stored ≡ some c) × HasDim n c
IsExact n (leaf id row_ids none (v ∷ vectors) stored) =
    All (HasDim n) (v ∷ vectors) × (stored ≡ none)

fit_self : (n : ℕ) (v : List ℕ) → HasDim n v → fit n v ≡ v
unfolding fit
fit_self zero [] h = refl
fit_self zero (x ∷ v) h = absurd (omega arith)
fit_self (suc n) [] h = absurd (omega arith)
fit_self (suc n) (x ∷ v) h = ap (λ t. x ∷ t) (fit_self n v (omega arith))

map-fit_self : (n : ℕ) (vs : List (List ℕ)) → All (HasDim n) vs → map (fit n) vs ≡ vs
map-fit_self n [] h = refl
map-fit_self n (v ∷ vs) h = ap₂ (λ a b. a ∷ b) (fit_self n v h.0) (map-fit_self n vs h.1)

-- The format loses nothing of an exact page.
pub canonical_self : (n : ℕ) (p : Page) → IsExact n p → canonical n p ≡ p
unfolding canonical
canonical_self n (internal id cs ids) h = ap (λ t. internal id t ids) (map-fit_self n cs h)
canonical_self n (leaf id rows (some (start, end)) vs stored) (r, v, c, s, d) =
    rw (r, v, s) (rw (fit_self n c d))
canonical_self n (leaf id rows none [] stored) (c, s, d) = rw s (rw (fit_self n c d))
canonical_self n (leaf id rows none (v ∷ vs) stored) (h, s) =
    rw (s, fit_self n v h.0, map-fit_self n vs h.1)
