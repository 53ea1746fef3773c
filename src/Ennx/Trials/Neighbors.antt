-- ===== src/Ennx/Trials/Neighbors.antt =====
-- `insert_neighbor` of rust/crates/ennx/src/util.rs.
use ennbo.Prelude.{ℕ, suc, ◌≡◌, refl, ap, Bool, ◌||◌, ◌&&◌, Bool-cases, ◌≤◌, ◌<◌}
use ennbo.Prelude.{List, [], ◌∷◌, length, ltb, if◌then◌else◌, inl, inr, All}
use ennbo.Ennx.Float.{f32_lt, f32_eq}

-- `distance < other_distance || (distance == other_distance && index < other_index)`
abbrev pub closer : ℕ × ℕ → ℕ × ℕ → Bool
closer (distance, index) (other_distance, other_index) =
    f32_lt distance other_distance || (f32_eq distance other_distance && ltb index other_index)

-- The entries from the position on move one place to the end, and the last one is dropped.
abbrev pub shifted : ℕ × ℕ → List (ℕ × ℕ) → List (ℕ × ℕ)
shifted new [] = []
shifted new (x ∷ xs) = new ∷ shifted x xs

unfoldable pub insert_neighbor : List (ℕ × ℕ) → ℕ × ℕ → List (ℕ × ℕ)
insert_neighbor [] new = []
insert_neighbor (other ∷ nearest) new =
    let later = insert_neighbor nearest new in
    if closer new other then shifted new (other ∷ nearest) else other ∷ later

length-shifted : (new : ℕ × ℕ) (xs : List (ℕ × ℕ)) → length (shifted new xs) ≡ length xs
length-shifted new [] = refl
length-shifted new (x ∷ xs) = ap suc (length-shifted x xs)

length-insert_neighbor :
    (nearest : List (ℕ × ℕ)) (new : ℕ × ℕ) → length (insert_neighbor nearest new) ≡ length nearest
unfolding insert_neighbor
length-insert_neighbor [] new = refl
length-insert_neighbor (other ∷ nearest) new = elim (Bool-cases (closer new other)) [
  | inl e ↦ rw e (length-shifted new (other ∷ nearest))
  | inr e ↦ rw e (ap suc (length-insert_neighbor nearest new))
]

-- Every index in the list is below a bound.
module _ (bound : ℕ) where
  abbrev pub IsIndexed : ℕ × ℕ → Type 0
  IsIndexed entry = suc entry.1 ≤ bound

  shifted-All :
      (new : ℕ × ℕ) (xs : List (ℕ × ℕ))
      → IsIndexed new
      → All IsIndexed xs
      → All IsIndexed (shifted new xs)
  shifted-All new [] h all = tt
  shifted-All new (x ∷ xs) h (here, there) = (h, shifted-All x xs here there)

  insert_neighbor-All :
      (nearest : List (ℕ × ℕ)) (new : ℕ × ℕ)
      → IsIndexed new
      → All IsIndexed nearest
      → All IsIndexed (insert_neighbor nearest new)
  unfolding insert_neighbor
  insert_neighbor-All [] new h all = tt
  insert_neighbor-All (other ∷ nearest) new h (here, there) = elim (Bool-cases (closer new other)) [
    | inl e ↦ rw e (h, shifted-All other nearest here there)
    | inr e ↦ rw e (here, insert_neighbor-All nearest new h there)
  ]

  -- Inserting a neighbour keeps the number of entries, and leaves only indices below a bound when
  -- the new index and all those before are below it.
  pub insert_neighbor_kept :
      (nearest : List (ℕ × ℕ)) (distance index : ℕ)
      → index < bound
      → All IsIndexed nearest
      → (length (insert_neighbor nearest (distance, index)) ≡ length nearest)
        × All IsIndexed (insert_neighbor nearest (distance, index))
  insert_neighbor_kept nearest distance index h all = (
    length-insert_neighbor nearest (distance, index),
    insert_neighbor-All nearest (distance, index) h all,
  )
