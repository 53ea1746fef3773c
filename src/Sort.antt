-- ===== src/Sort.antt =====
-- `slice::sort_by` of the standard library, which is stable, and `sort_unstable` of indices.
pub mod Ordered
pub mod Members
pub mod Ranked
use ennbo.Prelude.{ℕ, zero, suc, ◌+◌, ◌-◌, ◌≤◌, ◌<◌, ◌≡◌, refl, sym, ap, ◌∙◌, arith}
use ennbo.Prelude.{Bool, true, false, Bool-cases, inl, inr, ltb, if◌then◌else◌}
use ennbo.Prelude.{List, [], ◌∷◌, ◌++◌, length, take, append_assoc}

module _ {ℓ} {A : Type ℓ} (before : A → A → Bool) where
  -- The new element goes behind those that it is not before.
  unfoldable pub insert_sorted : A → List A → List A
  insert_sorted x [] = x ∷ []
  insert_sorted x (y ∷ ys) =
      let later = insert_sorted x ys in if before x y then x ∷ (y ∷ ys) else y ∷ later

  -- `sort_by`, where `before a b` says that `a` compares as less than `b`.
  unfoldable pub sort_onto : List A → List A → List A
  unfolding insert_sorted
  sort_onto sorted [] = sorted
  sort_onto sorted (x ∷ xs) = sort_onto (insert_sorted x sorted) xs

  unfoldable pub sort_by : List A → List A
  unfolding sort_onto
  sort_by xs = sort_onto [] xs

  pub sort_onto-append :
      (sorted xs ys : List A) → sort_onto sorted (xs ++ ys) ≡ sort_onto (sort_onto sorted xs) ys
  unfolding sort_onto
  sort_onto-append sorted [] ys = refl
  sort_onto-append sorted (x ∷ xs) ys = sort_onto-append (insert_sorted x sorted) xs ys

  pub sort_by-append :
      (xs : List A) (x : A) → sort_by (xs ++ (x ∷ [])) ≡ insert_sorted x (sort_by xs)
  unfolding sort_by sort_onto
  sort_by-append xs x = sort_onto-append [] xs (x ∷ [])

  pub length-insert_sorted : (x : A) (ys : List A) → length (insert_sorted x ys) ≡ suc (length ys)
  unfolding insert_sorted
  length-insert_sorted x [] = refl
  length-insert_sorted x (y ∷ ys) = elim (Bool-cases (before x y)) [
    | inl e ↦ rw e refl
    | inr e ↦ rw e (ap suc (length-insert_sorted x ys))
  ]

  length-sort_onto : (sorted xs : List A) → length (sort_onto sorted xs) ≡ length sorted + length xs
  unfolding sort_onto
  length-sort_onto sorted [] = omega arith
  length-sort_onto sorted (x ∷ xs) =
      omega (arith, length-sort_onto (insert_sorted x sorted) xs, length-insert_sorted x sorted)

  pub length-sort_by : (xs : List A) → length (sort_by xs) ≡ length xs
  unfolding sort_by
  length-sort_by xs = omega (arith, length-sort_onto [] xs)

  -- Only the first `m` elements matter for the first `m` after an insertion.
  pub take-insert_sorted :
      (m : ℕ) (x : A) (ys : List A)
      → take m (insert_sorted x (take m ys)) ≡ take m (insert_sorted x ys)
  unfolding insert_sorted
  take-insert_sorted zero x ys = refl
  take-insert_sorted (suc m) x [] = refl
  take-insert_sorted (suc m) x (y ∷ ys) = elim (Bool-cases (before x y)) [
    | inl e ↦ rw e (ap (λ t. x ∷ t) (take-cons m y ys))
    | inr e ↦ rw e (ap (λ t. y ∷ t) (take-insert_sorted m x ys))
  ]
    where
      take-take : (n : ℕ) (zs : List A) → take n (take (suc n) zs) ≡ take n zs
      take-take zero zs = refl
      take-take (suc n) [] = refl
      take-take (suc n) (z ∷ zs) = ap (λ t. z ∷ t) (take-take n zs)

      take-cons : (n : ℕ) (z : A) (zs : List A) → take n (z ∷ take n zs) ≡ take n (z ∷ zs)
      take-cons zero z zs = refl
      take-cons (suc n) z zs = ap (λ t. z ∷ t) (take-take n zs)

-- `Vec::sort_unstable` on indices.
abbrev pub sort_indices : List ℕ → List ℕ
sort_indices xs = sort_by ltb xs
