-- ===== src/Sort/Ranked.antt =====
-- The stable sort as an order: a permutation of the list in which nothing comes before an earlier
-- element.
use ennbo.Prelude.{◌≡◌, refl, ap, ◌∙◌}
use ennbo.Prelude.{Bool, false, Bool-cases, inl, inr, All}
use ennbo.Prelude.{List, [], ◌∷◌, ◌++◌, append-nil}
use mathlib.Core.List.{Perm, perm_middle}
use mathlib.Core.List.Perm
use ennbo.Sort.{insert_sorted, sort_onto, sort_by}
use ennbo.Sort.Ordered.{IsStrict, IsAfter, AreOrdered, sort_by-AreOrdered}

-- Each element stands in the relation to all that follow.
abbrev pub AreRanked {ℓ} : {A : Type ℓ} → (A → A → Type 0) → List A → Type ℓ
AreRanked R [] = Unit
AreRanked R (x ∷ xs) = All (R x) xs × AreRanked R xs

module _ {ℓ} {A : Type ℓ} (before : A → A → Bool) where
  insert_sorted-perm : (x : A) (ys : List A) → Perm (insert_sorted before x ys) (x ∷ ys)
  unfolding insert_sorted
  insert_sorted-perm x [] = Perm.refl (x ∷ [])
  insert_sorted-perm x (y ∷ ys) = elim (Bool-cases (before x y)) [
    | inl e ↦ rw e (Perm.refl (x ∷ (y ∷ ys)))
    | inr e ↦ rw e (Perm.trans (Perm.cons y (insert_sorted-perm x ys)) (Perm.swap x y ys))
  ]

  sort_onto-perm : (sorted xs : List A) → Perm (sort_onto before sorted xs) (sorted ++ xs)
  unfolding sort_onto
  sort_onto-perm sorted [] = rw (append-nil sorted) (Perm.refl sorted)
  sort_onto-perm sorted (x ∷ xs) = Perm.trans (sort_onto-perm (insert_sorted before x sorted) xs) (
      Perm.trans (Perm.append_right xs (insert_sorted-perm x sorted))
        (Perm.symm (perm_middle sorted xs)))

  pub sort_by-perm : (xs : List A) → Perm (sort_by before xs) xs
  unfolding sort_by
  sort_by-perm xs = sort_onto-perm [] xs

  module _ (R : A → A → Type 0) (ranks : (a b : A) → before b a ≡ false → R a b) where
    IsAfter-ranks : (x : A) (ys : List A) → IsAfter before x ys → All (R x) ys
    IsAfter-ranks x [] h = tt
    IsAfter-ranks x (y ∷ ys) (here, there) = (ranks x y here, IsAfter-ranks x ys there)

    pub AreOrdered-AreRanked : (xs : List A) → AreOrdered before xs → AreRanked R xs
    AreOrdered-AreRanked [] h = tt
    AreOrdered-AreRanked (x ∷ xs) (here, there) =
        (IsAfter-ranks x xs here, AreOrdered-AreRanked xs there)

    pub sort_by-AreRanked : IsStrict before → (xs : List A) → AreRanked R (sort_by before xs)
    sort_by-AreRanked strict xs =
        AreOrdered-AreRanked (sort_by before xs) (sort_by-AreOrdered before strict xs)

  -- Two comparisons that agree on the elements sort alike.
  module _ {κ} (before' : A → A → Bool) (P : A → Type κ)
      (agree : (a b : A) → P a → P b → before a b ≡ before' a b) where
    insert_sorted_alike :
        (x : A) (ys : List A)
        → P x
        → All P ys
        → (insert_sorted before x ys ≡ insert_sorted before' x ys)
          × All P (insert_sorted before x ys)
    unfolding insert_sorted
    insert_sorted_alike x [] p all = (refl, (p, tt))
    insert_sorted_alike x (y ∷ ys) p (here, there) =
        let (same, kept) = insert_sorted_alike x ys p there in
        elim (Bool-cases (before x y)) [
          | inl e ↦ rw (← agree x y p here, e) (refl, (p, (here, there)))
          | inr e ↦ rw (← agree x y p here, e) (ap (λ t. y ∷ t) same, (here, kept))
        ]

    sort_onto_alike :
        (sorted xs : List A)
        → All P sorted
        → All P xs
        → sort_onto before sorted xs ≡ sort_onto before' sorted xs
    unfolding sort_onto
    sort_onto_alike sorted [] done all = refl
    sort_onto_alike sorted (x ∷ xs) done (here, there) =
        let (same, kept) = insert_sorted_alike x sorted here done in
        sort_onto_alike (insert_sorted before x sorted) xs kept there
        ∙ ap (λ s. sort_onto before' s xs) same

    pub sort_by_alike : (xs : List A) → All P xs → sort_by before xs ≡ sort_by before' xs
    unfolding sort_by
    sort_by_alike xs all = sort_onto_alike [] xs tt all
