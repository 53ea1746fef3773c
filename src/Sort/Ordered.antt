-- ===== src/Sort/Ordered.antt =====
-- Lists in the order of a comparison, and the stable sort.
use ennbo.Prelude.{ℕ, zero, suc, ◌≡◌, refl, sym, ap, ◌∙◌}
use ennbo.Prelude.{Bool, true, false, Bool-cases, inl, inr}
use ennbo.Prelude.{List, [], ◌∷◌, ◌++◌, take, append_assoc, append-nil}
use ennbo.Sort.{insert_sorted, sort_onto, sort_by}

-- A comparison that says which of two elements is less.
pub record IsStrict {ℓ} {A : Type ℓ} (before : A → A → Bool) : Type ℓ where
  pub asymm : (a b : A) → before a b ≡ true → before b a ≡ false
  pub trans : (a b c : A) → before a b ≡ true → before b c ≡ true → before a c ≡ true

module _ {ℓ} {A : Type ℓ} (before : A → A → Bool) where
  -- Nothing in the list comes before `x`.
  abbrev pub IsAfter : A → List A → Type 0
  IsAfter x [] = Unit {0}
  IsAfter x (y ∷ ys) = (before y x ≡ false) × IsAfter x ys

  -- No element comes before an earlier one.
  abbrev pub AreOrdered : List A → Type 0
  AreOrdered [] = Unit {0}
  AreOrdered (x ∷ xs) = IsAfter x xs × AreOrdered xs

  IsAfter-take : (n : ℕ) (x : A) (ys : List A) → IsAfter x ys → IsAfter x (take n ys)
  IsAfter-take zero x ys h = tt
  IsAfter-take (suc n) x [] h = tt
  IsAfter-take (suc n) x (y ∷ ys) (here, there) = (here, IsAfter-take n x ys there)

  pub take-AreOrdered : (n : ℕ) (xs : List A) → AreOrdered xs → AreOrdered (take n xs)
  take-AreOrdered zero xs h = tt
  take-AreOrdered (suc n) [] h = tt
  take-AreOrdered (suc n) (x ∷ xs) (here, there) =
      (IsAfter-take n x xs here, take-AreOrdered n xs there)

  -- An element that comes before none of the list goes to its end.
  insert_last :
      (xs ys : List A) (x : A)
      → AreOrdered (xs ++ (x ∷ ys))
      → insert_sorted before x xs ≡ xs ++ (x ∷ [])
  unfolding insert_sorted
  insert_last [] ys x h = refl
  insert_last (y ∷ xs) ys x (here, there) =
      rw (middle xs ys x y here) (ap (λ t. y ∷ t) (insert_last xs ys x there))
    where
      middle : (zs ws : List A) (w v : A) → IsAfter v (zs ++ (w ∷ ws)) → before w v ≡ false
      middle [] ws w v h' = h'.0
      middle (z ∷ zs) ws w v h' = middle zs ws w v h'.1

  sort_onto_ordered : (xs ys : List A) → AreOrdered (xs ++ ys) → sort_onto before xs ys ≡ xs ++ ys
  unfolding sort_onto
  sort_onto_ordered xs [] h = sym (append-nil xs)
  sort_onto_ordered xs (y ∷ ys) h =
      let joined : (xs ++ (y ∷ [])) ++ ys ≡ xs ++ (y ∷ ys) = append_assoc xs (y ∷ []) ys in
      rw (insert_last xs ys y h) (sort_onto_ordered (xs ++ (y ∷ [])) ys (rw joined h) ∙ joined)

  pub sort_by_ordered : (xs : List A) → AreOrdered xs → sort_by before xs ≡ xs
  unfolding sort_by
  sort_by_ordered xs h = sort_onto_ordered [] xs h

  module _ (strict : IsStrict before) where
    IsAfter-insert :
        (x y : A) (ys : List A)
        → before x y ≡ false
        → IsAfter y ys
        → IsAfter y (insert_sorted before x ys)
    unfolding insert_sorted
    IsAfter-insert x y [] h all = (h, tt)
    IsAfter-insert x y (z ∷ zs) h (here, there) = elim (Bool-cases (before x z)) [
      | inl e ↦ rw e (h, (here, there))
      | inr e ↦ rw e (here, IsAfter-insert x y zs h there)
    ]

    IsAfter-trans : (x y : A) (ys : List A) → before x y ≡ true → IsAfter y ys → IsAfter x ys
    IsAfter-trans x y [] h all = tt
    IsAfter-trans x y (z ∷ zs) h (here, there) = elim (Bool-cases (before z x)) [
      | inl e ↦ let wrong = strict.trans z x y e h in cc
      | inr e ↦ (e, IsAfter-trans x y zs h there)
    ]

    insert_sorted-AreOrdered :
        (x : A) (xs : List A) → AreOrdered xs → AreOrdered (insert_sorted before x xs)
    unfolding insert_sorted
    insert_sorted-AreOrdered x [] h = (tt, tt)
    insert_sorted-AreOrdered x (y ∷ ys) (here, there) = elim (Bool-cases (before x y)) [
      | inl e ↦ rw e ((strict.asymm x y e, IsAfter-trans x y ys e here), (here, there))
      | inr e ↦ rw e (IsAfter-insert x y ys e here, insert_sorted-AreOrdered x ys there)
    ]

    sort_onto-AreOrdered : (xs ys : List A) → AreOrdered xs → AreOrdered (sort_onto before xs ys)
    unfolding sort_onto
    sort_onto-AreOrdered xs [] h = h
    sort_onto-AreOrdered xs (y ∷ ys) h =
        sort_onto-AreOrdered (insert_sorted before y xs) ys (insert_sorted-AreOrdered y xs h)

    pub sort_by-AreOrdered : (xs : List A) → AreOrdered (sort_by before xs)
    unfolding sort_by
    sort_by-AreOrdered xs = sort_onto-AreOrdered [] xs tt
