-- ===== src/Sort/Members.antt =====
-- A sort keeps the elements of the list.
use ennbo.Prelude.{ℕ, ◌≡◌, refl, ◌∙◌, arith, Bool, false, Bool-cases, inl, inr}
use ennbo.Prelude.{◌==◌, ◌||◌, member, AreDistinct, member_tail}
use ennbo.Prelude.{List, [], ◌∷◌, map, All}
use ennbo.Sort.{insert_sorted, sort_onto, sort_by}

module _ {ℓ} {A : Type ℓ} (before : A → A → Bool) where
  module _ {κ} (P : A → Type κ) where
    All-insert_sorted : (x : A) (ys : List A) → P x → All P ys → All P (insert_sorted before x ys)
    unfolding insert_sorted
    All-insert_sorted x [] p all = (p, tt)
    All-insert_sorted x (y ∷ ys) p (here, there) = elim (Bool-cases (before x y)) [
      | inl e ↦ rw e (p, (here, there))
      | inr e ↦ rw e (here, All-insert_sorted x ys p there)
    ]

    All-sort_onto :
        (sorted xs : List A) → All P sorted → All P xs → All P (sort_onto before sorted xs)
    unfolding sort_onto
    All-sort_onto sorted [] done all = done
    All-sort_onto sorted (x ∷ xs) done (here, there) =
        All-sort_onto (insert_sorted before x sorted) xs (All-insert_sorted x sorted here done)
          there

    pub All-sort_by : (xs : List A) → All P xs → All P (sort_by before xs)
    unfolding sort_by
    All-sort_by xs all = All-sort_onto [] xs tt all

  module _ (key : A → ℕ) where
    member-insert_sorted :
        (k : ℕ) (x : A) (ys : List A)
        → member k (map key (insert_sorted before x ys)) ≡ ((k == key x) || member k (map key ys))
    unfolding insert_sorted
    member-insert_sorted k x [] = refl
    member-insert_sorted k x (y ∷ ys) = elim (Bool-cases (before x y)) [
      | inl e ↦ rw e refl
      | inr e ↦ let later = member-insert_sorted k x ys in rw (e, later) (ground arith)
    ]

    insert_sorted-AreDistinct :
        (x : A) (ys : List A)
        → member (key x) (map key ys) ≡ false
        → AreDistinct (map key ys)
        → AreDistinct (map key (insert_sorted before x ys))
    unfolding insert_sorted
    insert_sorted-AreDistinct x [] h d = (refl, tt)
    insert_sorted-AreDistinct x (y ∷ ys) h (here, there) =
        let (apart, new) = member_tail (key x) (key y) (map key ys) h in
        elim (Bool-cases (before x y)) [
          | inl e ↦ rw e (h, (here, there))
          | inr e ↦
              let apart' : (key y == key x) ≡ false = ground arith in
              rw e (
                member-insert_sorted (key y) x ys ∙ rw (apart', here) refl,
                insert_sorted-AreDistinct x ys new there,
              )
        ]

    -- No key of the list is a key of the sorted part.
    abbrev AreNew : List A → List A → Type 0
    AreNew sorted xs = All (λ x. member (key x) (map key sorted) ≡ false) xs

    AreNew-insert :
        (x : A) (sorted xs : List A)
        → member (key x) (map key xs) ≡ false
        → AreNew sorted xs
        → AreNew (insert_sorted before x sorted) xs
    AreNew-insert x sorted [] h new = tt
    AreNew-insert x sorted (y ∷ xs) h (here, there) =
        let (apart, h') = member_tail (key x) (key y) (map key xs) h in
        let apart' : (key y == key x) ≡ false = ground arith in
        (
          member-insert_sorted (key y) x sorted ∙ rw (apart', here) refl,
          AreNew-insert x sorted xs h' there,
        )

    sort_onto-AreDistinct :
        (sorted xs : List A)
        → AreDistinct (map key sorted)
        → AreDistinct (map key xs)
        → AreNew sorted xs
        → AreDistinct (map key (sort_onto before sorted xs))
    unfolding sort_onto
    sort_onto-AreDistinct sorted [] done d new = done
    sort_onto-AreDistinct sorted (x ∷ xs) done (here, there) (first, rest) =
        sort_onto-AreDistinct (insert_sorted before x sorted) xs
          (insert_sorted-AreDistinct x sorted first done) there
          (AreNew-insert x sorted xs here rest)

    AreNew-nil : (xs : List A) → AreNew [] xs
    AreNew-nil [] = tt
    AreNew-nil (x ∷ xs) = (refl, AreNew-nil xs)

    pub sort_by-AreDistinct :
        (xs : List A) → AreDistinct (map key xs) → AreDistinct (map key (sort_by before xs))
    unfolding sort_by
    sort_by-AreDistinct xs d = sort_onto-AreDistinct [] xs tt d (AreNew-nil xs)

    member-sort_onto :
        (k : ℕ) (sorted xs : List A)
        → member k (map key (sort_onto before sorted xs))
          ≡ (member k (map key sorted) || member k (map key xs))
    unfolding sort_onto
    member-sort_onto k sorted [] = ground arith
    member-sort_onto k sorted (x ∷ xs) =
        member-sort_onto k (insert_sorted before x sorted) xs
        ∙ rw (member-insert_sorted k x sorted) (ground arith)

    pub member-sort_by :
        (k : ℕ) (xs : List A) → member k (map key (sort_by before xs)) ≡ member k (map key xs)
    unfolding sort_by
    member-sort_by k xs = member-sort_onto k [] xs
