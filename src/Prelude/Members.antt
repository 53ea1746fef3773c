-- ===== src/Prelude/Members.antt =====
-- Membership in a list of numbers, and lists of distinct numbers.
use Prim.Native.Nat.{ℕ}
use mathlib.Core.Path.{◌≡◌, refl, ◌∙◌}
use mathlib.Core.Logic.{inl, inr}
use mathlib.Core.Bool.{Bool, true, false, ◌||◌}
use mathlib.Core.List.{List, [], ◌∷◌, ◌++◌, map}
use Prim.Native.Nat.{zero, suc}
use native.Mathlib.Omega.{arith}
use ennbo.Prelude.Lists.{All, take}
use ennbo.Prelude.Tests.{◌==◌, Bool-cases}

abbrev pub member : ℕ → List ℕ → Bool
member slot [] = false
member slot (x ∷ xs) = (slot == x) || member slot xs

-- No number stands twice in the list.
abbrev pub AreDistinct : List ℕ → Type 0
AreDistinct [] = Unit {0}
AreDistinct (x ∷ xs) = (member x xs ≡ false) × AreDistinct xs

-- A number that the list does not contain differs from its head and is not in its tail.
pub member_tail :
    (x y : ℕ) (ys : List ℕ) → member x (y ∷ ys) ≡ false → ((x == y) ≡ false) × (member x ys ≡ false)
member_tail x y ys h = elim (Bool-cases (x == y)) [
  | inl e ↦ let no : true ≡ false = rw e at h in cc
  | inr e ↦ (e, rw e at h)
]

pub All-take {ℓ κ} :
    {A : Type ℓ} (P : A → Type κ) (n : ℕ) (xs : List A) → All P xs → All P (take n xs)
All-take P zero xs all = tt
All-take P (suc n) [] all = tt
All-take P (suc n) (x ∷ xs) (here, there) = (here, All-take P n xs there)

pub member-take : (x n : ℕ) (xs : List ℕ) → member x xs ≡ false → member x (take n xs) ≡ false
member-take x zero xs h = refl
member-take x (suc n) [] h = refl
member-take x (suc n) (y ∷ ys) h = elim (Bool-cases (x == y)) [
  | inl e ↦ let no : true ≡ false = rw e at h in cc
  | inr e ↦ rw e (member-take x n ys (rw e at h))
]

pub take-AreDistinct : (n : ℕ) (xs : List ℕ) → AreDistinct xs → AreDistinct (take n xs)
take-AreDistinct zero xs d = tt
take-AreDistinct (suc n) [] d = tt
take-AreDistinct (suc n) (x ∷ xs) (here, there) =
    (member-take x n xs here, take-AreDistinct n xs there)

-- An element at the end of a list, seen by a key of the elements.
module _ {ℓ} {A : Type ℓ} (key : A → ℕ) where
  pub member_joined :
      (k : ℕ) (xs : List A) (e : A)
      → member k (map key (xs ++ (e ∷ []))) ≡ (member k (map key xs) || (k == key e))
  member_joined k [] e = ground arith
  member_joined k (x ∷ xs) e = let later = member_joined k xs e in rw later (ground arith)

  pub joined-AreDistinct :
      (xs : List A) (e : A)
      → AreDistinct (map key xs)
      → member (key e) (map key xs) ≡ false
      → AreDistinct (map key (xs ++ (e ∷ [])))
  joined-AreDistinct [] e d new = (refl, tt)
  joined-AreDistinct (x ∷ xs) e (here, there) new =
      let (apart, new') = member_tail (key e) (key x) (map key xs) new in
      let apart' : (key x == key e) ≡ false = ground arith in
      (member_joined (key x) xs e ∙ rw (here, apart') refl, joined-AreDistinct xs e there new')

pub joined-All {ℓ κ} :
    {A : Type ℓ} (P : A → Type κ) (xs : List A) (e : A) → All P xs → P e → All P (xs ++ (e ∷ []))
joined-All P [] e all p = (p, tt)
joined-All P (x ∷ xs) e (here, there) p = (here, joined-All P xs e there p)
