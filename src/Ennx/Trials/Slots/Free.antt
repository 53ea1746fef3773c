-- ===== src/Ennx/Trials/Slots/Free.antt =====
-- The search for a free slot.
use ennbo.Prelude.{member}
use ennbo.Prelude.{ℕ, zero, suc, ◌+◌, ◌≤◌, ◌<◌, ◌≡◌, inl, inr, refl, ap, ==_iff, arith}
use ennbo.Prelude.{true, false, Bool-cases, none, some, Option-cases, ◌==◌}
use ennbo.Prelude.{List, [], ◌∷◌, length, if◌then◌else◌}
use ennbo.Ennx.Trials.Slots.{find_slot}

abbrev remove : ℕ → List ℕ → List ℕ
remove x [] = []
remove x (y ∷ ys) = if x == y then ys else y ∷ remove x ys

length-remove : (x : ℕ) (xs : List ℕ) → member x xs ≡ true → length xs ≡ suc (length (remove x xs))
length-remove x [] h = cc
length-remove x (y ∷ ys) h = elim (Bool-cases (x == y)) [
  | inl e ↦ rw e refl
  | inr e ↦ rw e (ap suc (length-remove x ys (rw e at h)))
]

-- The list's other members stay.
member-remove :
    (x y : ℕ) (xs : List ℕ) → (x == y) ≡ false → member x xs ≡ true → member x (remove y xs) ≡ true
member-remove x y [] d h = h
member-remove x y (z ∷ zs) d h = elim (Bool-cases (y == z)) [
  | inl e ↦
      let same : y ≡ z = (==_iff y z).0 e in
      let other : (x == z) ≡ false = rw same at d in rw e (rw other at h)
  | inr e ↦ rw e (elim (Bool-cases (x == z)) [
    | inl here ↦ rw here refl
    | inr there ↦ rw there (member-remove x y zs d (rw there at h))
  ])
]

-- Numbers below `count` that are all in a list make it at least that long.
pigeonhole :
    (count : ℕ) (xs : List ℕ) → ((i : ℕ) → i < count → member i xs ≡ true) → count ≤ length xs
pigeonhole zero xs all = omega arith
pigeonhole (suc count) xs all =
    let last : member count xs ≡ true = all count (omega arith) in
    let shorter =
      pigeonhole count (remove count xs)
        (λ i below. member-remove i count xs (ground arith) (all i (omega arith))) in
    omega (arith, length-remove count xs last, shorter)

none-member :
    (count start : ℕ) (xs : List ℕ)
    → find_slot count start xs ≡ none
    → (i : ℕ) → start ≤ i
    → i < start + count
    → member i xs ≡ true
unfolding find_slot
none-member zero start xs h i lo hi = ground arith
none-member (suc count) start xs h i lo hi = elim (Bool-cases (member start xs)) [
  | inl used ↦
      let later : find_slot count (suc start) xs ≡ none = rw used at h in
      elim (Bool-cases (start == i)) [
        | inl e ↦ rw ((==_iff start i).0 e) at used
        | inr e ↦ none-member count (suc start) xs later i (ground arith) (omega arith)
      ]
  | inr free ↦ cc
]

-- The slot that `find_slot` gives is in the range and not occupied.
pub find_slot-free :
    (count start : ℕ) (xs : List ℕ) (slot : ℕ)
    → find_slot count start xs ≡ some slot
    → (start ≤ slot) × (slot < start + count) × (member slot xs ≡ false)
unfolding find_slot
find_slot-free zero start xs slot h = cc
find_slot-free (suc count) start xs slot h = elim (Bool-cases (member start xs)) [
  | inl used ↦
      let (lo, hi, free) = find_slot-free count (suc start) xs slot (rw used at h) in
      (omega arith, omega arith, free)
  | inr free ↦ let e : start ≡ slot = cc in (omega arith, omega arith, rw (← e) free)
]

-- Fewer occupied slots than slots leave one to find.
pub find_slot_found :
    (count : ℕ) (xs : List ℕ)
    → length xs < count
    → (slot : ℕ) × (find_slot count 0 xs ≡ some slot) × (slot < count) × (member slot xs ≡ false)
find_slot_found count xs h = elim (Option-cases (find_slot count 0 xs)) [
  | inl missing ↦
      let full =
        pigeonhole count xs
          (λ i below. none-member count 0 xs missing i (omega arith) (omega arith)) in
      ground arith
  | inr (slot, found) ↦
      let (lo, hi, free) = find_slot-free count 0 xs slot found in (slot, found, omega arith, free)
]
