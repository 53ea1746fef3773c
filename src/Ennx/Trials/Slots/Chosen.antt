-- ===== src/Ennx/Trials/Slots/Chosen.antt =====
-- The slots that a replacement of the history takes.
use ennbo.Prelude.{All-take, take-AreDistinct}
use ennbo.Prelude.{AreDistinct, member}
use ennbo.Prelude.{ℕ, zero, suc, ◌+◌, ◌≤◌, ◌<◌, ◌≡◌, refl, arith, ap}
use ennbo.Prelude.{false, Bool-cases, ◌==◌, inl, inr, ==_iff}
use ennbo.Prelude.{List, [], ◌∷◌, length, All, length-take}
use ennbo.Ennx.Trials.Slots.{other_slots, chosen_slots}

-- A slot from `start` to `stop` that is not the base's.
abbrev pub IsOther : ℕ → ℕ → ℕ → ℕ → Type 0
IsOther start stop base x = (start ≤ x) × (x < stop) × ((x == base) ≡ false)

All-wider :
    (start stop base : ℕ) (xs : List ℕ)
    → All (IsOther (suc start) stop base) xs
    → All (IsOther start stop base) xs
All-wider start stop base [] all = tt
All-wider start stop base (x ∷ xs) ((lo, hi, other), there) =
    ((omega arith, hi, other), All-wider start stop base xs there)

-- What lies above `x` does not contain it.
member_below :
    (x stop base : ℕ) (xs : List ℕ) → All (IsOther (suc x) stop base) xs → member x xs ≡ false
member_below x stop base [] all = refl
member_below x stop base (y ∷ ys) ((lo, hi, other), there) =
    let apart : (x == y) ≡ false = ground arith in
    rw (apart, member_below x stop base ys there) refl

other_slots-All :
    (count start stop base : ℕ)
    → start + count ≡ stop
    → All (IsOther start stop base) (other_slots count start base)
unfolding other_slots
other_slots-All zero start stop base e = tt
other_slots-All (suc count) start stop base e =
    let later =
      All-wider start stop base (other_slots count (suc start) base)
        (other_slots-All count (suc start) stop base (omega arith)) in
    elim (Bool-cases (start == base)) [
      | inl same ↦ rw same later
      | inr other ↦ rw other ((omega arith, omega arith, other), later)
    ]

other_slots-AreDistinct : (count start base : ℕ) → AreDistinct (other_slots count start base)
unfolding other_slots
other_slots-AreDistinct zero start base = tt
other_slots-AreDistinct (suc count) start base =
    let later = other_slots-AreDistinct count (suc start) base in
    elim (Bool-cases (start == base)) [
      | inl same ↦ rw same later
      | inr other ↦ rw other (
        member_below start (suc start + count) base (other_slots count (suc start) base)
            (other_slots-All count (suc start) (suc start + count) base refl),
        later,
      )
    ]

-- At least all slots but one.
length-other_slots :
    (count start base : ℕ)
    → (count ≤ length (other_slots count start base) + 1)
      × (base < start → length (other_slots count start base) ≡ count)
unfolding other_slots
length-other_slots zero start base = (omega arith, λ h. refl)
length-other_slots (suc count) start base =
    let (many, all) = length-other_slots count (suc start) base in
    elim (Bool-cases (start == base)) [
      | inl same ↦
          let e : start ≡ base = (==_iff start base).0 same in
          let full = all (omega arith) in rw same (omega arith, λ h. ground arith)
      | inr other ↦ rw other (omega arith, λ h. ap suc (all (omega arith)))
    ]

-- Fewer slots than there are can be chosen beside the base's.
pub chosen_slots_found :
    (slots base count : ℕ)
    → count < slots
    → (length (chosen_slots slots base count) ≡ count)
      × All (IsOther 0 slots base) (chosen_slots slots base count)
      × AreDistinct (chosen_slots slots base count)
chosen_slots_found slots base count h =
    let (many, all) = length-other_slots slots 0 base in
    (
      omega (arith, length-take count (other_slots slots 0 base)),
      All-take _ count (other_slots slots 0 base)
          (other_slots-All slots 0 slots base (omega arith)),
      take-AreDistinct count (other_slots slots 0 base) (other_slots-AreDistinct slots 0 base),
    )
