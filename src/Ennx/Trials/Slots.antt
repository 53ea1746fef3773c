-- ===== src/Ennx/Trials/Slots.antt =====
-- The choice of row slots in `Search::free_slot` and `Search::replace_history` of trials.rs.
pub mod Free
pub mod Chosen
use ennbo.Prelude.{AreDistinct, member, member_tail}
use ennbo.Prelude.{ℕ, zero, suc, Bool, true, false, ◌||◌, not, Option, none, some, ◌==◌}
use ennbo.Prelude.{List, [], ◌∷◌, if◌then◌else◌, take}

-- `(start..start + count).find(|slot| !occupied.contains(slot))`
unfoldable pub find_slot : ℕ → ℕ → List ℕ → Option ℕ
find_slot zero start occupied = none
find_slot (suc count) start occupied =
    let later = find_slot count (suc start) occupied in
    if member start occupied then later else some start

-- `(start..start + count).filter(|slot| *slot != base)`
unfoldable pub other_slots : ℕ → ℕ → ℕ → List ℕ
other_slots zero start base = []
other_slots (suc count) start base =
    let later = other_slots count (suc start) base in if start == base then later else start ∷ later

-- `(0..slots).filter(|slot| *slot != base).take(count).collect()`
abbrev pub chosen_slots : ℕ → ℕ → ℕ → List ℕ
chosen_slots slots base count = take count (other_slots slots 0 base)
