-- ===== src/Ennx/Trials/Search/Invariant.antt =====
-- What holds of a `Search` between its operations.
use ennbo.Prelude.{AreDistinct, member}
use ennbo.Prelude.{ℕ, ◌+◌, ◌-◌, ◌≤◌, ◌<◌, ◌≡◌, refl, arith, ==_iff}
use ennbo.Prelude.{true, false, Bool-cases, ◌==◌, inl, inr, Option, none, some}
use ennbo.Prelude.{List, [], ◌∷◌, ◌++◌, length, All}
use ennbo.Ennx.Trials.Search.{
  is_some, Search, Record, Pending, history_slots, rest_of, pop_full, max_history,
}

-- The pending trial's slot is in range and taken by nobody else.
abbrev pub IsApart : ℕ → List ℕ → Option Pending → Type 0
IsApart slots taken none = Unit {0}
IsApart slots taken (some pending) = (pending.slot < slots) × (member pending.slot taken ≡ false)

abbrev pub IsBelow : ℕ → ℕ → Type 0
IsBelow bound x = x < bound

pub record IsSearch {E : Type 0} (s : Search E) : Type 0 where
  pub slots : s.slots ≡ s.capacity + 2
  pub capacity : (1 ≤ s.capacity) × (s.capacity ≤ max_history)
  pub base : s.base < s.slots
  pub room : length s.history ≤ s.capacity
  pub below : All (IsBelow s.slots) (history_slots s.history)
  pub distinct : AreDistinct (history_slots s.history)
  pub pending : IsApart s.slots (s.base ∷ history_slots s.history) s.pending

-- Another record at the end of the history.
pub not_pending : (o : Option Pending) → is_some o ≡ false → o ≡ none
not_pending none h = refl
not_pending (some p) h = cc

-- A full history gives up its first record.
popped :
    (records : List Record) (bound x : ℕ)
    → All (IsBelow bound) (history_slots records)
    → AreDistinct (history_slots records)
    → member x (history_slots records) ≡ false
    → All (IsBelow bound) (history_slots (rest_of records))
      × AreDistinct (history_slots (rest_of records))
      × (member x (history_slots (rest_of records)) ≡ false)
popped [] bound x all d h = (all, d, h)
popped (r ∷ rs) bound x all d h = elim (Bool-cases (x == r.slot)) [
  | inl e ↦ let no : true ≡ false = rw e at h in cc
  | inr e ↦ (all.1, d.1, rw e at h)
]

length-rest_of : (records : List Record) → length (rest_of records) ≡ length records - 1
length-rest_of [] = omega arith
length-rest_of (r ∷ rs) = omega arith

pub pop_full_kept :
    (capacity : ℕ) (records : List Record) (bound x : ℕ)
    → 1 ≤ capacity
    → length records ≤ capacity
    → All (IsBelow bound) (history_slots records)
    → AreDistinct (history_slots records)
    → member x (history_slots records) ≡ false
    → (length (pop_full capacity records) < capacity)
      × All (IsBelow bound) (history_slots (pop_full capacity records))
      × AreDistinct (history_slots (pop_full capacity records))
      × (member x (history_slots (pop_full capacity records)) ≡ false)
pop_full_kept capacity records bound x positive room all d h =
    elim (Bool-cases (length records == capacity)) [
      | inl e ↦
          let full = (==_iff (length records) capacity).0 e in
          let (all', d', h') = popped records bound x all d h in
          rw e (omega (arith, length-rest_of records), all', d', h')
      | inr e ↦ rw e (ground arith, all, d, h)
    ]

module _ (slot value : ℕ) where
  abbrev added : List Record → List Record
  added records = records ++ (record { slot = slot; value = value } ∷ [])

  pub added-IsBelow :
      (bound : ℕ) (records : List Record)
      → slot < bound
      → All (IsBelow bound) (history_slots records)
      → All (IsBelow bound) (history_slots (added records))
  added-IsBelow bound [] h all = (h, tt)
  added-IsBelow bound (r ∷ rs) h (here, there) = (here, added-IsBelow bound rs h there)

  member-added :
      (x : ℕ) (records : List Record)
      → (x == slot) ≡ false
      → member x (history_slots records) ≡ false
      → member x (history_slots (added records)) ≡ false
  member-added x [] apart h = rw apart refl
  member-added x (r ∷ rs) apart h = elim (Bool-cases (x == r.slot)) [
    | inl e ↦ let no : true ≡ false = rw e at h in cc
    | inr e ↦ rw e (member-added x rs apart (rw e at h))
  ]

  pub added-AreDistinct :
      (records : List Record)
      → member slot (history_slots records) ≡ false
      → AreDistinct (history_slots records)
      → AreDistinct (history_slots (added records))
  added-AreDistinct [] h d = (refl, tt)
  added-AreDistinct (r ∷ rs) h (here, there) = elim (Bool-cases (slot == r.slot)) [
    | inl e ↦ let no : true ≡ false = rw e at h in cc
    | inr e ↦ (member-added r.slot rs (ground arith) here, added-AreDistinct rs (rw e at h) there)
  ]
