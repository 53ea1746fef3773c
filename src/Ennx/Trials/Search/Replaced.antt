-- ===== src/Ennx/Trials/Search/Replaced.antt =====
-- The invariant of `Search` across the replacements of its history.
use ennbo.Prelude.{AreDistinct, member, member_tail}
use ennbo.Prelude.{ℕ, suc, ◌+◌, ◌≤◌, ◌≡◌, refl, arith, ap}
use ennbo.Prelude.{false, Bool-cases, ◌==◌, inl, inr, none}
use ennbo.Prelude.{List, [], ◌∷◌, ◌++◌, length, All, length-append}
use ennbo.Prelude.{Result, ok, err, Result-cases, passed, fail_if, not, ltb, ◌>>◌}
use ennbo.Ennx.Trials.Leaf.{TrialError, history_pending, history_empty, history_too_long, no_slots}
use ennbo.Ennx.Trials.Slots.{chosen_slots}
use ennbo.Ennx.Trials.Slots.Chosen.{IsOther, chosen_slots_found}
use ennbo.Ennx.Trials.Search.{Search, Engine, Ask, Record, history_slots, is_some}
use ennbo.Ennx.Trials.Search.Invariant.{IsSearch, IsBelow, not_pending}
use ennbo.Ennx.Trials.Search.Kept.{with_engine}
use ennbo.Ennx.Trials.Search.Replace.{
  replacement_slots, zip_records, replace_rows, replace_history, load_observations,
  IndexedObservation, replace_indexed_history, ask_multi_tr, row_size_check, regions_check,
}

-- The parts of a list.
member_prefix : (x : ℕ) (xs ys : List ℕ) → member x (xs ++ ys) ≡ false → member x xs ≡ false
member_prefix x [] ys h = refl
member_prefix x (z ∷ zs) ys h =
    let (other, absent) = member_tail x z (zs ++ ys) h in
    rw (other, member_prefix x zs ys absent) refl

prefix-AreDistinct : (xs ys : List ℕ) → AreDistinct (xs ++ ys) → AreDistinct xs
prefix-AreDistinct [] ys d = tt
prefix-AreDistinct (x ∷ xs) ys (here, there) =
    (member_prefix x xs ys here, prefix-AreDistinct xs ys there)

prefix-IsBelow :
    (bound : ℕ) (xs ys : List ℕ) → All (IsBelow bound) (xs ++ ys) → All (IsBelow bound) xs
prefix-IsBelow bound [] ys all = tt
prefix-IsBelow bound (x ∷ xs) ys (here, there) = (here, prefix-IsBelow bound xs ys there)

others-IsBelow :
    (start stop base : ℕ) (xs : List ℕ) → All (IsOther start stop base) xs → All (IsBelow stop) xs
others-IsBelow start stop base [] all = tt
others-IsBelow start stop base (x ∷ xs) (here, there) =
    (here.1, others-IsBelow start stop base xs there)

slots-added :
    (records : List Record) (slot value : ℕ) (slots : List ℕ)
    → history_slots records ++ (slot ∷ slots)
      ≡ history_slots (records ++ (record { slot = slot; value = value } ∷ [])) ++ slots
slots-added [] slot value slots = refl
slots-added (r ∷ rs) slot value slots = ap (λ t. r.slot ∷ t) (slots-added rs slot value slots)

slots-zip_records :
    (slots values : List ℕ)
    → length slots ≡ length values
    → (history_slots (zip_records slots values) ≡ slots)
      × (length (zip_records slots values) ≡ length slots)
slots-zip_records [] values e = (refl, refl)
slots-zip_records (slot ∷ slots) [] e = ground arith
slots-zip_records (slot ∷ slots) (value ∷ values) e =
    let (h, k) = slots-zip_records slots values (omega arith) in (ap (λ t. slot ∷ t) h, ap suc k)

-- A new history in the place of the old one.
with_history :
    {E : Type 0} (s : Search E) (records : List Record)
    → IsSearch s
    → s.pending ≡ none
    → length records ≤ s.capacity
    → All (IsBelow s.slots) (history_slots records)
    → AreDistinct (history_slots records)
    → IsSearch (record s { history = records })
with_history s records v quiet room below distinct = record {
  slots = v.slots;
  capacity = v.capacity;
  base = v.base;
  room = room;
  below = below;
  distinct = distinct;
  pending = rw quiet tt;
}

pub seq_parts :
    {B : Type 0} {b : B} (m : Result TrialError (Unit {0})) (k : Result TrialError B)
    → (m >> k) ≡ ok b
    → (m ≡ ok tt) × (k ≡ ok b)
seq_parts (err e) k h = cc
seq_parts (ok u) k h = (refl, h)

module _ {E : Type 0} where
  pub replacement_slots_ok :
      (s : Search E) (count : ℕ) (size_check : Result TrialError (Unit {0})) (slots : List ℕ)
      → replacement_slots s count size_check ≡ ok slots
      → (s.pending ≡ none)
        × (slots ≡ chosen_slots s.slots s.base count)
        × (count ≤ s.capacity)
        × (length slots ≡ count)
        × (1 ≤ count)
        × (size_check ≡ ok tt)
  unfolding replacement_slots
  replacement_slots_ok s count size_check slots h =
      let (first, a) =
        seq_parts (fail_if (is_some s.pending) history_pending)
          (do
            fail_if (count == 0) history_empty
            fail_if (ltb s.capacity count) history_too_long
            size_check
            fail_if (not (length (chosen_slots s.slots s.base count) == count)) no_slots
            ok (chosen_slots s.slots s.base count))
          h in
      let (second, b) =
        seq_parts (fail_if (count == 0) history_empty)
          (do
            fail_if (ltb s.capacity count) history_too_long
            size_check
            fail_if (not (length (chosen_slots s.slots s.base count) == count)) no_slots
            ok (chosen_slots s.slots s.base count))
          a in
      let (third, c) =
        seq_parts (fail_if (ltb s.capacity count) history_too_long)
          (do
            size_check
            fail_if (not (length (chosen_slots s.slots s.base count) == count)) no_slots
            ok (chosen_slots s.slots s.base count))
          b in
      let (fourth, d) =
        seq_parts size_check
          (do
            fail_if (not (length (chosen_slots s.slots s.base count) == count)) no_slots
            ok (chosen_slots s.slots s.base count))
          c in
      let (fifth, done) =
        seq_parts (fail_if (not (length (chosen_slots s.slots s.base count) == count)) no_slots)
          (ok (chosen_slots s.slots s.base count)) d in
      let same : slots ≡ chosen_slots s.slots s.base count = cc in
      let short = passed (ltb s.capacity count) history_too_long third in
      let full =
        passed (not (length (chosen_slots s.slots s.base count) == count)) no_slots fifth in
      let size : length (chosen_slots s.slots s.base count) ≡ count = ground arith in
      (
        not_pending s.pending (passed (is_some s.pending) history_pending first),
        same,
        ground arith,
        rw same size,
        ground (arith, passed (count == 0) history_empty second),
        fourth,
      )

module _ {E : Type 0} (engine : Engine E) where
  replace_rows-IsSearch :
      (s : Search E) (slots values : List ℕ) (r : E × Result TrialError (Unit {0}))
      → IsSearch s
      → s.pending ≡ none
      → length values ≤ s.capacity
      → length slots ≡ length values
      → slots ≡ chosen_slots s.slots s.base (length values)
      → IsSearch (replace_rows engine s slots values r).0
  unfolding replace_rows
  replace_rows-IsSearch s slots values (state, err e) v quiet room size same =
      with_engine engine s state v
  replace_rows-IsSearch s slots values (state, ok done) v quiet room size same =
      let (full, others, distinct) =
        chosen_slots_found s.slots s.base (length values) (omega (arith, v.slots)) in
      let (taken, long) = slots-zip_records slots values size in
      with_engine engine (record s { history = zip_records slots values }) state
        (with_history s (zip_records slots values) v quiet (omega arith)
          (rw (taken, same) (others-IsBelow 0 s.slots s.base _ others)) (rw (taken, same) distinct))

  load-IsSearch :
      (resolve : ℕ → Result TrialError (List ℕ)) (slots : List ℕ)
      (observations : List IndexedObservation) (s : Search E)
      → IsSearch s
      → s.pending ≡ none
      → length s.history + length slots ≤ s.capacity
      → All (IsBelow s.slots) (history_slots s.history ++ slots)
      → AreDistinct (history_slots s.history ++ slots)
      → IsSearch (load_observations engine resolve slots observations s).0
  unfolding load_observations
  load-IsSearch resolve [] observations s v quiet room below distinct = v
  load-IsSearch resolve (slot ∷ slots) [] s v quiet room below distinct = v
  load-IsSearch resolve (slot ∷ slots) (o ∷ os) s v quiet room below distinct =
      elim (Result-cases (resolve o.id)) [
        | inr (failure, e) ↦ rw (e, load_observations) v
        | inl (row, e) ↦
            rw (e, load_observations)
              (elim (Bool-cases (length row == s.row_bytes)) [
                | inr bad ↦ rw bad v
                | inl fine ↦
                    let written = engine.write s.engine slot row in
                    let same = slots-added s.history slot o.value slots in
                    let below' = rw same at below in
                    let distinct' = rw same at distinct in
                    let records = s.history ++ (record { slot = slot; value = o.value } ∷ []) in
                    let longer : length records ≡ length s.history + 1 =
                      length-append s.history (record { slot = slot; value = o.value } ∷ []) in
                    let kept =
                      with_history s records v quiet (omega arith)
                        (prefix-IsBelow s.slots (history_slots records) slots below')
                        (prefix-AreDistinct (history_slots records) slots distinct') in
                    rw fine (elim (Result-cases written.1) [
                      | inr (failure, bad) ↦ rw bad (with_engine engine s written.0 v)
                      | inl (u, good) ↦ rw good (
                          load-IsSearch resolve slots os
                            (record s { engine = written.0; history = records })
                            (with_engine engine (record s { history = records }) written.0 kept)
                            quiet (omega arith) below' distinct')
                    ])
              ])
      ]

  pub replace_history-IsSearch :
      (s : Search E) (rows values : List ℕ)
      → IsSearch s
      → IsSearch (replace_history engine s rows values).0
  unfolding replace_history
  replace_history-IsSearch s rows values v =
      elim (Result-cases
        (replacement_slots s (length values) (row_size_check s (length rows) (length values)))) [
          | inr (failure, e) ↦ rw (e, replace_history) v
          | inl (slots, e) ↦
              rw (e, replace_history)
                (let (quiet, same, room, size, _, _) =
                    replacement_slots_ok s (length values) _ slots e in
                  replace_rows-IsSearch s slots values _ v quiet room size same)
        ]

  pub replace_indexed_history-IsSearch :
      (s : Search E) (observations : List IndexedObservation)
      (resolve : ℕ → Result TrialError (List ℕ))
      → IsSearch s
      → IsSearch (replace_indexed_history engine s observations resolve).0
  unfolding replace_indexed_history
  replace_indexed_history-IsSearch s observations resolve v =
      elim (Result-cases (replacement_slots s (length observations) (ok tt))) [
        | inr (failure, e) ↦ rw (e, replace_indexed_history) v
        | inl (slots, e) ↦
            let (quiet, same, room, size, _, _) =
              replacement_slots_ok s (length observations) (ok tt) slots e in
            let (full, others, distinct) =
              chosen_slots_found s.slots s.base (length observations) (omega (arith, v.slots)) in
            rw (e, replace_indexed_history)
              (load-IsSearch resolve slots observations (record s { history = [] })
                (with_history s [] v quiet (omega arith) tt tt) quiet (omega arith)
                (rw same (others-IsBelow 0 s.slots s.base _ others)) (rw same distinct))
      ]

  pub ask_multi_tr-IsSearch :
      (s : Search E) (num_regions seeds_per_region : ℕ) (seeds : List ℕ) (config : Ask)
      → IsSearch s
      → IsSearch (ask_multi_tr engine s num_regions seeds_per_region seeds config).0
  unfolding ask_multi_tr
  ask_multi_tr-IsSearch s num_regions seeds_per_region seeds config v =
      elim (Result-cases (regions_check s num_regions seeds_per_region seeds config)) [
        | inr (failure, e) ↦ rw (e, ask_multi_tr) v
        | inl (passed, e) ↦ rw (e, ask_multi_tr) (with_engine engine s _ v)
      ]
