-- ===== src/Ennx/Trials/Search/Protocol.antt =====
-- Sequences of the operations of `Search`.
use ennbo.Prelude.{member}
use ennbo.Prelude.{ℕ, ◌+◌, ◌≤◌, ◌<◌, ◌≡◌, ◌↔◌, refl, arith, ◌||◌}
use mathlib.Core.Path.{subst}
use ennbo.Prelude.{Bool, true, false, ◌==◌, none}
use ennbo.Prelude.{List, ◌∷◌, length, length-map, ltb, not}
use ennbo.Prelude.{Result, ok, bind_parts, passed, fail_if, ◌>>◌, ◌>>=◌}
use ennbo.Ennx.Float.{is_finite}
use ennbo.Ennx.Trials.Leaf.{Leaf, TrialError, base_not_finite, capacity_range}
use ennbo.Ennx.Trials.Slots.{chosen_slots}
use ennbo.Ennx.Trials.Slots.Free.{find_slot_found}
use ennbo.Ennx.Trials.Slots.Chosen.{chosen_slots_found}
use ennbo.Ennx.Trials.Search.{
  Search, Engine, check_new, initial, row_bytes_for, Ask, Trial, new, ask_with_materialization,
  ask_slot, tell, check_ask, materialize_pending, history_slots, free_slot, max_history,
}
use ennbo.Ennx.Trials.Search.Invariant.{IsSearch}
use ennbo.Ennx.Trials.Search.Kept.{
  ask_with_materialization-IsSearch, materialize_pending-IsSearch, tell-IsSearch,
}
use ennbo.Ennx.Trials.Search.Replace.{
  IndexedObservation, replace_history, replace_indexed_history, ask_multi_tr, replacement_slots,
}
use ennbo.Ennx.Trials.Search.Replaced.{
  replace_history-IsSearch, replace_indexed_history-IsSearch, ask_multi_tr-IsSearch,
  replacement_slots_ok, seq_parts,
}

-- The states that a search can be in after calls of its operations, whatever they returned.
pub data Reaches {E : Type 0} (engine : Engine E) (first : Search E) : Search E → Type 0 where
  start : Reaches engine first first
  asked :
      (s : Search E)
      → Reaches engine first s
      → (seeds : List ℕ) (config : Ask) (materialize_row : Bool)
      → Reaches engine first (ask_with_materialization engine s seeds config materialize_row).0
  materialized :
      (s : Search E)
      → Reaches engine first s
      → (trial : Trial) → Reaches engine first (materialize_pending engine s trial).0
  told :
      (s : Search E)
      → Reaches engine first s
      → (trial : Trial) (value : ℕ) (accept : Bool)
      → Reaches engine first (tell engine s trial value accept).0
  replaced :
      (s : Search E)
      → Reaches engine first s
      → (rows values : List ℕ) → Reaches engine first (replace_history engine s rows values).0
  replaced_indexed :
      (s : Search E)
      → Reaches engine first s
      → (observations : List IndexedObservation) (resolve : ℕ → Result TrialError (List ℕ))
      → Reaches engine first (replace_indexed_history engine s observations resolve).0
  asked_regions :
      (s : Search E)
      → Reaches engine first s
      → (num_regions seeds_per_region : ℕ) (seeds : List ℕ) (config : Ask)
      → Reaches engine first (ask_multi_tr engine s num_regions seeds_per_region seeds config).0

check_new_capacity :
    (base : List ℕ) (base_value : ℕ) (leaves : List Leaf) (capacity row_bytes : ℕ)
    → check_new base base_value leaves capacity ≡ ok row_bytes
    → (1 ≤ capacity) × (capacity ≤ max_history)
unfolding check_new
check_new_capacity base base_value leaves capacity row_bytes h =
    let (first, a) =
      seq_parts (fail_if (not (is_finite base_value)) base_not_finite)
        (fail_if (capacity == 0 || ltb max_history capacity) capacity_range
          >> row_bytes_for base leaves)
        h in
    let (second, b) =
      seq_parts (fail_if (capacity == 0 || ltb max_history capacity) capacity_range)
        (row_bytes_for base leaves) a in
    let fine : (capacity == 0 || ltb max_history capacity) ≡ false = passed _ _ second in
    ground arith

module _ {E : Type 0} (engine : Engine E) where
  new-IsSearch :
      (base : List ℕ) (base_value : ℕ) (leaves : List Leaf) (capacity : ℕ) (s : Search E)
      → new engine base base_value leaves capacity ≡ ok s
      → IsSearch s
  unfolding new
  new-IsSearch base base_value leaves capacity s h =
      let (row_bytes, first, a) =
        bind_parts (check_new base base_value leaves capacity)
          (λ row_bytes. engine.create base leaves (capacity + 2) >>= λ state.
            ok (initial base_value leaves capacity row_bytes state))
          h in
      let (state, second, b) =
        bind_parts (engine.create base leaves (capacity + 2))
          (λ state. ok (initial base_value leaves capacity row_bytes state)) a in
      let same : initial base_value leaves capacity row_bytes state ≡ s = cc in
      let fine = check_new_capacity base base_value leaves capacity row_bytes first in
      let made : IsSearch (initial base_value leaves capacity row_bytes state) = record {
        slots = refl;
        capacity = fine;
        base = omega arith;
        room = fine.0;
        below = (omega arith, tt);
        distinct = (refl, tt);
        pending = tt;
      } in
      subst IsSearch same made

  Reaches-IsSearch : (first s : Search E) → IsSearch first → Reaches engine first s → IsSearch s
  Reaches-IsSearch first s v start = v
  Reaches-IsSearch first s v (asked t r seeds config lazy) =
      ask_with_materialization-IsSearch engine t seeds config lazy (Reaches-IsSearch first t v r)
  Reaches-IsSearch first s v (materialized t r trial) =
      materialize_pending-IsSearch engine t trial (Reaches-IsSearch first t v r)
  Reaches-IsSearch first s v (told t r trial value accept) =
      tell-IsSearch engine t trial value accept (Reaches-IsSearch first t v r)
  Reaches-IsSearch first s v (replaced t r rows values) =
      replace_history-IsSearch engine t rows values (Reaches-IsSearch first t v r)
  Reaches-IsSearch first s v (replaced_indexed t r observations resolve) =
      replace_indexed_history-IsSearch engine t observations resolve (Reaches-IsSearch first t v r)
  Reaches-IsSearch first s v (asked_regions t r num_regions seeds_per_region seeds config) =
      ask_multi_tr-IsSearch engine t num_regions seeds_per_region seeds config
        (Reaches-IsSearch first t v r)

  -- From a search that `new` makes, every sequence of asks, tells, materializations, replacements of
  -- the history and region asks, failed ones included, leads to a well-formed search: the base and
  -- all history records have slots in range, no two records share a slot, the history holds at most
  -- `capacity` records, and a pending trial has a slot that neither the base nor a record has.
  pub reached-IsSearch :
      (base : List ℕ) (base_value : ℕ) (leaves : List Leaf) (capacity : ℕ) (first s : Search E)
      → new engine base base_value leaves capacity ≡ ok first
      → Reaches engine first s
      → IsSearch s
  reached-IsSearch base base_value leaves capacity first s h r =
      Reaches-IsSearch first s (new-IsSearch base base_value leaves capacity first h) r

  -- In a well-formed search without a pending trial, an ask whose arguments pass `check_ask` finds a
  -- slot for the trial: it is in range, and neither the base nor a history record has it.
  pub ask_slot_found :
      (s : Search E) (seeds : List ℕ) (config : Ask)
      → IsSearch s
      → s.pending ≡ none
      → check_ask seeds (length s.history) config ≡ ok tt
      → (slot : ℕ) × (ask_slot engine s seeds config ≡ ok slot)
        × (slot < s.slots)
        × (member slot (s.base ∷ history_slots s.history) ≡ false)
  unfolding ask_slot free_slot
  ask_slot_found s seeds config v quiet fine =
      let few : length (s.base ∷ history_slots s.history) < s.slots =
        omega (arith, v.slots, v.room, length-map s.history (λ r. r.slot)) in
      let (slot, found, below, free) =
        find_slot_found s.slots (s.base ∷ history_slots s.history) few in
      (slot, rw (quiet, ask_slot, free_slot, fine, found) refl, below, free)

  -- In a well-formed search, a replacement of the history by `count` rows is given slots exactly
  -- when no trial is pending, `count` is between one and the capacity and the size check passes: it
  -- never lacks slots.
  pub replacement_slots_iff :
      (s : Search E) (count : ℕ) (size_check : Result TrialError (Unit {0}))
      → IsSearch s
      → (replacement_slots s count size_check ≡ ok (chosen_slots s.slots s.base count))
        ↔ ((s.pending ≡ none) × (1 ≤ count) × (count ≤ s.capacity) × (size_check ≡ ok tt))
  unfolding replacement_slots
  replacement_slots_iff s count size_check v = (
    (λ h.
        let (quiet, same, room, size, some_rows, fine) =
          replacement_slots_ok s count size_check _ h in
        (quiet, some_rows, room, fine)),
    λ (quiet, some_rows, room, fine).
        let (full, others, distinct) =
          chosen_slots_found s.slots s.base count (omega (arith, v.slots)) in
        let nonzero : (count == 0) ≡ false = ground arith in
        let short : ltb s.capacity count ≡ false = ground arith in
        let exact : (length (chosen_slots s.slots s.base count) == count) ≡ true = ground arith in
        rw (replacement_slots, quiet, nonzero, short, fine, exact) refl,
  )
