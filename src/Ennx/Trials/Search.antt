-- ===== src/Ennx/Trials/Search.antt =====
-- `Search` of trials.rs. The row store and scorer behind it is the interface `Engine`; an operation
-- gives the state it leaves beside its result, also when it fails.
pub mod Replace
pub mod Invariant
pub mod Kept
pub mod Replaced
pub mod Protocol
pub mod Told
pub mod Lost
use ennbo.Prelude.{ℕ, zero, suc, ◌+◌, ◌*◌, ◌^◌, ◌%◌, ◌≡◌, ◌<◌, Bool, true, false, ◌||◌, ◌&&◌, not}
use ennbo.Prelude.{Option, none, some, List, [], ◌∷◌, ◌++◌, map, length, get_elem?, ◌==◌, ltb}
use ennbo.Prelude.{if◌then◌else◌, Result, ok, err, ◌>>=◌, ◌>>◌, fail_if}
use ennbo.Ennx.Float.{is_finite, lt_zero}
use ennbo.Ennx.Trials.Leaf.{
  Leaf, TrialError, base_not_finite, capacity_range, base_row_length, pending_before_ask, no_seeds,
  neighbor_count, length_bad, epistemic_bad, aleatoric_bad, y_scale_bad, beta_bad, no_free_slot,
  value_not_finite, row_not_materialized, wrong_trial, nothing_pending, panicked,
}
use ennbo.Ennx.Trials.Layout.{check_layout}
use ennbo.Ennx.Trials.Slots.{find_slot}

pub data AcquisitionKind : Type 0 where
  ucb thompson pareto : AcquisitionKind

pub record Ask : Type 0 where
  pub length : ℕ
  pub neighbors : ℕ
  pub epistemic_scale : ℕ
  pub aleatoric_scale : ℕ
  pub y_scale : ℕ
  pub beta : ℕ
  pub acquisition : AcquisitionKind
  pub seed : ℕ

pub record Trial : Type 0 where
  pub id : ℕ
  pub index : ℕ
  pub seed : ℕ
  pub score : ℕ

pub record Record : Type 0 where
  pub slot : ℕ
  pub value : ℕ

pub record Pending : Type 0 where
  pub id : ℕ
  pub slot : ℕ
  pub seed : ℕ
  pub length : ℕ
  pub materialized : Bool

-- What `Search` calls of an engine with states in `E`.
pub record Engine (E : Type 0) : Type 0 where
  pub create : List ℕ → List Leaf → ℕ → Result TrialError E
  pub ask :
      E → ℕ → List (ℕ × ℕ) → ℕ → List ℕ → List Leaf → Ask → Bool → E × Result TrialError (ℕ × ℕ)
  pub read : E → ℕ → ℕ → Result TrialError (List ℕ)
  pub write : E → ℕ → List ℕ → E × Result TrialError (Unit {0})
  pub materialize : E → ℕ → ℕ → ℕ → List Leaf → ℕ → E × Result TrialError (Unit {0})

abbrev pub max_history : ℕ
max_history = 128

pub record Search (E : Type 0) : Type 0 where
  pub leaves : List Leaf
  pub row_bytes : ℕ
  pub capacity : ℕ
  pub slots : ℕ
  pub base : ℕ
  pub history : List Record
  pub pending : Option Pending
  pub next_id : ℕ
  pub engine : E

abbrev pub is_some {ℓ} : {A : Type ℓ} → Option A → Bool
is_some none = false
is_some (some _) = true

-- `!value.is_finite() || value < 0.0`
abbrev negative : ℕ → Bool
negative value = not (is_finite value) || lt_zero value

abbrev pub history_pairs : List Record → List (ℕ × ℕ)
history_pairs records = map (λ r. (r.slot, r.value)) records

abbrev pub history_slots : List Record → List ℕ
history_slots records = map (λ r. r.slot) records

unfoldable pub check_ask : List ℕ → ℕ → Ask → Result TrialError (Unit {0})
check_ask seeds observations config = do
  fail_if (length seeds == 0) no_seeds
  fail_if (config.neighbors == 0 || ltb observations config.neighbors) neighbor_count
  fail_if (negative config.length) length_bad
  fail_if (negative config.epistemic_scale) epistemic_bad
  fail_if (negative config.aleatoric_scale) aleatoric_bad
  fail_if (negative config.y_scale) y_scale_bad
  fail_if (negative config.beta) beta_bad
  ok tt

-- The slots that are taken: the base's, the history's and the pending trial's.
abbrev pub occupied : {E : Type 0} → Search E → List ℕ
occupied s = elim s.pending [
  | none ↦ s.base ∷ history_slots s.history
  | some pending ↦ pending.slot ∷ s.base ∷ history_slots s.history
]

unfoldable pub free_slot : {E : Type 0} → Search E → Option ℕ
free_slot s = find_slot s.slots 0 (occupied s)

-- The pending trial, if it is the one asked for.
abbrev pub matched : Pending → Trial → Result TrialError Pending
matched pending trial = if pending.id == trial.id then ok pending else err wrong_trial

-- `self.free_slot().ok_or("no free model slot")`
abbrev pub slot_or_none : Option ℕ → Result TrialError ℕ
slot_or_none none = err no_free_slot
slot_or_none (some slot) = ok slot

unfoldable pub pending_for : {E : Type 0} → Search E → Trial → Result TrialError Pending
pending_for s trial = elim s.pending [
  | none ↦ err nothing_pending
  | some pending ↦ matched pending trial
]

-- `pop_front`
abbrev pub rest_of : List Record → List Record
rest_of [] = []
rest_of (first ∷ rest) = rest

-- `pop_front` when the history is full.
abbrev pub pop_full : ℕ → List Record → List Record
pop_full capacity records = if length records == capacity then rest_of records else records

-- The checks of `Search::new`, which give the bytes of a row.
abbrev pub row_bytes_for : List ℕ → List Leaf → Result TrialError ℕ
row_bytes_for base leaves = do
  row_bytes ← check_layout leaves
  fail_if (not (length base == row_bytes)) base_row_length
  ok row_bytes

unfoldable pub check_new : List ℕ → ℕ → List Leaf → ℕ → Result TrialError ℕ
check_new base base_value leaves capacity = do
  fail_if (not (is_finite base_value)) base_not_finite
  fail_if (capacity == 0 || ltb max_history capacity) capacity_range
  row_bytes_for base leaves

-- The state that `Search::new` starts with.
abbrev pub initial : {E : Type 0} → ℕ → List Leaf → ℕ → ℕ → E → Search E
initial base_value leaves capacity row_bytes state = record {
  leaves = leaves;
  row_bytes = row_bytes;
  capacity = capacity;
  slots = capacity + 2;
  base = 0;
  history = record { slot = 0; value = base_value } ∷ [];
  pending = none;
  next_id = 0;
  engine = state;
}

module _ {E : Type 0} (engine : Engine E) where
  unfoldable pub new : List ℕ → ℕ → List Leaf → ℕ → Result TrialError (Search E)
  unfolding check_new
  new base base_value leaves capacity = do
    row_bytes ← check_new base base_value leaves capacity
    state ← engine.create base leaves (capacity + 2)
    ok (initial base_value leaves capacity row_bytes state)

  -- The checks before the engine is asked: the slot for the trial.
  unfoldable pub ask_slot : Search E → List ℕ → Ask → Result TrialError ℕ
  unfolding check_ask free_slot
  ask_slot s seeds config = do
    fail_if (is_some s.pending) pending_before_ask
    check_ask seeds (length s.history) config
    slot_or_none (free_slot s)

  -- What the engine answered, recorded; `seeds[index]` panics out of range.
  unfoldable pub record_answer :
      Search E
      → List ℕ
      → Ask
      → Bool
      → ℕ
      → E × Result TrialError (ℕ × ℕ)
      → Search E × Result TrialError Trial
  record_answer s seeds config materialize_row slot (state, err e) =
      (record s { engine = state }, err e)
  record_answer s seeds config materialize_row slot (state, ok (index, score)) =
      elim (get_elem? seeds index) [
        | none ↦ (record s { engine = state; next_id = (s.next_id + 1) % 2 ^ 64 }, err panicked)
        | some seed ↦ (
          record s {
            engine = state;
            next_id = (s.next_id + 1) % 2 ^ 64;
            pending = some (record {
              id = s.next_id;
              slot = slot;
              seed = seed;
              length = config.length;
              materialized = materialize_row;
            });
          },
          ok (record { id = s.next_id; index = index; seed = seed; score = score }),
        )
      ]

  unfoldable pub ask_with_materialization :
      Search E → List ℕ → Ask → Bool → Search E × Result TrialError Trial
  unfolding ask_slot record_answer
  ask_with_materialization s seeds config materialize_row = elim (ask_slot s seeds config) [
    | err e ↦ (s, err e)
    | ok slot ↦ record_answer s seeds config materialize_row slot (
        engine.ask s.engine s.base (history_pairs s.history) slot seeds s.leaves config
          materialize_row)
  ]

  abbrev pub ask : Search E → List ℕ → Ask → Search E × Result TrialError Trial
  ask s seeds config = ask_with_materialization s seeds config true

  abbrev pub ask_lazy : Search E → List ℕ → Ask → Search E × Result TrialError Trial
  ask_lazy s seeds config = ask_with_materialization s seeds config false

  unfoldable pub row : Search E → Trial → Result TrialError (List ℕ)
  unfolding pending_for
  row s trial = do
    pending ← pending_for s trial
    fail_if (not pending.materialized) row_not_materialized
    engine.read s.engine pending.slot s.row_bytes

  abbrev pub materialized :
      Search E
      → Pending
      → E × Result TrialError (Unit {0})
      → Search E × Result TrialError (Unit {0})
  materialized s pending (state, err e) = (record s { engine = state }, err e)
  materialized s pending (state, ok done) =
      (record s { engine = state; pending = some (record pending { materialized = true }) }, ok tt)

  unfoldable pub materialize_pending : Search E → Trial → Search E × Result TrialError (Unit {0})
  unfolding pending_for
  materialize_pending s trial = elim (pending_for s trial) [
    | err e ↦ (s, err e)
    | ok pending ↦
        if pending.materialized
        then (s, ok tt)
        else materialized s pending
            (engine.materialize s.engine s.base pending.slot pending.seed s.leaves pending.length)
  ]

  -- `tell` after its row was materialized.
  unfoldable pub finish_tell :
      Trial
      → ℕ
      → Bool
      → Search E × Result TrialError (Unit {0})
      → Search E × Result TrialError (Unit {0})
  unfolding pending_for
  finish_tell trial value accept (s, err e) = (s, err e)
  finish_tell trial value accept (s, ok done) = elim (pending_for s trial) [
    | err e ↦ (s, err e)
    | ok pending ↦ (
      record s {
        history =
            pop_full s.capacity s.history ++ (record { slot = pending.slot; value = value } ∷ []);
        base = if accept then pending.slot else s.base;
        pending = none;
      },
      ok tt,
    )
  ]

  unfoldable pub tell : Search E → Trial → ℕ → Bool → Search E × Result TrialError (Unit {0})
  unfolding materialize_pending finish_tell
  tell s trial value accept =
      if not (is_finite value)
      then (s, err value_not_finite)
      else finish_tell trial value accept (materialize_pending s trial)
