-- ===== src/Ennx/Trials/Search/Replace.antt =====
-- `Search::replace_history`, `Search::replace_indexed_history` and `Search::ask_multi_tr` of
-- trials.rs, the last as it runs on an engine other than Metal's.
use ennbo.Prelude.{ℕ, zero, suc, ◌+◌, ◌*◌, ◌^◌, true, ◌||◌, not}
use ennbo.Prelude.{List, [], ◌∷◌, ◌++◌, length, take, drop, ◌==◌, leb, ltb, if◌then◌else◌}
use ennbo.Prelude.{Result, ok, err, ◌>>=◌, ◌>>◌, fail_if}
use ennbo.Ennx.Trials.Leaf.{
  TrialError, history_pending, history_empty, history_too_long, history_overflow, history_bytes,
  no_slots, resolved_bytes, pending_before_ask, regions_zero, candidate_overflow, seed_count,
}
use ennbo.Ennx.Trials.Slots.{chosen_slots}
use ennbo.Ennx.Trials.Search.{Search, Engine, Record, Ask, is_some, history_pairs, check_ask}

pub record IndexedObservation : Type 0 where
  pub id : ℕ
  pub value : ℕ

-- `slots.into_iter().zip(values)`
abbrev pub zip_records : List ℕ → List ℕ → List Record
zip_records [] values = []
zip_records (slot ∷ slots) [] = []
zip_records (slot ∷ slots) (value ∷ values) =
    record { slot = slot; value = value } ∷ zip_records slots values

module _ {E : Type 0} where
  -- The checks that both replacements begin with: the slots to fill.
  unfoldable pub replacement_slots :
      Search E → ℕ → Result TrialError (Unit {0}) → Result TrialError (List ℕ)
  replacement_slots s count size_check = do
    fail_if (is_some s.pending) history_pending
    fail_if (count == 0) history_empty
    fail_if (ltb s.capacity count) history_too_long
    size_check
    fail_if (not (length (chosen_slots s.slots s.base count) == count)) no_slots
    ok (chosen_slots s.slots s.base count)

  -- `checked_mul` and the byte count of `replace_history`.
  abbrev pub row_size_check : Search E → ℕ → ℕ → Result TrialError (Unit {0})
  row_size_check s bytes count = do
    fail_if (leb (2 ^ 64) (count * s.row_bytes)) history_overflow
    fail_if (not (bytes == count * s.row_bytes)) history_bytes

  unfoldable pub regions_check : Search E → ℕ → ℕ → List ℕ → Ask → Result TrialError (Unit {0})
  unfolding check_ask
  regions_check s num_regions seeds_per_region seeds config = do
    fail_if (is_some s.pending) pending_before_ask
    fail_if (num_regions == 0 || (seeds_per_region == 0)) regions_zero
    fail_if (leb (2 ^ 64) (num_regions * seeds_per_region)) candidate_overflow
    fail_if (not (length seeds == num_regions * seeds_per_region)) seed_count
    check_ask seeds (length s.history) config

module _ {E : Type 0} (engine : Engine E) where
  -- The rows, one `row_bytes` after the other, written to the slots in order.
  unfoldable pub write_rows : ℕ → List ℕ → List ℕ → E → E × Result TrialError (Unit {0})
  write_rows row_bytes [] rows state = (state, ok tt)
  write_rows row_bytes (slot ∷ slots) rows state =
      let (state', done) = engine.write state slot (take row_bytes rows) in
      let rest = write_rows row_bytes slots (drop row_bytes rows) state' in
      elim done [ err e ↦ (state', err e) | ok u ↦ rest ]

  unfoldable pub replace_rows :
      Search E
      → List ℕ
      → List ℕ
      → E × Result TrialError (Unit {0})
      → Search E × Result TrialError (Unit {0})
  replace_rows s slots values (state, err e) = (record s { engine = state }, err e)
  replace_rows s slots values (state, ok done) =
      (record s { engine = state; history = zip_records slots values }, ok tt)

  unfoldable pub replace_history :
      Search E → List ℕ → List ℕ → Search E × Result TrialError (Unit {0})
  unfolding replacement_slots write_rows replace_rows
  replace_history s rows values =
      elim (replacement_slots s (length values) (row_size_check s (length rows) (length values))) [
        | err e ↦ (s, err e)
        | ok slots ↦ replace_rows s slots values (write_rows s.row_bytes slots rows s.engine)
      ]

  -- The loop of `replace_indexed_history`: a failure leaves what was loaded before it.
  unfoldable pub load_observations :
      (ℕ → Result TrialError (List ℕ))
      → List ℕ
      → List IndexedObservation
      → Search E
      → Search E × Result TrialError (Unit {0})
  load_observations resolve [] observations s = (s, ok tt)
  load_observations resolve (slot ∷ slots) [] s = (s, ok tt)
  load_observations resolve (slot ∷ slots) (observation ∷ observations) s =
      elim (resolve observation.id) [
        | err e ↦ (s, err e)
        | ok row ↦
            let (state, done) = engine.write s.engine slot row in
            let rest = load_observations resolve slots observations (record s {
              engine = state;
              history = s.history ++ (record { slot = slot; value = observation.value } ∷ []);
            }) in
            if not (length row == s.row_bytes)
            then (s, err resolved_bytes)
            else elim done [ err e ↦ (record s { engine = state }, err e) | ok u ↦ rest ]
      ]

  unfoldable pub replace_indexed_history :
      Search E
      → List IndexedObservation
      → (ℕ → Result TrialError (List ℕ))
      → Search E × Result TrialError (Unit {0})
  unfolding replacement_slots load_observations
  replace_indexed_history s observations resolve =
      elim (replacement_slots s (length observations) (ok tt)) [
        | err e ↦ (s, err e)
        | ok slots ↦ load_observations resolve slots observations (record s { history = [] })
      ]

  -- `for r in 0..num_regions`: every region asks the engine for the trial slot 0 and has its row
  -- materialized there.
  unfoldable pub ask_regions :
      ℕ → ℕ → ℕ → List ℕ → Ask → Search E → E → E × Result TrialError (List (ℕ × ℕ))
  ask_regions zero start seeds_per_region seeds config s state = (state, ok [])
  ask_regions (suc count) start seeds_per_region seeds config s state =
      let (state', answer) =
        engine.ask state s.base (history_pairs s.history) 0
          (take seeds_per_region (drop start seeds)) s.leaves config true in
      let (state'', rest) =
        ask_regions count (start + seeds_per_region) seeds_per_region seeds config s state' in
      elim answer [
        | err e ↦ (state', err e)
        | ok best ↦ (state'', rest >>= λ later. ok ((start + best.0, best.1) ∷ later))
      ]

  unfoldable pub ask_multi_tr :
      Search E → ℕ → ℕ → List ℕ → Ask → Search E × Result TrialError (List (ℕ × ℕ))
  unfolding regions_check ask_regions
  ask_multi_tr s num_regions seeds_per_region seeds config =
      let (state, results) = ask_regions num_regions 0 seeds_per_region seeds config s s.engine in
      elim (regions_check s num_regions seeds_per_region seeds config) [
        | err e ↦ (s, err e)
        | ok passed ↦ (record s { engine = state }, results)
      ]
