-- ===== src/Ennx/Trials/Examples.antt =====
-- Runs of the trial search, and its theorems at concrete rows and searches.
use ennbo.Prelude.{member}
use ennbo.Prelude.{
  ℕ, ◌+◌, ◌-◌, ◌*◌, ◌/◌, ◌^◌, ◌≤◌, ◌<◌, ◌≡◌, ◌↔◌, ◌≢◌, refl, arith, inl, min, max, none, some,
}
use ennbo.Prelude.{List, [], ◌∷◌, ◌++◌, length, All, ok, err, Result, true, false, if◌then◌else◌}
use ennbo.Ennx.Trials.Leaf.{Leaf, bytes, int4, int8, TrialError, resolve_failed}
use ennbo.Ennx.Trials.Layout.{check_layout, check_leaves, make_tiles}
use ennbo.Ennx.Trials.Layout.Contiguous.{check_layout_iff-IsContiguous, IsContiguous, parameters}
use ennbo.Ennx.Trials.Layout.Tiles.{make_tiles-AreTiled, AreTiled}
use ennbo.Ennx.Trials.Perturb.{Step, perturb, move_code, hash}
use ennbo.Ennx.Trials.Perturb.Range.{perturb_range, IsStep, max_code}
use ennbo.Ennx.Trials.Decode.{F32, decode_code}
use ennbo.Ennx.Float.{f32_lt, f32_eq, order_key}
use ennbo.Ennx.Trials.Row.{
  make_steps_from, leaves_distance, leaf_distance, make_step, materialize_leaves, materialize_leaf,
}
use ennbo.Ennx.Trials.Slots.{chosen_slots, find_slot}
use ennbo.Ennx.Trials.Search.{
  Search, Engine, Ask, Trial, new, initial, ask, ask_with_materialization, ask_slot, tell,
  check_ask, ucb, pop_full,
}
use ennbo.Ennx.Trials.Search.Invariant.{IsSearch}
use ennbo.Ennx.Trials.Search.Replace.{replace_indexed_history, replacement_slots}
use ennbo.Ennx.Trials.Search.Protocol.{
  start, asked, reached-IsSearch, ask_slot_found, replacement_slots_iff,
}
use ennbo.Ennx.Trials.Search.Told.{asked_then_told}
use ennbo.Ennx.Trials.Search.Lost.{unresolved_history}
use ennbo.Ennx.Trials.Cpu.{Cpu, cpu_engine, cpu_new}
use ennbo.Ennx.Trials.Cpu.{cpu_read, cpu_write}
use ennbo.Ennx.Trials.Cpu.Store.{cpu_read-cpu_write}
use ennbo.Ennx.Trials.Tree.{Center, check}
use ennbo.Ennx.Trials.Tree.Chains.{check_iff-AreCenters, AreCenters, IsInside}

-- The leaves of the tests in trials.rs: five codes of 4 bits and four of 8 bits.
abbrev two_leaves : List Leaf
two_leaves =
    record {
      offset = 0;
      length = 5;
      bits = 4;
      encoding = int4;
      scale = 0x3e80_0000;
      weight = 0x3f80_0000;
      radius = 0x3f40_0000;
    }
    ∷ record {
      offset = 5;
      length = 4;
      bits = 8;
      encoding = int8;
      scale = 0x3f00_0000;
      weight = 0x3f00_0000;
      radius = 0x3f80_0000;
    }
    ∷ []

abbrev base_row : List ℕ
base_row = 0x76 ∷ 0x98 ∷ 0x0a ∷ 100 ∷ 120 ∷ 140 ∷ 160 ∷ []

two_leaves-check : check_layout two_leaves ≡ ok 7
unfolding check_layout check_leaves bytes
two_leaves-check = refl

check_layout_iff-IsContiguous_example : (check_layout two_leaves ≡ ok 7) ↔ (
    (two_leaves ≢ [])
    × IsContiguous 0 two_leaves 7
    × (parameters two_leaves < 2 ^ 32)
    × (7 < 2 ^ 32))
check_layout_iff-IsContiguous_example = check_layout_iff-IsContiguous two_leaves 7

make_tiles-AreTiled_example : AreTiled 0 two_leaves (make_tiles two_leaves)
make_tiles-AreTiled_example = make_tiles-AreTiled two_leaves 7 two_leaves-check (omega arith)

abbrev whole_step : Step
whole_step = record {
  byte_offset = 0;
  element_offset = 0;
  length = 5;
  bits = 4;
  encoding = 0;
  scale = 0x3e80_0000;
  weight = 0x3f80_0000;
  whole = 2;
  threshold = 0x8000_0000;
}

whole_step-IsStep : IsStep whole_step
whole_step-IsStep = record { bits = inl refl; whole = omega arith; saturated = λ h. ground arith }

perturb_range_example :
    (perturb 6 7 3 whole_step ≤ max_code whole_step)
    × (perturb 6 7 3 whole_step ≤ 6 + whole_step.whole + 1)
    × (6 ≤ perturb 6 7 3 whole_step + whole_step.whole + 1)
perturb_range_example = perturb_range 6 7 3 whole_step whole_step-IsStep (omega arith)

-- Operations for runs: bit patterns taken for integers.
abbrev integer_ops : F32
integer_ops = record {
  of_u32 = λ n. n;
  to_u32 = λ x. x;
  add = λ a b. a + b;
  sub = λ a b. a - b;
  mul = λ a b. a * b;
  div = λ a b. a / b;
  mul_add = λ a b c. a * b + c;
  max_f32 = λ a b. max a b;
  clamp = λ x low high. min (max x low) high;
  floor = λ x. x;
  sqrt = λ x. x;
}

abbrev no_draws : ℕ → ℕ → List ℕ
no_draws count seed = 0 ∷ 0 ∷ []

abbrev pub host : Engine Cpu
host = cpu_engine integer_ops no_draws

abbrev pub first_state : Search Cpu
first_state = initial 0 two_leaves 2 7 (cpu_new base_row 4)

abbrev pub plain_config : Ask
plain_config = record {
  length = 0x3f80_0000;
  neighbors = 1;
  epistemic_scale = 0;
  aleatoric_scale = 0;
  y_scale = 0;
  beta = 0;
  acquisition = ucb;
  seed = 0;
}

first_state-new : new host base_row 0 two_leaves 2 ≡ ok first_state
unfolding new check_layout cpu_engine check_leaves bytes
first_state-new = refl

reached-IsSearch_example :
    IsSearch (ask_with_materialization host first_state (5 ∷ 9 ∷ []) plain_config true).0
reached-IsSearch_example =
    reached-IsSearch host base_row 0 two_leaves 2 first_state
      (ask_with_materialization host first_state (5 ∷ 9 ∷ []) plain_config true).0 first_state-new
      (asked first_state start (5 ∷ 9 ∷ []) plain_config true)

first_state-IsSearch : IsSearch first_state
first_state-IsSearch =
    reached-IsSearch host base_row 0 two_leaves 2 first_state first_state first_state-new start

plain_config-check : check_ask (5 ∷ 9 ∷ []) 1 plain_config ≡ ok tt
unfolding check_ask
plain_config-check = refl

ask_slot_found_example :
    (slot : ℕ) × (ask_slot host first_state (5 ∷ 9 ∷ []) plain_config ≡ ok slot)
    × (slot < 4)
    × (member slot (0 ∷ 0 ∷ []) ≡ false)
ask_slot_found_example =
    ask_slot_found host first_state (5 ∷ 9 ∷ []) plain_config first_state-IsSearch refl
      plain_config-check

replacement_slots_iff_example :
    (replacement_slots first_state 2 (ok tt) ≡ ok (chosen_slots 4 0 2)) ↔ (
      (first_state.pending ≡ none)
      × (1 ≤ 2)
      × (2 ≤ 2)
      × (◌≡◌ {A = Result TrialError (Unit {0})} (ok tt) (ok tt)))
replacement_slots_iff_example =
    replacement_slots_iff host first_state 2 (ok tt) first_state-IsSearch

abbrev pub first_trial : Trial
first_trial = record { id = 0; index = 0; seed = 5; score = 0 }

abbrev pub asked_state : Search Cpu
asked_state = (ask host first_state (5 ∷ 9 ∷ []) plain_config).0

pub first_ask : ask host first_state (5 ∷ 9 ∷ []) plain_config ≡ (asked_state, ok first_trial)
unfolding ask_with_materialization cpu_engine find_slot make_steps_from bytes leaves_distance
    leaf_distance make_step f32_lt decode_code perturb move_code hash order_key f32_eq
    materialize_leaves materialize_leaf
first_ask = refl

asked_then_told_example :
    (slot : ℕ) × (slot < 4)
    × (member slot (0 ∷ 0 ∷ []) ≡ false)
    × (tell host asked_state first_trial 0x3f80_0000 true ≡ (
      record asked_state {
        history =
            pop_full 2 first_state.history ++ (record { slot = slot; value = 0x3f80_0000 } ∷ []);
        base = if true then slot else 0;
        pending = none;
      },
      ok tt,
    ))
asked_then_told_example =
    asked_then_told host first_state asked_state (5 ∷ 9 ∷ []) plain_config first_trial 0x3f80_0000
      true first_ask refl

unresolved_history_example :
    replace_indexed_history host first_state
      (record { id = 4; value = 0 } ∷ [])
      (λ id. err resolve_failed)
    ≡ (record first_state { history = [] }, err resolve_failed)
unresolved_history_example =
    unresolved_history host first_state (record { id = 4; value = 0 }) [] (λ id. err resolve_failed)
      resolve_failed first_state-IsSearch refl (omega arith) refl

-- The tree of the test in tree.rs.
abbrev two_centers : List Center
two_centers = record { parent = none; seed = 1 } ∷ record { parent = some 0; seed = 2 } ∷ []

check_iff-AreCenters_example : (check two_centers (1 ∷ []) 1 ≡ ok tt) ↔ (
    (1 ≤ 1)
    × (length {A = ℕ} (1 ∷ []) ≡ 1)
    × AreCenters two_centers 0 two_centers
    × All (IsInside (length two_centers)) (1 ∷ []))
check_iff-AreCenters_example = check_iff-AreCenters two_centers (1 ∷ []) 1

abbrev two_rows : Cpu
two_rows = record { rows = 1 ∷ 2 ∷ 3 ∷ 4 ∷ []; row_bytes = 2 }

abbrev second_written : Cpu
second_written = record { rows = 1 ∷ 2 ∷ 7 ∷ 8 ∷ []; row_bytes = 2 }

second_row-write : cpu_write two_rows 1 (7 ∷ 8 ∷ []) ≡ some second_written
unfolding cpu_write
second_row-write = refl

cpu_read-cpu_write_example :
    (cpu_read second_written 1 ≡ some (7 ∷ 8 ∷ []))
    × ((other : ℕ) → other ≢ 1 → cpu_read second_written other ≡ cpu_read two_rows other)
cpu_read-cpu_write_example =
    cpu_read-cpu_write two_rows second_written 1 (7 ∷ 8 ∷ []) second_row-write
