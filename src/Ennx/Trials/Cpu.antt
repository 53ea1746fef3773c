-- ===== src/Ennx/Trials/Cpu.antt =====
-- `Cpu` and `score` of trials.rs: the host engine behind `Search`. A failed slice or index, where
-- the code panics, is `err panicked`, and an `Engine` call that panics leaves the state as it was.
pub mod Store
use ennbo.Prelude.{◌>>?◌}
use ennbo.Prelude.{ℕ, suc, ◌+◌, ◌-◌, ◌*◌, Bool, true, false, ◌||◌, ◌&&◌, Option, none, some}
use ennbo.Prelude.{List, [], ◌∷◌, ◌++◌, length, take, drop, replicate, get_elem?, ◌==◌, ltb, leb}
use ennbo.Prelude.{if◌then◌else◌, Result, ok, err}
use ennbo.Ennx.Float.{f32_lt, f32_eq, infinity, neg_infinity}
use ennbo.Ennx.Trials.Leaf.{Leaf, TrialError, panicked}
use ennbo.Ennx.Trials.Decode.{F32, one}
use ennbo.Ennx.Trials.Perturb.{Step}
use ennbo.Ennx.Trials.Row.{make_steps, materialize, trial_distance}
use ennbo.Ennx.Trials.Neighbors.{insert_neighbor}
use ennbo.Ennx.Trials.Search.{Ask, AcquisitionKind, ucb, thompson, pareto, Engine}

pub record Cpu : Type 0 where
  pub rows : List ℕ
  pub row_bytes : ℕ

unfoldable pub cpu_new : List ℕ → ℕ → Cpu
cpu_new base slots = record {
  rows = base ++ replicate ((slots * length base) - length base) 0;
  row_bytes = length base;
}

-- `&rows[slot * row_bytes..(slot + 1) * row_bytes]`
unfoldable pub cpu_read : Cpu → ℕ → Option (List ℕ)
cpu_read cpu slot =
    if leb ((slot + 1) * cpu.row_bytes) (length cpu.rows)
    then some (take cpu.row_bytes (drop (slot * cpu.row_bytes) cpu.rows))
    else none

-- `read_mut(slot).copy_from_slice(row)`, which panics on a row of another length.
unfoldable pub cpu_write : Cpu → ℕ → List ℕ → Option Cpu
cpu_write cpu slot row =
    if leb ((slot + 1) * cpu.row_bytes) (length cpu.rows) && (length row == cpu.row_bytes)
    then some (record cpu {
      rows =
          take (slot * cpu.row_bytes) cpu.rows
          ++ (row ++ drop ((slot + 1) * cpu.row_bytes) cpu.rows);
    })
    else none

-- `1.0e-9` and `1.0e-12`
abbrev tiny : ℕ
tiny = 0x3089_705f

abbrev smallest : ℕ
smallest = 0x2b8c_bccc

module _ (f : F32) where
  -- The sums over the nearest observations.
  unfoldable pub score_sums : List (ℕ × ℕ) → List (ℕ × ℕ) → Ask → ℕ → ℕ → Option (ℕ × ℕ)
  score_sums [] history config weight_sum weighted_value = some (weight_sum, weighted_value)
  score_sums ((distance, index) ∷ nearest) history config weight_sum weighted_value =
      get_elem? history index >>? λ (slot, value).
      let variance =
        f.add (f.add tiny (f.mul config.epistemic_scale distance)) config.aleatoric_scale in
      let weight = f.div one (f.max_f32 variance smallest) in
      score_sums nearest history config (f.add weight_sum weight)
        (f.add weighted_value (f.mul weight value))

  abbrev acquire : AcquisitionKind → ℕ → ℕ → ℕ → ℕ → ℕ
  acquire ucb mean se draw beta = f.add mean (f.mul beta se)
  acquire thompson mean se draw beta = f.add mean (f.mul se draw)
  acquire pareto mean se draw beta = f.add mean se

  unfoldable pub score : List (ℕ × ℕ) → List (ℕ × ℕ) → ℕ → Ask → Option ℕ
  unfolding score_sums
  score nearest history draw config =
      score_sums nearest history config 0 0 >>? λ (weight_sum, weighted_value).
      let mean = f.div weighted_value (f.max_f32 weight_sum smallest) in
      let se = f.mul (f.sqrt (f.div one (f.max_f32 weight_sum smallest))) config.y_scale in
      some (acquire config.acquisition mean se draw config.beta)

  -- `for (observation_index, &(slot, _)) in history.iter().enumerate()`
  unfoldable pub nearest_from :
      Cpu
      → List ℕ
      → List Leaf
      → List Step
      → ℕ
      → ℕ
      → List (ℕ × ℕ)
      → List (ℕ × ℕ)
      → Option (List (ℕ × ℕ))
  unfolding cpu_read trial_distance insert_neighbor
  nearest_from cpu base leaves steps seed index [] nearest = some nearest
  nearest_from cpu base leaves steps seed index ((slot, value) ∷ history) nearest =
      cpu_read cpu slot >>? λ row. trial_distance f base row leaves steps seed >>? λ distance.
      nearest_from cpu base leaves steps seed (suc index) history
        (insert_neighbor nearest (distance, index))

  -- The better of the best candidate so far and a new one.
  unfoldable pub better : ℕ → ℕ → ℕ × ℕ → ℕ × ℕ
  better index value (best_index, best_score) =
      if f32_lt best_score value || (f32_eq value best_score && ltb index best_index)
      then (index, value)
      else (best_index, best_score)

  -- `for (index, &seed) in seeds.iter().enumerate()`, with the draws of the seeds.
  unfoldable pub best_seed :
      Cpu
      → List ℕ
      → List Leaf
      → List Step
      → List (ℕ × ℕ)
      → Ask
      → List ℕ
      → ℕ
      → List ℕ
      → ℕ × ℕ
      → Option (ℕ × ℕ)
  unfolding nearest_from score better
  best_seed cpu base leaves steps history config draws index [] best = some best
  best_seed cpu base leaves steps history config draws index (seed ∷ seeds) best =
      nearest_from cpu base leaves steps seed 0 history (replicate config.neighbors (infinity, 0))
      >>? λ nearest. get_elem? draws index >>? λ draw.
          score nearest history draw config >>? λ value.
          best_seed cpu base leaves steps history config draws (suc index) seeds
            (better index value best)

  -- The row of the chosen seed, written to the trial slot.
  unfoldable pub keep_row :
      Cpu → List ℕ → List Leaf → List Step → List ℕ → ℕ → ℕ → Bool → Option Cpu
  unfolding materialize cpu_write
  keep_row cpu base leaves steps seeds best_index trial_slot false = some cpu
  keep_row cpu base leaves steps seeds best_index trial_slot true =
      get_elem? seeds best_index >>? λ seed.
      materialize base leaves steps seed >>? λ row. cpu_write cpu trial_slot row

  -- `Cpu::ask`; `draws` stands for `thompson_draws`, by the number of seeds and the config's seed.
  unfoldable pub cpu_ask :
      (ℕ → ℕ → List ℕ)
      → Cpu
      → ℕ
      → List (ℕ × ℕ)
      → ℕ
      → List ℕ
      → List Leaf
      → Ask
      → Bool
      → Option (Cpu × (ℕ × ℕ))
  unfolding best_seed keep_row make_steps cpu_read
  cpu_ask draws cpu base_slot history trial_slot seeds leaves config materialize_row =
      make_steps f leaves config.length >>? λ steps. cpu_read cpu base_slot >>? λ base.
      best_seed cpu base leaves steps history config (draws (length seeds) config.seed) 0 seeds
        (0, neg_infinity)
      >>? λ best. keep_row cpu base leaves steps seeds best.0 trial_slot materialize_row >>? λ cpu'.
          some (cpu', best)

  -- `Engine::materialize` on the host.
  unfoldable pub cpu_materialize : Cpu → ℕ → ℕ → ℕ → List Leaf → ℕ → Option Cpu
  unfolding make_steps cpu_read materialize cpu_write
  cpu_materialize cpu base_slot trial_slot seed leaves length =
      make_steps f leaves length >>? λ steps. cpu_read cpu base_slot >>? λ base.
      materialize base leaves steps seed >>? λ row. cpu_write cpu trial_slot row

abbrev or_panic : {A : Type 0} → Option A → Result TrialError A
or_panic none = err panicked
or_panic (some a) = ok a

abbrev pub state_or : {A : Type 0} → Cpu → Option (Cpu × A) → Cpu × Result TrialError A
state_or cpu none = (cpu, err panicked)
state_or cpu (some (cpu', a)) = (cpu', ok a)

abbrev with_unit : Option Cpu → Option (Cpu × Unit {0})
with_unit none = none
with_unit (some cpu) = some (cpu, tt)

-- The arms of `Engine`'s methods for `Engine::Cpu`.
unfoldable pub cpu_engine : F32 → (ℕ → ℕ → List ℕ) → Engine Cpu
unfolding cpu_new cpu_ask cpu_read cpu_write cpu_materialize
cpu_engine f draws = record {
  create = λ base leaves slots. ok (cpu_new base slots);
  ask = λ cpu base history trial seeds leaves config materialize_row.
      state_or cpu (cpu_ask f draws cpu base history trial seeds leaves config materialize_row);
  read = λ cpu slot row_bytes. or_panic (cpu_read cpu slot);
  write = λ cpu slot row. state_or cpu (with_unit (cpu_write cpu slot row));
  materialize = λ cpu base trial seed leaves length.
      state_or cpu (with_unit (cpu_materialize f cpu base trial seed leaves length));
}
