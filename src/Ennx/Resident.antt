-- ===== src/Ennx/Resident.antt =====
-- `ResidentBoState` of rust/crates/ennx/src/forward_program.rs: rounds of a search whose trials a
-- resident forward program evaluates. The evaluator is a parameter.
pub mod Rounds
pub mod Examples
use ennbo.Prelude.{ℕ, Bool, true, ◌&&◌, Option, none, some, ◌==◌, if◌then◌else◌}
use ennbo.Prelude.{List, [], ◌∷◌, ◌++◌, Result, ok, err}
use ennbo.Ennx.Float.{f32_eq}
use ennbo.Ennx.Forward.Program.{ForwardProgram}
use ennbo.Ennx.Trials.Leaf.{Leaf, TrialError}
use ennbo.Ennx.Trials.Search.{Search, Engine, Ask, Trial, new, ask, tell, is_some}

pub record ResidentRound : Type 0 where
  pub trial : Trial
  pub program_version : ℕ

pub data ResidentError : Type 0 where
  search_failed : TrialError → ResidentError
  round_pending round_missing round_differs evaluation_failed : ResidentError

pub record ResidentBoState (E : Type 0) : Type 0 where
  pub search : Search E
  pub program : ForwardProgram
  pub pending : Option ResidentRound
  pub rewards : List ℕ

-- The derived `PartialEq` of `ResidentRound` and `Trial`; a NaN score equals nothing.
unfoldable pub same_round : ResidentRound → ResidentRound → Bool
same_round a b =
    (a.trial.id == b.trial.id)
    && (a.trial.index == b.trial.index)
    && (a.trial.seed == b.trial.seed)
    && f32_eq a.trial.score b.trial.score
    && (a.program_version == b.program_version)

module _ {E : Type 0} (engine : Engine E) where
  unfoldable pub new_resident :
      List ℕ → ℕ → List Leaf → ℕ → ForwardProgram → Result ResidentError (ResidentBoState E)
  unfolding new
  new_resident base base_value leaves history_capacity program =
      elim (new engine base base_value leaves history_capacity) [
        | err e ↦ err (search_failed e)
        | ok search ↦
            ok (record { search = search; program = program; pending = none; rewards = [] })
      ]

  unfoldable pub round_of :
      ResidentBoState E
      → Search E × Result TrialError Trial
      → ResidentBoState E × Result ResidentError ResidentRound
  round_of state (search, err e) = (record state { search = search }, err (search_failed e))
  round_of state (search, ok trial) =
      let round : ResidentRound = record {
        trial = trial;
        program_version = state.program.version;
      } in
      (record state { search = search; pending = some round }, ok round)

  unfoldable pub resident_ask :
      ResidentBoState E → List ℕ → Ask → ResidentBoState E × Result ResidentError ResidentRound
  unfolding round_of
  resident_ask state seeds config =
      if is_some state.pending
      then (state, err round_pending)
      else round_of state (ask engine state.search seeds config)

  -- The round was taken before the search is told.
  unfoldable pub reward_of :
      ResidentBoState E
      → ℕ
      → Search E × Result TrialError (Unit {0})
      → ResidentBoState E × Result ResidentError (Unit {0})
  reward_of state reward (search, err e) =
      (record state { search = search; pending = none }, err (search_failed e))
  reward_of state reward (search, ok done) = (
    record state { search = search; pending = none; rewards = state.rewards ++ (reward ∷ []) },
    ok tt,
  )

  unfoldable pub resident_tell :
      ResidentBoState E
      → ResidentRound
      → ℕ
      → Bool
      → ResidentBoState E × Result ResidentError (Unit {0})
  unfolding reward_of same_round
  resident_tell state round reward accept = elim state.pending [
    | none ↦ (state, err round_missing)
    | some pending ↦
        if same_round pending round
        then reward_of state reward (tell engine state.search round.trial reward accept)
        else (state, err round_differs)
  ]

  abbrev round_told :
      ResidentRound
      → ℕ
      → ResidentBoState E × Result ResidentError (Unit {0})
      → ResidentBoState E × Result ResidentError (ResidentRound × ℕ)
  round_told round reward (state, err e) = (state, err e)
  round_told round reward (state, ok done) = (state, ok (round, reward))

  unfoldable pub evaluate_round :
      (ResidentRound → ForwardProgram → Result ResidentError ℕ)
      → Bool
      → ResidentBoState E × Result ResidentError ResidentRound
      → ResidentBoState E × Result ResidentError (ResidentRound × ℕ)
  unfolding resident_tell
  evaluate_round evaluate accept (state, err e) = (state, err e)
  evaluate_round evaluate accept (state, ok round) = elim (evaluate round state.program) [
    | err e ↦ (state, err e)
    | ok reward ↦ round_told round reward (resident_tell state round reward accept)
  ]

  unfoldable pub ask_evaluate :
      (ResidentRound → ForwardProgram → Result ResidentError ℕ)
      → ResidentBoState E
      → List ℕ
      → Ask
      → Bool
      → ResidentBoState E × Result ResidentError (ResidentRound × ℕ)
  unfolding resident_ask evaluate_round
  ask_evaluate evaluate state seeds config accept =
      evaluate_round evaluate accept (resident_ask state seeds config)
