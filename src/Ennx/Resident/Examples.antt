-- ===== src/Ennx/Resident/Examples.antt =====
-- Rounds of `ResidentBoState` over the host engine.
use ennbo.Prelude.{ℕ, ◌≡◌, refl, ap, true, none, some, List, [], ◌∷◌, ◌++◌, ok, err, Bool}
use ennbo.Ennx.Float.{f32_eq, order_key}
use ennbo.Ennx.Trials.Leaf.{value_not_finite, pending_before_ask}
use ennbo.Ennx.Trials.Search.{Ask, Pending}
use ennbo.Ennx.Trials.Cpu.{Cpu}
use ennbo.Ennx.Trials.Examples.{
  host, first_state, plain_config, first_trial, asked_state, first_ask,
}
use ennbo.Ennx.Resident.{
  ResidentBoState, ResidentRound, same_round, resident_ask, resident_tell, round_of, search_failed,
  round_missing,
}
use ennbo.Ennx.Resident.Rounds.{lost_round, resident_ask_told}

abbrev idle : ResidentBoState Cpu
idle = record {
  search = first_state;
  program = record { ops = []; version = 1 };
  pending = none;
  rewards = [];
}

abbrev first_round : ResidentRound
first_round = record { trial = first_trial; program_version = 1 }

first_round-same : same_round first_round first_round ≡ true
unfolding same_round f32_eq order_key
first_round-same = refl

abbrev waiting : Pending
waiting = record { id = 0; slot = 1; seed = 5; length = 0; materialized = true }

abbrev evaluating : ResidentBoState Cpu
evaluating = record idle {
  search = record first_state { pending = some waiting };
  pending = some first_round;
}

-- The reward is an infinity.
lost_round_example :
    (left : ResidentBoState Cpu) × (resident_tell host evaluating first_round 0x7f80_0000 true
      ≡ (left, err (search_failed value_not_finite)))
    × ((other : ResidentRound) (value : ℕ) (again : Bool)
        → resident_tell host left other value again ≡ (left, err round_missing))
    × ((seeds : List ℕ) (config : Ask)
        → resident_ask host left seeds config ≡ (left, err (search_failed pending_before_ask)))
lost_round_example =
    lost_round host evaluating first_round waiting 0x7f80_0000 true refl first_round-same refl refl

abbrev first_rounds : ResidentBoState Cpu
first_rounds = record idle { search = asked_state; pending = some first_round }

idle-ask : resident_ask host idle (5 ∷ 9 ∷ []) plain_config ≡ (first_rounds, ok first_round)
unfolding resident_ask
idle-ask = ap (round_of host idle) first_ask

resident_ask_told_example :
    (told : ResidentBoState Cpu) × (resident_tell host first_rounds first_round 0x3f80_0000 true
      ≡ (told, ok tt))
    × (told.pending ≡ none)
    × (told.search.pending ≡ none)
    × (told.rewards ≡ [] ++ (0x3f80_0000 ∷ []))
resident_ask_told_example =
    resident_ask_told host idle first_rounds first_round (5 ∷ 9 ∷ []) plain_config 0x3f80_0000 true
      idle-ask first_round-same refl
