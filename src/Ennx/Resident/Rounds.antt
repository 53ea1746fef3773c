-- ===== src/Ennx/Resident/Rounds.antt =====
-- The rounds of `ResidentBoState` from ask to tell.
use ennbo.Prelude.{ℕ, ◌≡◌, refl, sym, ap, ◌∙◌, Bool, true, false, none, some}
use ennbo.Prelude.{List, [], ◌∷◌, ◌++◌, Result, ok, err, Bool-cases, inl, inr}
use ennbo.Ennx.Float.{is_finite}
use ennbo.Ennx.Trials.Leaf.{value_not_finite, pending_before_ask, TrialError}
use ennbo.Ennx.Trials.Search.{
  Search, Engine, Ask, Trial, Pending, ask, tell, ask_slot, ask_with_materialization, is_some,
}
use ennbo.Ennx.Trials.Search.Told.{asked_then_told}
use ennbo.Ennx.Resident.{
  ResidentRound, ResidentBoState, ResidentError, search_failed, round_missing, same_round,
  resident_ask, resident_tell, reward_of, round_of, round_pending,
}

module _ {E : Type 0} (engine : Engine E) where
  tell_bad :
      (s : Search E) (trial : Trial) (value : ℕ) (accept : Bool)
      → is_finite value ≡ false
      → tell engine s trial value accept ≡ (s, err value_not_finite)
  unfolding tell
  tell_bad s trial value accept bad = rw (tell, bad) refl

  slot_busy :
      (s : Search E) (p : Pending) (seeds : List ℕ) (config : Ask)
      → s.pending ≡ some p
      → ask_slot engine s seeds config ≡ err pending_before_ask
  unfolding ask_slot
  slot_busy s p seeds config e = rw (ask_slot, e) refl

  ask_busy :
      (s : Search E) (p : Pending) (seeds : List ℕ) (config : Ask)
      → s.pending ≡ some p
      → ask engine s seeds config ≡ (s, err pending_before_ask)
  unfolding ask_with_materialization
  ask_busy s p seeds config e = rw (ask_with_materialization, slot_busy s p seeds config e) refl

  tell_matched :
      (s : ResidentBoState E) (round : ResidentRound) (reward : ℕ) (accept : Bool)
      → s.pending ≡ some round
      → same_round round round ≡ true
      → resident_tell engine s round reward accept
        ≡ reward_of engine s reward (tell engine s.search round.trial reward accept)
  unfolding resident_tell
  tell_matched s round reward accept pending same = rw (resident_tell, pending, same) refl

  ask_quiet :
      (s : ResidentBoState E) (seeds : List ℕ) (config : Ask)
      → is_some s.pending ≡ false
      → resident_ask engine s seeds config ≡ round_of engine s (ask engine s.search seeds config)
  unfolding resident_ask
  ask_quiet s seeds config quiet = rw (resident_ask, quiet) refl

  ask_refused :
      (s : ResidentBoState E) (seeds : List ℕ) (config : Ask)
      → is_some s.pending ≡ true
      → resident_ask engine s seeds config ≡ (s, err round_pending)
  unfolding resident_ask
  ask_refused s seeds config busy = rw (resident_ask, busy) refl

  -- The parts of a round that was given.
  round_parts :
      (s t : ResidentBoState E) (round : ResidentRound) (r : Search E × Result TrialError Trial)
      → round_of engine s r ≡ (t, ok round)
      → (r.1 ≡ ok round.trial) × (t ≡ record s { search = r.0; pending = some round })
  unfolding round_of
  round_parts s t round (search, err e) h =
      let lost : err (search_failed e) ≡ ok round = ap (λ x. x.1) h in cc
  round_parts s t round (search, ok trial) h =
      let given : ResidentRound = record { trial = trial; program_version = s.program.version } in
      let first : record s { search = search; pending = some given } ≡ t = ap (λ x. x.0) h in
      let second : ◌≡◌ {A = Result ResidentError ResidentRound} (ok given) (ok round) =
        ap (λ x. x.1) h in
      let same : given ≡ round = cc in
      let trial_eq : trial ≡ round.trial = ap (λ x. x.trial) same in
      (ap ok trial_eq, sym first ∙ ap (λ x. record s { search = search; pending = some x }) same)

  -- A pending round whose search still has a pending trial, told a reward that is not finite, is
  -- lost: the state that is left refuses every tell, since no round is pending, and every ask, since
  -- the search still has its pending trial.
  pub lost_round :
      (s : ResidentBoState E) (round : ResidentRound) (p : Pending) (reward : ℕ) (accept : Bool)
      → s.pending ≡ some round
      → same_round round round ≡ true
      → s.search.pending ≡ some p
      → is_finite reward ≡ false
      → (left : ResidentBoState E) × (resident_tell engine s round reward accept
          ≡ (left, err (search_failed value_not_finite)))
        × ((other : ResidentRound) (value : ℕ) (again : Bool)
            → resident_tell engine left other value again ≡ (left, err round_missing))
        × ((seeds : List ℕ) (config : Ask)
            → resident_ask engine left seeds config
              ≡ (left, err (search_failed pending_before_ask)))
  unfolding resident_tell reward_of round_of
  lost_round s round p reward accept pending same busy bad = (
    record s { pending = none },
    tell_matched s round reward accept pending same
        ∙ ap (reward_of engine s reward) (tell_bad s.search round.trial reward accept bad),
    (λ other value again. refl),
    (λ seeds config.
        ask_quiet (record s { pending = none }) seeds config refl
        ∙ ap (round_of engine (record s { pending = none }))
            (ask_busy s.search p seeds config busy)),
  )

  -- A round that resident_ask gave, with a score that is a number, can be told any finite reward:
  -- the reward is recorded last and no round stays pending.
  pub resident_ask_told :
      (s t : ResidentBoState E) (round : ResidentRound) (seeds : List ℕ) (config : Ask) (reward : ℕ)
      (accept : Bool)
      → resident_ask engine s seeds config ≡ (t, ok round)
      → same_round round round ≡ true
      → is_finite reward ≡ true
      → (told : ResidentBoState E) × (resident_tell engine t round reward accept ≡ (told, ok tt))
        × (told.pending ≡ none)
        × (told.search.pending ≡ none)
        × (told.rewards ≡ s.rewards ++ (reward ∷ []))
  unfolding reward_of
  resident_ask_told s t round seeds config reward accept h same fine =
      elim (Bool-cases (is_some s.pending)) [
        | inl busy ↦
            let lost : err round_pending ≡ ok round =
              ap (λ x. x.1) (sym (ask_refused s seeds config busy) ∙ h) in
            cc
        | inr quiet ↦
            let r : Search E × Result TrialError Trial = ask engine s.search seeds config in
            let (trial_eq, state_eq) =
              round_parts s t round r (sym (ask_quiet s seeds config quiet) ∙ h) in
            let (slot, below, free, told) =
              asked_then_told engine s.search r.0 seeds config round.trial reward accept
                (ap (λ x. (r.0, x)) trial_eq) fine in
            rw state_eq (
              _,
              tell_matched (record s { search = r.0; pending = some round }) round reward accept
                    refl same
                  ∙ ap (reward_of engine (record s { search = r.0; pending = some round }) reward)
                      told,
              refl,
              refl,
              refl,
            )
      ]
