-- ===== src/Ennx/Trials/Search/Lost.antt =====
-- `Search::replace_indexed_history` when the resolver fails.
use ennbo.Prelude.{ℕ, suc, ◌≤◌, ◌≡◌, refl, arith, none}
use ennbo.Prelude.{List, [], ◌∷◌, length, Result, ok, err}
use ennbo.Ennx.Trials.Leaf.{TrialError}
use ennbo.Ennx.Trials.Slots.Chosen.{chosen_slots_found}
use ennbo.Ennx.Trials.Search.{Search, Engine}
use ennbo.Ennx.Trials.Search.Invariant.{IsSearch}
use ennbo.Ennx.Trials.Search.Protocol.{replacement_slots_iff}
use ennbo.Ennx.Trials.Search.Replace.{
  IndexedObservation, replace_indexed_history, load_observations,
}

module _ {E : Type 0} (engine : Engine E) where
  load_fails :
      (resolve : ℕ → Result TrialError (List ℕ)) (slots : List ℕ) (o : IndexedObservation)
      (os : List IndexedObservation) (s : Search E) (e : TrialError)
      → length slots ≡ suc (length os)
      → resolve o.id ≡ err e
      → load_observations engine resolve slots (o ∷ os) s ≡ (s, err e)
  unfolding load_observations
  load_fails resolve [] o os s e long bad = ground arith
  load_fails resolve (slot ∷ slots) o os s e long bad = rw (load_observations, bad) refl

  -- In a well-formed search without a pending trial, a replacement by as many observations as the
  -- capacity allows fails when the first one cannot be resolved, and leaves the history empty.
  pub unresolved_history :
      (s : Search E) (o : IndexedObservation) (os : List IndexedObservation)
      (resolve : ℕ → Result TrialError (List ℕ)) (e : TrialError)
      → IsSearch s
      → s.pending ≡ none
      → length (o ∷ os) ≤ s.capacity
      → resolve o.id ≡ err e
      → replace_indexed_history engine s (o ∷ os) resolve ≡ (record s { history = [] }, err e)
  unfolding replace_indexed_history
  unresolved_history s o os resolve e v quiet room bad =
      let granted =
        (replacement_slots_iff engine s (length (o ∷ os)) (ok tt) v).1
          (quiet, omega arith, room, refl) in
      let (long, others, distinct) =
        chosen_slots_found s.slots s.base (length (o ∷ os)) (omega (arith, v.slots)) in
      rw (replace_indexed_history, granted)
        (load_fails resolve _ o os (record s { history = [] }) e long bad)
