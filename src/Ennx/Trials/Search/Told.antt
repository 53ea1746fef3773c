-- ===== src/Ennx/Trials/Search/Told.antt =====
-- A trial from `Search::ask` to `Search::tell`.
use ennbo.Prelude.{member}
use ennbo.Prelude.{ℕ, ◌+◌, ◌%◌, ◌^◌, ◌<◌, ◌≡◌, refl, arith, ap, ◌∙◌}
use ennbo.Prelude.{Bool, true, false, ◌==◌, inl, inr, none, some, Option-cases}
use ennbo.Prelude.{List, [], ◌∷◌, ◌++◌, if◌then◌else◌, get_elem?}
use ennbo.Prelude.{Result, ok, err, Result-cases}
use mathlib.Core.Path.{subst}
use ennbo.Ennx.Float.{is_finite}
use ennbo.Ennx.Trials.Leaf.{TrialError, panicked}
use ennbo.Ennx.Trials.Search.{
  Search, Engine, Ask, Trial, Pending, ask_with_materialization, ask, ask_slot, tell,
  materialize_pending, history_slots, record_answer, pop_full, pending_for, finish_tell,
}
use ennbo.Ennx.Trials.Search.Kept.{ask_slot-free}

-- What an ask leaves pending, for the trial it returned.
pub record IsAsked {E : Type 0} (s t : Search E) (trial : Trial) (free : ℕ) (done : Bool)
    (p : Pending) : Type 0 where
  pub pending : t.pending ≡ some p
  pub slot : p.slot ≡ free
  pub id : p.id ≡ trial.id
  pub materialized : p.materialized ≡ done
  pub history : t.history ≡ s.history
  pub base : t.base ≡ s.base
  pub capacity : t.capacity ≡ s.capacity

module _ {E : Type 0} (engine : Engine E) where
  answered :
      (s t : Search E) (seeds : List ℕ) (config : Ask) (done : Bool) (slot : ℕ)
      (r : E × Result TrialError (ℕ × ℕ)) (trial : Trial)
      → record_answer engine s seeds config done slot r ≡ (t, ok trial)
      → (p : Pending) × IsAsked s t trial slot done p
  unfolding record_answer
  answered s t seeds config done slot (state, err e) trial h =
      let lost : err e ≡ ok trial = ap (λ r. r.1) h in cc
  answered s t seeds config done slot (state, ok (index, score)) trial h =
      elim (Option-cases (get_elem? seeds index)) [
        | inl e ↦
            let lost : err panicked ≡ ok trial = ap (λ r. r.1) (rw (record_answer, e) at h) in cc
        | inr (seed, e) ↦
            let p : Pending = record {
              id = s.next_id;
              slot = slot;
              seed = seed;
              length = config.length;
              materialized = done;
            } in
            let given : Trial = record {
              id = s.next_id;
              index = index;
              seed = seed;
              score = score;
            } in
            let next : Search E = record s {
              engine = state;
              next_id = (s.next_id + 1) % 2 ^ 64;
              pending = some p;
            } in
            let both : ◌≡◌ {A = Search E × Result TrialError Trial} (next, ok given) (t, ok trial) =
              rw (record_answer, e) at h in
            let state_eq : next ≡ t = ap (λ r. r.0) both in
            let answer_eq : ◌≡◌ {A = Result TrialError Trial} (ok given) (ok trial) =
              ap (λ r. r.1) both in
            let trial_eq : given ≡ trial = cc in
            let asked : IsAsked s next given slot done p = record {
              pending = refl;
              slot = refl;
              id = refl;
              materialized = refl;
              history = refl;
              base = refl;
              capacity = refl;
            } in
            (
              p,
              subst (λ x. IsAsked s x trial slot done p) state_eq
                  (subst (λ x. IsAsked s next x slot done p) trial_eq asked),
            )
      ]

  pending_found :
      (t : Search E) (p : Pending) (trial : Trial)
      → t.pending ≡ some p
      → p.id ≡ trial.id
      → pending_for t trial ≡ ok p
  unfolding pending_for
  pending_found t p trial pending id =
      let same : (p.id == trial.id) ≡ true = ground arith in rw (pending_for, pending, same) refl

  already_materialized :
      (t : Search E) (p : Pending) (trial : Trial)
      → pending_for t trial ≡ ok p
      → p.materialized ≡ true
      → materialize_pending engine t trial ≡ (t, ok tt)
  unfolding materialize_pending
  already_materialized t p trial found done = rw (materialize_pending, found, done) refl

  finished :
      (t : Search E) (p : Pending) (trial : Trial) (value : ℕ) (accept : Bool)
      → pending_for t trial ≡ ok p
      → finish_tell engine trial value accept (t, ok tt) ≡ (
        record t {
          history = pop_full t.capacity t.history ++ (record { slot = p.slot; value = value } ∷ []);
          base = if accept then p.slot else t.base;
          pending = none;
        },
        ok tt,
      )
  unfolding finish_tell
  finished t p trial value accept found = rw (finish_tell, found) refl

  -- A materialized pending trial can be told any finite value.
  tell_pending :
      (t : Search E) (p : Pending) (trial : Trial) (value : ℕ) (accept : Bool)
      → t.pending ≡ some p
      → p.id ≡ trial.id
      → p.materialized ≡ true
      → is_finite value ≡ true
      → tell engine t trial value accept ≡ (
        record t {
          history = pop_full t.capacity t.history ++ (record { slot = p.slot; value = value } ∷ []);
          base = if accept then p.slot else t.base;
          pending = none;
        },
        ok tt,
      )
  unfolding tell
  tell_pending t p trial value accept pending id done fine =
      let found = pending_found t p trial pending id in
      let whole = already_materialized t p trial found done in
      let first : tell engine t trial value accept
          ≡ finish_tell engine trial value accept (materialize_pending engine t trial) =
        rw (tell, fine) refl in
      first
      ∙ ap (finish_tell engine trial value accept) whole
      ∙ finished t p trial value accept found

  pub asked :
      (s t : Search E) (seeds : List ℕ) (config : Ask) (done : Bool) (trial : Trial)
      → ask_with_materialization engine s seeds config done ≡ (t, ok trial)
      → (slot : ℕ) × (slot < s.slots)
        × (member slot (s.base ∷ history_slots s.history) ≡ false)
        × (p : Pending) × IsAsked s t trial slot done p
  unfolding ask_with_materialization
  asked s t seeds config done trial h = elim (Result-cases (ask_slot engine s seeds config)) [
    | inr (e, failed) ↦
        let lost : err e ≡ ok trial = ap (λ r. r.1) (rw (ask_with_materialization, failed) at h) in
        cc
    | inl (slot, found) ↦
        let (quiet, below, free) = ask_slot-free engine s seeds config slot found in
        let (p, a) =
          answered s t seeds config done slot _ trial (rw (ask_with_materialization, found) at h) in
        (slot, below, free, p, a)
  ]

  -- The trial of an ask that materialized its row can be told any finite value, and the tell
  -- succeeds: no trial is pending any more, the history, less its oldest record when it was full,
  -- ends with the value under the trial's slot, which neither the base nor a record had, and that
  -- slot is the new base when the trial is accepted.
  pub asked_then_told :
      (s t : Search E) (seeds : List ℕ) (config : Ask) (trial : Trial) (value : ℕ) (accept : Bool)
      → ask engine s seeds config ≡ (t, ok trial)
      → is_finite value ≡ true
      → (slot : ℕ) × (slot < s.slots)
        × (member slot (s.base ∷ history_slots s.history) ≡ false)
        × (tell engine t trial value accept ≡ (
          record t {
            history = pop_full s.capacity s.history ++ (record { slot = slot; value = value } ∷ []);
            base = if accept then slot else s.base;
            pending = none;
          },
          ok tt,
        ))
  asked_then_told s t seeds config trial value accept h fine =
      let (slot, below, free, p, a) = asked s t seeds config true trial h in
      let told = tell_pending t p trial value accept a.pending a.id a.materialized fine in
      (slot, below, free, rw (told, a.history, a.base, a.capacity, a.slot) refl)
