-- ===== src/Ennx/Trials/Search/Kept.antt =====
-- The invariant of `Search` across its operations, on success and on failure.
use ennbo.Prelude.{member, member_tail}
use ennbo.Prelude.{ℕ, ◌<◌, ◌≡◌, arith, ap}
use ennbo.Prelude.{Bool, true, false, Bool-cases, ◌==◌, inl, inr, Option, none, some, Option-cases}
use ennbo.Prelude.{List, [], ◌∷◌, length, if◌then◌else◌, length-append, get_elem?}
use ennbo.Prelude.{Result, ok, err, Result-cases, bind_parts, passed, fail_if, ==_iff, ◌∙◌, ◌>>◌}
use ennbo.Ennx.Trials.Leaf.{TrialError, pending_before_ask, wrong_trial, nothing_pending}
use ennbo.Ennx.Float.{is_finite}
use ennbo.Ennx.Trials.Slots.Free.{find_slot-free}
use ennbo.Ennx.Trials.Slots.{find_slot}
use ennbo.Ennx.Trials.Search.{
  Search, Engine, Ask, Trial, Pending, free_slot, ask_slot, record_answer, pending_for,
  ask_with_materialization, materialize_pending, finish_tell, tell, pop_full, history_slots,
  check_ask, is_some, materialized, slot_or_none, occupied, matched,
}
use ennbo.Ennx.Trials.Search.Invariant.{
  IsSearch, IsApart, added-IsBelow, added-AreDistinct, not_pending, pop_full_kept,
}

slot_or_none_ok : (o : Option ℕ) (slot : ℕ) → slot_or_none o ≡ ok slot → o ≡ some slot
slot_or_none_ok none slot h = cc
slot_or_none_ok (some x) slot h = cc

chosen_below : (b : Bool) (x y bound : ℕ) → x < bound → y < bound → (if b then x else y) < bound
chosen_below true x y bound h k = h
chosen_below false x y bound h k = k

matched_ok : (p q : Pending) (trial : Trial) → matched p trial ≡ ok q → (p ≡ q) × (q.id ≡ trial.id)
matched_ok p q trial h = elim (Bool-cases (p.id == trial.id)) [
  | inl e ↦
      let found : ◌≡◌ {A = Result TrialError Pending} (ok p) (ok q) = rw e at h in
      let same : p ≡ q = cc in (same, rw (← same) ((==_iff p.id trial.id).0 e))
  | inr e ↦ let lost : err wrong_trial ≡ ok q = rw e at h in cc
]

module _ {E : Type 0} (engine : Engine E) where
  -- The slot that an ask takes is free.
  pub ask_slot-free :
      (s : Search E) (seeds : List ℕ) (config : Ask) (slot : ℕ)
      → ask_slot engine s seeds config ≡ ok slot
      → (s.pending ≡ none)
        × (slot < s.slots)
        × (member slot (s.base ∷ history_slots s.history) ≡ false)
  unfolding ask_slot free_slot
  ask_slot-free s seeds config slot h =
      let (u, first, rest) =
        bind_parts (fail_if (is_some s.pending) pending_before_ask)
          (λ u. check_ask seeds (length s.history) config >> slot_or_none (free_slot s)) h in
      let quiet = not_pending s.pending (passed (is_some s.pending) pending_before_ask first) in
      let (v, second, last) =
        bind_parts (check_ask seeds (length s.history) config) (λ u. slot_or_none (free_slot s))
          rest in
      let found : find_slot s.slots 0 (occupied s) ≡ some slot =
        slot_or_none_ok (free_slot s) slot last in
      let alone : find_slot s.slots 0 (s.base ∷ history_slots s.history) ≡ some slot =
        rw quiet at found in
      let (lo, hi, free) = find_slot-free s.slots 0 (s.base ∷ history_slots s.history) slot alone in
      (quiet, omega arith, free)

  -- The invariant does not speak of the engine.
  pub with_engine : (s : Search E) (state : E) → IsSearch s → IsSearch (record s { engine = state })
  with_engine s state v = record {
    slots = v.slots;
    capacity = v.capacity;
    base = v.base;
    room = v.room;
    below = v.below;
    distinct = v.distinct;
    pending = v.pending;
  }

  answer-IsSearch :
      (s : Search E) (seeds : List ℕ) (config : Ask) (lazy : Bool) (slot : ℕ)
      (r : E × Result TrialError (ℕ × ℕ))
      → IsSearch s
      → slot < s.slots
      → member slot (s.base ∷ history_slots s.history) ≡ false
      → s.pending ≡ none
      → IsSearch (record_answer engine s seeds config lazy slot r).0
  unfolding record_answer
  answer-IsSearch s seeds config lazy slot (state, err e) v below free quiet = with_engine s state v
  answer-IsSearch s seeds config lazy slot (state, ok (index, score)) v below free quiet =
      elim (Option-cases (get_elem? seeds index)) [
        | inl e ↦
            rw (e, record_answer)
              (record {
                slots = v.slots;
                capacity = v.capacity;
                base = v.base;
                room = v.room;
                below = v.below;
                distinct = v.distinct;
                pending = v.pending;
              })
        | inr (seed, e) ↦
            rw (e, record_answer)
              (record {
                slots = v.slots;
                capacity = v.capacity;
                base = v.base;
                room = v.room;
                below = v.below;
                distinct = v.distinct;
                pending = (below, free);
              })
      ]

  pub ask_with_materialization-IsSearch :
      (s : Search E) (seeds : List ℕ) (config : Ask) (lazy : Bool)
      → IsSearch s
      → IsSearch (ask_with_materialization engine s seeds config lazy).0
  unfolding ask_with_materialization
  ask_with_materialization-IsSearch s seeds config lazy v =
      elim (Result-cases (ask_slot engine s seeds config)) [
        | inl (slot, e) ↦
            let (quiet, below, free) = ask_slot-free s seeds config slot e in
            rw (e, ask_with_materialization)
              (answer-IsSearch s seeds config lazy slot _ v below free quiet)
        | inr (failure, e) ↦ rw (e, ask_with_materialization) v
      ]

  -- What `pending_for` gives is the pending trial.
  pub pending_for_iff :
      (s : Search E) (trial : Trial) (p : Pending)
      → pending_for s trial ≡ ok p
      → (s.pending ≡ some p) × (p.id ≡ trial.id)
  unfolding pending_for
  pending_for_iff s trial p h = elim (Option-cases s.pending) [
    | inl e ↦ let lost : err nothing_pending ≡ ok p = rw e at h in cc
    | inr (q, e) ↦ let (same, id) = matched_ok q p trial (rw e at h) in (e ∙ ap some same, id)
  ]

  materialized-IsSearch :
      (s : Search E) (p : Pending) (r : E × Result TrialError (Unit {0}))
      → s.pending ≡ some p
      → IsSearch s
      → IsSearch (materialized engine s p r).0
  materialized-IsSearch s p (state, err e) h v = with_engine s state v
  materialized-IsSearch s p (state, ok done) h v =
      let apart : IsApart s.slots (s.base ∷ history_slots s.history) (some p) = rw h at v.pending in
      record {
        slots = v.slots;
        capacity = v.capacity;
        base = v.base;
        room = v.room;
        below = v.below;
        distinct = v.distinct;
        pending = apart;
      }

  pub materialize_pending-IsSearch :
      (s : Search E) (trial : Trial) → IsSearch s → IsSearch (materialize_pending engine s trial).0
  unfolding materialize_pending
  materialize_pending-IsSearch s trial v = elim (Result-cases (pending_for s trial)) [
    | inr (failure, e) ↦ rw (e, materialize_pending) v
    | inl (p, e) ↦ elim (Bool-cases p.materialized) [
      | inl done ↦ rw (e, materialize_pending, done) v
      | inr lazy ↦
          rw (e, materialize_pending, lazy)
            (materialized-IsSearch s p _ (pending_for_iff s trial p e).0 v)
    ]
  ]

  finish_tell-IsSearch :
      (trial : Trial) (value : ℕ) (accept : Bool) (s : Search E) (r : Result TrialError (Unit {0}))
      → IsSearch s
      → IsSearch (finish_tell engine trial value accept (s, r)).0
  unfolding finish_tell
  finish_tell-IsSearch trial value accept s (err e) v = v
  finish_tell-IsSearch trial value accept s (ok done) v =
      elim (Result-cases (pending_for s trial)) [
        | inr (failure, e) ↦ rw (e, finish_tell) v
        | inl (p, e) ↦
            let apart : IsApart s.slots (s.base ∷ history_slots s.history) (some p) =
              rw (pending_for_iff s trial p e).0 at v.pending in
            let (other, absent) = member_tail p.slot s.base (history_slots s.history) apart.1 in
            let (room, below, distinct, fresh) =
              pop_full_kept s.capacity s.history s.slots p.slot v.capacity.0 v.room v.below
                v.distinct absent in
            rw (e, finish_tell)
              (record {
                slots = v.slots;
                capacity = v.capacity;
                base = chosen_below accept p.slot s.base s.slots apart.0 v.base;
                room = omega (
                  arith,
                  length-append (pop_full s.capacity s.history)
                      (record { slot = p.slot; value = value } ∷ []),
                );
                below =
                    added-IsBelow p.slot value s.slots (pop_full s.capacity s.history) apart.0
                      below;
                distinct =
                    added-AreDistinct p.slot value (pop_full s.capacity s.history) fresh distinct;
                pending = tt;
              })
      ]

  pub tell-IsSearch :
      (s : Search E) (trial : Trial) (value : ℕ) (accept : Bool)
      → IsSearch s
      → IsSearch (tell engine s trial value accept).0
  unfolding tell
  tell-IsSearch s trial value accept v = elim (Bool-cases (is_finite value)) [
    | inr bad ↦ rw (bad, tell) v
    | inl fine ↦
        rw (fine, tell)
          (finish_tell-IsSearch trial value accept (materialize_pending engine s trial).0
            (materialize_pending engine s trial).1 (materialize_pending-IsSearch s trial v))
  ]
