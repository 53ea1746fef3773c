-- ===== src/Ennx/Tracker/Answers.antt =====
-- What `ask` answers after `new` and any calls of `tell`.
use ennbo.Prelude.{ℕ, zero, suc, ◌≡◌, refl, sym, ap, ◌∙◌, arith}
use ennbo.Prelude.{Bool, true, false, Bool-cases, inl, inr, ◌==◌, ltb, leb}
use ennbo.Prelude.{some, All, replicate}
use ennbo.Prelude.{List, [], ◌∷◌}
use ennbo.Ennx.Tracker.{
  IncrementalIncumbentTracker, new_tracker, ask, sorted_indices, union_entries,
  all_candidates_m_threshold,
}
use ennbo.Sort.{sort_by, sort_onto, sort_indices}
use ennbo.Ennx.Tracker.TopM.{best}
use ennbo.Ennx.Tracker.Spec.{
  Observation, best_columns, Mode, every, noiseless, scalar, several, mode_of, candidates, IsRow,
  tell_all,
}
use ennbo.Ennx.Tracker.Refine.{HasMode, Represents, told_all, new_fields}

pub best_nothing : (m : ℕ) → best m [] ≡ []
unfolding sort_by sort_onto
best_nothing zero = refl
best_nothing (suc m) = refl

nothing_best : (m count col : ℕ) → replicate count [] ≡ best_columns m col count []
nothing_best m zero col = refl
nothing_best m (suc count) col = rw (best_nothing m, nothing_best m count (suc col)) refl

module _ (m : ℕ) (noise_aware : Bool) (k : ℕ) where
  mode_every : leb all_candidates_m_threshold m ≡ true → mode_of m noise_aware k ≡ every
  mode_every h = simp (mode_of, h)

  mode_noiseless :
      leb all_candidates_m_threshold m ≡ false
      → (k == 1) ≡ true
      → noise_aware ≡ false
      → mode_of m noise_aware k ≡ noiseless
  mode_noiseless h l n = simp (mode_of, h, l, n)

  mode_scalar :
      leb all_candidates_m_threshold m ≡ false
      → (k == 1) ≡ true
      → noise_aware ≡ true
      → mode_of m noise_aware k ≡ scalar
  mode_scalar h l n = simp (mode_of, h, l, n)

  mode_several :
      leb all_candidates_m_threshold m ≡ false
      → (k == 1) ≡ false
      → mode_of m noise_aware k ≡ several
  mode_several h l = simp (mode_of, h, l)

  pub new-Represents :
      (t : IncrementalIncumbentTracker)
      → new_tracker m noise_aware k ≡ some t
      → Represents (mode_of m noise_aware k) m k t []
  new-Represents t h =
      let (positive, counts, sizes, indices, started, at, tops, columns, f, g, s) =
        new_fields m noise_aware k t h in
      elim (Bool-cases (leb all_candidates_m_threshold m)) [
        | inl e ↦
            rw (mode_every e)
              record { count = counts; size = sizes; flags = f ∙ e; content = indices }
        | inr e ↦ elim (Bool-cases (k == 1)) [
          | inl one ↦ elim (Bool-cases noise_aware) [
            | inl n ↦ rw (mode_scalar e one n) record {
              count = counts;
              size = sizes;
              flags = (f ∙ e, rw (e, one, n) at g, rw (e, one, n) at s);
              content = tops ∙ sym (best_nothing m);
            }
            | inr n ↦ rw (mode_noiseless e one n) record {
              count = counts;
              size = sizes;
              flags = (f ∙ e, rw (e, one, n) at g);
              content = (started, at);
            }
          ]
          | inr many ↦
              let above : ltb 1 k ≡ true = ground arith in
              rw (mode_several e many) record {
                count = counts;
                size = sizes;
                flags = (f ∙ e, rw (e, many) at g, rw (e, many) at s);
                content = (rw (e, above) at columns) ∙ nothing_best m k 0;
              }
        ]
      ]

module _ (t : IncrementalIncumbentTracker) (some_told : (t.observation_count == 0) ≡ false) where
  ask_every : HasMode every t → ask t ≡ sort_indices t.all_indices
  unfolding ask
  ask_every h = simp (ask, some_told, h)

  ask_noiseless : HasMode noiseless t → ask t ≡ sort_indices t.max_indices
  unfolding ask
  ask_noiseless (h, h') = simp (ask, some_told, h, h')

  ask_scalar : HasMode scalar t → ask t ≡ sorted_indices t.top_entries
  unfolding ask
  ask_scalar (h, h', h'') = simp (ask, some_told, h, h', h'')

  ask_several : HasMode several t → ask t ≡ union_entries t.per_metric_entries []
  unfolding ask
  ask_several (h, h', h'') = simp (ask, some_told, h, h', h'')

pub ask_represented :
    (mode : Mode) (m k : ℕ) (t : IncrementalIncumbentTracker) (o : Observation)
    (done : List Observation)
    → Represents mode m k t (o ∷ done)
    → ask t ≡ candidates mode m k (o ∷ done)
ask_represented mode m k t o done r =
    let some_told : (t.observation_count == 0) ≡ false = (let c = r.count in ground arith) in
    answer mode r some_told
  where
    answer :
        (mode : Mode)
        → Represents mode m k t (o ∷ done)
        → (t.observation_count == 0) ≡ false
        → ask t ≡ candidates mode m k (o ∷ done)
    answer every r told = ask_every t told r.flags ∙ ap sort_indices r.content
    answer noiseless r told = ask_noiseless t told r.flags ∙ ap sort_indices r.content.3
    answer scalar r told = ask_scalar t told r.flags ∙ ap sorted_indices r.content
    answer several r told =
        ask_several t told r.flags ∙ ap (λ entries. union_entries entries []) r.content

ask_nothing : (t : IncrementalIncumbentTracker) → t.observation_count ≡ 0 → ask t ≡ []
unfolding ask
ask_nothing t h = simp (ask, h)

pub told_candidates :
    (m : ℕ) (noise_aware : Bool) (k : ℕ) (t : IncrementalIncumbentTracker) (o : Observation)
    (obs : List Observation)
    → new_tracker m noise_aware k ≡ some t
    → All (IsRow k) (o ∷ obs)
    → (t' : IncrementalIncumbentTracker) × (tell_all t (o ∷ obs) ≡ some t')
      × (ask t' ≡ candidates (mode_of m noise_aware k) m k (o ∷ obs))
told_candidates m noise_aware k t o obs h rows =
    let mode = mode_of m noise_aware k in
    let positive = (new_fields m noise_aware k t h).0 in
    let (t', told, r) =
      told_all m k positive mode (o ∷ obs) t [] (new-Represents m noise_aware k t h) rows in
    (t', told, ask_represented mode m k t' o obs r)
