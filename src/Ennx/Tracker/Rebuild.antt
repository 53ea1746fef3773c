-- ===== src/Ennx/Tracker/Rebuild.antt =====
-- `rebuild` after any use of the tracker.
use ennbo.Prelude.{ℕ, zero, suc, ◌≡◌, refl, sym, ◌∙◌, Bool}
use ennbo.Prelude.{none, some, All, ◌>>?◌}
use ennbo.Prelude.{List, [], ◌∷◌, map}
use ennbo.Ennx.Tracker.{
  IncrementalIncumbentTracker, new_tracker, tell, ask, reset, tell_rows, rebuild,
}
use ennbo.Ennx.Tracker.Spec.{
  Observation, best_columns, Mode, every, noiseless, scalar, several, mode_of, candidates, IsRow,
  tell_all,
}
use ennbo.Ennx.Tracker.Refine.{Represents, told_all, new_fields}
use ennbo.Ennx.Tracker.Answers.{best_nothing, new-Represents, ask_represented}

-- The rows with their positions.
abbrev pub numbered : ℕ → List (List ℕ) → List Observation
numbered i [] = []
numbered i (row ∷ rows) = (i, row) ∷ numbered (suc i) rows

tell_rows-numbered :
    (t : IncrementalIncumbentTracker) (i : ℕ) (rows : List (List ℕ))
    → tell_rows t i rows ≡ tell_all t (numbered i rows)
unfolding tell_rows tell_all
tell_rows-numbered t i [] = refl
tell_rows-numbered t i (row ∷ rows) =
    elim (tell t i row)
      as (λ told.
        (told >>? λ t'. tell_rows t' (suc i) rows)
        ≡ (told >>? λ t'. tell_all t' (numbered (suc i) rows))) [
          | none ↦ refl
          | some t' ↦ tell_rows-numbered t' (suc i) rows
        ]

emptied :
    (m count col : ℕ) (done : List Observation)
    → map (λ (entries : List (ℕ × ℕ)). []) (best_columns m col count done)
      ≡ best_columns m col count []
emptied m zero col done = refl
emptied m (suc count) col done = rw (best_nothing m, emptied m count (suc col) done) refl

reset-Represents :
    (mode : Mode) (m k : ℕ) (t : IncrementalIncumbentTracker) (done : List Observation)
    → Represents mode m k t done
    → Represents mode m k (reset t) []
unfolding reset
reset-Represents every m k t done r = record {
  count = refl;
  size = r.size;
  flags = r.flags;
  content = refl;
}
reset-Represents noiseless m k t done r = record {
  count = refl;
  size = r.size;
  flags = r.flags;
  content = (refl, refl);
}
reset-Represents scalar m k t done r = record {
  count = refl;
  size = r.size;
  flags = r.flags;
  content = sym (best_nothing m);
}
reset-Represents several m k t done r = record {
  count = refl;
  size = r.size;
  flags = r.flags;
  content = rw r.content (emptied m k 0 done);
}

-- Whatever a tracker was told before, `rebuild` with any rows, at least one, with a value for every
-- metric and no NaN, succeeds, and `ask` then answers what is computed anew from these rows alone,
-- each under its position.
pub rebuild_forgets :
    (m : ℕ) (noise_aware : Bool) (k : ℕ) (t : IncrementalIncumbentTracker) (obs : List Observation)
    (row : List ℕ) (rows : List (List ℕ))
    → new_tracker m noise_aware k ≡ some t
    → All (IsRow k) obs
    → All (IsRow k) (numbered 0 (row ∷ rows))
    → (t' t'' : IncrementalIncumbentTracker) × (tell_all t obs ≡ some t')
      × (rebuild t' (row ∷ rows) ≡ some t'')
      × (ask t'' ≡ candidates (mode_of m noise_aware k) m k (numbered 0 (row ∷ rows)))
unfolding rebuild
rebuild_forgets m noise_aware k t obs row rows h before after =
    let mode = mode_of m noise_aware k in
    let positive = (new_fields m noise_aware k t h).0 in
    let (t', told, r) =
      told_all m k positive mode obs t [] (new-Represents m noise_aware k t h) before in
    let (t'', told', r') =
      told_all m k positive mode (numbered 0 (row ∷ rows)) (reset t') []
        (reset-Represents mode m k t' obs r) after in
    (
      t',
      t'',
      told,
      tell_rows-numbered (reset t') 0 (row ∷ rows) ∙ told',
      ask_represented mode m k t'' (0, row) (numbered 1 rows) r',
    )
