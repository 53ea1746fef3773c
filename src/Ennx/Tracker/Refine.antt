-- ===== src/Ennx/Tracker/Refine.antt =====
-- The tracker after any observations, and the candidates computed from the whole list of them.
use ennbo.Prelude.{ℕ, ◌+◌, ◌≤◌, ◌≡◌, refl, sym, ap, ◌∙◌, arith}
use ennbo.Prelude.{Bool, true, false, ◌&&◌, not, ◌==◌, ltb, leb}
use ennbo.Prelude.{some, if◌then◌else◌, get_elem?, get_or, All, replicate}
use ennbo.Prelude.{List, [], ◌∷◌, ◌++◌, map, length, append_assoc, append-nil, length-append}
use ennbo.Float64.{is_nan64}
use ennbo.Ennx.Tracker.{
  IncrementalIncumbentTracker, new_tracker, tell, tell_max, tell_metrics, push_top_m, counted,
  all_candidates_m_threshold,
}
use ennbo.Ennx.Tracker.TopM.{best}
use ennbo.Ennx.Tracker.Spec.{
  Observation, column, best_columns, Mode, every, noiseless, scalar, several, IsRow, tell_all,
  IsMax, map-append, best-column_step, tell_metrics_step,
}
use ennbo.Ennx.Tracker.Maximum.{tell_max-IsMaxOf, tell_max-first}

-- The flags of a mode.
abbrev pub HasMode : Mode → IncrementalIncumbentTracker → Type 0
HasMode every t = t.use_all_candidates ≡ true
HasMode noiseless t = (t.use_all_candidates ≡ false) × (t.use_noiseless_max ≡ true)
HasMode scalar t =
    (t.use_all_candidates ≡ false) × (t.use_noiseless_max ≡ false) × (t.use_scalar_topm ≡ true)
HasMode several t =
    (t.use_all_candidates ≡ false) × (t.use_noiseless_max ≡ false) × (t.use_scalar_topm ≡ false)

-- The field that a mode uses, after the observations `done`.
abbrev pub Holds : Mode → ℕ → ℕ → IncrementalIncumbentTracker → List Observation → Type 0
Holds every m k t done = t.all_indices ≡ map (λ (o : Observation). o.0) done
Holds noiseless m k t done = IsMax t (column 0 done)
Holds scalar m k t done = t.top_entries ≡ best m (column 0 done)
Holds several m k t done = t.per_metric_entries ≡ best_columns m 0 k done

pub record Represents (mode : Mode) (m k : ℕ) (t : IncrementalIncumbentTracker)
    (done : List Observation) : Type 0 where
  pub count : t.observation_count ≡ length done
  pub size : t.m ≡ m
  pub flags : HasMode mode t
  pub content : Holds mode m k t done

told_count :
    (t : IncrementalIncumbentTracker) (done : List Observation) (o : Observation)
    → t.observation_count ≡ length done
    → t.observation_count + 1 ≡ length (done ++ (o ∷ []))
told_count t done o h = omega (arith, length-append {0} done (o ∷ []))

-- The value of the only metric.
first_value :
    (k : ℕ) (o : Observation)
    → 1 ≤ k
    → IsRow k o
    → (get_elem? o.1 0 ≡ some (get_or o.1 0 0)) × (is_nan64 (get_or o.1 0 0) ≡ false)
first_value k (i, []) h (size, numbers) = ground arith
first_value k (i, v ∷ y) h (size, numbers) = (refl, numbers.0)

-- One call of `tell` in each mode.
module _ (t : IncrementalIncumbentTracker) (index : ℕ) (y : List ℕ) where
  tell_every :
      t.use_all_candidates ≡ true
      → tell t index y ≡ some (record (counted t) { all_indices = t.all_indices ++ (index ∷ []) })
  unfolding tell
  tell_every h = simp (tell, h)

  tell_noiseless :
      (v : ℕ)
      → HasMode noiseless t
      → get_elem? y 0 ≡ some v
      → tell t index y ≡ some (tell_max (counted t) index v)
  unfolding tell
  tell_noiseless v (h, h') e = simp (tell, h, h', e)

  tell_scalar :
      (v : ℕ)
      → HasMode scalar t
      → get_elem? y 0 ≡ some v
      → tell t index y
        ≡ some (record (counted t) { top_entries = push_top_m t.top_entries index v t.m })
  unfolding tell
  tell_scalar v (h, h', h'') e = simp (tell, h, h', h'', e)

  tell_several :
      (entries : List (List (ℕ × ℕ)))
      → HasMode several t
      → tell_metrics 0 t.per_metric_entries index y t.m ≡ some entries
      → tell t index y ≡ some (record (counted t) { per_metric_entries = entries })
  unfolding tell
  tell_several entries (h, h', h'') e = simp (tell, h, h', h'', e)

-- The noiseless branch changes none of the other fields.
tell_max_keeps :
    (t : IncrementalIncumbentTracker) (index value : ℕ)
    → ((tell_max t index value).observation_count ≡ t.observation_count)
      × ((tell_max t index value).m ≡ t.m)
      × ((tell_max t index value).use_all_candidates ≡ t.use_all_candidates)
      × ((tell_max t index value).use_noiseless_max ≡ t.use_noiseless_max)
unfolding tell_max
tell_max_keeps t index value = ground arith

tell_max-IsMax :
    (t : IncrementalIncumbentTracker) (index value : ℕ) (es : List (ℕ × ℕ))
    → IsMax t es
    → is_nan64 value ≡ false
    → IsMax (tell_max t index value) (es ++ ((index, value) ∷ []))
tell_max-IsMax t index value [] (fresh, empty) h = tell_max-first t index value fresh h
tell_max-IsMax t index value (e ∷ es) r h = tell_max-IsMaxOf t index value (e ∷ es) r h

counted-IsMax :
    (t : IncrementalIncumbentTracker) (es : List (ℕ × ℕ)) → IsMax t es → IsMax (counted t) es
counted-IsMax t [] r = r
counted-IsMax t (e ∷ es) r = r

module _ (m k : ℕ) (positive : 1 ≤ k) where
  told :
      (mode : Mode) (t : IncrementalIncumbentTracker) (done : List Observation) (o : Observation)
      → Represents mode m k t done
      → IsRow k o
      → (t' : IncrementalIncumbentTracker) × (tell t o.0 o.1 ≡ some t')
        × Represents mode m k t' (done ++ (o ∷ []))
  told every t done o r row = (
    record (counted t) { all_indices = t.all_indices ++ (o.0 ∷ []) },
    tell_every t o.0 o.1 r.flags,
    record {
      count = told_count t done o r.count;
      size = r.size;
      flags = r.flags;
      content =
          ap (λ is. is ++ (o.0 ∷ [])) r.content
          ∙ sym (map-append (λ (o : Observation). o.0) done (o ∷ []));
    },
  )
  told noiseless t done o r row =
      let v = get_or o.1 0 0 in
      let (read, number) = first_value k o positive row in
      let (counts, sizes, f, g) = tell_max_keeps (counted t) o.0 v in
      (
        tell_max (counted t) o.0 v,
        tell_noiseless t o.0 o.1 v r.flags read,
        record {
          count = counts ∙ told_count t done o r.count;
          size = sizes ∙ r.size;
          flags = (f ∙ r.flags.0, g ∙ r.flags.1);
          content =
              rw (map-append {B = ℕ × ℕ} (λ (o : Observation). (o.0, get_or o.1 0 0)) done (o ∷ []))
                (tell_max-IsMax (counted t) o.0 v (column 0 done)
                  (counted-IsMax t (column 0 done) r.content) number);
        },
      )
  told scalar t done o r row =
      let v = get_or o.1 0 0 in
      let (read, number) = first_value k o positive row in
      (
        record (counted t) { top_entries = push_top_m t.top_entries o.0 v t.m },
        tell_scalar t o.0 o.1 v r.flags read,
        record {
          count = told_count t done o r.count;
          size = r.size;
          flags = r.flags;
          content = rw (r.content, r.size) (best-column_step m o.0 o.1 0 done);
        },
      )
  told several t done o r row =
      let entries = best_columns m 0 k (done ++ (o ∷ [])) in
      let told_them : tell_metrics 0 t.per_metric_entries o.0 o.1 t.m ≡ some entries =
        rw (r.content, r.size) (tell_metrics_step m 0 k o.0 o.1 done (omega (arith, row.0))) in
      (
        record (counted t) { per_metric_entries = entries },
        tell_several t o.0 o.1 entries r.flags told_them,
        record {
          count = told_count t done o r.count;
          size = r.size;
          flags = r.flags;
          content = refl;
        },
      )

  pub told_all :
      (mode : Mode) (obs : List Observation) (t : IncrementalIncumbentTracker)
      (done : List Observation)
      → Represents mode m k t done
      → All (IsRow k) obs
      → (t' : IncrementalIncumbentTracker) × (tell_all t obs ≡ some t')
        × Represents mode m k t' (done ++ obs)
  unfolding tell_all
  told_all mode [] t done r rows = (t, refl, rw (append-nil done) r)
  told_all mode (o ∷ obs) t done r (row, rows) =
      let (t', e, r') = told mode t done o r row in
      let (t'', e', r'') = told_all mode obs t' (done ++ (o ∷ [])) r' rows in
      (t'', rw e e', rw (append_assoc done (o ∷ []) obs) at r'')

-- The fields of a new tracker.
module _ (m : ℕ) (noise_aware : Bool) (k : ℕ) (t : IncrementalIncumbentTracker) where
  pub new_fields :
      new_tracker m noise_aware k ≡ some t
      → (1 ≤ k)
        × (t.observation_count ≡ 0)
        × (t.m ≡ m)
        × (t.all_indices ≡ [])
        × (t.max_initialized ≡ false)
        × (t.max_indices ≡ [])
        × (t.top_entries ≡ [])
        × (t.per_metric_entries
            ≡ (if not (leb all_candidates_m_threshold m) && ltb 1 k then replicate k [] else []))
        × (t.use_all_candidates ≡ leb all_candidates_m_threshold m)
        × (t.use_noiseless_max
            ≡ (not (leb all_candidates_m_threshold m) && (k == 1) && not noise_aware))
        × (t.use_scalar_topm ≡ (not (leb all_candidates_m_threshold m) && (k == 1) && noise_aware))
  unfolding new_tracker
  new_fields h = ground arith
