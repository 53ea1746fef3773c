-- ===== src/Ennx/Turbo/History.antt =====
-- The running extremes of a trust region and the values that it was told.
use ennbo.Prelude.{ℕ, ◌+◌, ◌≡◌, refl, sym, ap, ◌∙◌, arith}
use ennbo.Prelude.{Bool, true, false, Bool-cases, inl, inr, not, ◌==◌, ==_iff}
use ennbo.Prelude.{Result, ok, ◌>>=◌, bind_parts, checked_value, ok_inj, fail_if}
use ennbo.Prelude.{List, [], ◌∷◌, ◌++◌, length, length-append, append_assoc, append-nil}
use ennbo.Float64.{F64, is_finite64, neg_infinity64, infinity64}
use ennbo.Ennx.Regions.{TrustRegionError, num_obs_mismatch, LengthConfig}
use ennbo.Ennx.Turbo.{
  TurboTrustRegion, new_turbo, fold_min, fold_max, scale_from_hist, scale_of, count, adapt,
  is_improved, update_with_scale, update_with_incumbent_new_batch,
}

-- The arguments of `update_with_incumbent_new_batch`.
pub record Batch : Type 0 where
  pub y_new : List ℕ
  pub num_obs : ℕ
  pub incumbent : ℕ

abbrev pub values_of : List Batch → List ℕ
values_of [] = []
values_of (b ∷ bs) = b.y_new ++ values_of bs

module _ (f : F64) where
  unfoldable pub run_batches :
      TurboTrustRegion → List Batch → Result TrustRegionError TurboTrustRegion
  unfolding update_with_incumbent_new_batch
  run_batches t [] = ok t
  run_batches t (b ∷ bs) =
      update_with_incumbent_new_batch f t b.y_new b.num_obs b.incumbent >>= λ t'. run_batches t' bs

  record IsHistory (t : TurboTrustRegion) (ys : List ℕ) : Type 0 where
    least : t.hist_ymin ≡ fold_min f infinity64 ys
    greatest : t.hist_ymax ≡ fold_max f neg_infinity64 ys
    number : t.prev_num_obs ≡ length ys

  fold_min-append :
      (a : ℕ) (xs ys : List ℕ) → fold_min f a (xs ++ ys) ≡ fold_min f (fold_min f a xs) ys
  fold_min-append a [] ys = refl
  fold_min-append a (x ∷ xs) ys = fold_min-append (f.min64 a x) xs ys

  fold_max-append :
      (a : ℕ) (xs ys : List ℕ) → fold_max f a (xs ++ ys) ≡ fold_max f (fold_max f a xs) ys
  fold_max-append a [] ys = refl
  fold_max-append a (x ∷ xs) ys = fold_max-append (f.max64 a x) xs ys

  -- The counters and the length do not concern the extremes.
  adapted_hist :
      (t : TurboTrustRegion) (improved : Bool)
      → ((adapt f (count f t improved)).hist_ymin ≡ t.hist_ymin)
        × ((adapt f (count f t improved)).hist_ymax ≡ t.hist_ymax)
  unfolding adapt
  adapted_hist t true = ground arith
  adapted_hist t false = ground arith

  update_with_scale_fields :
      (scale : ℕ) (t : TurboTrustRegion) (ys : List ℕ) (incumbent : ℕ)
      → let t' = update_with_scale f scale t ys incumbent in
        (t'.hist_ymin ≡ fold_min f t.hist_ymin ys)
        × (t'.hist_ymax ≡ fold_max f t.hist_ymax ys)
        × (t'.prev_num_obs ≡ t.prev_num_obs + length ys)
  unfolding update_with_scale
  update_with_scale_fields scale t ys incumbent =
      let (least, greatest) = adapted_hist t (is_improved f t scale incumbent) in
      elim (Bool-cases (is_finite64 t.best_value)) [
        | inl e ↦ rw e (ap (λ a. fold_min f a ys) least, ap (λ a. fold_max f a ys) greatest, refl)
        | inr e ↦ rw e (refl, refl, refl)
      ]

  new_batch_done :
      (t t' : TurboTrustRegion) (b : Batch) (done : List ℕ)
      → IsHistory t done
      → update_with_incumbent_new_batch f t b.y_new b.num_obs b.incumbent ≡ ok t'
      → IsHistory t' (done ++ b.y_new)
  unfolding update_with_incumbent_new_batch
  new_batch_done t t' b done h e = elim (Bool-cases (length b.y_new == 0)) [
    | inl nothing ↦
        let same : t' ≡ t = sym (ok_inj {E = TrustRegionError} t t' (rw nothing at e)) in
        let empty : done ++ b.y_new ≡ done =
          no_values done b.y_new ((==_iff (length b.y_new) 0).0 nothing) in
        rw (same, empty) h
    | inr more ↦
        let scale = scale_from_hist f t in
        let updated = update_with_scale f scale t b.y_new b.incumbent in
        let (_, e') =
          checked_value
            (fail_if (not (b.num_obs == t.prev_num_obs + length b.y_new)) num_obs_mismatch)
            (ok updated) t' (rw more at e) in
        let same : t' ≡ updated = sym (ok_inj {E = TrustRegionError} updated t' e') in
        let (least, greatest, number) = update_with_scale_fields scale t b.y_new b.incumbent in
        rw same record {
          least =
              least
              ∙ ap (λ a. fold_min f a b.y_new) h.least
              ∙ sym (fold_min-append infinity64 done b.y_new);
          greatest =
              greatest
              ∙ ap (λ a. fold_max f a b.y_new) h.greatest
              ∙ sym (fold_max-append neg_infinity64 done b.y_new);
          number = omega (arith, number, h.number, length-append {0} done b.y_new);
        }
  ]
    where
      no_values : (xs ys : List ℕ) → length ys ≡ 0 → xs ++ ys ≡ xs
      no_values xs [] e = append-nil xs
      no_values xs (y ∷ ys) e = ground arith

  run_batches_done :
      (bs : List Batch) (t t' : TurboTrustRegion) (done : List ℕ)
      → IsHistory t done
      → run_batches t bs ≡ ok t'
      → IsHistory t' (done ++ values_of bs)
  unfolding run_batches
  run_batches_done [] t t' done h e =
      let same : t' ≡ t = sym (ok_inj {E = TrustRegionError} t t' e) in rw (same, append-nil done) h
  run_batches_done (b ∷ bs) t t' done h e =
      let (s, first, rest) =
        bind_parts (update_with_incumbent_new_batch f t b.y_new b.num_obs b.incumbent)
          (λ s. run_batches s bs) e in
      let later =
        run_batches_done bs s t' (done ++ b.y_new) (new_batch_done t s b done h first) rest in
      rw (append_assoc done b.y_new (values_of bs)) at later

  -- After batches that were all accepted, from a new trust region and without a restart, the scale
  -- that `update_with_incumbent_new_batch` takes from its running extremes is the one that `update`
  -- computes by a scan of all the values told, and the trust region has counted all of them.
  pub scale_from_hist_scanned :
      (dim : ℕ) (lengths : LengthConfig) (bs : List Batch) (t : TurboTrustRegion)
      → run_batches (new_turbo dim lengths) bs ≡ ok t
      → (scale_from_hist f t ≡ scale_of f (values_of bs)) × (t.prev_num_obs ≡ length (values_of bs))
  unfolding new_turbo
  scale_from_hist_scanned dim lengths bs t e =
      let start : IsHistory (new_turbo dim lengths) [] = record {
        least = refl;
        greatest = refl;
        number = refl;
      } in
      let h = run_batches_done bs (new_turbo dim lengths) t [] start e in
      (rw (h.least, h.greatest, h.number) refl, h.number)
