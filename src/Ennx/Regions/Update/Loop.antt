-- ===== src/Ennx/Regions/Update/Loop.antt =====
-- The update of one region, and of all of them in turn.
use ennbo.Prelude.{ℕ, zero, suc, ◌+◌, ◌<◌, ◌≡◌, refl, sym, ap, ◌∙◌, arith}
use ennbo.Prelude.{Bool, true, false, Bool-cases, inl, inr, ◌⊎◌, ◌&&◌, not, ◌==◌, ltb, ==_iff}
use ennbo.Prelude.{Option, none, some}
use ennbo.Prelude.{List, length, get_or, get_or-set, get_or-set_other}
use ennbo.Float64.{F64, f64_lt, is_nan64, order_key64}
use ennbo.Ennx.Regions.{MultiTrustRegionState, compute_bounds_1d}
use ennbo.Ennx.Regions.Update.{
  Scan, first_scan, scan_rows, move_incumbent, count_success, count_failure, update_region,
  update_regions,
}
use ennbo.Ennx.Regions.Update.Kept.{IsRegions, count_success-AreCounted, count_failure-AreCounted}
use ennbo.Ennx.Regions.Update.Scanned.{
  IsRecorded, IsAbove, scanned, recorded-AreCounted, recorded-AreObserved,
  count_success-AreObserved, count_failure-AreObserved, move_incumbent-IsRegions,
}

-- The incumbent of a region stays or is replaced by a greater value.
abbrev pub IsBetter : ℕ → ℕ → Type 0
IsBetter before after = (after ≡ before) ⊎ (f64_lt before after ≡ true)

-- One round of the loop over the regions leads from `t` to `t'`.
pub record IsUpdate (t t' : MultiTrustRegionState) (r : ℕ) : Type 0 where
  pub formed : IsRegions t'
  pub regions_kept : t'.num_regions ≡ t.num_regions
  pub better : IsBetter (get_or t.incumbents_y r 0) (get_or t'.incumbents_y r 0)
  pub others_kept :
      (i : ℕ) → (r == i) ≡ false → get_or t'.incumbents_y i 0 ≡ get_or t.incumbents_y i 0

module _ (f : F64) (xs : List (List ℕ)) (ys : List ℕ) (regions : Option (List ℕ)) where
  module _ (t : MultiTrustRegionState) (r : ℕ) where
    abbrev scan_result : MultiTrustRegionState × Scan
    scan_result =
        let bounds = compute_bounds_1d f t r none in
        scan_rows f r (get_or t.incumbents_y r 0) bounds.0 bounds.1 regions t 0 xs ys first_scan

    update_inactive : get_or t.active_mask r true ≡ false → update_region f t r xs ys regions ≡ t
    unfolding update_region
    update_inactive off = rw off refl

    update_improved :
        get_or t.active_mask r true ≡ true
        → scan_result.1.region_improved ≡ true
        → update_region f t r xs ys regions
          ≡ count_success f (move_incumbent f scan_result.0 r scan_result.1.best_x_idx xs ys) r
    unfolding update_region
    update_improved on improved = rw (on, improved) refl

    update_failed :
        get_or t.active_mask r true ≡ true
        → scan_result.1.region_improved ≡ false
        → update_region f t r xs ys regions ≡ count_failure f scan_result.0 r
    unfolding update_region
    update_failed on failed = rw (on, failed) refl

    counted_success :
        (s : MultiTrustRegionState)
        → r < s.num_regions
        → get_or s.active_mask r true ≡ true
        → IsRegions s
        → IsRegions (count_success f s r)
    counted_success s inside on w = record {
      counted = count_success-AreCounted f s r inside on w.counted;
      observed = count_success-AreObserved f s r w.observed;
    }

    counted_failure :
        (s : MultiTrustRegionState)
        → r < s.num_regions
        → get_or s.active_mask r true ≡ true
        → IsRegions s
        → IsRegions (count_failure f s r)
    counted_failure s inside on w = record {
      counted = count_failure-AreCounted f s r inside on w.counted;
      observed = count_failure-AreObserved f s r w.observed;
    }

    success_fields :
        (s : MultiTrustRegionState)
        → ((count_success f s r).num_regions ≡ s.num_regions)
          × ((count_success f s r).incumbents_y ≡ s.incumbents_y)
    unfolding count_success
    success_fields s = (refl, refl)

    failure_fields :
        (s : MultiTrustRegionState)
        → ((count_failure f s r).num_regions ≡ s.num_regions)
          × ((count_failure f s r).incumbents_y ≡ s.incumbents_y)
    unfolding count_failure
    failure_fields s = (refl, refl)

    moved_fields :
        (s : MultiTrustRegionState) (best : Option ℕ)
        → ((move_incumbent f s r best xs ys).num_regions ≡ s.num_regions)
          × ((move_incumbent f s r best xs ys).active_mask ≡ s.active_mask)
    moved_fields s none = (refl, refl)
    moved_fields s (some k) = (refl, refl)

    moved_better :
        (s : MultiTrustRegionState) (best : Option ℕ) (old : ℕ)
        → get_or s.incumbents_y r 0 ≡ old
        → r < length s.incumbents_y
        → IsAbove old ys best
        → IsBetter old (get_or (move_incumbent f s r best xs ys).incumbents_y r 0)
          × ((i : ℕ)
              → (r == i) ≡ false
              → get_or (move_incumbent f s r best xs ys).incumbents_y i 0
                ≡ get_or s.incumbents_y i 0)
    moved_better s none old e inside above = (inl e, λ i apart. refl)
    moved_better s (some k) old e inside above = (
      inr (rw (get_or-set s.incumbents_y r (get_or ys k 0) 0 inside) above),
      λ i apart. get_or-set_other s.incumbents_y r i (get_or ys k 0) 0 apart,
    )

    module _ (s : MultiTrustRegionState) (recorded : IsRecorded t s) (inside : r < t.num_regions)
        (w : IsRegions t) (on : get_or t.active_mask r true ≡ true) where
      same_regions : s.num_regions ≡ t.num_regions
      same_regions = ap (λ (u : MultiTrustRegionState). u.num_regions) recorded.same

      same_incumbents : s.incumbents_y ≡ t.incumbents_y
      same_incumbents = ap (λ (u : MultiTrustRegionState). u.incumbents_y) recorded.same

      still_on : get_or s.active_mask r true ≡ true
      still_on = ap (λ (u : MultiTrustRegionState). get_or u.active_mask r true) recorded.same ∙ on

      still_formed : IsRegions s
      still_formed = record {
        counted = recorded-AreCounted t s recorded w.counted;
        observed = recorded-AreObserved t s recorded w.observed;
      }

      improved-IsUpdate :
          (best : Option ℕ)
          → IsAbove (get_or t.incumbents_y r 0) ys best
          → IsUpdate t (count_success f (move_incumbent f s r best xs ys) r) r
      improved-IsUpdate best above =
          let m = move_incumbent f s r best xs ys in
          let (regions_same, mask_same) = moved_fields s best in
          let (regions_same', incumbents_same) = success_fields m in
          let within : r < m.num_regions = omega (arith, regions_same, same_regions) in
          let on' : get_or m.active_mask r true ≡ true =
            ap (λ mask. get_or mask r true) mask_same ∙ still_on in
          let within' : r < length s.incumbents_y =
            omega
              (arith, w.observed.incumbents_sized, ap (λ ys. length {A = ℕ} ys) same_incumbents) in
          let (better, kept) =
            moved_better s best (get_or t.incumbents_y r 0)
              (ap (λ ys. get_or {A = ℕ} ys r 0) same_incumbents) within' above in
          record {
            formed =
                counted_success m within on'
                  (move_incumbent-IsRegions f s r best xs ys still_formed);
            regions_kept = regions_same' ∙ regions_same ∙ same_regions;
            better = rw incumbents_same better;
            others_kept = λ i apart.
                ap (λ ys. get_or {A = ℕ} ys i 0) incumbents_same
                ∙ kept i apart
                ∙ ap (λ ys. get_or {A = ℕ} ys i 0) same_incumbents;
          }

      failed-IsUpdate : IsUpdate t (count_failure f s r) r
      failed-IsUpdate =
          let (regions_same, incumbents_same) = failure_fields s in
          let same = incumbents_same ∙ same_incumbents in
          record {
            formed = counted_failure s (omega (arith, same_regions)) still_on still_formed;
            regions_kept = regions_same ∙ same_regions;
            better = inl (ap (λ ys. get_or {A = ℕ} ys r 0) same);
            others_kept = λ i apart. ap (λ ys. get_or {A = ℕ} ys i 0) same;
          }

    pub update_region-IsUpdate :
        r < t.num_regions → IsRegions t → IsUpdate t (update_region f t r xs ys regions) r
    update_region-IsUpdate inside w = elim (Bool-cases (get_or t.active_mask r true)) [
      | inr off ↦ rw (update_inactive off) record {
        formed = w;
        regions_kept = refl;
        better = inl refl;
        others_kept = λ i apart. refl;
      }
      | inl on ↦
          let bounds = compute_bounds_1d f t r none in
          let (recorded, above) =
            scanned f r (get_or t.incumbents_y r 0) bounds.0 bounds.1 regions ys t 0 xs ys
              first_scan (λ j. ap (λ k. get_or ys k 0) (omega arith)) tt in
          elim (Bool-cases scan_result.1.region_improved) [
            | inl improved ↦ rw (update_improved on improved) (
                improved-IsUpdate scan_result.0 recorded inside w on scan_result.1.best_x_idx above)
            | inr failed ↦
                rw (update_failed on failed) (failed-IsUpdate scan_result.0 recorded inside w on)
          ]
    ]

  less_trans :
      (a b c : Bool) (x y z : ℕ)
      → (a && b && ltb x y) ≡ true
      → (b && c && ltb y z) ≡ true
      → (a && c && ltb x z) ≡ true
  less_trans a b c x y z h k = ground arith

  f64_lt_trans : (x y z : ℕ) → f64_lt x y ≡ true → f64_lt y z ≡ true → f64_lt x z ≡ true
  unfolding f64_lt
  f64_lt_trans x y z h k =
      less_trans (not (is_nan64 x)) (not (is_nan64 y)) (not (is_nan64 z)) (order_key64 x)
        (order_key64 y) (order_key64 z) h k

  better_trans : (x y z : ℕ) → IsBetter x y → IsBetter y z → IsBetter x z
  better_trans x y z (inl e) (inl e') = inl (e' ∙ e)
  better_trans x y z (inl e) (inr h) = inr (rw e at h)
  better_trans x y z (inr h) (inl e) = inr (rw e h)
  better_trans x y z (inr h) (inr h') = inr (f64_lt_trans x y z h h')

  update_better :
      (t t' : MultiTrustRegionState) (r i : ℕ)
      → IsUpdate t t' r
      → IsBetter (get_or t.incumbents_y i 0) (get_or t'.incumbents_y i 0)
  update_better t t' r i u = elim (Bool-cases (r == i)) [
    | inl e ↦ let same : i ≡ r = sym ((==_iff r i).0 e) in rw same u.better
    | inr e ↦ inl (u.others_kept i e)
  ]

  -- Every incumbent stays or gets greater.
  pub update_regions_kept :
      (count : ℕ) (t : MultiTrustRegionState) (r : ℕ)
      → r + count ≡ t.num_regions
      → IsRegions t
      → IsRegions (update_regions f t r count xs ys regions)
        × ((i : ℕ)
            → IsBetter
                (get_or t.incumbents_y i 0)
                (get_or (update_regions f t r count xs ys regions).incumbents_y i 0))
  unfolding update_regions
  update_regions_kept zero t r e w = (w, λ i. inl refl)
  update_regions_kept (suc count) t r e w =
      let t' = update_region f t r xs ys regions in
      let u = update_region-IsUpdate t r (omega arith) w in
      let (w', better) =
        update_regions_kept count t' (suc r) (omega (arith, u.regions_kept)) u.formed in
      (
        w',
        λ i.
            better_trans (get_or t.incumbents_y i 0) (get_or t'.incumbents_y i 0)
              (get_or (update_regions f t' (suc r) count xs ys regions).incumbents_y i 0)
              (update_better t t' r i u) (better i),
      )
