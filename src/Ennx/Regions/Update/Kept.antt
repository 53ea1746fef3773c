-- ===== src/Ennx/Regions/Update/Kept.antt =====
-- The well-formed states of the trust regions, and what `tell` keeps of them.
use ennbo.Prelude.{ℕ, ◌+◌, ◌<◌, ◌≡◌, sym, ◌∙◌, arith, max}
use ennbo.Prelude.{Bool, true, false, Bool-cases, inl, inr, ◌⊎◌, ◌==◌, ==_iff, leb}
use ennbo.Prelude.{List, length, get_or, set, All}
use ennbo.Prelude.{get_or-set, get_or-set_other, All-set, length-set}
use ennbo.Float64.{F64, f64_lt, half64, two64}
use ennbo.Ennx.Regions.{MultiTrustRegionState}
use ennbo.Ennx.Regions.Update.{count_success, count_failure}

-- A list has one element for each region.
abbrev pub IsSized {ℓ} : {A : Type ℓ} → MultiTrustRegionState → List A → Type 0
IsSized t xs = length xs ≡ t.num_regions

-- One of the counters of a region is zero.
abbrev pub HasZero : List ℕ → List ℕ → Type 0
HasZero succs fails = (r : ℕ) → (get_or succs r 0 ≡ 0) ⊎ (get_or fails r 0 ≡ 0)

-- A region that is not active is too short.
abbrev pub AreFlagged : List Bool → List ℕ → ℕ → Type 0
AreFlagged mask lengths length_min =
    (r : ℕ) → get_or mask r true ≡ false → f64_lt (get_or lengths r 0) length_min ≡ true

-- The fields that the counting of successes and failures concerns.
pub record AreCounted (t : MultiTrustRegionState) : Type 0 where
  pub lengths_sized : IsSized t t.lengths
  pub succ_sized : IsSized t t.succ_counts
  pub fail_sized : IsSized t t.fail_counts
  pub mask_sized : IsSized t t.active_mask
  pub succ_below : All (λ c. c < max 1 t.config.succ_tolerance) t.succ_counts
  pub fail_below : All (λ c. c < max 1 t.config.fail_tolerance) t.fail_counts
  pub one_zero : HasZero t.succ_counts t.fail_counts
  pub flagged : AreFlagged t.active_mask t.lengths t.config.lengths.length_min

-- The fields that observations concern.
pub record AreObserved (t : MultiTrustRegionState) : Type 0 where
  pub centers_sized : IsSized t t.centers
  pub incumbents_sized : IsSized t t.incumbents_y
  pub trials_sized : IsSized t t.trial_counts
  pub means_sized : IsSized t t.mean_y
  pub m2_sized : IsSized t t.m2_y

pub record IsRegions (t : MultiTrustRegionState) : Type 0 where
  pub counted : AreCounted t
  pub observed : AreObserved t

pub HasZero-left :
    (r c : ℕ) (succs fails : List ℕ)
    → r < length fails
    → HasZero succs fails
    → HasZero (set succs r c) (set fails r 0)
HasZero-left r c succs fails inside h i = elim (Bool-cases (r == i)) [
  | inl e ↦
      let same : i ≡ r = sym ((==_iff r i).0 e) in inr (rw same (get_or-set fails r 0 0 inside))
  | inr e ↦ rw (get_or-set_other succs r i c 0 e, get_or-set_other fails r i 0 0 e) (h i)
]

HasZero-right :
    (r c : ℕ) (succs fails : List ℕ)
    → r < length succs
    → HasZero succs fails
    → HasZero (set succs r 0) (set fails r c)
HasZero-right r c succs fails inside h i = elim (Bool-cases (r == i)) [
  | inl e ↦
      let same : i ≡ r = sym ((==_iff r i).0 e) in inl (rw same (get_or-set succs r 0 0 inside))
  | inr e ↦ rw (get_or-set_other succs r i 0 0 e, get_or-set_other fails r i c 0 e) (h i)
]

-- The length of an active region may change.
flagged_active :
    (r l length_min : ℕ) (mask : List Bool) (lengths : List ℕ)
    → get_or mask r true ≡ true
    → AreFlagged mask lengths length_min
    → AreFlagged mask (set lengths r l) length_min
flagged_active r l length_min mask lengths active h i off = elim (Bool-cases (r == i)) [
  | inl e ↦
      let same : i ≡ r = sym ((==_iff r i).0 e) in
      let wrong : true ≡ false = sym active ∙ (rw same at off) in cc
  | inr e ↦ rw (get_or-set_other lengths r i l 0 e) (h i off)
]

-- A region may be flagged when its new length is too short.
flagged_short :
    (r l length_min : ℕ) (mask : List Bool) (lengths : List ℕ)
    → r < length lengths
    → f64_lt l length_min ≡ true
    → AreFlagged mask lengths length_min
    → AreFlagged (set mask r false) (set lengths r l) length_min
flagged_short r l length_min mask lengths inside short h i off = elim (Bool-cases (r == i)) [
  | inl e ↦
      let same : i ≡ r = sym ((==_iff r i).0 e) in rw (same, get_or-set lengths r l 0 inside) short
  | inr e ↦
      let off' = rw (get_or-set_other mask r i false true e) at off in
      rw (get_or-set_other lengths r i l 0 e) (h i off')
]

-- A region that is made active is not flagged.
pub flagged_restart :
    (r l length_min : ℕ) (mask : List Bool) (lengths : List ℕ)
    → r < length mask
    → AreFlagged mask lengths length_min
    → AreFlagged (set mask r true) (set lengths r l) length_min
flagged_restart r l length_min mask lengths inside h i off = elim (Bool-cases (r == i)) [
  | inl e ↦
      let same : i ≡ r = sym ((==_iff r i).0 e) in
      let off' = rw (same, get_or-set mask r true true inside) at off in cc
  | inr e ↦
      let off' = rw (get_or-set_other mask r i true true e) at off in
      rw (get_or-set_other lengths r i l 0 e) (h i off')
]

module _ (f : F64) (t : MultiTrustRegionState) (r : ℕ) (inside : r < t.num_regions)
    (active : get_or t.active_mask r true ≡ true) (c : AreCounted t) where
  pub count_success-AreCounted : AreCounted (count_success f t r)
  unfolding count_success
  count_success-AreCounted =
      let count = get_or t.succ_counts r 0 + 1 in
      let longer = f.min64 (f.mul two64 (get_or t.lengths r 0)) t.config.lengths.length_max in
      let fails =
        All-set (λ c. c < max 1 t.config.fail_tolerance) t.fail_counts r 0 c.fail_below
          (omega arith) in
      let in_fails : r < length t.fail_counts = omega (arith, c.fail_sized) in
      elim (Bool-cases (leb t.config.succ_tolerance count)) [
        | inl full ↦
            let succs =
              All-set (λ c. c < max 1 t.config.succ_tolerance) t.succ_counts r 0 c.succ_below
                (omega arith) in
            rw full record {
              lengths_sized = length-set t.lengths r longer ∙ c.lengths_sized;
              succ_sized = length-set t.succ_counts r 0 ∙ c.succ_sized;
              fail_sized = length-set t.fail_counts r 0 ∙ c.fail_sized;
              mask_sized = c.mask_sized;
              succ_below = succs;
              fail_below = fails;
              one_zero = HasZero-left r 0 t.succ_counts t.fail_counts in_fails c.one_zero;
              flagged =
                  flagged_active r longer t.config.lengths.length_min t.active_mask t.lengths active
                    c.flagged;
            }
        | inr less ↦
            let succs =
              All-set (λ c. c < max 1 t.config.succ_tolerance) t.succ_counts r count c.succ_below
                (ground arith) in
            rw less record {
              lengths_sized = c.lengths_sized;
              succ_sized = length-set t.succ_counts r count ∙ c.succ_sized;
              fail_sized = length-set t.fail_counts r 0 ∙ c.fail_sized;
              mask_sized = c.mask_sized;
              succ_below = succs;
              fail_below = fails;
              one_zero = HasZero-left r count t.succ_counts t.fail_counts in_fails c.one_zero;
              flagged = c.flagged;
            }
      ]

  pub count_failure-AreCounted : AreCounted (count_failure f t r)
  unfolding count_failure
  count_failure-AreCounted =
      let count = get_or t.fail_counts r 0 + 1 in
      let shorter = f.mul (get_or t.lengths r 0) half64 in
      let length_min = t.config.lengths.length_min in
      let succs =
        All-set (λ c. c < max 1 t.config.succ_tolerance) t.succ_counts r 0 c.succ_below
          (omega arith) in
      let in_succs : r < length t.succ_counts = omega (arith, c.succ_sized) in
      let in_lengths : r < length t.lengths = omega (arith, c.lengths_sized) in
      let succ_sized' = length-set t.succ_counts r 0 ∙ c.succ_sized in
      elim (Bool-cases (leb t.config.fail_tolerance count)) [
        | inl full ↦
            let fails =
              All-set (λ c. c < max 1 t.config.fail_tolerance) t.fail_counts r 0 c.fail_below
                (omega arith) in
            let zeros = HasZero-right r 0 t.succ_counts t.fail_counts in_succs c.one_zero in
            let sized = length-set t.lengths r shorter ∙ c.lengths_sized in
            let fail_sized' = length-set t.fail_counts r 0 ∙ c.fail_sized in
            elim (Bool-cases (f64_lt shorter length_min)) [
              | inl short ↦
                  rw (full, short)
                    record {
                      lengths_sized = sized;
                      succ_sized = succ_sized';
                      fail_sized = fail_sized';
                      mask_sized = length-set t.active_mask r false ∙ c.mask_sized;
                      succ_below = succs;
                      fail_below = fails;
                      one_zero = zeros;
                      flagged =
                          flagged_short r shorter length_min t.active_mask t.lengths in_lengths
                            short c.flagged;
                    }
              | inr long ↦
                  rw (full, long)
                    record {
                      lengths_sized = sized;
                      succ_sized = succ_sized';
                      fail_sized = fail_sized';
                      mask_sized = c.mask_sized;
                      succ_below = succs;
                      fail_below = fails;
                      one_zero = zeros;
                      flagged =
                          flagged_active r shorter length_min t.active_mask t.lengths active
                            c.flagged;
                    }
            ]
        | inr less ↦
            let fails =
              All-set (λ c. c < max 1 t.config.fail_tolerance) t.fail_counts r count c.fail_below
                (ground arith) in
            rw less record {
              lengths_sized = c.lengths_sized;
              succ_sized = succ_sized';
              fail_sized = length-set t.fail_counts r count ∙ c.fail_sized;
              mask_sized = c.mask_sized;
              succ_below = succs;
              fail_below = fails;
              one_zero = HasZero-right r count t.succ_counts t.fail_counts in_succs c.one_zero;
              flagged = c.flagged;
            }
      ]
