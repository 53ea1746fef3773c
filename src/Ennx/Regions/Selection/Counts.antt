-- ===== src/Ennx/Regions/Selection/Counts.antt =====
-- How many candidates the passes of `select` take.
use ennbo.Prelude.{member_joined, joined-AreDistinct, joined-All}
use ennbo.Prelude.{ℕ, suc, ◌+◌, ◌≤◌, ◌<◌, ◌≡◌, refl, ap, ◌∙◌, arith}
use ennbo.Prelude.{false, Bool-cases, inl, inr, ◌==◌, if◌then◌else◌}
use ennbo.Prelude.{List, [], ◌∷◌, ◌++◌, length, length-append, All}
use ennbo.Prelude.{member, AreDistinct, member_tail, ==_iff}
use ennbo.Float64.{F64}
use ennbo.Ennx.Regions.{MultiTrustRegionState, RegionCandidate}
use ennbo.Ennx.Regions.Selection.{indices_of, fill, apart_from_all, pick_apart}

-- How many of the candidates are not selected.
abbrev pub missing : List RegionCandidate → List RegionCandidate → ℕ
missing selected [] = 0
missing selected (c ∷ cs) =
    if member c.index (indices_of selected) then missing selected cs else suc (missing selected cs)

-- A candidate that does not occur among the others changes nothing for them.
missing_joined :
    (selected cs : List RegionCandidate) (c : RegionCandidate)
    → member c.index (indices_of cs) ≡ false
    → missing (selected ++ (c ∷ [])) cs ≡ missing selected cs
missing_joined selected [] c new = refl
missing_joined selected (d ∷ cs) c new =
    let (apart, new') = member_tail c.index d.index (indices_of cs) new in
    let apart' : (d.index == c.index) ≡ false = ground arith in
    let same : member d.index (indices_of (selected ++ (c ∷ [])))
        ≡ member d.index (indices_of selected) =
      member_joined (λ (c : RegionCandidate). c.index) d.index selected c
      ∙ rw apart' (ground arith) in
    rw (same, missing_joined selected cs c new') refl

-- The second pass fills the selection up, from as many candidates as are missing.
pub fill_filled :
    (P : RegionCandidate → Type 0) (num_arms : ℕ) (cs selected : List RegionCandidate)
    → AreDistinct (indices_of cs)
    → AreDistinct (indices_of selected)
    → All P cs
    → All P selected
    → length selected < num_arms
    → num_arms ≤ length selected + missing selected cs
    → (length (fill cs selected num_arms) ≡ num_arms)
      × AreDistinct (indices_of (fill cs selected num_arms))
      × All P (fill cs selected num_arms)
unfolding fill
fill_filled P num_arms [] selected d ds all alls few enough = ground arith
fill_filled P num_arms (c ∷ cs) selected (here, there) ds (p, ps) alls few enough =
    elim (Bool-cases (member c.index (indices_of selected))) [
      | inl old ↦
          let enough' = rw old at enough in
          rw old (fill_filled P num_arms cs selected there ds ps alls few enough')
      | inr new ↦
          let joined = selected ++ (c ∷ []) in
          let size : length joined ≡ suc (length selected) =
            omega (arith, length-append selected (c ∷ [])) in
          let ds' = joined-AreDistinct (λ (c : RegionCandidate). c.index) selected c ds new in
          let alls' = joined-All P selected c alls p in
          let enough' = rw new at enough in
          let rest = missing_joined selected cs c here in
          elim (Bool-cases (length joined == num_arms)) [
            | inl full ↦ rw (new, full) ((==_iff (length joined) num_arms).0 full, ds', alls')
            | inr more ↦
                let few' : length joined < num_arms = ground arith in
                rw (new, more)
                  (fill_filled P num_arms cs joined there ds' ps alls' few' (omega (arith, rest)))
          ]
    ]

missing_more :
    (c : RegionCandidate) (selected cs : List RegionCandidate)
    → member c.index (indices_of cs) ≡ false
    → missing (c ∷ selected) cs ≡ missing selected cs
missing_more c selected [] new = refl
missing_more c selected (d ∷ cs) new =
    let (apart, new') = member_tail c.index d.index (indices_of cs) new in
    let apart' : (d.index == c.index) ≡ false = ground arith in
    rw (apart', missing_more c selected cs new') refl

missing_one :
    (c : RegionCandidate) (selected cs : List RegionCandidate)
    → AreDistinct (indices_of cs)
    → missing selected cs ≤ suc (missing (c ∷ selected) cs)
missing_one c selected [] d = omega arith
missing_one c selected (b ∷ cs) (here, there) =
    let later = missing_one c selected cs there in
    elim (Bool-cases (b.index == c.index)) [
      | inl e ↦
          let new : member c.index (indices_of cs) ≡ false =
            rw ((==_iff b.index c.index).0 e) at here in
          let same = missing_more c selected cs new in
          rw e (elim (Bool-cases (member b.index (indices_of selected))) [
            | inl old ↦ rw old (omega (arith, same))
            | inr other ↦ rw other (omega (arith, same))
          ])
      | inr e ↦ rw e (elim (Bool-cases (member b.index (indices_of selected))) [
        | inl old ↦ rw old later
        | inr other ↦ rw other (omega (arith, later))
      ])
    ]

missing_all : (cs : List RegionCandidate) → missing [] cs ≡ length cs
missing_all [] = refl
missing_all (c ∷ cs) = ap suc (missing_all cs)

-- Of distinct candidates at most as many are selected as the selection is long.
pub missing_enough :
    (selected cs : List RegionCandidate)
    → AreDistinct (indices_of cs)
    → length cs ≤ length selected + missing selected cs
missing_enough [] cs d = omega (arith, missing_all cs)
missing_enough (c ∷ selected) cs d =
    omega (arith, missing_enough selected cs d, missing_one c selected cs d)

-- No candidate of the list is selected.
abbrev pub AreFresh : List RegionCandidate → List RegionCandidate → Type 0
AreFresh selected cs =
    All (λ (c : RegionCandidate). member c.index (indices_of selected) ≡ false) cs

AreFresh-joined :
    (c : RegionCandidate) (selected cs : List RegionCandidate)
    → member c.index (indices_of cs) ≡ false
    → AreFresh selected cs
    → AreFresh (selected ++ (c ∷ [])) cs
AreFresh-joined c selected [] new fresh = tt
AreFresh-joined c selected (d ∷ cs) new (here, there) =
    let (apart, new') = member_tail c.index d.index (indices_of cs) new in
    let apart' : (d.index == c.index) ≡ false = ground arith in
    (
      member_joined (λ (c : RegionCandidate). c.index) d.index selected c ∙ rw (here, apart') refl,
      AreFresh-joined c selected cs new' there,
    )

module _ (f : F64) (t : MultiTrustRegionState) (P : RegionCandidate → Type 0) (num_arms : ℕ) where
  pub pick_apart_kept :
      (cs selected : List RegionCandidate)
      → AreDistinct (indices_of cs)
      → AreDistinct (indices_of selected)
      → AreFresh selected cs
      → All P cs
      → All P selected
      → length selected < num_arms
      → AreDistinct (indices_of (pick_apart f t cs selected num_arms))
        × All P (pick_apart f t cs selected num_arms)
        × (length (pick_apart f t cs selected num_arms) ≤ num_arms)
  unfolding pick_apart
  pick_apart_kept [] selected d ds fresh all alls few = (ds, alls, omega arith)
  pick_apart_kept (c ∷ cs) selected (here, there) ds (new, fresh) (p, ps) alls few =
      elim (Bool-cases (apart_from_all f t c selected)) [
        | inr near ↦ rw near (pick_apart_kept cs selected there ds fresh ps alls few)
        | inl apart ↦
            let joined = selected ++ (c ∷ []) in
            let size : length joined ≡ suc (length selected) =
              omega (arith, length-append selected (c ∷ [])) in
            let ds' = joined-AreDistinct (λ (c : RegionCandidate). c.index) selected c ds new in
            let alls' = joined-All P selected c alls p in
            elim (Bool-cases (length joined == num_arms)) [
              | inl full ↦ rw (apart, full) (ds', alls', ground arith)
              | inr more ↦
                  let few' : length joined < num_arms = ground arith in
                  rw (apart, more)
                    (pick_apart_kept cs joined there ds' (AreFresh-joined c selected cs here fresh)
                      ps alls' few')
            ]
      ]
