-- ===== src/Ennx/Trials/Tree/Chains.antt =====
-- `tree::check` and the perturbation chains that it accepts.
use ennbo.Prelude.{ℕ, zero, suc, ◌≤◌, ◌<◌, ◌≡◌, ◌↔◌, refl, arith, ◌||◌, not, inl, inr}
use ennbo.Prelude.{Bool, true, false, Bool-cases, Option, none, some, Option-cases, ◌==◌, leb}
use ennbo.Prelude.{List, [], ◌∷◌, length, All, get_elem?, ok, err, fail_if, passed, pass}
use ennbo.Prelude.{checks_ok, ok_checks, ◌>>◌}
use ennbo.Ennx.Trials.Leaf.{region_centers, center_order, center_bounds, panicked}
use ennbo.Ennx.Trials.Tree.{Center, check_chain, check_centers, check, is_late, any_outside}

-- A chain of perturbations from a parent back to the root, of at most so many centers.
pub data Chain (centers : List Center) : ℕ → Option ℕ → Type 0 where
  root : (n : ℕ) → Chain centers n none
  after :
      (n i : ℕ) (c : Center)
      → get_elem? centers i ≡ some c
      → Chain centers n c.parent
      → Chain centers (suc n) (some i)

check_chain-Chain :
    (rounds : ℕ) (centers : List Center) (parent : Option ℕ)
    → check_chain rounds centers parent ≡ ok tt
    → Chain centers rounds parent
unfolding check_chain
check_chain-Chain rounds centers none h = root rounds
check_chain-Chain zero centers (some i) h = cc
check_chain-Chain (suc rounds) centers (some i) h = elim (Option-cases (get_elem? centers i)) [
  | inl e ↦ let lost : err panicked ≡ ok tt = rw (check_chain, e) at h in cc
  | inr (c, e) ↦
      after rounds i c e (check_chain-Chain rounds centers c.parent (rw (check_chain, e) at h))
]

Chain-check_chain :
    (centers : List Center) (rounds : ℕ) (parent : Option ℕ)
    → Chain centers rounds parent
    → check_chain rounds centers parent ≡ ok tt
unfolding check_chain
Chain-check_chain centers _ _ (root n) = refl
Chain-check_chain centers _ _ (after n i c e chain) =
    rw (check_chain, e) (Chain-check_chain centers n c.parent chain)

-- The parent, if any, stands before the index.
abbrev pub IsEarlier : Option ℕ → ℕ → Type 0
IsEarlier none index = Unit {0}
IsEarlier (some parent) index = parent < index

-- Every center's parent is an earlier center, and its chain has at most `max_depth` centers, itself
-- included.
abbrev pub AreCenters : List Center → ℕ → List Center → Type 0
AreCenters centers index [] = Unit {0}
AreCenters centers index (center ∷ later) =
    IsEarlier center.parent index
    × Chain centers 7 center.parent
    × AreCenters centers (suc index) later

not_late : (index : ℕ) (parent : Option ℕ) → is_late index parent ≡ false → IsEarlier parent index
not_late index none h = tt
not_late index (some p) h = ground arith

late_not : (index : ℕ) (parent : Option ℕ) → IsEarlier parent index → is_late index parent ≡ false
late_not index none h = refl
late_not index (some p) h = ground arith

check_centers_iff :
    (centers : List Center) (index : ℕ) (later : List Center)
    → (check_centers centers index later ≡ ok tt) ↔ AreCenters centers index later
unfolding check_centers
check_centers_iff centers index [] = (λ h. tt, λ h. refl)
check_centers_iff centers index (c ∷ later) =
    let (forth, back) = check_centers_iff centers (suc index) later in
    (
      (λ h.
          let (first, a) =
            checks_ok (fail_if (is_late index c.parent) center_order)
              (check_chain 7 centers c.parent >> check_centers centers (suc index) later) h in
          let (second, b) =
            checks_ok (check_chain 7 centers c.parent) (check_centers centers (suc index) later)
              a in
          (
            not_late index c.parent (passed (is_late index c.parent) center_order first),
            check_chain-Chain 7 centers c.parent second,
            forth b,
          )),
      λ (early, chain, rest).
          ok_checks (fail_if (is_late index c.parent) center_order)
            (check_chain 7 centers c.parent >> check_centers centers (suc index) later)
            (pass (is_late index c.parent) center_order (late_not index c.parent early))
            (ok_checks (check_chain 7 centers c.parent) (check_centers centers (suc index) later)
              (Chain-check_chain centers 7 c.parent chain) (back rest)),
    )

abbrev pub IsInside : ℕ → ℕ → Type 0
IsInside count center = center < count

any_outside_iff :
    (count : ℕ) (regions : List ℕ)
    → (any_outside count regions ≡ false) ↔ All (IsInside count) regions
any_outside_iff count [] = (λ h. tt, λ h. refl)
any_outside_iff count (r ∷ rs) =
    let (forth, back) = any_outside_iff count rs in
    (
      (λ h. elim (Bool-cases (leb count r)) [
        | inl e ↦ let no : true ≡ false = rw e at h in cc
        | inr e ↦ (ground arith, forth (rw e at h))
      ]),
      λ (here, there). let e : leb count r ≡ false = ground arith in rw e (back there),
    )

-- `check` accepts exactly the trees with one center for each of at least one region, where every
-- center's parent stands before it, its chain back to the root has at most eight centers and every
-- region's center exists.
pub check_iff-AreCenters :
    (centers : List Center) (regions : List ℕ) (num_regions : ℕ)
    → (check centers regions num_regions ≡ ok tt) ↔ (
        (1 ≤ num_regions)
        × (length regions ≡ num_regions)
        × AreCenters centers 0 centers
        × All (IsInside (length centers)) regions)
unfolding check
check_iff-AreCenters centers regions num_regions =
    let unmatched : Bool = num_regions == 0 || not (length regions == num_regions) in
    let outside : Bool = any_outside (length centers) regions in
    let last = fail_if outside center_bounds >> ok tt in
    let (forth, back) = check_centers_iff centers 0 centers in
    let (inside, bounds) = any_outside_iff (length centers) regions in
    (
      (λ h.
          let (first, a) =
            checks_ok (fail_if unmatched region_centers) (check_centers centers 0 centers >> last)
              h in
          let (second, b) = checks_ok (check_centers centers 0 centers) last a in
          let (third, c) = checks_ok (fail_if outside center_bounds) (ok tt) b in
          let matched : unmatched ≡ false = passed unmatched region_centers first in
          (ground arith, ground arith, forth second, inside (passed outside center_bounds third))),
      λ (some_regions, size, valid, in_bounds).
          let matched : unmatched ≡ false = ground arith in
          ok_checks (fail_if unmatched region_centers) (check_centers centers 0 centers >> last)
            (pass unmatched region_centers matched)
            (ok_checks (check_centers centers 0 centers) last (back valid) (
              ok_checks (fail_if outside center_bounds) (ok tt)
                (pass outside center_bounds (bounds in_bounds)) refl)),
    )
