-- ===== src/Ennx/Regions/Allocation/Shares.antt =====
-- The loop of `allocate_with` that gives out the candidates left over.
use ennbo.Prelude.{ℕ, zero, suc, ◌+◌, ◌≤◌, ◌<◌, ◌≡◌, refl, sym, ◌∙◌, arith}
use ennbo.Prelude.{Bool, true, false, Bool-cases, inl, inr, ◌==◌, ==_iff, if◌then◌else◌}
use ennbo.Prelude.{List, [], ◌∷◌, length, get_or, set, All, member, AreDistinct, member_tail}
use ennbo.Prelude.{get_or-set, get_or-set_other, All-set, length-set}
use ennbo.Float64.{F64}
use ennbo.Ennx.Regions.{MultiTrustRegionState}
use ennbo.Ennx.Regions.Allocation.{max_by, takes_more, share}

-- The counts of the listed regions together.
abbrev pub total : List ℕ → List ℕ → ℕ
total [] counts = 0
total (r ∷ rs) counts = get_or counts r 0 + total rs counts

member_here : (x : ℕ) (xs : List ℕ) → member x (x ∷ xs) ≡ true
member_here x xs = let itself : (x == x) ≡ true = ground arith in rw itself refl

member_later : (x y : ℕ) (xs : List ℕ) → member x xs ≡ true → member x (y ∷ xs) ≡ true
member_later x y xs h = ground arith

member_skip :
    (k top x : ℕ) (xs : List ℕ) → member k (top ∷ xs) ≡ true → member k (top ∷ (x ∷ xs)) ≡ true
member_skip k top x xs h = ground arith

max_by-member :
    (greater : ℕ → ℕ → Bool) (top : ℕ) (xs : List ℕ)
    → member (max_by greater top xs) (top ∷ xs) ≡ true
max_by-member greater top [] = member_here top []
max_by-member greater top (x ∷ xs) =
    elim (greater top x)
      as (λ b. member (max_by greater (if b then top else x) xs) (top ∷ (x ∷ xs)) ≡ true) [
        | true ↦ member_skip (max_by greater top xs) top x xs (max_by-member greater top xs)
        | false ↦ member_later (max_by greater x xs) top (x ∷ xs) (max_by-member greater x xs)
      ]

All-member : (P : ℕ → Type 0) (x : ℕ) (xs : List ℕ) → All P xs → member x xs ≡ true → P x
All-member P x [] all h = cc
All-member P x (y ∷ ys) (here, there) h = elim (Bool-cases (x == y)) [
  | inl e ↦ rw ((==_iff x y).0 e) here
  | inr e ↦ All-member P x ys there (rw e at h)
]

total_kept :
    (rs counts : List ℕ) (i v : ℕ)
    → member i rs ≡ false
    → total rs (set counts i v) ≡ total rs counts
total_kept [] counts i v h = refl
total_kept (r ∷ rs) counts i v h =
    let (apart, h') = member_tail i r rs h in
    rw (get_or-set_other counts i r v 0 apart, total_kept rs counts i v h') refl

total_more :
    (rs counts : List ℕ) (i : ℕ)
    → AreDistinct rs
    → member i rs ≡ true
    → i < length counts
    → total rs (set counts i (get_or counts i 0 + 1)) ≡ total rs counts + 1
total_more [] counts i d h inside = cc
total_more (r ∷ rs) counts i (here, there) h inside = elim (Bool-cases (i == r)) [
  | inl e ↦
      let same : i ≡ r = (==_iff i r).0 e in
      let here' : member i rs ≡ false = rw same here in
      let kept = total_kept rs counts i (get_or counts i 0 + 1) here' in
      let new = get_or-set counts i (get_or counts i 0 + 1) 0 inside in
      rw (sym same, kept, new) (omega arith)
  | inr e ↦
      let later = total_more rs counts i there (rw e at h) inside in
      rw (get_or-set_other counts i r (get_or counts i 0 + 1) 0 e, later) (omega arith)
]

module _ (f : F64) (t : MultiTrustRegionState) (utility : List ℕ) (first : ℕ) (rest : List ℕ) where
  -- Every round gives one candidate to one of the regions and takes none away.
  pub share-total :
      (n m : ℕ) (counts : List ℕ)
      → AreDistinct (first ∷ rest)
      → All (λ r. r < m) (first ∷ rest)
      → length counts ≡ m
      → All (λ c. 1 ≤ c) counts
      → (total (first ∷ rest) (share f t utility n first rest counts)
          ≡ total (first ∷ rest) counts + n)
        × (length (share f t utility n first rest counts) ≡ m)
        × All (λ c. 1 ≤ c) (share f t utility n first rest counts)
  unfolding share
  share-total zero m counts d inside size positive = (omega arith, size, positive)
  share-total (suc n) m counts d inside size positive =
      let region = max_by (takes_more f t utility counts) first rest in
      let chosen = max_by-member (takes_more f t utility counts) first rest in
      let within : region < m = All-member (λ r. r < m) region (first ∷ rest) inside chosen in
      let more_of_it = get_or counts region 0 + 1 in
      let size' : length (set counts region more_of_it) ≡ m =
        length-set counts region more_of_it ∙ size in
      let positive' = All-set (λ c. 1 ≤ c) counts region more_of_it positive (omega arith) in
      let (sum, size'', after) =
        share-total n m (set counts region more_of_it) d inside size' positive' in
      let more = total_more (first ∷ rest) counts region d chosen (omega arith) in
      (sum ∙ omega (arith, more), size'', after)
