-- ===== src/Bpann/Merge/Firsts.antt =====
-- Which candidates a merge returns.
use ennbo.Prelude.{member_joined, joined-AreDistinct, joined-All}
use ennbo.Prelude.{ℕ, zero, suc, ◌≡◌, ◌≤◌, ◌<◌, ◌⊎◌, not, refl, sym, ap, ◌∙◌, arith, min}
use ennbo.Prelude.{Bool, true, false, Bool-cases, inl, inr, ◌&&◌, ◌||◌, ◌==◌, ==_iff, ltb}
use ennbo.Prelude.{Option, none, some, if◌then◌else◌, member, AreDistinct, member_tail, All}
use ennbo.Prelude.{List, [], ◌∷◌, ◌++◌, length, take, append_assoc, append-nil}
use ennbo.Sort.{sort_by}
use mathlib.Core.Path.{subst}
use ennbo.Float64.{is_nan64, order_key64, f64_lt}
use ennbo.Sort.Ordered.{IsStrict}
use ennbo.Sort.Ranked.{AreRanked, sort_by-AreRanked, sort_by_alike}
use ennbo.Sort.Members.{All-sort_by, sort_by-AreDistinct, member-sort_by}
use ennbo.Bpann.Merge.{ids_of, see, nearer, without_nearest, merge_topk_precomputed_dist}

-- The distance of the first candidate with the id.
abbrev pub first_of : ℕ → List (ℕ × ℕ) → Option ℕ
first_of id [] = none
first_of id ((i, dist) ∷ rest) = if id == i then some dist else first_of id rest

-- The entry has the distance of the first candidate with its id.
abbrev pub IsFirst : (ℕ → ℕ) → List (ℕ × ℕ) → ℕ × ℕ → Type 0
IsFirst widen candidates e = (dist : ℕ) × (first_of e.0 candidates ≡ some dist) × (e.1 ≡ widen dist)

first_of-append_new :
    (id dist : ℕ) (xs ys : List (ℕ × ℕ))
    → member id (ids_of xs) ≡ false
    → first_of id (xs ++ ((id, dist) ∷ ys)) ≡ some dist
first_of-append_new id dist [] ys new =
    let itself : (id == id) ≡ true = ground arith in rw itself refl
first_of-append_new id dist ((i, d) ∷ xs) ys new =
    let (apart, new') = member_tail id i (ids_of xs) new in
    rw apart (first_of-append_new id dist xs ys new')

old_absorbed :
    (a b : Bool) (k id : ℕ) → (id == k) ≡ b → (b ≡ true → a ≡ true) → a ≡ (a || (k == id))
old_absorbed true b k id e h = refl
old_absorbed false true k id e h = let wrong = h refl in cc
old_absorbed false false k id e h = ground arith

module _ (widen : ℕ → ℕ) (whole : List (ℕ × ℕ)) where
  -- The candidates `done` were looked at.
  seen_firsts :
      (rest done seen : List (ℕ × ℕ))
      → done ++ rest ≡ whole
      → ((k : ℕ) → member k (ids_of seen) ≡ member k (ids_of done))
      → AreDistinct (ids_of seen)
      → All (IsFirst widen whole) seen
      → AreDistinct (ids_of (see widen seen rest))
        × All (IsFirst widen whole) (see widen seen rest)
        × ((k : ℕ) → member k (ids_of (see widen seen rest)) ≡ member k (ids_of whole))
  unfolding see
  seen_firsts [] done seen e same d all =
      (d, all, λ k. same k ∙ ap (λ xs. member k (ids_of xs)) (sym (append-nil done) ∙ e))
  seen_firsts ((id, dist) ∷ rest) done seen e same d all =
      let next : List (ℕ × ℕ) = done ++ ((id, dist) ∷ []) in
      let e' : next ++ rest ≡ whole = append_assoc done ((id, dist) ∷ []) rest ∙ e in
      elim (Bool-cases (member id (ids_of seen))) [
        | inl old ↦
            let same' : (k : ℕ) → member k (ids_of seen) ≡ member k (ids_of next) = (λ k.
              old_absorbed (member k (ids_of seen)) (id == k) k id refl
                (λ h. rw⁻¹ ((==_iff id k).0 h) old)
              ∙ rw (same k) (sym (member_joined (λ (e : ℕ × ℕ). e.0) k done (id, dist)))) in
            rw old (seen_firsts rest next seen e' same' d all)
        | inr new ↦
            let entry : ℕ × ℕ = (id, widen dist) in
            let joined : List (ℕ × ℕ) = seen ++ (entry ∷ []) in
            let same' : (k : ℕ) → member k (ids_of joined) ≡ member k (ids_of next) = (λ k.
              member_joined (λ (e : ℕ × ℕ). e.0) k seen entry
              ∙ ap (λ b. b || (k == id)) (same k)
              ∙ sym (member_joined (λ (e : ℕ × ℕ). e.0) k done (id, dist))) in
            let not_done : member id (ids_of done) ≡ false = sym (same id) ∙ new in
            let first : IsFirst widen whole entry = (
              dist,
              ap (first_of id) (sym e) ∙ first_of-append_new id dist done rest not_done,
              refl,
            ) in
            rw new (
              seen_firsts rest next joined e' same'
                (joined-AreDistinct (λ (e : ℕ × ℕ). e.0) seen entry d new)
                (joined-All (IsFirst widen whole) seen entry all first))
      ]

-- The first is strictly nearer, or as near with an id that is not greater.
abbrev pub IsNearer : ℕ × ℕ → ℕ × ℕ → Type 0
IsNearer (ia, da) (ib, db) =
    (order_key64 da < order_key64 db) ⊎ ((order_key64 da ≡ order_key64 db) × (ia ≤ ib))

-- `nearer` where no distance is NaN.
nearer_key : ℕ × ℕ → ℕ × ℕ → Bool
nearer_key (ia, da) (ib, db) =
    ltb (order_key64 da) (order_key64 db)
    || (not (ltb (order_key64 db) (order_key64 da)) && ltb ia ib)

abbrev IsNumber : ℕ × ℕ → Type 0
IsNumber e = is_nan64 e.1 ≡ false

nearer_alike : (a b : ℕ × ℕ) → IsNumber a → IsNumber b → nearer a b ≡ nearer_key a b
unfolding nearer nearer_key f64_lt
nearer_alike (ia, da) (ib, db) p q = rw (p, q) refl

nearer_key-IsStrict : IsStrict nearer_key
unfolding nearer_key
nearer_key-IsStrict = record {
  asymm = λ (ia, va) (ib, vb) h. ground arith;
  trans = λ (ia, va) (ib, vb) (ic, vc) h k. ground arith;
}

nearer_key-IsNearer : (a b : ℕ × ℕ) → nearer_key b a ≡ false → IsNearer a b
unfolding nearer_key
nearer_key-IsNearer (ia, da) (ib, db) h =
    elim (Bool-cases (ltb (order_key64 da) (order_key64 db))) [
      | inl less ↦ inl (ground arith)
      | inr other ↦ inr (ground arith, ground arith)
    ]

-- The widened distances of the first candidates are numbers when those of all are.
first_of-number :
    (widen : ℕ → ℕ) (id dist : ℕ) (whole : List (ℕ × ℕ))
    → All (λ c. is_nan64 (widen c.1) ≡ false) whole
    → first_of id whole ≡ some dist
    → is_nan64 (widen dist) ≡ false
first_of-number widen id dist [] all e = cc
first_of-number widen id dist ((i, d) ∷ whole) (here, there) e = elim (Bool-cases (id == i)) [
  | inl same ↦
      let there : some d ≡ some dist = rw same at e in let at : d ≡ dist = cc in rw (← at) here
  | inr apart ↦ first_of-number widen id dist whole there (rw apart at e)
]

IsFirst-IsNumber :
    (widen : ℕ → ℕ) (whole seen : List (ℕ × ℕ))
    → All (λ c. is_nan64 (widen c.1) ≡ false) whole
    → All (IsFirst widen whole) seen
    → All IsNumber seen
IsFirst-IsNumber widen whole [] numbers all = tt
IsFirst-IsNumber widen whole ((id, v) ∷ seen) numbers ((dist, e, same), there) = (
  rw same (first_of-number widen id dist whole numbers e),
  IsFirst-IsNumber widen whole seen numbers there,
)

-- All candidates, less the nearest of two or more when it is excluded.
abbrev pub kept : Bool → List (ℕ × ℕ) → List (ℕ × ℕ)
kept true (nearest ∷ (next ∷ rest)) = next ∷ rest
kept true (single ∷ []) = single ∷ []
kept true [] = []
kept false ranked = ranked

without_nearest-kept :
    (exclude : Bool) (xs : List (ℕ × ℕ)) → without_nearest exclude xs ≡ kept exclude xs
without_nearest-kept false xs = refl
without_nearest-kept true [] = refl
without_nearest-kept true (x ∷ []) = refl
without_nearest-kept true (x ∷ (y ∷ xs)) =
    let more : ltb 1 (suc (suc (length xs))) ≡ true = ground arith in rw more refl

take_pool : (k : ℕ) (xs : List (ℕ × ℕ)) → take (min k (length xs)) xs ≡ take k xs
take_pool zero xs =
    let none_left : min 0 (length xs) ≡ 0 = omega arith in ap (λ n. take n xs) none_left
take_pool (suc k) [] =
    let none_left : min (suc k) 0 ≡ 0 = omega arith in ap (λ n. take {A = ℕ × ℕ} n []) none_left
take_pool (suc k) (x ∷ xs) =
    let least : min (suc k) (suc (length xs)) ≡ suc (min k (length xs)) = omega arith in
    rw least (ap (λ t. x ∷ t) (take_pool k xs))

-- When no widened distance of the two lists is NaN: with the ids of the two lists, each once and
-- with the distance of its first candidate, ranked so that a nearer one is first and on equal
-- distances a lower id, a merge returns the first `k_out` of the first `pool_k` of them, or of those
-- behind the nearest when it is excluded and there are two at least.
pub merge_firsts :
    (widen : ℕ → ℕ) (leg_a leg_b : List (ℕ × ℕ)) (k_out pool_k : ℕ) (exclude_nearest : Bool)
    → All (λ c. is_nan64 (widen c.1) ≡ false) (leg_a ++ leg_b)
    → (ranked : List (ℕ × ℕ)) × AreDistinct (ids_of ranked)
      × ((id : ℕ) → member id (ids_of ranked) ≡ member id (ids_of (leg_a ++ leg_b)))
      × All (IsFirst widen (leg_a ++ leg_b)) ranked
      × AreRanked IsNearer ranked
      × (merge_topk_precomputed_dist widen leg_a leg_b k_out pool_k exclude_nearest
          ≡ take k_out (take pool_k (kept exclude_nearest ranked)))
unfolding merge_topk_precomputed_dist
merge_firsts widen leg_a leg_b k_out pool_k exclude_nearest numbers =
    let whole : List (ℕ × ℕ) = leg_a ++ leg_b in
    let (d, all, same) = seen_firsts widen whole whole [] [] refl (λ k. refl) tt tt in
    let seen = see widen [] whole in
    let ranked = sort_by nearer seen in
    let P = IsFirst widen whole in
    let alike : sort_by nearer_key seen ≡ ranked = sym (
      sort_by_alike nearer nearer_key IsNumber nearer_alike seen
        (IsFirst-IsNumber widen whole seen numbers all)) in
    (
      ranked,
      sort_by-AreDistinct nearer (λ (e : ℕ × ℕ). e.0) seen d,
      λ id. member-sort_by nearer (λ (e : ℕ × ℕ). e.0) id seen ∙ same id,
      All-sort_by nearer P seen all,
      subst (AreRanked IsNearer) alike
          (sort_by-AreRanked nearer_key IsNearer nearer_key-IsNearer nearer_key-IsStrict seen),
      ap (take k_out) (
          take_pool pool_k (without_nearest exclude_nearest ranked)
          ∙ ap (take pool_k) (without_nearest-kept exclude_nearest ranked)),
    )
