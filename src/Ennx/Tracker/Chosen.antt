-- ===== src/Ennx/Tracker/Chosen.antt =====
-- What the answers of a tracker are, without the operations of the code: sorted lists of indices of
-- the best entries of the observations.
use mathlib.Core.List.{Perm}
use mathlib.Core.Path.{subst}
use ennbo.Prelude.{ℕ, zero, suc, ◌≤◌, ◌<◌, ◌≡◌, refl, sym, ap, ◌∙◌, arith, ◌⊎◌, inl, inr}
use ennbo.Prelude.{Bool, false, Bool-cases, ◌||◌, ◌==◌, ltb, member, All, map_itself}
use ennbo.Prelude.{List, [], ◌∷◌, ◌++◌, map, take, some}
use ennbo.Float64.{total_key}
use ennbo.Sort.{sort_by, sort_indices}
use ennbo.Sort.Ordered.{IsStrict}
use ennbo.Sort.Members.{member-sort_by}
use ennbo.Sort.Ranked.{AreRanked, sort_by-perm, sort_by-AreRanked}
use ennbo.Ennx.Tracker.{
  IncrementalIncumbentTracker, new_tracker, ask, entry_before, sorted_indices, set_insert,
  set_insert_all, union_entries,
}
use ennbo.Ennx.Tracker.TopM.{best, entry_before-IsStrict}
use ennbo.Ennx.Tracker.Spec.{
  Observation, column, maxima, best_columns, Mode, every, noiseless, scalar, several, mode_of,
  candidates, IsRow, tell_all,
}
use ennbo.Ennx.Tracker.Answers.{told_candidates}

-- The first has the greater value, or the same value and an index that is not greater.
abbrev pub IsAbove : ℕ × ℕ → ℕ × ℕ → Type 0
IsAbove (ia, va) (ib, vb) =
    (total_key vb < total_key va) ⊎ ((total_key va ≡ total_key vb) × (ia ≤ ib))

-- The first `m` of the entries in that order.
abbrev pub IsTop : ℕ → List (ℕ × ℕ) → List (ℕ × ℕ) → Type 0
IsTop m entries top =
    (ranked : List (ℕ × ℕ)) × Perm ranked entries × AreRanked IsAbove ranked × (top ≡ take m ranked)

-- Those of each of the columns `col`, `col + 1`, ...
abbrev pub AreTops : ℕ → ℕ → ℕ → List Observation → List (List (ℕ × ℕ)) → Type 0
AreTops m col zero obs tops = tops ≡ []
AreTops m col (suc count) obs [] = ⊥
AreTops m col (suc count) obs (top ∷ tops) =
    IsTop m (column col obs) top × AreTops m (suc col) count obs tops

abbrev pub indices : List (ℕ × ℕ) → List ℕ
indices entries = map (λ (e : ℕ × ℕ). e.0) entries

abbrev pub all_indices_of : List (List (ℕ × ℕ)) → List ℕ
all_indices_of [] = []
all_indices_of (entries ∷ rest) = indices entries ++ all_indices_of rest

-- The answer has the indices in ascending order.
abbrev pub IsSorting : List ℕ → List ℕ → Type 0
IsSorting xs answer = Perm answer xs × AreRanked ◌≤◌ answer

abbrev pub IsAnswer : Mode → ℕ → ℕ → List Observation → List ℕ → Type 0
IsAnswer every m k obs answer = IsSorting (map (λ (o : Observation). o.0) obs) answer
IsAnswer noiseless m k obs answer = IsSorting (maxima (column 0 obs)) answer
IsAnswer scalar m k obs answer =
    (top : List (ℕ × ℕ)) × IsTop m (column 0 obs) top × IsSorting (indices top) answer
IsAnswer several m k obs answer =
    (tops : List (List (ℕ × ℕ))) × AreTops m 0 k obs tops
    × AreRanked ◌<◌ answer
    × ((id : ℕ) → member id answer ≡ member id (all_indices_of tops))

ltb-IsStrict : IsStrict ltb
ltb-IsStrict = record { asymm = λ a b h. ground arith; trans = λ a b c h k. ground arith }

sort_indices-IsSorting : (xs : List ℕ) → IsSorting xs (sort_indices xs)
sort_indices-IsSorting xs =
    (sort_by-perm ltb xs, sort_by-AreRanked ltb ◌≤◌ (λ a b h. ground arith) ltb-IsStrict xs)

entry_before-IsAbove : (a b : ℕ × ℕ) → entry_before b a ≡ false → IsAbove a b
unfolding entry_before
entry_before-IsAbove (ia, va) (ib, vb) h = elim (Bool-cases (ltb (total_key vb) (total_key va))) [
  | inl greater ↦ inl (ground arith)
  | inr other ↦ inr (ground arith, ground arith)
]

best-IsTop : (m : ℕ) (entries : List (ℕ × ℕ)) → IsTop m entries (best m entries)
best-IsTop m entries = (
  sort_by entry_before entries,
  sort_by-perm entry_before entries,
  sort_by-AreRanked entry_before IsAbove entry_before-IsAbove entry_before-IsStrict entries,
  refl,
)

best_columns-AreTops :
    (m col count : ℕ) (obs : List Observation)
    → AreTops m col count obs (best_columns m col count obs)
best_columns-AreTops m col zero obs = refl
best_columns-AreTops m col (suc count) obs =
    (best-IsTop m (column col obs), best_columns-AreTops m (suc col) count obs)

-- The sorted list of a set.
member-set_insert : (k x : ℕ) (ys : List ℕ) → member k (set_insert x ys) ≡ ((k == x) || member k ys)
unfolding set_insert
member-set_insert k x [] = refl
member-set_insert k x (y ∷ ys) =
    let later = member-set_insert k x ys in
    elim (Bool-cases (ltb x y)) [
      | inl less ↦ rw less refl
      | inr other ↦ elim (Bool-cases (x == y)) [
        | inl same ↦ rw (other, same) (ground arith)
        | inr apart ↦ rw (other, apart, later) (ground arith)
      ]
    ]

All-set_insert : (z x : ℕ) (ys : List ℕ) → z < x → All (◌<◌ z) ys → All (◌<◌ z) (set_insert x ys)
unfolding set_insert
All-set_insert z x [] less all = (less, tt)
All-set_insert z x (y ∷ ys) less (here, there) = elim (Bool-cases (ltb x y)) [
  | inl e ↦ rw e (less, (here, there))
  | inr other ↦ elim (Bool-cases (x == y)) [
    | inl same ↦ rw (other, same) (here, there)
    | inr apart ↦ rw (other, apart) (here, All-set_insert z x ys less there)
  ]
]

All-below : (x y : ℕ) (ys : List ℕ) → x < y → All (◌<◌ y) ys → All (◌<◌ x) ys
All-below x y [] less all = tt
All-below x y (z ∷ zs) less (here, there) = (omega arith, All-below x y zs less there)

set_insert-AreRanked : (x : ℕ) (ys : List ℕ) → AreRanked ◌<◌ ys → AreRanked ◌<◌ (set_insert x ys)
unfolding set_insert
set_insert-AreRanked x [] h = (tt, tt)
set_insert-AreRanked x (y ∷ ys) (here, there) = elim (Bool-cases (ltb x y)) [
  | inl e ↦
      let less : x < y = ground arith in rw e ((less, All-below x y ys less here), (here, there))
  | inr other ↦ elim (Bool-cases (x == y)) [
    | inl same ↦ rw (other, same) (here, there)
    | inr apart ↦
        let greater : y < x = ground arith in
        rw (other, apart) (All-set_insert y x ys greater here, set_insert-AreRanked x ys there)
  ]
]

set_insert_all-IsSet :
    (xs union : List ℕ)
    → AreRanked ◌<◌ union
    → AreRanked ◌<◌ (set_insert_all xs union)
      × ((k : ℕ) → member k (set_insert_all xs union) ≡ (member k union || member k xs))
unfolding set_insert_all
set_insert_all-IsSet [] union h = (h, λ k. ground arith)
set_insert_all-IsSet (x ∷ xs) union h =
    let (ranked, members) =
      set_insert_all-IsSet xs (set_insert x union) (set_insert-AreRanked x union h) in
    (ranked, λ k. members k ∙ rw (member-set_insert k x union) (ground arith))

member-sorted_indices :
    (k : ℕ) (entries : List (ℕ × ℕ))
    → member k (sorted_indices entries) ≡ member k (indices entries)
unfolding sorted_indices
member-sorted_indices k entries =
    let xs = indices entries in
    ap (member k) (sym (map_itself (sort_by ltb xs)))
    ∙ member-sort_by ltb (λ (x : ℕ). x) k xs
    ∙ ap (member k) (map_itself xs)

member-append : (k : ℕ) (xs ys : List ℕ) → member k (xs ++ ys) ≡ (member k xs || member k ys)
member-append k [] ys = refl
member-append k (x ∷ xs) ys = let later = member-append k xs ys in rw later (ground arith)

union_entries-IsSet :
    (tops : List (List (ℕ × ℕ))) (union : List ℕ)
    → AreRanked ◌<◌ union
    → AreRanked ◌<◌ (union_entries tops union)
      × ((k : ℕ)
          → member k (union_entries tops union)
            ≡ (member k union || member k (all_indices_of tops)))
unfolding union_entries
union_entries-IsSet [] union h = (h, λ k. ground arith)
union_entries-IsSet (top ∷ tops) union h =
    let (ranked, members) = set_insert_all-IsSet (sorted_indices top) union h in
    let (ranked', members') =
      union_entries-IsSet tops (set_insert_all (sorted_indices top) union) ranked in
    (
      ranked',
      λ k.
          members' k
          ∙ rw
              (
                members k,
                member-sorted_indices k top,
                member-append k (indices top) (all_indices_of tops),
              )
              (ground arith),
    )

candidates-IsAnswer :
    (mode : Mode) (m k : ℕ) (obs : List Observation)
    → IsAnswer mode m k obs (candidates mode m k obs)
unfolding sorted_indices
candidates-IsAnswer every m k obs = sort_indices-IsSorting (map (λ (o : Observation). o.0) obs)
candidates-IsAnswer noiseless m k obs = sort_indices-IsSorting (maxima (column 0 obs))
candidates-IsAnswer scalar m k obs =
    let top = best m (column 0 obs) in
    (top, best-IsTop m (column 0 obs), sort_indices-IsSorting (indices top))
candidates-IsAnswer several m k obs =
    let (ranked, members) = union_entries-IsSet (best_columns m 0 k obs) [] tt in
    (best_columns m 0 k obs, best_columns-AreTops m 0 k obs, ranked, members)

-- A new tracker that is told any observations, at least one, each with a value for every metric and
-- none of them NaN, never fails, and answers in ascending order: above the threshold every index;
-- else, with one metric and no noise, the indices of the greatest value; with noise those of the
-- first `m` entries in the order of falling values and, on equal values, of rising indices; with
-- several metrics each index once that is among the first `m` entries of one of the metrics.
pub tracker_refines_candidates :
    (m : ℕ) (noise_aware : Bool) (k : ℕ) (t : IncrementalIncumbentTracker) (o : Observation)
    (obs : List Observation)
    → new_tracker m noise_aware k ≡ some t
    → All (IsRow k) (o ∷ obs)
    → (t' : IncrementalIncumbentTracker) × (tell_all t (o ∷ obs) ≡ some t')
      × IsAnswer (mode_of m noise_aware k) m k (o ∷ obs) (ask t')
tracker_refines_candidates m noise_aware k t o obs h rows =
    let mode = mode_of m noise_aware k in
    let (t', told, same) = told_candidates m noise_aware k t o obs h rows in
    (
      t',
      told,
      subst (IsAnswer mode m k (o ∷ obs)) (sym same) (candidates-IsAnswer mode m k (o ∷ obs)),
    )
