-- ===== src/Ennx/Hash/Inverse.antt =====
-- The unique indices in order and the positions of all indices in them.
use ennbo.Prelude.{map_itself}
use ennbo.Prelude.{ℕ, suc, ◌≤◌, ◌<◌, ◌≡◌, refl, sym, ap, ◌∙◌, arith}
use ennbo.Prelude.{true, Bool-cases, inl, inr, ◌||◌, ◌==◌, ==_iff, ltb}
use ennbo.Prelude.{some}
use ennbo.Prelude.{List, [], ◌∷◌, map, length, get_or, All, member}
use ennbo.Sort.{sort_indices}
use ennbo.Sort.Ordered.{IsStrict, AreOrdered, sort_by-AreOrdered}
use ennbo.Sort.Members.{member-sort_by}
use ennbo.Ennx.Hash.{dedup_from, dedup, position, inverse_in, unique_index_inverse}

abbrev pub IsIncreasing : List ℕ → Type 0
IsIncreasing [] = Unit {0}
IsIncreasing (x ∷ xs) = All (λ y. x < y) xs × IsIncreasing xs

ltb-IsStrict : IsStrict ltb
ltb-IsStrict = record { asymm = λ a b h. ground arith; trans = λ a b c h k. ground arith }

All-lower : (x y : ℕ) (zs : List ℕ) → x < y → All (λ z. y ≤ z) zs → All (λ z. x < z) zs
All-lower x y [] h all = tt
All-lower x y (z ∷ zs) h (here, there) = (omega arith, All-lower x y zs h there)

All-weaker : (x : ℕ) (zs : List ℕ) → All (λ z. x < z) zs → All (λ z. x ≤ z) zs
All-weaker x [] all = tt
All-weaker x (z ∷ zs) (here, there) = (omega arith, All-weaker x zs there)

dedup_from-IsIncreasing :
    (x : ℕ) (ys : List ℕ)
    → AreOrdered ltb (x ∷ ys)
    → IsIncreasing (dedup_from x ys) × All (λ z. x ≤ z) (dedup_from x ys)
dedup_from-IsIncreasing x [] ordered = ((tt, tt), (omega arith, tt))
dedup_from-IsIncreasing x (y ∷ ys) ((least, after), (after_y, ordered)) =
    elim (Bool-cases (x == y)) [
      | inl same ↦ rw same (dedup_from-IsIncreasing x ys (after, ordered))
      | inr apart ↦
          let less : x < y = ground arith in
          let (increasing, above) = dedup_from-IsIncreasing y ys (after_y, ordered) in
          let above' = All-lower x y (dedup_from y ys) less above in
          rw apart ((above', increasing), (omega arith, All-weaker x (dedup_from y ys) above'))
    ]

dedup-IsIncreasing : (xs : List ℕ) → AreOrdered ltb xs → IsIncreasing (dedup xs)
dedup-IsIncreasing [] ordered = tt
dedup-IsIncreasing (x ∷ xs) ordered = (dedup_from-IsIncreasing x xs ordered).0

member-dedup_from : (k x : ℕ) (ys : List ℕ) → member k (dedup_from x ys) ≡ member k (x ∷ ys)
member-dedup_from k x [] = refl
member-dedup_from k x (y ∷ ys) = elim (Bool-cases (x == y)) [
  | inl same ↦
      let later = member-dedup_from k x ys in
      let e : x ≡ y = (==_iff x y).0 same in rw same (later ∙ rw e (ground arith))
  | inr apart ↦ rw apart (ap (λ b. (k == x) || b) (member-dedup_from k y ys))
]

member-dedup : (k : ℕ) (xs : List ℕ) → member k (dedup xs) ≡ member k xs
member-dedup k [] = refl
member-dedup k (x ∷ xs) = member-dedup_from k x xs

position_found :
    (x : ℕ) (u : List ℕ)
    → member x u ≡ true
    → (p : ℕ) × (position x u ≡ some p) × (p < length u) × (get_or u p 0 ≡ x)
position_found x [] h = cc
position_found x (y ∷ u) h = elim (Bool-cases (x == y)) [
  | inl same ↦ (0, rw same refl, omega arith, sym ((==_iff x y).0 same))
  | inr apart ↦
      let (p, found, inside, read) = position_found x u (rw apart at h) in
      (suc p, rw (apart, found) refl, omega arith, read)
]

-- Every index is a member.
abbrev AreMembers : List ℕ → List ℕ → Type 0
AreMembers u xs = All (λ x. member x u ≡ true) xs

inverse_found :
    (u xs : List ℕ)
    → AreMembers u xs
    → (ps : List ℕ) × (inverse_in u xs ≡ some ps)
      × All (λ p. p < length u) ps
      × (map (λ p. get_or u p 0) ps ≡ xs)
inverse_found u [] all = ([], refl, tt, refl)
inverse_found u (x ∷ xs) (here, there) =
    let (p, found, inside, read) = position_found x u here in
    let (ps, done, all, reads) = inverse_found u xs there in
    (p ∷ ps, rw (found, done) refl, (inside, all), rw (read, reads) refl)

members_all :
    (u whole xs : List ℕ)
    → ((k : ℕ) → member k u ≡ member k whole)
    → All (λ x. member x whole ≡ true) xs
    → AreMembers u xs
members_all u whole [] same all = tt
members_all u whole (x ∷ xs) same (here, there) = (same x ∙ here, members_all u whole xs same there)

members_more :
    (y : ℕ) (whole xs : List ℕ)
    → All (λ x. member x whole ≡ true) xs
    → All (λ x. member x (y ∷ whole) ≡ true) xs
members_more y whole [] all = tt
members_more y whole (x ∷ xs) (here, there) = (ground arith, members_more y whole xs there)

members_self : (xs : List ℕ) → All (λ x. member x xs ≡ true) xs
members_self [] = tt
members_self (x ∷ xs) =
    let itself : (x == x) ≡ true = ground arith in
    (rw itself refl, members_more x xs xs (members_self xs))

sorted_members : (k : ℕ) (xs : List ℕ) → member k (sort_indices xs) ≡ member k xs
sorted_members k xs =
    ap (member k) (sym (map_itself (sort_indices xs)))
    ∙ member-sort_by ltb (λ x. x) k xs
    ∙ ap (member k) (map_itself xs)

-- `unique_index_inverse` always succeeds: the unique indices are strictly increasing and are exactly
-- the indices given, and the positions are inside them and read back all the indices, in order.
pub unique_index_inverse_read :
    (data_indices : List ℕ)
    → (unique inverse : List ℕ) × (unique_index_inverse data_indices ≡ some (unique, inverse))
      × IsIncreasing unique
      × ((k : ℕ) → member k unique ≡ member k data_indices)
      × All (λ p. p < length unique) inverse
      × (map (λ p. get_or unique p 0) inverse ≡ data_indices)
unfolding unique_index_inverse
unique_index_inverse_read data_indices =
    let sorted = sort_indices data_indices in
    let unique = dedup sorted in
    let same : (k : ℕ) → member k unique ≡ member k data_indices =
      (λ k. member-dedup k sorted ∙ sorted_members k data_indices) in
    let (inverse, done, inside, reads) =
      inverse_found unique data_indices
        (members_all unique data_indices data_indices same (members_self data_indices)) in
    (
      unique,
      inverse,
      rw done refl,
      dedup-IsIncreasing sorted (sort_by-AreOrdered ltb ltb-IsStrict data_indices),
      same,
      inside,
      reads,
    )
