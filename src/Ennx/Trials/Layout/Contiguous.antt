-- ===== src/Ennx/Trials/Layout/Contiguous.antt =====
-- What `check_layout` accepts.
use ennbo.Prelude.{
  ℕ, ◌+◌, ◌*◌, ◌^◌, ◌<◌, ◌≤◌, ◌⊎◌, inl, inr, Bool-cases, ◌≡◌, ◌≢◌, refl, ◌↔◌, arith,
}
use ennbo.Prelude.{List, [], ◌∷◌, ok, bind_parts}
use native.Mathlib.Nat.{add_assoc, add-zero, zero-add}
use ennbo.Prelude.{ltb, ◌||◌, ◌-◌, ◌>>◌, false}
use ennbo.Ennx.Trials.Leaf.{layout_too_large}
use ennbo.Prelude.{◌==◌, not, fail_if}
use ennbo.Ennx.Trials.Leaf.{Leaf, bytes, TrialError, leaf_offset, parameter_overflow, row_overflow}
use ennbo.Ennx.Trials.Layout.{check_leaves, check_layout, checked_add, bytes_or_panic}

-- The parameters of all leaves.
abbrev pub parameters : List Leaf → ℕ
parameters [] = 0
parameters (leaf ∷ leaves) = leaf.length + parameters leaves

-- The bytes of a leaf: two codes of 4 bits to a byte, the last byte may be half full, or one code of
-- 8 bits.
abbrev pub IsSized : Leaf → ℕ → Type 0
IsSized leaf n =
    ((leaf.bits ≡ 4) × (leaf.length ≤ 2 * n) × (2 * n ≤ leaf.length + 1))
    ⊎ ((leaf.bits ≡ 8) × (n ≡ leaf.length))

-- Leaves of 4 or 8 bits that follow one another from `offset` on, and whose rows take `total` bytes.
abbrev pub IsContiguous : ℕ → List Leaf → ℕ → Type 0
IsContiguous offset [] total = total ≡ 0
IsContiguous offset (leaf ∷ leaves) total =
    (leaf.offset ≡ offset)
    × (n : ℕ) × (rest : ℕ) × IsSized leaf n
    × (total ≡ n + rest)
    × IsContiguous (offset + leaf.length) leaves rest

bytes_found : (leaf : Leaf) (n : ℕ) → bytes_or_panic leaf ≡ ok n → IsSized leaf n
unfolding bytes
bytes_found leaf n h = elim (Bool-cases (leaf.bits == 4)) [
  | inl four ↦ inl (ground arith, ground arith, ground arith)
  | inr other ↦ inr (ground arith, ground arith)
]

added : (a b c : ℕ) (e : TrialError) → checked_add a b e ≡ ok c → c ≡ a + b
added a b c e h = ground arith

add_ok : (a b : ℕ) (e : TrialError) → a + b < 2 ^ 64 → checked_add a b e ≡ ok (a + b)
add_ok a b e h = ground arith

continues : (a b : ℕ) (e : TrialError) {u : Unit {0}} → fail_if (not (a == b)) e ≡ ok u → a ≡ b
continues a b e h = ground arith

check_leaves-IsContiguous :
    (leaves : List Leaf) (offset row o r : ℕ)
    → check_leaves leaves offset row ≡ ok (o, r)
    → (total : ℕ) × (r ≡ row + total)
      × (o ≡ offset + parameters leaves)
      × IsContiguous offset leaves total
unfolding check_leaves
check_leaves-IsContiguous [] offset row o r h = (0, ground arith, ground arith, refl)
check_leaves-IsContiguous (leaf ∷ leaves) offset row o r h =
    let (_, e1, h1) = bind_parts (fail_if (not (leaf.offset == offset)) leaf_offset) _ h in
    let (o', e2, h2) = bind_parts (checked_add offset leaf.length parameter_overflow) _ h1 in
    let (n, e3, h3) = bind_parts (bytes_or_panic leaf) _ h2 in
    let (r', e4, h4) = bind_parts (checked_add row n row_overflow) _ h3 in
    let so : o' ≡ offset + leaf.length = added offset leaf.length o' parameter_overflow e2 in
    let sr : r' ≡ row + n = added row n r' row_overflow e4 in
    let (rest, er, eo, c) = check_leaves-IsContiguous leaves o' r' o r h4 in
    (
      n + rest,
      omega arith,
      omega arith,
      (
        continues leaf.offset offset leaf_offset e1,
        n,
        rest,
        bytes_found leaf n e3,
        refl,
        rw so at c,
      ),
    )

starts_there : (a b : ℕ) (e : TrialError) → a ≡ b → fail_if (not (a == b)) e ≡ ok tt
starts_there a b e h = ground arith

bytes_known : (leaf : Leaf) (n : ℕ) → IsSized leaf n → bytes_or_panic leaf ≡ ok n
unfolding bytes
bytes_known leaf n (inl (four, enough, few)) = ground arith
bytes_known leaf n (inr (eight, same)) = ground arith

check_leaves-ok :
    (leaves : List Leaf) (offset row total : ℕ)
    → IsContiguous offset leaves total
    → offset + parameters leaves < 2 ^ 64
    → row + total < 2 ^ 64
    → check_leaves leaves offset row ≡ ok (offset + parameters leaves, row + total)
unfolding check_leaves
check_leaves-ok [] offset row total c ho hr = rw (c, add-zero, add-zero)
check_leaves-ok (leaf ∷ leaves) offset row total (eo, n, rest, eb, et, c) ho hr = simp (
  starts_there leaf.offset offset leaf_offset eo,
  add_ok offset leaf.length parameter_overflow (omega arith),
  bytes_known leaf n eb,
  add_ok row n row_overflow (omega arith),
  check_leaves-ok leaves (offset + leaf.length) (row + n) rest c (omega arith) (omega arith),
  et,
  add_assoc,
)

-- The last check of `check_layout`.
in_u32 :
    (o r rb : ℕ)
    → (fail_if (ltb (2 ^ 32 - 1) o || ltb (2 ^ 32 - 1) r) layout_too_large >> ok r) ≡ ok rb
    → (o < 2 ^ 32) × (r < 2 ^ 32) × (r ≡ rb)
in_u32 o r rb h = ground arith

fits_u32 : (o r : ℕ) → o < 2 ^ 32 → r < 2 ^ 32 → (ltb (2 ^ 32 - 1) o || ltb (2 ^ 32 - 1) r) ≡ false
fits_u32 o r h k = ground arith

-- `check_layout` accepts leaves exactly when there is one at least, each starts where the one
-- before it ends and has 4 or 8 bits, and parameters and row bytes stay below 2^32; it then returns
-- the bytes of a row: half a byte, rounded up for each leaf, or one byte for each parameter.
pub check_layout_iff-IsContiguous :
    (leaves : List Leaf) (row_bytes : ℕ)
    → (check_layout leaves ≡ ok row_bytes) ↔ (
        (leaves ≢ [])
        × IsContiguous 0 leaves row_bytes
        × (parameters leaves < 2 ^ 32)
        × (row_bytes < 2 ^ 32))
unfolding check_layout
check_layout_iff-IsContiguous leaves rb = (λ h. there leaves h, λ w. back leaves w)
  where
    there :
        (ls : List Leaf)
        → check_layout ls ≡ ok rb
        → (ls ≢ []) × IsContiguous 0 ls rb × (parameters ls < 2 ^ 32) × (rb < 2 ^ 32)
    there [] h = cc
    there (l ∷ ls) h =
        let ((o, r), e, h1) = bind_parts (check_leaves (l ∷ ls) 0 0) _ h in
        let (total, er, eo, c) = check_leaves-IsContiguous (l ∷ ls) 0 0 o r e in
        let (ho, hr, same) = in_u32 o r rb h1 in
        let whole : total ≡ rb = omega arith in (λ e. cc, rw whole at c, omega arith, omega arith)

    back :
        (ls : List Leaf)
        → (ls ≢ []) × IsContiguous 0 ls rb × (parameters ls < 2 ^ 32) × (rb < 2 ^ 32)
        → check_layout ls ≡ ok rb
    back [] w = absurd (w.0 refl)
    back (l ∷ ls) w = simp (
      check_leaves-ok (l ∷ ls) 0 0 rb w.1 (omega arith) (omega arith),
      zero-add,
      fits_u32 (l.length + parameters ls) rb (omega arith) (omega arith),
    )
