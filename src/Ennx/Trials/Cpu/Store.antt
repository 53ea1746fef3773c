-- ===== src/Ennx/Trials/Cpu/Store.antt =====
-- The row store of `Cpu`: what a write leaves to read.
use ennbo.Prelude.{ℕ, zero, suc, ◌+◌, ◌-◌, ◌*◌, ◌≤◌, ◌≡◌, ◌≢◌, refl, sym, ap, ◌∙◌, arith}
use ennbo.Prelude.{true, Bool-cases, inl, inr, ◌⊎◌, ltb, ◌&&◌, ◌==◌, leb, some, none}
use ennbo.Prelude.{List, [], ◌∷◌, ◌++◌, length, take, drop, length-take, length-append}
use ennbo.Prelude.{take-append}
use native.Mathlib.Nat.{mul-le-mul_right}
use ennbo.Ennx.Trials.Cpu.{Cpu, cpu_read, cpu_write}

length-drop : (n : ℕ) (xs : List ℕ) → length (drop n xs) ≡ length xs - n
length-drop zero xs = omega arith
length-drop (suc n) [] = omega arith
length-drop (suc n) (x ∷ xs) = omega (arith, length-drop n xs)

-- A window of a list that lies within its first part.
take-drop_first :
    (n k : ℕ) (xs ys : List ℕ) → k + n ≤ length xs → take n (drop k (xs ++ ys)) ≡ take n (drop k xs)
take-drop_first zero k xs ys h = refl
take-drop_first (suc n) zero [] ys h = ground arith
take-drop_first (suc n) zero (x ∷ xs) ys h =
    ap (λ t. x ∷ t) (take-drop_first n zero xs ys (omega arith))
take-drop_first (suc n) (suc k) [] ys h = ground arith
take-drop_first (suc n) (suc k) (x ∷ xs) ys h = take-drop_first (suc n) k xs ys (omega arith)

-- A window that lies after the first part.
drop-append_after :
    (k : ℕ) (xs ys : List ℕ) → length xs ≤ k → drop k (xs ++ ys) ≡ drop (k - length xs) ys
drop-append_after k [] ys h = ap (λ i. drop i ys) (omega arith)
drop-append_after zero (x ∷ xs) ys h = ground arith
drop-append_after (suc k) (x ∷ xs) ys h =
    drop-append_after k xs ys (omega arith) ∙ ap (λ i. drop i ys) (omega arith)

drop-drop : (i k : ℕ) (xs : List ℕ) → k ≤ i → drop (i - k) (drop k xs) ≡ drop i xs
drop-drop i zero xs h = ap (λ j. drop j xs) (omega arith)
drop-drop zero (suc k) xs h = ground arith
drop-drop (suc i) (suc k) [] h = drop_nil (suc i - suc k)
  where
    drop_nil : (j : ℕ) → drop {A = ℕ} j [] ≡ []
    drop_nil zero = refl
    drop_nil (suc j) = refl
drop-drop (suc i) (suc k) (x ∷ xs) h =
    ap (λ j. drop j (drop k xs)) (omega arith) ∙ drop-drop i k xs (omega arith)

take-drop : (k : ℕ) (xs : List ℕ) → take k xs ++ drop k xs ≡ xs
take-drop zero xs = refl
take-drop (suc k) [] = refl
take-drop (suc k) (x ∷ xs) = ap (λ t. x ∷ t) (take-drop k xs)

-- Rows with `row` in the place of what stands at `k`.
abbrev replaced : ℕ → List ℕ → List ℕ → ℕ → List ℕ
replaced k rows row stop = take k rows ++ (row ++ drop stop rows)

module _ (k : ℕ) (rows row : List ℕ) (stop : ℕ) (end : k + length row ≡ stop)
    (fits : stop ≤ length rows) where
  length-replaced : length (replaced k rows row stop) ≡ length rows
  length-replaced = omega (
    arith,
    length-append (take k rows) (row ++ drop stop rows),
    length-append row (drop stop rows),
    length-take k rows,
    length-drop stop rows,
  )

  first_length : length (take k rows) ≡ k
  first_length = omega (arith, length-take k rows)

  window_same : take (length row) (drop k (replaced k rows row stop)) ≡ row
  window_same =
      let none_left : k - length (take k rows) ≡ 0 = omega (arith, first_length) in
      ap (take (length row)) (
        drop-append_after k (take k rows) (row ++ drop stop rows) (omega (arith, first_length))
        ∙ ap (λ i. drop i (row ++ drop stop rows)) none_left)
      ∙ take-append row (drop stop rows)

  window_before :
      (n j : ℕ) → j + n ≤ k → take n (drop j (replaced k rows row stop)) ≡ take n (drop j rows)
  window_before n j h =
      take-drop_first n j (take k rows) (row ++ drop stop rows) (omega (arith, first_length))
      ∙ sym (take-drop_first n j (take k rows) (drop k rows) (omega (arith, first_length)))
      ∙ ap (λ xs. take n (drop j xs)) (take-drop k rows)

  window_after :
      (n j : ℕ) → stop ≤ j → take n (drop j (replaced k rows row stop)) ≡ take n (drop j rows)
  window_after n j h = ap (take n) (
      drop-append_after j (take k rows) (row ++ drop stop rows) (omega (arith, first_length))
      ∙ drop-append_after (j - length (take k rows)) row (drop stop rows)
          (omega (arith, first_length))
      ∙ ap (λ i. drop i (drop stop rows)) (omega (arith, first_length))
      ∙ drop-drop j stop rows h)

  window_other :
      (n j : ℕ)
      → (j + n ≤ k) ⊎ (stop ≤ j)
      → take n (drop j (replaced k rows row stop)) ≡ take n (drop j rows)
  window_other n j (inl before) = window_before n j before
  window_other n j (inr after) = window_after n j after

-- The rows of two slots do not overlap.
apart_windows :
    (slot other n : ℕ) → other ≢ slot → (other * n + n ≤ slot * n) ⊎ ((slot + 1) * n ≤ other * n)
apart_windows slot other n apart = elim (Bool-cases (ltb other slot)) [
  | inl e ↦
      let less : other + 1 ≤ slot = ground arith in
      let product = mul-le-mul_right n less in inl (omega arith)
  | inr e ↦ let more : slot + 1 ≤ other = ground arith in inr (mul-le-mul_right n more)
]

write_parts :
    (cpu cpu' : Cpu) (slot : ℕ) (row : List ℕ)
    → cpu_write cpu slot row ≡ some cpu'
    → ((slot + 1) * cpu.row_bytes ≤ length cpu.rows)
      × (length row ≡ cpu.row_bytes)
      × (cpu' ≡ record cpu {
        rows = replaced (slot * cpu.row_bytes) cpu.rows row ((slot + 1) * cpu.row_bytes);
      })
unfolding cpu_write
write_parts cpu cpu' slot row h =
    elim (Bool-cases
      (leb ((slot + 1) * cpu.row_bytes) (length cpu.rows) && (length row == cpu.row_bytes))) [
        | inl e ↦
            let new : Cpu = record cpu {
              rows = replaced (slot * cpu.row_bytes) cpu.rows row ((slot + 1) * cpu.row_bytes);
            } in
            let made : some new ≡ some cpu' = rw (cpu_write, e) at h in
            let same : cpu' ≡ new = cc in (ground arith, ground arith, same)
        | inr e ↦ let lost : none ≡ some cpu' = rw (cpu_write, e) at h in cc
      ]

-- A row that was written to a slot is what its slot reads, and every other slot reads what it read
-- before.
pub cpu_read-cpu_write :
    (cpu cpu' : Cpu) (slot : ℕ) (row : List ℕ)
    → cpu_write cpu slot row ≡ some cpu'
    → (cpu_read cpu' slot ≡ some row)
      × ((other : ℕ) → other ≢ slot → cpu_read cpu' other ≡ cpu_read cpu other)
unfolding cpu_read
cpu_read-cpu_write cpu cpu' slot row h =
    let n : ℕ = cpu.row_bytes in
    let (fits, size, same) = write_parts cpu cpu' slot row h in
    let end : slot * n + length row ≡ (slot + 1) * n = omega arith in
    let long = length-replaced (slot * n) cpu.rows row ((slot + 1) * n) end fits in
    let inside : leb ((slot + 1) * n) (length (replaced (slot * n) cpu.rows row ((slot + 1) * n)))
        ≡ true =
      ground (arith, long) in
    let back = window_same (slot * n) cpu.rows row ((slot + 1) * n) end fits in
    rw same (
      rw (cpu_read, inside)
          (ap some (
            ap (λ m. take m (drop (slot * n) (replaced (slot * n) cpu.rows row ((slot + 1) * n))))
              (sym size)
            ∙ back)),
      λ other apart.
          rw (cpu_read, long)
            (elim (Bool-cases (leb ((other + 1) * n) (length cpu.rows))) [
              | inr e ↦ rw e refl
              | inl e ↦ rw e (
                  ap some (
                    window_other (slot * n) cpu.rows row ((slot + 1) * n) end fits n (other * n)
                      (apart_windows slot other n apart)))
            ]),
    )
