-- ===== src/Prelude/Ranges.antt =====
-- Intervals of numbers.
use Prim.Native.Nat.{ℕ, zero, suc, ◌+◌}
use mathlib.Core.Path.{◌≡◌, refl, ap, ap₂, ◌∙◌}
use mathlib.Core.List.{List, [], ◌∷◌, ◌++◌}
use native.Mathlib.Omega.{arith}
use ennbo.Prelude.Lists.{length}

-- `start..start + n`
abbrev pub range : ℕ → ℕ → List ℕ
range start zero = []
range start (suc n) = start ∷ range (start + 1) n

pub length-range : (start n : ℕ) → length (range start n) ≡ n
length-range start zero = refl
length-range start (suc n) = ap suc (length-range (start + 1) n)

pub range-append : (start n m : ℕ) → range start n ++ range (start + n) m ≡ range start (n + m)
range-append start zero m = ap₂ range (omega arith) (omega arith)
range-append start (suc n) m =
    let shift : start + suc n ≡ start + 1 + n = omega arith in
    let total : suc (n + m) ≡ suc n + m = omega arith in
    ap (λ t. start ∷ t)
      (ap (λ s. range (start + 1) n ++ range s m) shift ∙ range-append (start + 1) n m)
    ∙ ap (range start) total
