-- ===== src/Ennx/Trials/Perturb/Range.antt =====
-- The range of perturbed codes.
use ennbo.Prelude.{ℕ, ◌+◌, ◌-◌, ◌^◌, ◌≤◌, ◌≡◌, ◌⊎◌, arith, inl, inr, ap}
use ennbo.Ennx.Trials.Perturb.{Step, move_code, perturb, hash}

abbrev pub max_code : Step → ℕ
max_code step = 2 ^ step.bits - 1

-- A step as `make_steps` builds it: 4 or 8 bits, and a whole amount up to the largest code, which
-- leaves no fraction.
pub record IsStep (s : Step) : Type 0 where
  pub bits : (s.bits ≡ 4) ⊎ (s.bits ≡ 8)
  pub whole : s.whole ≤ max_code s
  pub saturated : s.whole ≡ max_code s → s.threshold ≡ 0

move_code_range :
    (code random : ℕ) (s : Step)
    → (m : ℕ) → m ≤ 255
    → 2 ^ s.bits - 1 ≡ m
    → s.whole ≤ m
    → code ≤ m
    → (move_code code random s ≤ m)
      × (move_code code random s ≤ code + s.whole + 1)
      × (code ≤ move_code code random s + s.whole + 1)
unfolding move_code
move_code_range code random s m hm e hw hc = ground arith

by_top :
    (code seed element : ℕ) (s : Step) (m : ℕ)
    → m ≤ 255
    → 2 ^ s.bits - 1 ≡ m
    → s.whole ≤ m
    → code ≤ m
    → (perturb code seed element s ≤ max_code s)
      × (perturb code seed element s ≤ code + s.whole + 1)
      × (code ≤ perturb code seed element s + s.whole + 1)
unfolding perturb
by_top code seed element s m hm e hw hc =
    rw e (move_code_range code (hash seed element) s m hm e hw hc)

-- A code of the step's width is perturbed to a code of that width, and moves by the whole amount
-- plus one at most.
pub perturb_range :
    (code seed element : ℕ) (s : Step)
    → IsStep s
    → code ≤ max_code s
    → (perturb code seed element s ≤ max_code s)
      × (perturb code seed element s ≤ code + s.whole + 1)
      × (code ≤ perturb code seed element s + s.whole + 1)
perturb_range code seed element s v h = elim v.bits [
  | inl e ↦
      let top : 2 ^ s.bits - 1 ≡ 15 = ap (λ b. 2 ^ b - 1) e in
      by_top code seed element s 15 (omega arith) top (omega arith) (omega arith)
  | inr e ↦
      let top : 2 ^ s.bits - 1 ≡ 255 = ap (λ b. 2 ^ b - 1) e in
      by_top code seed element s 255 (omega arith) top (omega arith) (omega arith)
]
