-- ===== src/Ennx/Forward/Program/Fused.antt =====
-- Which operation lists make a forward program.
use ennbo.Prelude.{◌≡◌, ◌↔◌, arith, List, [], ◌∷◌, true}
use ennbo.Prelude.{ok, sym}
use mathlib.Core.List.{Memᴰ}
use mathlib.Core.Logic.{if_pos, if_neg}
use ennbo.Ennx.Forward.Program.{ForwardOp, ForwardOp-discrete, contains, new}
use ennbo.Ennx.Forward.Program.{perturb_packed_weights, matmul, reduce_objective, program_version}

contains→Mem : (ops : List ForwardOp) (op : ForwardOp) → contains ops op ≡ true → Memᴰ op ops
unfolding contains
contains→Mem [] op h = cc
contains→Mem (o ∷ ops) op h = elim (ForwardOp-discrete o op) [
  | yes e ↦ Memᴰ.head (sym e)
  | no n ↦ Memᴰ.tail (contains→Mem ops op (rw (if_neg _ n) at h))
]

Mem→contains : (ops : List ForwardOp) (op : ForwardOp) → Memᴰ op ops → contains ops op ≡ true
unfolding contains
Mem→contains [] op m = elim m [ ]
Mem→contains (o ∷ ops) op (Memᴰ.head e) = rw (if_pos _ (sym e))
Mem→contains (o ∷ ops) op (Memᴰ.tail m) = elim (ForwardOp-discrete o op) [
  | yes e ↦ rw (if_pos _ e)
  | no n ↦ rw (if_neg _ n) (Mem→contains ops op m)
]

-- An operation list is accepted exactly when it perturbs the packed weights, multiplies matrices
-- and reduces an objective, and the accepted program keeps the list and has the current version.
pub new_iff :
    (ops : List ForwardOp)
    → (new ops ≡ ok (record { ops = ops; version = program_version }))
      ↔ (Memᴰ perturb_packed_weights ops × Memᴰ matmul ops × Memᴰ reduce_objective ops)
unfolding new
new_iff ops = (
  λ h. (
    contains→Mem ops perturb_packed_weights (ground arith),
    contains→Mem ops matmul (ground arith),
    contains→Mem ops reduce_objective (ground arith),
  ),
  λ m. rw (
    Mem→contains ops perturb_packed_weights m.0,
    Mem→contains ops matmul m.1,
    Mem→contains ops reduce_objective m.2,
  ),
)
