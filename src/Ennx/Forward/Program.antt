-- ===== src/Ennx/Forward/Program.antt =====
-- `ForwardOp` and `ForwardProgram` of forward_program.rs.
pub mod Fused
use ennbo.Prelude.{ℕ, Bool, true, false, not, List, [], ◌∷◌}
use ennbo.Prelude.{Result, ok, ◌>>◌, fail_if}
use mathlib.Core.Logic.{ite}

pub data ForwardOp : Type 0 where
  embedding_lookup perturb_packed_weights dequantize matmul kda_state_update : ForwardOp
  route_experts activation normalize residual reduce_objective : ForwardOp

pub ForwardOp-discrete : Discrete ForwardOp
ForwardOp-discrete = hlevel

pub data ProgramError : Type 0 where
  no_perturb no_matmul no_objective : ProgramError

pub record ForwardProgram : Type 0 where
  pub ops : List ForwardOp
  pub version : ℕ

abbrev pub program_version : ℕ
program_version = 1

-- `ops.contains(&op)`
unfoldable pub contains : List ForwardOp → ForwardOp → Bool
contains [] op = false
contains (o ∷ ops) op = ite (ForwardOp-discrete o op) true (contains ops op)

unfoldable pub new : List ForwardOp → Result ProgramError ForwardProgram
new ops = do
  fail_if (not (contains ops perturb_packed_weights)) no_perturb
  fail_if (not (contains ops matmul)) no_matmul
  fail_if (not (contains ops reduce_objective)) no_objective
  ok (record { ops = ops; version = program_version })

abbrev pub kda_ops : List ForwardOp
kda_ops =
    embedding_lookup ∷ perturb_packed_weights ∷ dequantize ∷ matmul ∷ kda_state_update ∷ activation
    ∷ residual ∷ reduce_objective ∷ []

unfoldable pub kda : Result ProgramError ForwardProgram
unfolding new contains
kda = new kda_ops
