-- ===== src/Ennx/Forward/Moe/Complete.antt =====
-- When `kernel_plans` succeeds.
use ennbo.Prelude.{ℕ, ◌*◌, ◌%◌, ◌^◌, ◌≤◌, ◌<◌, ◌≡◌, refl, arith, ◌∙◌}
use ennbo.Prelude.{List, [], ◌∷◌, ◌++◌, All, map, ok}
use ennbo.Ennx.Forward.Plan.{KernelPlan}
use ennbo.Ennx.Forward.Linear.{KdaPackedLinear, PackedAffinePlan}
use ennbo.Ennx.Forward.Linear.Sizes.{IsAffine, validate_affine_iff}
use ennbo.Ennx.Forward.Moe.{KdaMoeLayerRequest, validate_layer, kernel_plans, validate_affines}
use ennbo.Ennx.Forward.Moe.{KdaMoeDispatch}
use ennbo.Ennx.Forward.Moe.Schedule.{
  first_width, pass_threads, passes, encode-passes, passes-threads,
}
use ennbo.Ennx.Forward.Launch.{items_of, threads_of, HasThreads, collect_plans-ok}
use ennbo.Ennx.Forward.Launch.{collect_plans-IsLaunchable}

-- The products of the layer as they are meant, with no reduction.
abbrev pub exact_threads : KdaMoeLayerRequest → List ℕ
exact_threads r =
    let t = r.kda.tensor in
    let tokens = t.batch * t.sequence_length in
    let hidden = tokens * r.kda.qkv.input_width in
    tokens
    ∷ (tokens * (3 * t.heads * t.key_width))
    ∷ (tokens * t.heads * t.key_width)
    ∷ (t.batch * t.heads * t.value_width)
    ∷ hidden
    ∷ tokens
    ∷ tokens
    ∷ (tokens * r.top_k * first_width r.expert_gate)
    ∷ hidden
    ∷ hidden
    ∷ []

-- No dimension of the layer is zero, and its largest products fit 64 bits.
pub record Fits (r : KdaMoeLayerRequest) : Type 0 where
  pub batch : 1 ≤ r.kda.tensor.batch
  pub sequence : 1 ≤ r.kda.tensor.sequence_length
  pub heads : 1 ≤ r.kda.tensor.heads
  pub keys : 1 ≤ r.kda.tensor.key_width
  pub values : 1 ≤ r.kda.tensor.value_width
  pub hidden : 1 ≤ r.kda.qkv.input_width
  pub top_k : 1 ≤ r.top_k
  pub width : 1 ≤ first_width r.expert_gate
  pub hidden_fits :
      r.kda.tensor.batch * r.kda.tensor.sequence_length * r.kda.qkv.input_width < 2 ^ 64
  pub qkv_fits :
      r.kda.tensor.batch
        * r.kda.tensor.sequence_length
        * (3 * r.kda.tensor.heads * r.kda.tensor.key_width)
      < 2 ^ 64
  pub state_fits : r.kda.tensor.batch * r.kda.tensor.heads * r.kda.tensor.value_width < 2 ^ 64
  pub experts_fit :
      r.kda.tensor.batch * r.kda.tensor.sequence_length * r.top_k * first_width r.expert_gate
      < 2 ^ 64

pos_mul : (a b : ℕ) → 1 ≤ a → 1 ≤ b → 1 ≤ a * b
pos_mul a b h k = grind arith

le_left : (a b : ℕ) → 1 ≤ b → a ≤ a * b
le_left a b h = grind arith

le_right : (a b : ℕ) → 1 ≤ a → b ≤ a * b
le_right a b h = grind arith

small : (a b : ℕ) → a ≤ b → b < 2 ^ 64 → a % 2 ^ 64 ≡ a
small a b h k = omega arith

-- `x * y * z` in wrapping arithmetic, where the product fits.
three : (x y z : ℕ) → 1 ≤ z → x * y * z < 2 ^ 64 → x * y % 2 ^ 64 * z % 2 ^ 64 ≡ x * y * z
three x y z hz h =
    rw (small (x * y) (x * y * z) (le_left (x * y) z hz) h)
      (small (x * y * z) (x * y * z) (omega arith) h)

threads_exact : (r : KdaMoeLayerRequest) → Fits r → pass_threads r ≡ exact_threads r
threads_exact r f =
    let b = r.kda.tensor.batch in
    let h = r.kda.tensor.heads in
    let k = r.kda.tensor.key_width in
    let v = r.kda.tensor.value_width in
    let tokens = r.kda.tensor.batch * r.kda.tensor.sequence_length in
    let hidden = r.kda.qkv.input_width in
    let width = first_width r.expert_gate in
    let one : 1 ≤ tokens = pos_mul b r.kda.tensor.sequence_length f.batch f.sequence in
    let qkv : 3 * h * k < 2 ^ 64 = omega (arith, le_right tokens (3 * h * k) one, f.qkv_fits) in
    let split : tokens * h * k < 2 ^ 64 = omega (arith, f.qkv_fits) in
    rw (
      small tokens (tokens * hidden) (le_left tokens hidden f.hidden) f.hidden_fits,
      three 3 h k f.keys qkv,
      small (tokens * (3 * h * k)) (tokens * (3 * h * k)) (omega arith) f.qkv_fits,
      three tokens h k f.keys split,
      three b h v f.values f.state_fits,
      small (tokens * hidden) (tokens * hidden) (omega arith) f.hidden_fits,
      three tokens r.top_k width f.width f.experts_fit,
    )

exact_pos : (r : KdaMoeLayerRequest) → Fits r → All (λ n. 1 ≤ n) (exact_threads r)
exact_pos r f =
    let t = r.kda.tensor in
    let one : 1 ≤ t.batch * t.sequence_length = pos_mul _ _ f.batch f.sequence in
    let hidden = pos_mul _ r.kda.qkv.input_width one f.hidden in
    let keys = pos_mul (3 * t.heads) t.key_width (omega (arith, f.heads)) f.keys in
    (
      one,
      (
        pos_mul _ _ one keys,
        (
          pos_mul _ _ (pos_mul _ _ one f.heads) f.keys,
          (
            pos_mul _ _ (pos_mul _ _ f.batch f.heads) f.values,
            (
              hidden,
              (one, (one, (pos_mul _ _ (pos_mul _ _ one f.top_k) f.width, (hidden, (hidden, tt))))),
            ),
          ),
        ),
      ),
    )

All-map : (xs : List KdaMoeDispatch) → All (λ n. 1 ≤ n) (map threads_of xs) → All HasThreads xs
All-map [] h = tt
All-map (x ∷ xs) h = (h.0, All-map xs h.1)

-- `validate_affines` accepts a list whose layers it accepts one by one.
validate_affines_ok :
    (a : PackedAffinePlan) (ls : List KdaPackedLinear)
    → All (IsAffine a) ls
    → validate_affines a ls ≡ ok tt
unfolding validate_affines
validate_affines_ok a [] h = refl
validate_affines_ok a (l ∷ ls) h =
    rw ((validate_affine_iff a l).1 h.0) (validate_affines_ok a ls h.1)

-- For a layer that `validate` accepts, a schedule that suits all its packed layers, dimensions that
-- are not zero and products that fit 64 bits, `kernel_plans` succeeds, and the plans' grids have
-- exactly the products that the layer means.
pub kernel_plans_total :
    (r : KdaMoeLayerRequest) (a : PackedAffinePlan)
    → validate_layer r ≡ ok tt
    → IsAffine a r.kda.qkv
    → IsAffine a r.router
    → All (IsAffine a) (r.expert_gate ++ (r.expert_up ++ r.expert_down))
    → Fits r
    → (ps : List KernelPlan) × (kernel_plans r a ≡ ok ps) × (map items_of ps ≡ exact_threads r)
kernel_plans_total r a v q o e f =
    let threads : map threads_of (passes r) ≡ exact_threads r =
      passes-threads r ∙ threads_exact r f in
    let pos : All HasThreads (passes r) = All-map (passes r) (rw threads (exact_pos r f)) in
    let (ps, made) = collect_plans-ok a (passes r) (q.tokens, q.outputs, q.inputs, q.threads) pos in
    (
      ps,
      unfold kernel_plans in
          rw
            (
              v,
              (validate_affine_iff a r.kda.qkv).1 q,
              (validate_affine_iff a r.router).1 o,
              validate_affines_ok a (r.expert_gate ++ (r.expert_up ++ r.expert_down)) e,
              encode-passes r v,
            )
            made,
      (collect_plans-IsLaunchable a (passes r) made).1 ∙ threads,
    )
