-- ===== src/Ennx/Forward/Moe/Schedule.antt =====
-- The schedule of a decoder layer and its kernel plans.
use ennbo.Prelude.{ℕ, ◌*◌, ◌%◌, ◌^◌, ◌≤◌, ◌≡◌, refl, ap, arith}
use ennbo.Prelude.{List, [], ◌∷◌, ◌++◌, All, map, length, length-map, ok}
use ennbo.Prelude.{bind_parts, ◌∙◌, sym}
use ennbo.Ennx.Forward.Plan.{KernelPlan, wrapping_mul}
use ennbo.Ennx.Forward.Linear.{KdaPackedLinear, PackedAffinePlan, validate_affine}
use ennbo.Ennx.Forward.Kda.{
  KdaForwardRequest, new_encoder, encode_kda, validate_request, expected_qkv,
}
use ennbo.Ennx.Forward.Kda.{projection_dispatch_threads, recurrence_dispatch_threads, qkv_elements}
use ennbo.Ennx.Forward.Moe.{KdaMoeLayerRequest, validate_layer, encode, kernel_plans, tokens_of}
use ennbo.Ennx.Forward.Moe.{
  hidden_elements, expert_activation_elements, validate_affines, collect_plans,
}
use ennbo.Ennx.Forward.Moe.{KdaMoeDispatch, attention_norm_pass, kda_pass, attention_residual}
use ennbo.Ennx.Forward.Moe.{
  moe_norm_pass, route_experts, expert_gate_up, expert_down_pass, moe_residual,
}
use ennbo.Ennx.Forward.Moe.Valid.{validate_layer_iff-IsLayer, validate_request_iff}
use ennbo.Ennx.Forward.Launch.{IsLaunchable, items_of, threads_of}
use ennbo.Ennx.Forward.Launch.{collect_plans-IsLaunchable}

-- The width of the first expert.
abbrev pub first_width : List KdaPackedLinear → ℕ
first_width [] = 0
first_width (g ∷ gs) = g.output_width

-- The threads of the ten passes, each product modulo 2^64.
abbrev pub pass_threads : KdaMoeLayerRequest → List ℕ
pass_threads r =
    let t = r.kda.tensor in
    let tokens = t.batch * t.sequence_length % 2 ^ 64 in
    let hidden = tokens * r.kda.qkv.input_width % 2 ^ 64 in
    tokens
    ∷ (tokens * (3 * t.heads % 2 ^ 64 * t.key_width % 2 ^ 64) % 2 ^ 64)
    ∷ (tokens * t.heads % 2 ^ 64 * t.key_width % 2 ^ 64)
    ∷ (t.batch * t.heads % 2 ^ 64 * t.value_width % 2 ^ 64)
    ∷ hidden
    ∷ tokens
    ∷ tokens
    ∷ (tokens * r.top_k % 2 ^ 64 * first_width r.expert_gate % 2 ^ 64)
    ∷ hidden
    ∷ hidden
    ∷ []

activation_ok :
    (r : KdaMoeLayerRequest)
    → 1 ≤ length r.expert_gate
    → expert_activation_elements r
      ≡ ok (wrapping_mul (wrapping_mul (tokens_of r) r.top_k) (first_width r.expert_gate))
unfolding expert_activation_elements
activation_ok r h = ground arith

encoder_ok : (r : KdaForwardRequest) → validate_request r ≡ ok tt → new_encoder r ≡ ok r
unfolding new_encoder
encoder_ok r h = rw h

-- The ten passes of an accepted layer.
pub passes : KdaMoeLayerRequest → List KdaMoeDispatch
passes r =
    let tokens = tokens_of r in
    let hidden = hidden_elements r in
    attention_norm_pass tokens
    ∷ kda_pass (encode_kda r.kda).0
    ∷ kda_pass (encode_kda r.kda).1
    ∷ kda_pass (encode_kda r.kda).2
    ∷ attention_residual hidden
    ∷ moe_norm_pass tokens
    ∷ route_experts tokens
    ∷ expert_gate_up (wrapping_mul (wrapping_mul tokens r.top_k) (first_width r.expert_gate))
    ∷ expert_down_pass hidden
    ∷ moe_residual hidden
    ∷ []

pub encode-passes : (r : KdaMoeLayerRequest) → validate_layer r ≡ ok tt → encode r ≡ ok (passes r)
unfolding encode passes
encode-passes r h =
    let v = (validate_layer_iff-IsLayer r).0 h in
    rw (
      h,
      encoder_ok r.kda ((validate_request_iff r.kda).1 v.request),
      activation_ok r v.some_expert,
    )

pub passes-threads : (r : KdaMoeLayerRequest) → map threads_of (passes r) ≡ pass_threads r
unfolding passes encode_kda projection_dispatch_threads recurrence_dispatch_threads qkv_elements
    expected_qkv hidden_elements tokens_of
passes-threads r = refl

-- Once `validate` accepts a layer, `encode` neither fails nor panics: it returns the ten passes,
-- with the threads of the layer's products modulo 2^64.
pub encode_total :
    (r : KdaMoeLayerRequest)
    → validate_layer r ≡ ok tt
    → (ds : List KdaMoeDispatch) × (encode r ≡ ok ds) × (map threads_of ds ≡ pass_threads r)
encode_total r h = (passes r, encode-passes r h, passes-threads r)

length-map_eq :
    {A B : Type 0} (f : A → ℕ) (g : B → ℕ) (xs : List A) (ys : List B)
    → map f xs ≡ map g ys
    → length xs ≡ length ys
length-map_eq f g xs ys e = sym (length-map xs f) ∙ (ap length e ∙ length-map ys g)

-- Whatever the layer and the schedule, when `kernel_plans` returns plans there are ten of them,
-- each with a positive grid, positive threads in a group and positive tiles, and their grids have
-- the passes' threads modulo 2^64, in order; the layer was accepted by `validate`.
pub kernel_plans-IsLaunchable :
    (r : KdaMoeLayerRequest) (a : PackedAffinePlan) (ps : List KernelPlan)
    → kernel_plans r a ≡ ok ps
    → (validate_layer r ≡ ok tt)
      × (length ps ≡ 10)
      × All IsLaunchable ps
      × (map items_of ps ≡ pass_threads r)
unfolding kernel_plans
kernel_plans-IsLaunchable r a ps h =
    let (u1, e1, h1) = bind_parts (validate_layer r) _ h in
    let (u2, e2, h2) = bind_parts (validate_affine a r.kda.qkv) _ h1 in
    let (u3, e3, h3) = bind_parts (validate_affine a r.router) _ h2 in
    let (u4, e4, h4) =
      bind_parts (validate_affines a (r.expert_gate ++ (r.expert_up ++ r.expert_down))) _ h3 in
    let made : collect_plans a (passes r) ≡ ok ps = rw (encode-passes r e1) at h4 in
    let (launch, items) = collect_plans-IsLaunchable a (passes r) made in
    (
      e1,
      length-map_eq items_of threads_of ps (passes r) items ∙ unfold passes in refl,
      launch,
      items ∙ passes-threads r,
    )
