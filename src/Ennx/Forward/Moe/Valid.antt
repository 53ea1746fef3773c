-- ===== src/Ennx/Forward/Moe/Valid.antt =====
-- What `KdaForwardRequest::validate` and `KdaMoeLayerRequest::validate` accept.
use native.Mathlib.Nat.{add-mul, mul_assoc, add-mul-mod_self_left}
use ennbo.Prelude.{ℕ, ◌+◌, ◌*◌, ◌/◌, ◌%◌, ◌^◌, ap, sym, ◌∙◌, ◌≤◌, ◌≡◌, refl, ◌↔◌, arith}
use ennbo.Prelude.{List, [], ◌∷◌, length, ok, true, false}
use ennbo.Prelude.{checks_ok}
use ennbo.Ennx.Float.{is_finite, le_zero}
use ennbo.Ennx.Forward.Linear.{KdaPackedLinear, validate_linear, validate_linears}
use ennbo.Ennx.Forward.Linear.Sizes.{IsLinear, validate_linear_iff, validate_linears_iff}
use ennbo.Ennx.Forward.Kda.{KdaForwardRequest, validate_request, expected_qkv}
use ennbo.Ennx.Forward.Moe.{KdaMoeLayerRequest, validate_layer, validate_experts}

-- Reducing a factor does not change the product modulo 2^64.
mod_factor : (a b : ℕ) → a % 2 ^ 64 * b % 2 ^ 64 ≡ a * b % 2 ^ 64
mod_factor a b =
    let split : a ≡ a % 2 ^ 64 + 2 ^ 64 * (a / 2 ^ 64) = omega arith in
    let product : a * b ≡ a % 2 ^ 64 * b + 2 ^ 64 * (a / 2 ^ 64 * b) =
      ap (λ t. t * b) split
      ∙ add-mul (a % 2 ^ 64) (2 ^ 64 * (a / 2 ^ 64)) b
      ∙ ap (λ t. a % 2 ^ 64 * b + t) (mul_assoc (2 ^ 64) (a / 2 ^ 64) b) in
    sym (
      ap (λ t. t % 2 ^ 64) product
      ∙ add-mul-mod_self_left (a % 2 ^ 64 * b) (2 ^ 64) (a / 2 ^ 64 * b))

-- The width of the projection to queries, keys and values.
abbrev pub qkv_total : KdaForwardRequest → ℕ
qkv_total r = 3 * r.tensor.heads * r.tensor.key_width % 2 ^ 64

expected_qkv-total : (r : KdaForwardRequest) → expected_qkv r ≡ qkv_total r
unfolding expected_qkv
expected_qkv-total r = mod_factor (3 * r.tensor.heads) r.tensor.key_width

pub record IsRequest (r : KdaForwardRequest) : Type 0 where
  pub qkv : IsLinear r.qkv
  pub control : IsLinear r.control
  pub output : IsLinear r.output
  pub same_input : r.qkv.input_width ≡ r.output.input_width
  pub qkv_width : r.qkv.output_width ≡ qkv_total r

pub validate_request_iff : (r : KdaForwardRequest) → (validate_request r ≡ ok tt) ↔ IsRequest r
unfolding validate_request
validate_request_iff r = (λ h. there h, λ w. back w)
  where
    there : validate_request r ≡ ok tt → IsRequest r
    there h =
        let (e, _) = checks_ok (validate_linears (r.qkv ∷ r.control ∷ r.output ∷ [])) _ h in
        let v = (validate_linears_iff (r.qkv ∷ r.control ∷ r.output ∷ [])).0 e in
        ground (arith, expected_qkv-total r)

    back : IsRequest r → validate_request r ≡ ok tt
    back w =
        rw
          ((validate_linears_iff (r.qkv ∷ r.control ∷ r.output ∷ [])).1
            (w.qkv, (w.control, (w.output, tt))))
          (ground (arith, expected_qkv-total r))

-- One expert: three packed layers, from the hidden width to the expert's and back.
pub record IsExpert (hidden : ℕ) (gate up down : KdaPackedLinear) : Type 0 where
  pub gate_linear : IsLinear gate
  pub up_linear : IsLinear up
  pub down_linear : IsLinear down
  pub gate_input : gate.input_width ≡ hidden
  pub up_input : up.input_width ≡ hidden
  pub expert_width : gate.output_width ≡ up.output_width
  pub down_input : down.input_width ≡ gate.output_width
  pub down_output : down.output_width ≡ hidden

-- As many experts as the shortest of the three lists has.
abbrev pub AreExperts :
    ℕ → List KdaPackedLinear → List KdaPackedLinear → List KdaPackedLinear → Type 0
AreExperts hidden (g ∷ gs) (u ∷ us) (d ∷ ds) = IsExpert hidden g u d × AreExperts hidden gs us ds
AreExperts hidden _ _ _ = Unit {0}

one-IsExpert :
    (hidden : ℕ) (g u d : KdaPackedLinear) (gs us ds : List KdaPackedLinear)
    → (validate_experts hidden (g ∷ gs) (u ∷ us) (d ∷ ds) ≡ ok tt)
      ↔ (IsExpert hidden g u d × (validate_experts hidden gs us ds ≡ ok tt))
unfolding validate_experts
one-IsExpert hidden g u d gs us ds = (λ h. there h, λ w. back w)
  where
    there :
        validate_experts hidden (g ∷ gs) (u ∷ us) (d ∷ ds) ≡ ok tt
        → IsExpert hidden g u d × (validate_experts hidden gs us ds ≡ ok tt)
    there h =
        let (eg, h1) = checks_ok (validate_linear g) _ h in
        let (eu, h2) = checks_ok (validate_linear u) _ h1 in
        let (ed, h3) = checks_ok (validate_linear d) _ h2 in
        let vg = (validate_linear_iff g).0 eg in
        let vu = (validate_linear_iff u).0 eu in
        let vd = (validate_linear_iff d).0 ed in ground arith

    back :
        IsExpert hidden g u d × (validate_experts hidden gs us ds ≡ ok tt)
        → validate_experts hidden (g ∷ gs) (u ∷ us) (d ∷ ds) ≡ ok tt
    back (w, h) =
        rw
          (
            (validate_linear_iff g).1 w.gate_linear,
            (validate_linear_iff u).1 w.up_linear,
            (validate_linear_iff d).1 w.down_linear,
          )
          (ground arith)

pub validate_experts_iff :
    (hidden : ℕ) (gs us ds : List KdaPackedLinear)
    → (validate_experts hidden gs us ds ≡ ok tt) ↔ AreExperts hidden gs us ds
validate_experts_iff hidden (g ∷ gs) (u ∷ us) (d ∷ ds) =
    let first = one-IsExpert hidden g u d gs us ds in
    let rest = validate_experts_iff hidden gs us ds in
    (λ h. ((first.0 h).0, rest.0 (first.0 h).1), λ w. first.1 (w.0, rest.1 w.1))
validate_experts_iff hidden [] us ds = (λ h. tt, λ w. unfold validate_experts in refl)
validate_experts_iff hidden (g ∷ gs) [] ds = (λ h. tt, λ w. unfold validate_experts in refl)
validate_experts_iff hidden (g ∷ gs) (u ∷ us) [] = (λ h. tt, λ w. unfold validate_experts in refl)

-- A layer whose descriptors fit together.
pub record IsLayer (r : KdaMoeLayerRequest) : Type 0 where
  pub request : IsRequest r.kda
  pub attention_linear : IsLinear r.attention_norm
  pub moe_linear : IsLinear r.moe_norm
  pub router_linear : IsLinear r.router
  pub attention_input : r.attention_norm.input_width ≡ r.kda.qkv.input_width
  pub attention_output : r.attention_norm.output_width ≡ 1
  pub moe_input : r.moe_norm.input_width ≡ r.kda.qkv.input_width
  pub moe_output : r.moe_norm.output_width ≡ 1
  pub some_expert : 1 ≤ length r.expert_gate
  pub as_many_up : length r.expert_up ≡ length r.expert_gate
  pub as_many_down : length r.expert_down ≡ length r.expert_gate
  pub top_k_pos : 1 ≤ r.top_k
  pub top_k_experts : r.top_k ≤ length r.expert_gate
  pub top_k_eight : r.top_k ≤ 8
  pub scale_finite : is_finite r.residual_scale ≡ true
  pub epsilon_finite : is_finite r.rms_epsilon ≡ true
  pub epsilon_positive : le_zero r.rms_epsilon ≡ false
  pub router_input : r.router.input_width ≡ r.kda.qkv.input_width
  pub router_output : r.router.output_width ≡ length r.expert_gate
  pub experts : AreExperts r.kda.qkv.input_width r.expert_gate r.expert_up r.expert_down

abbrev norms : KdaMoeLayerRequest → List KdaPackedLinear
norms r = r.attention_norm ∷ r.moe_norm ∷ r.router ∷ []

IsLayer-there : (r : KdaMoeLayerRequest) → validate_layer r ≡ ok tt → IsLayer r
unfolding validate_layer
IsLayer-there r h =
    let (e1, h1) = checks_ok (validate_request r.kda) _ h in
    let (e2, h2) = checks_ok (validate_linears (norms r)) _ h1 in
    let v1 = (validate_request_iff r.kda).0 e1 in
    let v2 = (validate_linears_iff (norms r)).0 e2 in
    ground (
      arith,
      (validate_experts_iff r.kda.qkv.input_width r.expert_gate r.expert_up r.expert_down).0,
    )

IsLayer-back : (r : KdaMoeLayerRequest) → IsLayer r → validate_layer r ≡ ok tt
unfolding validate_layer
IsLayer-back r w =
    rw
      (
        (validate_request_iff r.kda).1 w.request,
        (validate_linears_iff (norms r)).1
            (w.attention_linear, (w.moe_linear, (w.router_linear, tt))),
        (validate_experts_iff _ _ _ _).1 w.experts,
      )
      (ground arith)

-- `KdaMoeLayerRequest::validate` accepts a layer exactly when every projection is a valid packed
-- layer, the input widths of the attention's two projections, the norms, the router and the experts
-- are the hidden width, the width of queries, keys and values is three times the heads' keys modulo
-- 2^64, the norms have one output, the router one for each expert, the widths inside an expert fit,
-- there are as many experts in each list and 1 ≤ top_k ≤ min(experts, 8), and the two numeric
-- parameters are finite with a positive epsilon. It does not look at the output width of the
-- attention nor at the shape of the control layer.
pub validate_layer_iff-IsLayer : (r : KdaMoeLayerRequest) → (validate_layer r ≡ ok tt) ↔ IsLayer r
validate_layer_iff-IsLayer r = (IsLayer-there r, IsLayer-back r)
