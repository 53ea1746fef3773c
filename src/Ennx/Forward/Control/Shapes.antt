-- ===== src/Ennx/Forward/Control/Shapes.antt =====
-- What `KdaControlRequest::validate` accepts.
use ennbo.Prelude.{ℕ, ◌+◌, ◌*◌, ◌%◌, ◌^◌, ◌≡◌, ◌↔◌, arith, List, [], ◌∷◌, All, ok, checks_ok}
use ennbo.Ennx.Forward.Linear.{KdaPackedLinear, validate_linears}
use ennbo.Ennx.Forward.Linear.Sizes.{IsLinear, validate_linears_iff}
use ennbo.Ennx.Forward.Kda.{KdaTensorLayout}
use ennbo.Ennx.Forward.Control.{KdaControlRequest, validate_control}

-- The shapes of a complete attention update over `heads * value_width` channels; products and the
-- sum are modulo 2^64.
pub record IsControl (r : KdaControlRequest) (t : KdaTensorLayout) (hidden : ℕ) : Type 0 where
  pub conv_taps : (r.qkv_conv.input_width ≡ 4) × (r.qkv_conv.group_size ≡ 4)
  pub conv_int8 : r.qkv_conv.bits ≡ 8
  pub conv_channels : r.qkv_conv.output_width ≡ 3 * (t.heads * t.value_width % 2 ^ 64) % 2 ^ 64
  pub control_in : r.control.input_width ≡ hidden
  pub control_out : r.control.output_width ≡ (2 * r.gate_rank % 2 ^ 64 + t.heads) % 2 ^ 64
  pub forget_in : r.forget.input_width ≡ r.gate_rank
  pub forget_out : r.forget.output_width ≡ t.heads * t.value_width % 2 ^ 64
  pub gate_in : r.output_gate.input_width ≡ r.gate_rank
  pub gate_out : r.output_gate.output_width ≡ t.heads * t.value_width % 2 ^ 64
  pub output_in : r.output.input_width ≡ t.heads * t.value_width % 2 ^ 64
  pub output_out : r.output.output_width ≡ hidden
  pub decay_shape : (r.decay.input_width ≡ t.heads) × (r.decay.output_width ≡ 1)
  pub bias_shape :
      (r.time_bias.input_width ≡ t.heads * t.value_width % 2 ^ 64) × (r.time_bias.output_width ≡ 1)
  pub norm_shape : (r.output_norm.input_width ≡ t.value_width) × (r.output_norm.output_width ≡ 1)

-- The eight packed layers of the request.
abbrev pub linears_of : KdaControlRequest → List KdaPackedLinear
linears_of r =
    r.qkv_conv ∷ r.control ∷ r.forget ∷ r.output_gate ∷ r.decay ∷ r.time_bias ∷ r.output_norm
    ∷ r.output ∷ []

-- `KdaControlRequest::validate` accepts a request exactly when its eight packed layers are valid
-- and have the shapes of the attention update.
pub validate_control_iff-IsControl :
    (r : KdaControlRequest) (t : KdaTensorLayout) (hidden : ℕ)
    → (validate_control r t hidden ≡ ok tt) ↔ (All IsLinear (linears_of r) × IsControl r t hidden)
unfolding validate_control
validate_control_iff-IsControl r t hidden = (λ h. there h, λ w. back w)
  where
    there : validate_control r t hidden ≡ ok tt → All IsLinear (linears_of r) × IsControl r t hidden
    there h =
        let (e, _) = checks_ok (validate_linears (linears_of r)) _ h in
        ((validate_linears_iff (linears_of r)).0 e, ground arith)

    back : All IsLinear (linears_of r) × IsControl r t hidden → validate_control r t hidden ≡ ok tt
    back (v, w) = rw ((validate_linears_iff (linears_of r)).1 v) (ground arith)
