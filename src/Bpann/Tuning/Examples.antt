-- ===== src/Bpann/Tuning/Examples.antt =====
-- Runs of the tuning code, and its theorems at concrete tunings.
use ennbo.Prelude.{◌≡◌, refl, ◌↔◌, ok, err, some}
use ennbo.Bpann.Tuning.{
  BpannTuning, validate, default_tuning, hard_flush_below_soft, current_tuning,
}
use ennbo.Bpann.Tuning.Limits.{IsValid, validate_iff-IsValid}

-- A provider's snapshot whose hard threshold is below the soft one.
abbrev reversed : BpannTuning
reversed = record default_tuning {
  pending_flush_threshold = 500;
  pending_hard_flush_threshold = 499;
}

default_is_valid : validate default_tuning ≡ ok tt
unfolding validate
default_is_valid = refl

rejects_hard_below_soft : validate reversed ≡ err hard_flush_below_soft
unfolding validate
rejects_hard_below_soft = refl

falls_back : current_tuning (some reversed) ≡ default_tuning
unfolding current_tuning validate
falls_back = refl

validate_iff-IsValid_example : (validate default_tuning ≡ ok tt) ↔ IsValid default_tuning
validate_iff-IsValid_example = validate_iff-IsValid default_tuning
