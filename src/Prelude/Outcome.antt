-- ===== src/Prelude/Outcome.antt =====
-- Rust's `Result`, with the error type of the component.
use mathlib.Core.Path.{◌≡◌, refl}
use mathlib.Core.Bool.{Bool, true, false}
use mathlib.Core.Logic.{◌⊎◌, inl, inr}
use mathlib.Core.Option.{Option, none, some}

-- Rust lists `Ok` first; the order of the constructors has no meaning here.
pub data Result {ℓ} (E : Type 0) (A : Type ℓ) : Type ℓ where
  err : E → Result E A
  ok : A → Result E A

-- The operator `?`: the first error leaves the function.
infixl 5 ◌>>=◌ ◌>>◌
abbrev pub ◌>>=◌ {ℓ κ} :
    {E : Type 0} {A : Type ℓ} {B : Type κ} → Result E A → (A → Result E B) → Result E B
err e >>= rest = err e
ok a >>= rest = rest a

-- `?` on a result whose value is `()`.
abbrev pub ◌>>◌ {κ} : {E : Type 0} {B : Type κ} → Result E (Unit {0}) → Result E B → Result E B
step >> rest = step >>= (λ done. rest)

-- `if bad { return Err(e) }`
abbrev pub fail_if : {E : Type 0} → Bool → E → Result E (Unit {0})
fail_if true e = err e
fail_if false e = ok tt

abbrev pub map_err {ℓ} : {E F : Type 0} {A : Type ℓ} → (E → F) → Result E A → Result F A
map_err f (ok a) = ok a
map_err f (err e) = err (f e)

pub Result-cases {ℓ} :
    {E : Type 0} {A : Type ℓ} (r : Result E A) → ((a : A) × (r ≡ ok a)) ⊎ ((e : E) × (r ≡ err e))
Result-cases (err e) = inr (e, refl)
Result-cases (ok a) = inl (a, refl)

-- A function that returns `Ok` has passed its first `?`.
pub bind_parts {κ ℓ} :
    {E : Type 0} {B : Type κ} {b : B} {A : Type ℓ} (step : Result E A) (rest : A → Result E B)
    → (step >>= rest) ≡ ok b
    → (value : A) × (step ≡ ok value) × (rest value ≡ ok b)
bind_parts (err e) rest done = cc
bind_parts (ok a) rest done = (a, refl, done)

-- A chain of checks succeeds exactly when each of its parts does.
module _ {E : Type 0} where
  pub checks_ok : (m k : Result E (Unit {0})) → (m >> k) ≡ ok tt → (m ≡ ok tt) × (k ≡ ok tt)
  checks_ok (ok u) k h = (refl, h)
  checks_ok (err e) k h = cc

  pub ok_checks : (m k : Result E (Unit {0})) → m ≡ ok tt → k ≡ ok tt → (m >> k) ≡ ok tt
  ok_checks m k e h = rw (e, h)

  -- What stands after checks that were passed.
  pub checked_value {ℓ} :
      {A : Type ℓ} (m : Result E (Unit {0})) (rest : Result E A) (a : A)
      → (m >> rest) ≡ ok a
      → (m ≡ ok tt) × (rest ≡ ok a)
  checked_value (ok u) rest a h = (refl, h)
  checked_value (err e) rest a h = cc

  pub ok_inj {ℓ} : {A : Type ℓ} (a b : A) → ◌≡◌ {A = Result E A} (ok a) (ok b) → a ≡ b
  ok_inj a b h = cc

  pub passed : (b : Bool) (e : E) → fail_if b e ≡ ok tt → b ≡ false
  passed true e h = cc
  passed false e h = refl

  pub pass : (b : Bool) (e : E) → b ≡ false → fail_if b e ≡ ok tt
  pass b e h = rw h

-- `?` on an `Option`.
infixl 5 ◌>>?◌
abbrev pub ◌>>?◌ {ℓ κ} : {A : Type ℓ} {B : Type κ} → Option A → (A → Option B) → Option B
none >>? rest = none
some a >>? rest = rest a
