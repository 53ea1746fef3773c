-- ===== src/Ennx/Tracker/Maximum.antt =====
-- The noiseless branch of `tell` and the indices of the greatest value.
use ennbo.Prelude.{ℕ, ◌≤◌, ◌<◌, ◌≡◌, refl, sym, ap, ◌∙◌, arith, max, ◌==◌}
use ennbo.Prelude.{true, false, Bool-cases, inl, inr, ltb}
use ennbo.Prelude.{List, [], ◌∷◌, ◌++◌, append-nil}
use ennbo.Float64.{f64_lt, f64_eq, is_nan64, order_key64}
use ennbo.Ennx.Tracker.{IncrementalIncumbentTracker, tell_max}
use ennbo.Ennx.Tracker.Spec.{
  best_key, with_key, maxima, IsMaxOf, with_key_above, best_key-append, with_key-append,
}

module _ (t : IncrementalIncumbentTracker) (index value : ℕ) where
  abbrev started : IncrementalIncumbentTracker
  started = record t { max_y = value; max_indices = index ∷ []; max_initialized = true }

  abbrev extended : IncrementalIncumbentTracker
  extended = record t { max_indices = t.max_indices ++ (index ∷ []) }

  tell_max_first : t.max_initialized ≡ false → tell_max t index value ≡ started
  unfolding tell_max
  tell_max_first h = simp (tell_max, h)

  tell_max_above :
      t.max_initialized ≡ true → f64_lt t.max_y value ≡ true → tell_max t index value ≡ started
  unfolding tell_max
  tell_max_above h k = simp (tell_max, h, k)

  tell_max_equal :
      t.max_initialized ≡ true
      → f64_lt t.max_y value ≡ false
      → f64_eq value t.max_y ≡ true
      → tell_max t index value ≡ extended
  unfolding tell_max
  tell_max_equal h k l = simp (tell_max, h, k, l)

  tell_max_below :
      t.max_initialized ≡ true
      → f64_lt t.max_y value ≡ false
      → f64_eq value t.max_y ≡ false
      → tell_max t index value ≡ t
  unfolding tell_max
  tell_max_below h k l = simp (tell_max, h, k, l)

lt_keys :
    (x y : ℕ)
    → is_nan64 x ≡ false
    → is_nan64 y ≡ false
    → f64_lt x y ≡ ltb (order_key64 x) (order_key64 y)
unfolding f64_lt
lt_keys x y h k = rw (f64_lt, h, k) refl

eq_keys :
    (x y : ℕ)
    → is_nan64 x ≡ false
    → is_nan64 y ≡ false
    → f64_eq x y ≡ (order_key64 x == order_key64 y)
unfolding f64_eq
eq_keys x y h k = rw (f64_eq, h, k) refl

maxima_kept :
    (es : List (ℕ × ℕ)) (index value : ℕ)
    → order_key64 value ≤ best_key es
    → maxima (es ++ ((index, value) ∷ []))
      ≡ maxima es ++ with_key (best_key es) ((index, value) ∷ [])
maxima_kept es index value h =
    let same : best_key (es ++ ((index, value) ∷ [])) ≡ best_key es =
      omega (arith, best_key-append es (index, value)) in
    rw same (with_key-append (best_key es) es (index, value))

maxima_new :
    (es : List (ℕ × ℕ)) (index value : ℕ)
    → best_key es < order_key64 value
    → maxima (es ++ ((index, value) ∷ [])) ≡ index ∷ []
maxima_new es index value h =
    let above : best_key (es ++ ((index, value) ∷ [])) ≡ order_key64 value =
      omega (arith, best_key-append es (index, value)) in
    let itself : (order_key64 value == order_key64 value) ≡ true = ground arith in
    rw above (
      with_key-append (order_key64 value) es (index, value)
      ∙ rw (with_key_above (order_key64 value) es h, itself) refl)

-- The maximum of the entries that were told stays the maximum of all.
pub tell_max-IsMaxOf :
    (t : IncrementalIncumbentTracker) (index value : ℕ) (es : List (ℕ × ℕ))
    → IsMaxOf t es
    → is_nan64 value ≡ false
    → IsMaxOf (tell_max t index value) (es ++ ((index, value) ∷ []))
tell_max-IsMaxOf t index value es (started_already, number, key, indices) h =
    let lt = lt_keys t.max_y value number h in
    let eq = eq_keys value t.max_y h number in
    let more = best_key-append es (index, value) in
    elim (Bool-cases (f64_lt t.max_y value)) [
      | inl above ↦
          let less : best_key es < order_key64 value = ground arith in
          rw (tell_max_above t index value started_already above)
            (refl, h, omega arith, sym (maxima_new es index value less))
      | inr not_above ↦
          let le : order_key64 value ≤ best_key es = ground arith in
          elim (Bool-cases (f64_eq value t.max_y)) [
            | inl equal ↦
                let same : (order_key64 value == best_key es) ≡ true = ground arith in
                rw (tell_max_equal t index value started_already not_above equal) (
                  started_already,
                  number,
                  omega arith,
                  ap (λ xs. xs ++ (index ∷ [])) indices
                      ∙ sym (maxima_kept es index value le ∙ rw same refl),
                )
            | inr other ↦
                let apart : (order_key64 value == best_key es) ≡ false = ground arith in
                rw (tell_max_below t index value started_already not_above other) (
                  started_already,
                  number,
                  omega arith,
                  indices ∙ sym (maxima_kept es index value le ∙ rw apart (append-nil (maxima es))),
                )
          ]
    ]

pub tell_max-first :
    (t : IncrementalIncumbentTracker) (index value : ℕ)
    → t.max_initialized ≡ false
    → is_nan64 value ≡ false
    → IsMaxOf (tell_max t index value) ((index, value) ∷ [])
tell_max-first t index value fresh h =
    let itself : (order_key64 value == max (order_key64 value) 0) ≡ true = ground arith in
    rw (tell_max_first t index value fresh) (refl, h, omega arith, rw itself refl)
