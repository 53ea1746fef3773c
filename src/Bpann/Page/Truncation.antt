-- ===== src/Bpann/Page/Truncation.antt =====
-- Pages that are cut short.
use ennbo.Prelude.{ℕ, ◌≡◌, List, [], ◌∷◌, ◌++◌}
use ennbo.Prelude.{ok, err, IsU32, arith}
use ennbo.Prelude.{length-append, append-nil, Result-cases, inl, inr}
use ennbo.Bpann.Page.{Page, serialize}
use ennbo.Bpann.Page.Parse.{PageError}
use ennbo.Bpann.Page.Parse.{deserialize_rest, deserialize}
use ennbo.Bpann.Page.Canonical.{IsStorable, canonical}
use ennbo.Bpann.Page.RoundTrip.{deserialize_rest-serialize}
use ennbo.Bpann.Page.Extend.{deserialize_rest-append}

-- For a storable page and a dimension below 2^32, `deserialize` answers an error on every proper
-- prefix of what `serialize` wrote.
pub deserialize_truncated :
    (num_dim : ℕ) (p : Page) (front : List ℕ) (x : ℕ) (back : List ℕ)
    → IsU32 num_dim
    → IsStorable p
    → serialize num_dim p ≡ front ++ (x ∷ back)
    → (e : PageError) × (deserialize front ≡ err e)
unfolding deserialize
deserialize_truncated nd p front x back hd hp e = elim (Result-cases (deserialize_rest front)) [
  | inl ((q, rest), r) ↦ absurd (no_rest q rest r)
  | inr (e', r) ↦ (e', rw r)
]
  where
    whole : deserialize_rest (front ++ (x ∷ back)) ≡ ok (canonical nd p, [])
    whole = rw (append-nil, e) at (deserialize_rest-serialize nd p [] hd hp)

    no_rest : (q : Page) (rest : List ℕ) → deserialize_rest front ≡ ok (q, rest) → ⊥
    no_rest q rest r =
        ground
          (arith, whole, deserialize_rest-append front (x ∷ back) r, length-append rest (x ∷ back))
