-- ===== src/Bpann/Page/RoundTrip.antt =====
-- Reading back what `serialize` wrote.
use ennbo.Prelude.{ℕ, zero, suc, ◌≤◌, ◌≡◌, refl, none, some, List, [], ◌∷◌, ◌++◌, map}
use ennbo.Prelude.{IsU32, as_u32, length, arith, append_assoc, append-nil, ok}
use ennbo.Prelude.{false, ltb, le→ltb_false}
use ennbo.Bpann.Bytes.{to_le_bytes, from_le_bytes, from_le_bytes-to_le_bytes}
use ennbo.Bpann.Page.{Page, internal, leaf, page_magic, row_bytes, zip_bytes}
use ennbo.Bpann.Page.{id_bytes, header_bytes, serialize}
use ennbo.Bpann.Page.Parse.{read_u32, read_f32, read_f32_vec, read_rows, read_ids}
use ennbo.Bpann.Page.Parse.{
  parse_header, by_kind, deserialize_rest, deserialize, deserialize_internal,
}
use ennbo.Bpann.Page.Parse.{deserialize_leaf, deserialize_row_id_leaf, deserialize_range_leaf}
use ennbo.Bpann.Page.Canonical.{fit, canonical, canonical_self, Words, Rows, IsStorable, IsExact}

pub read_u32-to_le_bytes :
    (n : ℕ) (rest : List ℕ) → IsU32 n → read_u32 (to_le_bytes n ++ rest) ≡ ok (n, rest)
unfolding read_u32 to_le_bytes
read_u32-to_le_bytes n rest h = rw (from_le_bytes-to_le_bytes n h)

read_f32-to_le_bytes :
    (n : ℕ) (rest : List ℕ) → IsU32 n → read_f32 (to_le_bytes n ++ rest) ≡ ok (n, rest)
unfolding read_f32 to_le_bytes
read_f32-to_le_bytes n rest h = rw (from_le_bytes-to_le_bytes n h)

read_f32_vec-row_bytes :
    (n : ℕ) (v rest : List ℕ)
    → Words v
    → read_f32_vec n (row_bytes n v ++ rest) ≡ ok (fit n v, rest)
unfolding read_f32_vec row_bytes fit
read_f32_vec-row_bytes zero v rest h = refl
read_f32_vec-row_bytes (suc n) [] rest h = simp (
  append_assoc,
  read_f32-to_le_bytes 0 (row_bytes n [] ++ rest) (omega arith),
  read_f32_vec-row_bytes n [] rest h,
)
read_f32_vec-row_bytes (suc n) (x ∷ v) rest h = simp (
  append_assoc,
  read_f32-to_le_bytes x (row_bytes n v ++ rest) h.0,
  read_f32_vec-row_bytes n v rest h.1,
)

read_rows-zip_bytes :
    (num_dim : ℕ) (ids : List ℕ) (rows : List (List ℕ)) (rest : List ℕ)
    → Words ids
    → Rows rows
    → length ids ≡ length rows
    → read_rows num_dim (length ids) (zip_bytes num_dim ids rows ++ rest)
      ≡ ok (ids, map (fit num_dim) rows, rest)
unfolding read_rows zip_bytes
read_rows-zip_bytes n [] [] rest hi hr e = refl
read_rows-zip_bytes n [] (r ∷ rows) rest hi hr e = absurd (omega arith)
read_rows-zip_bytes n (i ∷ ids) [] rest hi hr e = absurd (omega arith)
read_rows-zip_bytes n (i ∷ ids) (r ∷ rows) rest hi hr e = simp (
  append_assoc,
  read_u32-to_le_bytes i (row_bytes n r ++ (zip_bytes n ids rows ++ rest)) hi.0,
  read_f32_vec-row_bytes n r (zip_bytes n ids rows ++ rest) hr.0,
  read_rows-zip_bytes n ids rows rest hi.1 hr.1 (omega arith),
)

read_ids-id_bytes :
    (ids rest : List ℕ) → Words ids → read_ids (length ids) (id_bytes ids ++ rest) ≡ ok (ids, rest)
unfolding read_ids id_bytes
read_ids-id_bytes [] rest h = refl
read_ids-id_bytes (i ∷ ids) rest h = simp (
  append_assoc,
  read_u32-to_le_bytes i (id_bytes ids ++ rest) h.0,
  read_ids-id_bytes ids rest h.1,
)

magic_bytes : from_le_bytes 78 65 80 66 ≡ page_magic
unfolding from_le_bytes
magic_bytes = refl

pub as_u32_self : (n : ℕ) → IsU32 n → as_u32 n ≡ n
as_u32_self n h = omega arith

parse_header-header_bytes :
    (kind id num_dim : ℕ) (rest : List ℕ)
    → IsU32 id
    → IsU32 num_dim
    → parse_header (header_bytes kind id num_dim ++ rest)
      ≡ ok (record { kind = kind; id = id; num_dim = num_dim; body = rest })
unfolding parse_header header_bytes to_le_bytes
parse_header-header_bytes kind id num_dim rest hi hd = rw (
  as_u32_self num_dim hd,
  parse_header,
  le→ltb_false
      (suc (suc (suc (suc (suc (suc (suc (suc (suc (suc (suc (suc (suc (length rest)))))))))))))) 13
      (omega arith),
  magic_bytes,
  from_le_bytes-to_le_bytes id hi,
  from_le_bytes-to_le_bytes num_dim hd,
)

read_u32-count :
    (n : ℕ) (rest : List ℕ) → IsU32 n → read_u32 (to_le_bytes (as_u32 n) ++ rest) ≡ ok (n, rest)
read_u32-count n rest h = rw (as_u32_self n h) (read_u32-to_le_bytes n rest h)

-- The bytes of a range are in order.
in_order : (start end : ℕ) → start ≤ end → ltb end start ≡ false
in_order start end h = le→ltb_false end start h

-- A page that `serialize` wrote is read back in its canonical form, with nothing left but what
-- follows it.
pub deserialize_rest-serialize :
    (num_dim : ℕ) (p : Page) (rest : List ℕ)
    → IsU32 num_dim
    → IsStorable p
    → deserialize_rest (serialize num_dim p ++ rest) ≡ ok (canonical num_dim p, rest)
unfolding deserialize_rest by_kind serialize canonical deserialize_internal deserialize_leaf
    deserialize_row_id_leaf deserialize_range_leaf
deserialize_rest-serialize nd (internal id cs ids) rest hd (hi, hl, hcs, hids, e) = simp (
  append_assoc,
  parse_header-header_bytes 0 id nd _ hi hd,
  read_u32-count _ _ hl,
  read_rows-count,
)
  where
    read_rows-count :
        read_rows nd (length cs) (zip_bytes nd ids cs ++ rest) ≡ ok (ids, map (fit nd) cs, rest)
    read_rows-count = rw (← e) (read_rows-zip_bytes nd ids cs rest hids hcs e)
deserialize_rest-serialize nd (leaf id rows (some (start, end)) vs st) rest hd
      (hi, hs, he, le, hc) =
    simp (
      append_assoc,
      parse_header-header_bytes 3 id nd _ hi hd,
      read_u32-to_le_bytes start _ hs,
      read_u32-to_le_bytes end _ he,
      in_order start end le,
      read_f32_vec-row_bytes nd _ rest hc,
    )
deserialize_rest-serialize nd (leaf id rows none [] st) rest hd (hi, hl, hr, hc) = simp (
  append_assoc,
  parse_header-header_bytes 2 id nd _ hi hd,
  read_u32-count _ _ hl,
  read_ids-id_bytes rows _ hr,
  read_f32_vec-row_bytes nd _ rest hc,
)
deserialize_rest-serialize nd (leaf id rows none (v ∷ vs) st) rest hd (hi, hl, hr, hv, e) = simp (
  append_assoc,
  parse_header-header_bytes 1 id nd _ hi hd,
  read_u32-count _ _ hl,
  read_rows-zip_bytes nd rows (v ∷ vs) rest hr hv e,
)

-- For a dimension below 2^32 and a page whose numbers fit 32 bits, with as many ids as vectors
-- and no reversed range, `deserialize` reads what `serialize` wrote as the page's canonical form;
-- a page whose vectors have the dimension and that has nothing which its kind drops is read back
-- unchanged.
pub deserialize-serialize :
    (num_dim : ℕ) (p : Page)
    → IsU32 num_dim
    → IsStorable p
    → (deserialize (serialize num_dim p) ≡ ok (canonical num_dim p))
      × (IsExact num_dim p → deserialize (serialize num_dim p) ≡ ok p)
unfolding deserialize
deserialize-serialize nd p hd hp =
    let read : deserialize_rest (serialize nd p) ≡ ok (canonical nd p, []) =
      rw append-nil at (deserialize_rest-serialize nd p [] hd hp) in
    (rw read, λ x. rw (read, canonical_self nd p x))
