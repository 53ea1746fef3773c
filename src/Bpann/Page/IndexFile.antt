-- ===== src/Bpann/Page/IndexFile.antt =====
-- `write_pages_index` and `read_pages_index` of page.rs. The file is the list of its bytes, and no
-- write fails; the reader is the list of the bytes not yet read.
use ennbo.Prelude.{ℕ, zero, suc, ◌≡◌, refl, List, [], ◌∷◌, ◌++◌, map, length, take, drop}
use ennbo.Prelude.{take-append, drop-append, length-append, le→ltb_false}
use ennbo.Prelude.{Result, ok, err, ◌>>=◌, map_err, if◌then◌else◌, ltb, get_or, as_u32, IsU32, All}
use ennbo.Prelude.{arith, ap, ◌∙◌}
use ennbo.Bpann.Bytes.{to_le_bytes, from_le_bytes, from_le_bytes-to_le_bytes}
use ennbo.Bpann.Page.{Page, serialize}
use ennbo.Bpann.Page.Parse.{PageError, deserialize}
use ennbo.Bpann.Page.Canonical.{IsStorable, canonical, IsExact, canonical_self}
use ennbo.Bpann.Page.RoundTrip.{deserialize-serialize, as_u32_self}

pub data IoError : Type 0 where
  unexpected_eof : IoError
  invalid_data : PageError → IoError

-- `Read::read_exact` into a buffer of `n` bytes.
abbrev pub read_exact : ℕ → List ℕ → Result IoError (List ℕ × List ℕ)
read_exact n bytes =
    if ltb (length bytes) n then err unexpected_eof else ok (take n bytes, drop n bytes)

abbrev pub u32_of : List ℕ → ℕ
u32_of buf = from_le_bytes (get_or buf 0 0) (get_or buf 1 0) (get_or buf 2 0) (get_or buf 3 0)

unfoldable pub write_pages : ℕ → List Page → List ℕ
write_pages num_dim [] = []
write_pages num_dim (page ∷ pages) =
    let bytes = serialize num_dim page in
    to_le_bytes (as_u32 (length bytes)) ++ (bytes ++ write_pages num_dim pages)

unfoldable pub write_pages_index : List Page → ℕ → List ℕ
write_pages_index pages num_dim = to_le_bytes (as_u32 (length pages)) ++ write_pages num_dim pages

unfoldable pub read_pages : ℕ → List ℕ → Result IoError (List Page)
read_pages zero bytes = ok []
read_pages (suc n) bytes = do
  (len_buf, rest) ← read_exact 4 bytes
  (page_bytes, rest') ← read_exact (u32_of len_buf) rest
  page ← map_err invalid_data (deserialize page_bytes)
  pages ← read_pages n rest'
  ok (page ∷ pages)

unfoldable pub read_pages_index : List ℕ → Result IoError (List Page)
read_pages_index bytes = do
  (count_buf, rest) ← read_exact 4 bytes
  read_pages (u32_of count_buf) rest

read_exact-append : (xs ys : List ℕ) → read_exact (length xs) (xs ++ ys) ≡ ok (xs, ys)
read_exact-append xs ys = rw (
  le→ltb_false (length (xs ++ ys)) (length xs) (omega (arith, length-append {0} xs ys)),
  take-append xs ys,
  drop-append xs ys,
)

read_exact-four :
    (n : ℕ) (rest : List ℕ) → read_exact 4 (to_le_bytes n ++ rest) ≡ ok (to_le_bytes n, rest)
unfolding to_le_bytes
read_exact-four n rest = read_exact-append (to_le_bytes n) rest

u32_of-to_le_bytes : (n : ℕ) → IsU32 n → u32_of (to_le_bytes (as_u32 n)) ≡ n
unfolding to_le_bytes
u32_of-to_le_bytes n h = rw (as_u32_self n h) (from_le_bytes-to_le_bytes n h)

-- A page whose numbers fit, and whose bytes have a length that fits 32 bits.
abbrev pub Fits : ℕ → Page → Type 0
Fits num_dim p = IsStorable p × IsU32 (length (serialize num_dim p))

read_pages-write_pages :
    (num_dim : ℕ) (pages : List Page)
    → IsU32 num_dim
    → All (Fits num_dim) pages
    → read_pages (length pages) (write_pages num_dim pages) ≡ ok (map (canonical num_dim) pages)
unfolding read_pages write_pages
read_pages-write_pages nd [] hd h = refl
read_pages-write_pages nd (p ∷ pages) hd ((hp, hl), h) = simp (
  read_exact-four,
  u32_of-to_le_bytes _ hl,
  read_exact-append (serialize nd p) (write_pages nd pages),
  (deserialize-serialize nd p hd hp).0,
  read_pages-write_pages nd pages hd h,
)

map-canonical_self :
    (num_dim : ℕ) (pages : List Page)
    → All (IsExact num_dim) pages
    → map (canonical num_dim) pages ≡ pages
map-canonical_self nd [] h = refl
map-canonical_self nd (p ∷ pages) (hp, h) =
    rw (canonical_self nd p hp, map-canonical_self nd pages h)

-- For a dimension below 2^32, and fewer than 2^32 pages that are storable and whose serialized
-- length fits 32 bits, `read_pages_index` reads what `write_pages_index` wrote as the canonical
-- forms of the pages, in order; exact pages come back unchanged.
pub read_pages_index-write_pages_index :
    (num_dim : ℕ) (pages : List Page)
    → IsU32 num_dim
    → IsU32 (length pages)
    → All (Fits num_dim) pages
    → (read_pages_index (write_pages_index pages num_dim) ≡ ok (map (canonical num_dim) pages))
      × (All (IsExact num_dim) pages
          → read_pages_index (write_pages_index pages num_dim) ≡ ok pages)
read_pages_index-write_pages_index nd pages hd hl h =
    (whole, λ x. whole ∙ ap ok (map-canonical_self nd pages x))
  where
    whole : read_pages_index (write_pages_index pages nd) ≡ ok (map (canonical nd) pages)
    whole =
        unfold read_pages_index write_pages_index in
        simp (read_exact-four, u32_of-to_le_bytes _ hl, read_pages-write_pages nd pages hd h)
