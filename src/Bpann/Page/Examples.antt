-- ===== src/Bpann/Page/Examples.antt =====
-- Runs of the page format, and its theorems at concrete pages.
use ennbo.Prelude.{ℕ, ◌≡◌, refl, arith, ok, err, List, [], ◌∷◌, All, map, none}
use ennbo.Bpann.Bytes.{to_le_bytes, from_le_bytes}
use ennbo.Bpann.Page.{Page, internal, leaf, empty_range_leaf, serialize, header_bytes, row_bytes}
use ennbo.Bpann.Page.{zip_bytes}
use ennbo.Bpann.Page.Parse.{
  deserialize, PageError, range_reversed, deserialize_rest, by_kind, read_u32,
}
use ennbo.Bpann.Page.Parse.{deserialize_range_leaf, parse_header}
use ennbo.Bpann.Page.Canonical.{canonical, IsExact}
use ennbo.Bpann.Page.RoundTrip.{deserialize-serialize}
use ennbo.Bpann.Page.Truncation.{deserialize_truncated}
use ennbo.Bpann.Page.IndexFile.{
  read_pages_index, write_pages_index, read_pages_index-write_pages_index,
}

-- The bit pattern of 1.0.
abbrev one : ℕ
one = 0x3f80_0000

abbrev root : Page
root = internal 0 ((one ∷ 0 ∷ []) ∷ (0 ∷ one ∷ []) ∷ []) (1 ∷ 2 ∷ [])

abbrev full_leaf : Page
full_leaf = leaf 1 (5 ∷ []) none ((one ∷ 0 ∷ []) ∷ []) none

abbrev range_leaf : Page
range_leaf = empty_range_leaf 7 100 1100 (one ∷ 0 ∷ [])

range_bytes :
    serialize 2 range_leaf
    ≡ 0x4e ∷ 0x41 ∷ 0x50 ∷ 0x42 ∷ 3 ∷ 7 ∷ 0 ∷ 0 ∷ 0 ∷ 2 ∷ 0 ∷ 0 ∷ 0 ∷ 100 ∷ 0 ∷ 0 ∷ 0 ∷ 76 ∷ 4 ∷ 0
      ∷ 0 ∷ 0 ∷ 0 ∷ 128 ∷ 63 ∷ 0 ∷ 0 ∷ 0 ∷ 0 ∷ []
unfolding serialize header_bytes row_bytes to_le_bytes
range_bytes = refl

-- A range whose start is past its end is refused.
reversed_range :
    deserialize (
      0x4e ∷ 0x41 ∷ 0x50 ∷ 0x42 ∷ 3 ∷ 7 ∷ 0 ∷ 0 ∷ 0 ∷ 0 ∷ 0 ∷ 0 ∷ 0 ∷ 9 ∷ 0 ∷ 0 ∷ 0 ∷ 8 ∷ 0 ∷ 0 ∷ 0
      ∷ [])
    ≡ err (range_reversed 9 8)
unfolding deserialize deserialize_rest parse_header by_kind deserialize_range_leaf read_u32
    from_le_bytes
reversed_range = refl

deserialize-serialize_example :
    (deserialize (serialize 2 full_leaf) ≡ ok (canonical 2 full_leaf))
    × (IsExact 2 full_leaf → deserialize (serialize 2 full_leaf) ≡ ok full_leaf)
deserialize-serialize_example = deserialize-serialize 2 full_leaf (omega arith) (omega arith)

abbrev range_front : List ℕ
range_front = 0x4e ∷ 0x41 ∷ 0x50 ∷ 0x42 ∷ 3 ∷ 7 ∷ 0 ∷ 0 ∷ 0 ∷ 2 ∷ 0 ∷ 0 ∷ 0 ∷ 100 ∷ []

abbrev range_back : List ℕ
range_back = 0 ∷ 0 ∷ 76 ∷ 4 ∷ 0 ∷ 0 ∷ 0 ∷ 0 ∷ 128 ∷ 63 ∷ 0 ∷ 0 ∷ 0 ∷ 0 ∷ []

deserialize_truncated_example : (e : PageError) × (deserialize range_front ≡ err e)
deserialize_truncated_example =
    deserialize_truncated 2 range_leaf range_front 0 range_back (omega arith) (omega arith)
      range_bytes

abbrev tree : List Page
tree = root ∷ full_leaf ∷ range_leaf ∷ []

read_pages_index-write_pages_index_example :
    (read_pages_index (write_pages_index tree 2) ≡ ok (map (canonical 2) tree))
    × (All (IsExact 2) tree → read_pages_index (write_pages_index tree 2) ≡ ok tree)
unfolding serialize header_bytes row_bytes zip_bytes to_le_bytes
read_pages_index-write_pages_index_example =
    read_pages_index-write_pages_index 2 tree (omega arith) (omega arith) (omega arith)
