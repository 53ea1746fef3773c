-- ===== src/Bpann/Page.antt =====
-- rust/crates/bpann/src/index/page.rs: the pages of the index and their byte format.
-- An `f32` is its 32-bit pattern, so that `0.0` is 0; a `u32` and a pattern are numbers.
pub mod Parse
pub mod Canonical
pub mod RoundTrip
pub mod Extend
pub mod Truncation
mod Examples
pub mod IndexFile
use ennbo.Prelude.{ℕ, zero, suc, ◌+◌, ◌%◌, Bool, Option, none, some, List, [], ◌∷◌, ◌++◌}
use ennbo.Prelude.{length, as_u32, get_or}
use ennbo.Bpann.Bytes.{to_le_bytes}

abbrev pub page_magic : ℕ
page_magic = 0x4250_414e

pub data Page : Type 0 where
  -- `page_id`, `centroids`, `child_page_ids`
  internal : ℕ → List (List ℕ) → List ℕ → Page
  -- `page_id`, `row_ids`, `row_range`, `vectors`, `stored_centroid`
  leaf : ℕ → List ℕ → Option (ℕ × ℕ) → List (List ℕ) → Option (List ℕ) → Page

abbrev pub empty_range_leaf : ℕ → ℕ → ℕ → List ℕ → Page
empty_range_leaf page_id start end centroid = leaf page_id [] (some (start, end)) [] (some centroid)

unfoldable pub page_id : Page → ℕ
page_id (internal id _ _) = id
page_id (leaf id _ _ _ _) = id

-- `for j in 0..num_dim`: the entry at `j`, or `0.0` beyond the end.
unfoldable pub row_bytes : ℕ → List ℕ → List ℕ
row_bytes zero v = []
row_bytes (suc n) [] = to_le_bytes 0 ++ row_bytes n []
row_bytes (suc n) (x ∷ v) = to_le_bytes x ++ row_bytes n v

-- `for (&id, row) in ids.iter().zip(rows.iter())`
unfoldable pub zip_bytes : ℕ → List ℕ → List (List ℕ) → List ℕ
zip_bytes num_dim [] rows = []
zip_bytes num_dim (id ∷ ids) [] = []
zip_bytes num_dim (id ∷ ids) (row ∷ rows) =
    to_le_bytes id ++ (row_bytes num_dim row ++ zip_bytes num_dim ids rows)

unfoldable pub id_bytes : List ℕ → List ℕ
id_bytes [] = []
id_bytes (id ∷ ids) = to_le_bytes id ++ id_bytes ids

-- `stored_centroid.as_deref().unwrap_or(&[])`
abbrev pub centroid_or_empty : Option (List ℕ) → List ℕ
centroid_or_empty none = []
centroid_or_empty (some c) = c

-- Magic, kind, page id and dimension: 13 bytes.
unfoldable pub header_bytes : ℕ → ℕ → ℕ → List ℕ
header_bytes kind id num_dim =
    to_le_bytes page_magic ++ (kind ∷ (to_le_bytes id ++ to_le_bytes (as_u32 num_dim)))

-- `Page::serialize`; the buffer's parts in the order in which they are pushed.
unfoldable pub serialize : ℕ → Page → List ℕ
serialize num_dim (internal id centroids child_page_ids) =
    header_bytes 0 id num_dim
    ++ (to_le_bytes (as_u32 (length centroids)) ++ zip_bytes num_dim child_page_ids centroids)
serialize num_dim (leaf id row_ids (some (start, end)) vectors stored) =
    header_bytes 3 id num_dim
    ++ (to_le_bytes start ++ (to_le_bytes end ++ row_bytes num_dim (centroid_or_empty stored)))
serialize num_dim (leaf id row_ids none [] stored) =
    header_bytes 2 id num_dim
    ++ (to_le_bytes (as_u32 (length row_ids))
        ++ (id_bytes row_ids ++ row_bytes num_dim (centroid_or_empty stored)))
serialize num_dim (leaf id row_ids none (v ∷ vectors) stored) =
    header_bytes 1 id num_dim
    ++ (to_le_bytes (as_u32 (length row_ids)) ++ zip_bytes num_dim row_ids (v ∷ vectors))
