-- ===== src/Bpann/Index.antt =====
-- rust/crates/bpann/src/index/build.rs: the index of one fragment, and the merge of fragments. The
-- callers that are modelled build with `persist = false`; the directory, which only the file system
-- sees, is left out. A `HashMap` is the list of its insertions, the last one of a key counts.
pub mod Closed
pub mod Centers
pub mod Remapped
pub mod Merged
pub mod Renumbered
mod Examples
use ennbo.Prelude.{ℕ, suc, ◌+◌, ◌%◌, ◌^◌, max, ◌==◌, if◌then◌else◌, replicate}
use ennbo.Prelude.{Option, none, some, List, [], ◌∷◌, ◌++◌, map, length, get_elem?, range, ◌-◌}
use ennbo.Prelude.{Result, err, ok, ◌>>=◌}
use ennbo.Bpann.Floats.{Floats, BpannError, invalid_parameter, panicked, add_rows}
use ennbo.Bpann.Page.{Page, internal, leaf, page_id}
use ennbo.Sort.{sort_indices}

abbrev pub default_skip_neighbors : ℕ
default_skip_neighbors = 3

pub record IndexHeader : Type 0 where
  pub num_dim : ℕ
  pub indexed_rows : ℕ
  pub root_page_id : ℕ
  pub leaf_capacity : ℕ
  pub skip_neighbors : ℕ

pub record BpannIndex : Type 0 where
  pub header : IndexHeader
  pub pages : List Page
  pub skip_edges : List (ℕ × List ℕ)
  pub page_map : List (ℕ × ℕ)

abbrev pub read_map {ℓ} : {A : Type ℓ} → ℕ → List (ℕ × A) → Option A
read_map key [] = none
read_map key ((k, a) ∷ entries) = elim (read_map key entries) [
  | some b ↦ some b
  | none ↦ if key == k then some a else none
]

-- An indexed read panics when nothing is there.
abbrev pub present {ℓ} : {A : Type ℓ} → Option A → Result BpannError A
present none = err panicked
present (some a) = ok a

-- `map[&key]`
abbrev pub index_map {ℓ} : {A : Type ℓ} → ℕ → List (ℕ × A) → Result BpannError A
index_map key entries = present (read_map key entries)

abbrev pub map_ids : List (ℕ × ℕ) → List ℕ → Result BpannError (List ℕ)
map_ids id_map [] = ok []
map_ids id_map (id ∷ ids) = do new ← index_map id id_map; rest ← map_ids id_map ids; ok (new ∷ rest)

unfoldable pub remap_page : List (ℕ × ℕ) → Page → Result BpannError Page
remap_page id_map (internal id centroids children) = do
  new ← index_map id id_map
  ids ← map_ids id_map children
  ok (internal new centroids ids)
remap_page id_map (leaf id row_ids row_range vectors stored) = do
  new ← index_map id id_map
  ok (leaf new row_ids row_range vectors stored)

abbrev pub remap_pages : List (ℕ × ℕ) → List Page → Result BpannError (List Page)
remap_pages id_map [] = ok []
remap_pages id_map (p ∷ ps) = do
  page ← remap_page id_map p
  rest ← remap_pages id_map ps
  ok (page ∷ rest)

-- The positions of the pages from `i` on.
abbrev pub page_positions : ℕ → List Page → List (ℕ × ℕ)
page_positions i [] = []
page_positions i (p ∷ ps) = (page_id p, i) ∷ page_positions (suc i) ps

abbrev pub build_page_map : List Page → List (ℕ × ℕ)
build_page_map pages = page_positions 0 pages

-- An index whose page map is that of its pages, as every constructor builds it.
abbrev pub indexed : IndexHeader → List Page → List (ℕ × List ℕ) → BpannIndex
indexed h ps edges = record {
  header = h;
  pages = ps;
  skip_edges = edges;
  page_map = build_page_map ps;
}

abbrev pub leaf_header : ℕ → ℕ → IndexHeader
leaf_header dim rows = record {
  num_dim = dim;
  indexed_rows = rows;
  root_page_id = 0;
  leaf_capacity = max rows 1;
  skip_neighbors = default_skip_neighbors;
}

-- `build_single_leaf_from_rows_with_persist`
unfoldable pub build_single_leaf_from_rows : List ℕ → List (List ℕ) → ℕ → BpannIndex
build_single_leaf_from_rows row_ids vectors num_dim =
    indexed (leaf_header num_dim (length row_ids)) (leaf 0 row_ids none vectors none ∷ []) []

-- `build_row_ids_leaf_with_persist`
unfoldable pub build_row_ids_leaf : List ℕ → List ℕ → ℕ → BpannIndex
build_row_ids_leaf row_ids centroid num_dim =
    indexed (leaf_header num_dim (length row_ids)) (leaf 0 row_ids none [] (some centroid) ∷ []) []

unfoldable pub from_pages_unpersisted : ℕ → ℕ → ℕ → List Page → Result BpannError BpannIndex
from_pages_unpersisted dim rows capacity [] = err invalid_parameter
from_pages_unpersisted dim rows capacity (p ∷ ps) = ok (
    indexed
      (record {
        num_dim = dim;
        indexed_rows = rows;
        root_page_id = 0;
        leaf_capacity = max capacity 1;
        skip_neighbors = default_skip_neighbors;
      })
      (p ∷ ps) [])

-- `.map(|&i| &self.pages[i])`
abbrev pub page_at : List Page → Option ℕ → Option (Result BpannError Page)
page_at pages none = none
page_at pages (some i) = some (present (get_elem? pages i))

unfoldable pub page_by_id : BpannIndex → ℕ → Option (Result BpannError Page)
page_by_id index id = page_at index.pages (read_map id index.page_map)

-- The rows of the leaves, in the order of the pages: the loop of `leaf_row_ids`.
unfoldable pub rows_of : List Page → List ℕ
rows_of [] = []
rows_of (internal _ _ _ ∷ ps) = rows_of ps
rows_of (leaf _ row_ids none _ _ ∷ ps) = row_ids ++ rows_of ps
rows_of (leaf _ _ (some (start, end)) _ _ ∷ ps) = range start (end - start) ++ rows_of ps

-- `Vec::dedup_ids`: an entry equal to the one before it goes.
abbrev pub dedup_ids : List ℕ → List ℕ
dedup_ids [] = []
dedup_ids (x ∷ []) = x ∷ []
dedup_ids (x ∷ y ∷ ys) = let rest = dedup_ids (y ∷ ys) in if x == y then rest else x ∷ rest

unfoldable pub leaf_row_ids : BpannIndex → List ℕ
unfolding rows_of
leaf_row_ids index = dedup_ids (sort_indices (rows_of index.pages))

-- The locals of the loop of `concat_merge`; `next_id` wraps around as a `u32`.
pub record Merging : Type 0 where
  pub merged_pages : List Page
  pub child_page_ids : List ℕ
  pub child_centroids : List (List ℕ)
  pub merged_edges : List (ℕ × List ℕ)
  pub total_rows : ℕ
  pub next_id : ℕ

-- The map from the old ids of a part to the ids from `next` on, and the id after them.
unfoldable pub number_pages : ℕ → List Page → List (ℕ × ℕ) × ℕ
number_pages next [] = ([], next)
number_pages next (p ∷ ps) =
    let (rest, after) = number_pages ((next + 1) % 2 ^ 32) ps in ((page_id p, next) ∷ rest, after)

abbrev pub keep_some : Option ℕ → List ℕ → List ℕ
keep_some none ids = ids
keep_some (some id) ids = id ∷ ids

-- `filter_map(|to| id_map.get(to).copied())`
abbrev pub known_ids : List (ℕ × ℕ) → List ℕ → List ℕ
known_ids id_map [] = []
known_ids id_map (to ∷ tos) = keep_some (read_map to id_map) (known_ids id_map tos)

abbrev pub insert_edges : ℕ → List ℕ → List (ℕ × List ℕ) → List (ℕ × List ℕ)
insert_edges from [] edges = edges
insert_edges from (to ∷ tos) edges = edges ++ ((from, to ∷ tos) ∷ [])

unfoldable pub remap_edges :
    List (ℕ × ℕ) → List (ℕ × List ℕ) → List (ℕ × List ℕ) → List (ℕ × List ℕ)
remap_edges id_map edges [] = edges
remap_edges id_map edges ((from, tos) ∷ rest) =
    remap_edges id_map
      (elim (read_map from id_map) [
        | some new_from ↦ insert_edges new_from (known_ids id_map tos) edges
        | none ↦ edges
      ])
      rest

-- The pushes of the loop body, for a root, a centroid and pages under new ids.
abbrev pub with_part : Merging → BpannIndex → List (ℕ × ℕ) → ℕ → ℕ → List ℕ → List Page → Merging
with_part m part id_map next root center ps = record {
  merged_pages = m.merged_pages ++ ps;
  child_page_ids = m.child_page_ids ++ (root ∷ []);
  child_centroids = m.child_centroids ++ (center ∷ []);
  merged_edges = remap_edges id_map m.merged_edges part.skip_edges;
  total_rows = m.total_rows + part.header.indexed_rows;
  next_id = next;
}

-- The locals before the loop, and the index after it.
abbrev pub merging : Merging
merging = record {
  merged_pages = [];
  child_page_ids = [];
  child_centroids = [];
  merged_edges = [];
  total_rows = 0;
  next_id = 1;
}

abbrev pub merged_index : IndexHeader → Merging → BpannIndex
merged_index h m =
    indexed (record h { indexed_rows = m.total_rows; root_page_id = 0 })
      (m.merged_pages ++ (internal 0 m.child_centroids m.child_page_ids ∷ [])) m.merged_edges

module _ (f : Floats) where
  -- The mean of rows, in `Page::centroid`, `mean_centroid_f32` and `mean_vector`.
  unfoldable pub mean_rows : List (List ℕ) → Result BpannError (List ℕ)
  mean_rows [] = ok []
  mean_rows (first ∷ rows) = do
    acc ← add_rows f.add (replicate (length first) 0) (first ∷ rows)
    ok (map (λ s. f.div s (f.of_usize (suc (length rows)))) acc)

  unfoldable pub centroid : Page → Result BpannError (List ℕ)
  unfolding mean_rows
  centroid (internal _ centroids _) = mean_rows centroids
  centroid (leaf _ _ _ vectors (some c)) = ok c
  centroid (leaf _ _ _ vectors none) = mean_rows vectors

  -- `.map(Page::centroid).unwrap_or_default()`
  unfoldable pub centroid_or_default : Option (Result BpannError Page) → Result BpannError (List ℕ)
  unfolding centroid
  centroid_or_default none = ok []
  centroid_or_default (some found) = found >>= centroid

  unfoldable pub root_centroid : BpannIndex → Result BpannError (List ℕ)
  unfolding page_by_id centroid_or_default
  root_centroid index = centroid_or_default (page_by_id index index.header.root_page_id)

  -- The body of the loop over the parts.
  unfoldable pub merge_part : Merging → BpannIndex → Result BpannError Merging
  unfolding number_pages remap_page remap_edges root_centroid
  merge_part m part =
      let (id_map, next) = number_pages m.next_id part.pages in
      do
        root ← index_map part.header.root_page_id id_map
        center ← root_centroid part
        pages ← remap_pages id_map part.pages
        ok (with_part m part id_map next root center pages)

  unfoldable pub merge_parts : Merging → List BpannIndex → Result BpannError Merging
  unfolding merge_part
  merge_parts m [] = ok m
  merge_parts m (part ∷ parts) = do m' ← merge_part m part; merge_parts m' parts

  unfoldable pub concat_merge : List BpannIndex → Result BpannError BpannIndex
  unfolding merge_parts
  concat_merge [] = err invalid_parameter
  concat_merge (single ∷ []) = ok single
  concat_merge (first ∷ second ∷ parts) = do
    m ← merge_parts merging (first ∷ second ∷ parts)
    ok (merged_index first.header m)
