-- ===== src/Bpann/Partition.antt =====
-- rust/crates/bpann/src/index/build.rs: an index from rows, by the tree of partitions.
pub mod LastLeaf
use ennbo.Prelude.{ℕ, ◌+◌, ◌%◌, ◌^◌, max, Bool, true, false, leb, if◌then◌else◌}
use ennbo.Prelude.{List, [], ◌∷◌, ◌++◌, map, length, take, none}
use ennbo.Prelude.{Result, ok, ◌>>=◌}
use ennbo.Sort.{sort_by}
use ennbo.Ennx.Float.{f32_lt}
use ennbo.Bpann.Floats.{Floats, BpannError}
use ennbo.Bpann.Distance.{l2_sq_f32}
use ennbo.Bpann.Page.{Page, internal, leaf, page_id}
use ennbo.Bpann.Tuning.{BpannTuning, rows_need_skip_edges}
use ennbo.Bpann.Index.{
  BpannIndex, IndexHeader, indexed, centroid, default_skip_neighbors, build_single_leaf_from_rows,
}
use ennbo.Bpann.Kmeans.{
  Random, PartitionNode, PartitionNodes, partition_leaf, partition_internal, no_nodes, nodes_cons,
  build_partition,
}

-- What the loop over the children has gathered.
pub record ChildPages : Type 0 where
  pub ids : List ℕ
  pub centers : List (List ℕ)
  pub built : List Page
  pub last_id : ℕ

module _ (f : Floats) where
  -- The first page of a child, if any, gives its id and its centroid.
  abbrev pub first_page : List Page → Result BpannError (List ℕ × List (List ℕ))
  first_page [] = ok ([], [])
  first_page (p ∷ ps) = do c ← centroid f p; ok (page_id p ∷ [], c ∷ [])

  unfoldable mutual
    -- The pages of a node, and the last id that they have.
    pub partition_to_pages_id : PartitionNode → ℕ → Result BpannError (List Page × ℕ)
    partition_to_pages_id (partition_leaf entries c) next_id =
        ok (leaf next_id (map (λ e. e.0) entries) none (map (λ e. e.1) entries) none ∷ [], next_id)
    partition_to_pages_id (partition_internal c children) next_id = do
      kids ← children_to_pages children ((next_id + 1) % 2 ^ 32) next_id
      ok (internal next_id kids.centers kids.ids ∷ kids.built, max kids.last_id next_id)

    -- The loop over the children, from `cur_id` on.
    pub children_to_pages : PartitionNodes → ℕ → ℕ → Result BpannError ChildPages
    children_to_pages no_nodes cur_id last_id =
        ok (record { ids = []; centers = []; built = []; last_id = last_id })
    children_to_pages (nodes_cons child children) cur_id last_id = do
      (pages, subtree_last) ← partition_to_pages_id child cur_id
      (first_id, first_center) ← first_page pages
      rest ← children_to_pages children ((subtree_last + 1) % 2 ^ 32) (max last_id subtree_last)
      ok (record {
        ids = first_id ++ rest.ids;
        centers = first_center ++ rest.centers;
        built = pages ++ rest.built;
        last_id = rest.last_id;
      })

  -- The ids and the centroids of the leaves.
  abbrev pub leaf_centers : List Page → Result BpannError (List (ℕ × List ℕ))
  leaf_centers [] = ok []
  leaf_centers (internal id centers children ∷ ps) = leaf_centers ps
  leaf_centers (leaf id row_ids span vectors stored ∷ ps) = do
    c ← centroid f (leaf id row_ids span vectors stored)
    rest ← leaf_centers ps
    ok ((id, c) ∷ rest)

  abbrev pub distances_from : List ℕ → List (ℕ × List ℕ) → List (ℕ × ℕ)
  distances_from c leaves = map (λ l. (l.0, l2_sq_f32 f c l.1)) leaves

  abbrev pub closer : ℕ × ℕ → ℕ × ℕ → Bool
  closer a b = f32_lt a.1 b.1

  -- The edges of each leaf, to the nearest of those before and behind it.
  unfoldable pub edges_from : ℕ → List (ℕ × List ℕ) → List (ℕ × List ℕ) → List (ℕ × List ℕ)
  edges_from k before [] = []
  edges_from k before ((id, c) ∷ behind) =
      (id, map (λ e. e.0) (take k (sort_by closer (distances_from c (before ++ behind)))))
      ∷ edges_from k (before ++ ((id, c) ∷ [])) behind

  unfoldable pub build_skip_edges : List Page → ℕ → Result BpannError (List (ℕ × List ℕ))
  unfolding edges_from
  build_skip_edges pages k = do leaves ← leaf_centers pages; ok (edges_from k [] leaves)

  -- `if needs_skip_edges(row_ids.len())`
  unfoldable pub needed_edges : BpannTuning → ℕ → List Page → Result BpannError (List (ℕ × List ℕ))
  unfolding build_skip_edges rows_need_skip_edges
  needed_edges t rows pages =
      if rows_need_skip_edges t rows then build_skip_edges pages default_skip_neighbors else ok []

  abbrev pub tree_header : ℕ → ℕ → ℕ → ℕ → IndexHeader
  tree_header rows dim capacity root = record {
    num_dim = dim;
    indexed_rows = rows;
    root_page_id = root;
    leaf_capacity = capacity;
    skip_neighbors = default_skip_neighbors;
  }

  -- The index of the pages of a tree.
  unfoldable pub index_of_tree :
      BpannTuning → ℕ → ℕ → ℕ → PartitionNode → Result BpannError BpannIndex
  index_of_tree t rows dim capacity root = do
    (ps, last) ← partition_to_pages_id root 0
    edges ← needed_edges t rows ps
    ok (indexed (tree_header rows dim capacity last) ps edges)

  -- `build_from_rows_with_persist`
  unfoldable pub build_from_rows :
      (r : Random)
      → BpannTuning
      → ℕ
      → List ℕ
      → List (List ℕ)
      → ℕ
      → ℕ
      → ℕ
      → Result BpannError BpannIndex
  unfolding build_partition index_of_tree
  build_from_rows r t fuel row_ids vectors num_dim leaf_capacity seed =
      elim (leb (length row_ids) leaf_capacity) [
        | true ↦ ok (build_single_leaf_from_rows row_ids vectors num_dim)
        | false ↦ do
          root ← build_partition f r fuel row_ids vectors leaf_capacity seed
          index_of_tree t (length row_ids) num_dim leaf_capacity root
      ]
