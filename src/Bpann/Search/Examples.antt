-- ===== src/Bpann/Search/Examples.antt =====
-- A tree of two leaves: the search finds the rows of the second only.
use ennbo.Prelude.{ℕ, ◌≡◌, refl, arith, List, [], ◌∷◌, ◌++◌, none, ok, ◌>>=◌}
use ennbo.Bpann.Samples.{simple}
use ennbo.Bpann.Page.{Page, leaf, page_id}
use ennbo.Bpann.Tuning.{default_tuning, rows_need_skip_edges}
use ennbo.Bpann.Index.{BpannIndex, indexed, centroid}
use ennbo.Bpann.Floats.{add_rows, add_row}
use ennbo.Bpann.Kmeans.{PartitionNode, partition_leaf, partition_internal, no_nodes, nodes_cons}
use ennbo.Bpann.Partition.{partition_to_pages_id, index_of_tree, needed_edges, tree_header}
use ennbo.Bpann.Partition.LastLeaf.{page_count, IsBushy}
use ennbo.Bpann.Page.{internal}
use ennbo.Bpann.Search.{search_greedy_blocks_only, nearest_rows, score_leaf_page}
use ennbo.Bpann.Search.Root.{search_one_leaf}

abbrev two_leaves : PartitionNode
two_leaves = partition_internal (5 ∷ []) (
    nodes_cons (partition_leaf ((0, 4 ∷ []) ∷ []) (4 ∷ []))
      (nodes_cons (partition_leaf ((1, 6 ∷ []) ∷ []) (6 ∷ [])) no_nodes))

abbrev two_pages : List Page
two_pages =
    internal 0 ((4 ∷ []) ∷ (6 ∷ []) ∷ []) (1 ∷ 2 ∷ [])
    ∷ leaf 1 (0 ∷ []) none ((4 ∷ []) ∷ []) none
    ∷ leaf 2 (1 ∷ []) none ((6 ∷ []) ∷ []) none
    ∷ []

abbrev two_leaf_index : BpannIndex
two_leaf_index = indexed (tree_header simple 2 1 1 2) two_pages []

two_leaves_built : index_of_tree simple default_tuning 2 1 1 two_leaves ≡ ok two_leaf_index
unfolding index_of_tree needed_edges rows_need_skip_edges partition_to_pages_id centroid add_rows
    add_row page_id
two_leaves_built = refl

two_leaves-IsBushy : IsBushy two_leaves
unfolding IsBushy page_count
two_leaves-IsBushy = (omega arith, (tt, (tt, tt)))

search_one_leaf_example :
    (pages : List Page) × (row_ids : List ℕ) × (vectors : List (List ℕ)) × (two_pages
      ≡ pages ++ (leaf 2 row_ids none vectors none ∷ []))
    × (search_greedy_blocks_only simple 5 two_leaf_index (4 ∷ []) 3 2 none ≡ (
        score_leaf_page simple none (4 ∷ []) row_ids none vectors >>= λ scored.
        ok (nearest_rows simple 3 scored)))
unfolding page_count
search_one_leaf_example =
    search_one_leaf simple default_tuning 2 1 1 two_leaves two_leaf_index 5 2 2 (4 ∷ []) none
      two_leaves-IsBushy (omega arith) two_leaves_built
