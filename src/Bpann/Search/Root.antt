-- ===== src/Bpann/Search/Root.antt =====
-- What a greedy search finds in an index that was built from a tree of partitions.
use ennbo.Prelude.{ℕ, suc, ◌+◌, ◌^◌, ◌≤◌, ◌≡◌, refl, sym, ap, ap₂, ◌∙◌, arith, ◌==◌}
use ennbo.Prelude.{List, [], ◌∷◌, ◌++◌, length, get_elem?, append-nil, true, false}
use ennbo.Prelude.{Option, none, some, Result, ok, err, ◌>>=◌, bind_parts, ok_inj}
use ennbo.Prelude.{length-append}
use ennbo.Bpann.Floats.{Floats, BpannError}
use ennbo.Bpann.Page.{Page, leaf, page_id}
use ennbo.Bpann.Tuning.{BpannTuning}
use ennbo.Bpann.Index.{BpannIndex, read_map, page_positions, build_page_map, page_by_id, indexed}
use ennbo.Bpann.Kmeans.{PartitionNode}
use ennbo.Bpann.Partition.{partition_to_pages_id, needed_edges, tree_header, index_of_tree}
use ennbo.Bpann.Partition.LastLeaf.{IsBushy, page_count, partition_to_pages_ends}
use ennbo.Bpann.Search.{
  MmapSearchStore, search_index, search_greedy_blocks_only, nearest_rows, score_leaf_page,
  collect_candidate_leaves, truncate_candidate_leaves, visit_leaf,
}

-- The last page of a list is the one that its id is mapped to.
read_map_last :
    (i id : ℕ) (pages : List Page) (last : Page)
    → page_id last ≡ id
    → (read_map id (page_positions i (pages ++ (last ∷ []))) ≡ some (i + length pages))
      × (get_elem? (pages ++ (last ∷ [])) (length pages) ≡ some last)
read_map_last i id [] last same =
    let itself : (id == page_id last) ≡ true = ground arith in
    let here : i ≡ i + 0 = omega arith in (rw itself (ap some here), refl)
read_map_last i id (p ∷ pages) last same =
    let (found, there) = read_map_last (suc i) id pages last same in
    let shift : suc i + length pages ≡ i + suc (length pages) = omega arith in
    (rw found (ap some shift), there)

page_found :
    (index : BpannIndex) (id : ℕ) (page : Page) (i : ℕ)
    → read_map id index.page_map ≡ some i
    → get_elem? index.pages i ≡ some page
    → page_by_id index id ≡ some (ok page)
unfolding page_by_id
page_found index id page i e e' = rw (e, e') refl

module _ (f : Floats) (t : BpannTuning) where
  record IsTreeIndex (root : PartitionNode) (index : BpannIndex) : Type 0 where
    paged : partition_to_pages_id f root 0 ≡ ok (index.pages, index.header.root_page_id)
    mapped : index.page_map ≡ build_page_map index.pages

  tree_index :
      (rows dim capacity : ℕ) (root : PartitionNode) (index : BpannIndex)
      → index_of_tree f t rows dim capacity root ≡ ok index
      → IsTreeIndex root index
  unfolding index_of_tree
  tree_index rows dim capacity root index built =
      let ((ps, last), pages_e, after) = bind_parts (partition_to_pages_id f root 0) _ built in
      let (edges, edges_e, done) = bind_parts (needed_edges f t rows ps) _ after in
      let same = ok_inj (indexed (tree_header f rows dim capacity last) ps edges) index done in
      record {
        paged =
            pages_e
            ∙ ap₂ (λ ps last. ok (ps, last)) (ap (λ i. i.pages) same)
                (ap (λ i. i.header.root_page_id) same);
        mapped = sym (ap (λ i. i.page_map) same) ∙ ap (λ i. build_page_map i.pages) same;
      }

  -- A search that starts at a leaf.
  search_from_leaf :
      (index : BpannIndex) (ids : List ℕ) (vs : List (List ℕ)) (fuel k beam_width : ℕ)
      (query : List ℕ) (store : Option MmapSearchStore)
      → (length index.pages == 0) ≡ false
      → page_by_id index index.header.root_page_id
        ≡ some (ok (leaf index.header.root_page_id ids none vs none))
      → search_greedy_blocks_only f fuel index query (suc k) beam_width store ≡ (
          score_leaf_page f store query ids none vs >>= λ scored.
          ok (nearest_rows f (suc k) scored))
  unfolding search_index truncate_candidate_leaves collect_candidate_leaves
  search_from_leaf index ids vs fuel k beam_width query store some_page found =
      let some_row : (suc k == 0) ≡ false = ground arith in
      rw (some_page, some_row, found, visit_leaf, found)
        (scored_once (score_leaf_page f store query ids none vs))
    where
      scored_once :
          (scored : Result BpannError (List (ℕ × ℕ)))
          → ((scored >>= λ here. ok (here ++ [])) >>= λ all. ok (nearest_rows f (suc k) all))
            ≡ (scored >>= λ here. ok (nearest_rows f (suc k) here))
      scored_once (err e) = refl
      scored_once (ok here) = ap (λ all. ok (nearest_rows f (suc k) all)) (append-nil here)

  -- An index that is built from a tree of partitions has its last leaf for its root: a greedy
  -- search for one row at least, of any query and with any beam, scores the rows of that leaf only.
  pub search_one_leaf :
      (rows dim capacity : ℕ) (root : PartitionNode) (index : BpannIndex) (fuel k beam_width : ℕ)
      (query : List ℕ) (store : Option MmapSearchStore)
      → IsBushy root
      → page_count root ≤ 2 ^ 32
      → index_of_tree f t rows dim capacity root ≡ ok index
      → (pages : List Page) × (row_ids : List ℕ) × (vectors : List (List ℕ)) × (index.pages
          ≡ pages ++ (leaf index.header.root_page_id row_ids none vectors none ∷ []))
        × (search_greedy_blocks_only f fuel index query (suc k) beam_width store ≡ (
            score_leaf_page f store query row_ids none vectors >>= λ scored.
            ok (nearest_rows f (suc k) scored)))
  unfolding page_id
  search_one_leaf rows dim capacity root index fuel k beam_width query store bushy room built =
      let h = tree_index rows dim capacity root index built in
      let last = index.header.root_page_id in
      let e = partition_to_pages_ends f root last index.pages bushy room h.paged in
      let top = leaf last e.row_ids none e.vectors none in
      let (at, there) = read_map_last 0 last e.before top refl in
      let from_zero : 0 + length e.before ≡ length e.before = omega arith in
      let found : page_by_id index last ≡ some (ok top) =
        page_found index last top (length e.before)
          (ap (read_map last) (h.mapped ∙ ap build_page_map e.ends) ∙ at ∙ ap some from_zero)
          (ap (λ ps. get_elem? ps (length e.before)) e.ends ∙ there) in
      let some_page : (length index.pages == 0) ≡ false =
        ground (arith, ap length e.ends, length-append e.before (top ∷ [])) in
      (
        e.before,
        e.row_ids,
        e.vectors,
        e.ends,
        search_from_leaf index e.row_ids e.vectors fuel k beam_width query store some_page found,
      )
