-- ===== src/Bpann/Search.antt =====
-- rust/crates/bpann/src/index/search.rs: the search of one index. Sets and queues are lists.
pub mod Root
mod Examples
use ennbo.Prelude.{ℕ, zero, suc, ◌+◌, ◌-◌, max, ltb, leb, ◌==◌, ◌&&◌, ◌||◌, not, Bool, true, false}
use ennbo.Prelude.{
  List, [], ◌∷◌, ◌++◌, map, length, take, get_elem?, range, member, Option, none, some,
}
use ennbo.Prelude.{Result, ok, err, ◌>>=◌, ◌>>◌, fail_if, if◌then◌else◌}
use ennbo.Sort.{sort_by}
use ennbo.Ennx.Float.{f32_lt}
use ennbo.Bpann.Floats.{Floats, BpannError, panicked, unfinished}
use ennbo.Bpann.Distance.{l2_sq_f32}
use ennbo.Bpann.Page.{Page, internal, leaf}
use ennbo.Bpann.Index.{BpannIndex, present, page_by_id, centroid, read_map}
use ennbo.Bpann.Rows.{MmapColumnStore, mmap_row_slice, bpann_row_to_f32}

abbrev pub max_candidate_leaves : ℕ
max_candidate_leaves = 384

pub record MmapSearchStore : Type 0 where
  pub search_x : MmapColumnStore  -- the field `train_x`
  pub search_scale : Bool
  pub search_scales : List ℕ

-- `partial_cmp`, and on a tie or without an order the ids.
abbrev pub nearer_row : ℕ × ℕ → ℕ × ℕ → Bool
nearer_row a b = f32_lt a.1 b.1 || (not (f32_lt b.1 a.1) && ltb a.0 b.0)

abbrev pub closer_entry : ℕ × ℕ → ℕ × ℕ → Bool
closer_entry a b = f32_lt a.1 b.1

-- The locals of the traversal: the leaves that were seen, the queue and the log.
pub record Visited : Type 0 where
  pub visited_leaves : List ℕ
  pub candidate_leaves : List ℕ
  pub visited_log : List ℕ

-- `visited.insert(id)`, and the pushes when the leaf is new.
abbrev pub visit_leaf : ℕ → Visited → Visited
visit_leaf id v = if member id v.visited_leaves then v else record {
  visited_leaves = id ∷ v.visited_leaves;
  candidate_leaves = v.candidate_leaves ++ (id ∷ []);
  visited_log = v.visited_log ++ (id ∷ []);
}

module _ (f : Floats) where
  abbrev pub zip_scores : List ℕ → List ℕ → List (List ℕ) → List (ℕ × ℕ)
  zip_scores query [] vectors = []
  zip_scores query (id ∷ ids) [] = []
  zip_scores query (id ∷ ids) (v ∷ vs) = (id, l2_sq_f32 f query v) ∷ zip_scores query ids vs

  -- The loop over rows of the store.
  unfoldable pub score_stored : MmapSearchStore → List ℕ → List ℕ → Result BpannError (List (ℕ × ℕ))
  unfolding mmap_row_slice bpann_row_to_f32
  score_stored store query [] = ok []
  score_stored store query (id ∷ ids) = do
    row ← mmap_row_slice store.search_x id
    rest ← score_stored store query ids
    ok (
        (id, l2_sq_f32 f query (bpann_row_to_f32 f row store.search_scale store.search_scales))
        ∷ rest)

  unfoldable pub score_leaf_rows :
      Option MmapSearchStore → List ℕ → List ℕ → List (List ℕ) → Result BpannError (List (ℕ × ℕ))
  unfolding score_stored
  score_leaf_rows store query row_ids (v ∷ vs) = ok (zip_scores query row_ids (v ∷ vs))
  score_leaf_rows none query row_ids [] = ok []
  score_leaf_rows (some store) query row_ids [] = score_stored store query row_ids

  unfoldable pub score_leaf_range :
      Option MmapSearchStore → List ℕ → ℕ → ℕ → Result BpannError (List (ℕ × ℕ))
  unfolding score_stored
  score_leaf_range none query start end = do fail_if (ltb end start) panicked; ok []
  score_leaf_range (some store) query start end = do
    fail_if (ltb end start) panicked
    score_stored store query (range start (end - start))

  unfoldable pub score_leaf_page :
      Option MmapSearchStore
      → List ℕ
      → List ℕ
      → Option (ℕ × ℕ)
      → List (List ℕ)
      → Result BpannError (List (ℕ × ℕ))
  unfolding score_leaf_rows score_leaf_range
  score_leaf_page store query row_ids none vectors = score_leaf_rows store query row_ids vectors
  score_leaf_page store query row_ids (some (start, end)) vectors =
      score_leaf_range store query start end

  -- The nearest `k` of the scored rows.
  abbrev pub nearest_rows : ℕ → List (ℕ × ℕ) → List (ℕ × ℕ)
  nearest_rows k scored = take k (sort_by nearer_row scored)

  -- `for page in &index.pages`
  unfoldable pub score_leaves :
      Option MmapSearchStore → List ℕ → List Page → Result BpannError (List (ℕ × ℕ))
  unfolding score_leaf_page
  score_leaves store query [] = ok []
  score_leaves store query (internal _ _ _ ∷ ps) = score_leaves store query ps
  score_leaves store query (leaf _ ids span vectors _ ∷ ps) = do
    here ← score_leaf_page store query ids span vectors
    there ← score_leaves store query ps
    ok (here ++ there)

  unfoldable pub search_exhaustive_leaves :
      BpannIndex → List ℕ → ℕ → Option MmapSearchStore → Result BpannError (List (ℕ × ℕ))
  unfolding score_leaves
  search_exhaustive_leaves index query k store = do
    scored ← score_leaves store query index.pages
    ok (nearest_rows k scored)

  -- `centroids.iter().enumerate().map(...)`
  abbrev pub rank_children : ℕ → List ℕ → List (List ℕ) → List (ℕ × ℕ)
  rank_children i query [] = []
  rank_children i query (c ∷ cs) = (i, l2_sq_f32 f query c) ∷ rank_children (suc i) query cs

  -- The loop over the picked children; an id without a page is passed over.
  abbrev pub each_picked :
      (Page → Visited → Result BpannError Visited)
      → BpannIndex
      → List ℕ
      → List (ℕ × ℕ)
      → Visited
      → Result BpannError Visited
  each_picked collect index ids [] v = ok v
  each_picked collect index ids ((i, d) ∷ rest) v = do
    id ← present (get_elem? ids i)
    v' ← visit_page (page_by_id index id)
    each_picked collect index ids rest v'
    where
      visit_page : Option (Result BpannError Page) → Result BpannError Visited
      visit_page none = ok v
      visit_page (some found) = found >>= λ page. collect page v

  -- The recursion at most `fuel` deep.
  unfoldable pub collect_candidate_leaves :
      ℕ → List ℕ → BpannIndex → ℕ → Page → Visited → Result BpannError Visited
  unfolding page_by_id
  collect_candidate_leaves fuel query index beam_width (leaf id _ _ _ _) v = ok (visit_leaf id v)
  collect_candidate_leaves zero query index beam_width (internal _ _ _) v = err unfinished
  collect_candidate_leaves (suc fuel) query index beam_width (internal _ centroids ids) v =
      each_picked (collect_candidate_leaves fuel query index beam_width) index ids
        (take (max beam_width 1) (sort_by closer_entry (rank_children 0 query centroids))) v

  -- `for &next in edges`, while there is room.
  abbrev pub follow_edges : List ℕ → Visited → Visited
  follow_edges [] v = v
  follow_edges (next ∷ edges) v =
      if leb max_candidate_leaves (length v.candidate_leaves)
      then v
      else follow_edges edges (visit_leaf next v)

  abbrev pub edges_of : List (ℕ × List ℕ) → ℕ → List ℕ
  edges_of edges id = elim (read_map id edges) [ some tos ↦ tos | none ↦ [] ]

  -- `for leaf_id in initial`
  abbrev pub follow_leaves : List (ℕ × List ℕ) → List ℕ → Visited → Visited
  follow_leaves edges [] v = v
  follow_leaves edges (id ∷ ids) v =
      if leb max_candidate_leaves (length v.candidate_leaves)
      then v
      else follow_leaves edges ids (follow_edges (edges_of edges id) v)

  -- The closure of `filter_map`, before the entries of the later leaves.
  abbrev pub rank_page :
      List ℕ
      → ℕ
      → Option (Result BpannError Page)
      → Result BpannError (List (ℕ × ℕ))
      → Result BpannError (List (ℕ × ℕ))
  rank_page query id none later = later
  rank_page query id (some found) later = do
    page ← found
    c ← centroid f page
    rest ← later
    ok ((id, l2_sq_f32 f query c) ∷ rest)

  abbrev pub rank_leaves : BpannIndex → List ℕ → List ℕ → Result BpannError (List (ℕ × ℕ))
  rank_leaves index query [] = ok []
  rank_leaves index query (id ∷ ids) =
      rank_page query id (page_by_id index id) (rank_leaves index query ids)

  unfoldable pub truncate_candidate_leaves :
      BpannIndex → List ℕ → List ℕ → ℕ → Result BpannError (List ℕ)
  unfolding page_by_id centroid
  truncate_candidate_leaves index query leaves most = elim (leb (length leaves) most) [
    | true ↦ ok leaves
    | false ↦ do
      ranked ← rank_leaves index query leaves
      ok (map (λ e. e.0) (take most (sort_by closer_entry ranked)))
  ]

  -- What a page that is a leaf scores.
  abbrev pub score_page :
      Option MmapSearchStore
      → List ℕ
      → Option (Result BpannError Page)
      → Result BpannError (List (ℕ × ℕ))
  score_page store query none = ok []
  score_page store query (some (err e)) = err e
  score_page store query (some (ok (internal _ _ _))) = ok []
  score_page store query (some (ok (leaf _ ids span vectors _))) =
      score_leaf_page store query ids span vectors

  -- `for leaf_id in candidate_leaves`
  abbrev pub score_candidates :
      Option MmapSearchStore → List ℕ → BpannIndex → List ℕ → Result BpannError (List (ℕ × ℕ))
  score_candidates store query index [] = ok []
  score_candidates store query index (id ∷ ids) = do
    here ← score_page store query (page_by_id index id)
    there ← score_candidates store query index ids
    ok (here ++ there)

  -- The traversal from the root page, if there is one.
  abbrev pub collect_from_root :
      ℕ → List ℕ → BpannIndex → ℕ → Option (Result BpannError Page) → Result BpannError Visited
  collect_from_root fuel query index beam_width none =
      ok (record { visited_leaves = []; candidate_leaves = []; visited_log = [] })
  collect_from_root fuel query index beam_width (some found) = do
    root ← found
    collect_candidate_leaves fuel query index beam_width root
        (record { visited_leaves = []; candidate_leaves = []; visited_log = [] })

  -- The rows that are found, without the log.
  unfoldable pub search_index :
      ℕ
      → BpannIndex
      → List ℕ
      → ℕ
      → ℕ
      → Bool
      → Option MmapSearchStore
      → Result BpannError (List (ℕ × ℕ))
  search_index fuel index query k beam_width use_skip_edges store =
      if (length index.pages == 0) || (k == 0) then ok [] else (do
        v ←
            collect_from_root fuel query index beam_width
              (page_by_id index index.header.root_page_id)
        leaves ←
            truncate_candidate_leaves index query
              (if use_skip_edges
                then follow_leaves index.skip_edges v.candidate_leaves v
                else v).candidate_leaves
              max_candidate_leaves
        scored ← score_candidates store query index leaves
        ok (nearest_rows k scored))

  abbrev pub search_greedy_blocks_only :
      ℕ → BpannIndex → List ℕ → ℕ → ℕ → Option MmapSearchStore → Result BpannError (List (ℕ × ℕ))
  search_greedy_blocks_only fuel index query k beam_width store =
      search_index fuel index query k beam_width false store

  abbrev pub search_with_skip_refinement :
      ℕ → BpannIndex → List ℕ → ℕ → ℕ → Option MmapSearchStore → Result BpannError (List (ℕ × ℕ))
  search_with_skip_refinement fuel index query k beam_width store =
      search_index fuel index query k beam_width true store
