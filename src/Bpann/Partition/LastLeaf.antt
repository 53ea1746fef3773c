-- ===== src/Bpann/Partition/LastLeaf.antt =====
-- The id that a tree of partitions returns as its root is that of its last page, a leaf.
use ennbo.Prelude.{ℕ, ◌+◌, ◌%◌, ◌^◌, ◌≤◌, max, ◌≡◌, refl, sym, ap, ◌∙◌, arith}
use ennbo.Prelude.{List, [], ◌∷◌, ◌++◌, map, append_assoc, append-nil, none, ok, bind_parts, ok_inj}
use ennbo.Bpann.Floats.{Floats}
use ennbo.Bpann.Page.{Page, internal, leaf}
use ennbo.Bpann.Kmeans.{
  PartitionNode, PartitionNodes, partition_leaf, partition_internal, no_nodes, nodes_cons,
}
use ennbo.Bpann.Partition.{ChildPages, first_page, partition_to_pages_id, children_to_pages}

-- The number of pages of a tree, and trees in which every inner node has a child.
unfoldable mutual
  pub page_count : PartitionNode → ℕ
  page_count (partition_leaf entries c) = 1
  page_count (partition_internal c children) = 1 + page_counts children

  pub page_counts : PartitionNodes → ℕ
  page_counts no_nodes = 0
  page_counts (nodes_cons child children) = page_count child + page_counts children

unfoldable mutual
  unfolding page_count

  pub IsBushy : PartitionNode → Type 0
  IsBushy (partition_leaf entries c) = Unit {0}
  IsBushy (partition_internal c children) = (1 ≤ page_counts children) × AreBushy children

  pub AreBushy : PartitionNodes → Type 0
  AreBushy no_nodes = Unit {0}
  AreBushy (nodes_cons child children) = IsBushy child × AreBushy children

-- The last page is a leaf with the id and without a row range.
pub record EndsInLeaf (pages : List Page) (last : ℕ) : Type 0 where
  pub before : List Page
  pub row_ids : List ℕ
  pub vectors : List (List ℕ)
  pub ends : pages ≡ before ++ (leaf last row_ids none vectors none ∷ [])

prefixed :
    (front pages : List Page) (last : ℕ) → EndsInLeaf pages last → EndsInLeaf (front ++ pages) last
prefixed front pages last h = record {
  before = front ++ h.before;
  row_ids = h.row_ids;
  vectors = h.vectors;
  ends = ap (λ ps. front ++ ps) h.ends ∙ sym (append_assoc front h.before _);
}

renamed :
    (pages pages' : List Page) (last last' : ℕ)
    → pages ≡ pages'
    → last ≡ last'
    → EndsInLeaf pages last
    → EndsInLeaf pages' last'
renamed pages pages' last last' e e' h = record {
  before = h.before;
  row_ids = h.row_ids;
  vectors = h.vectors;
  ends = sym e ∙ h.ends ∙ ap (λ i. h.before ++ (leaf i h.row_ids none h.vectors none ∷ [])) e';
}

mutual
  unfolding page_count

  page_count_positive : (node : PartitionNode) → 1 ≤ page_count node
  page_count_positive (partition_leaf entries c) = omega arith
  page_count_positive (partition_internal c children) = omega arith

module _ (f : Floats) where
  mutual
    unfolding page_count IsBushy partition_to_pages_id

    node_ends :
        (node : PartitionNode) (next last : ℕ) (pages : List Page)
        → IsBushy node
        → next + page_count node ≤ 2 ^ 32
        → partition_to_pages_id f node next ≡ ok (pages, last)
        → EndsInLeaf pages last × (last + 1 ≡ next + page_count node)
    node_ends (partition_leaf entries c) next last pages bushy room h =
        let pair = ok_inj _ _ h in
        (
          renamed _ pages next last (ap (λ p. p.0) pair) (ap (λ p. p.1) pair) (record {
            before = [];
            row_ids = map (λ e. e.0) entries;
            vectors = map (λ e. e.1) entries;
            ends = refl;
          }),
          omega (arith, ap (λ p. p.1) pair),
        )
    node_ends (partition_internal c children) next last pages (some_child, bushy) room h =
        let (kids, built, done) =
          bind_parts (children_to_pages f children ((next + 1) % 2 ^ 32) next) _ h in
        let pair = ok_inj _ _ done in
        let last_e : max kids.last_id next ≡ last = ap (λ p. p.1) pair in
        let small : (next + 1) % 2 ^ 32 ≡ next + 1 = omega (arith, some_child) in
        let (ends, total) =
          children_end children (next + 1) next kids bushy some_child (omega arith) (omega arith)
            (rw small at built) in
        let total' : kids.last_id + 1 ≡ next + 1 + page_counts children = total in
        let same : kids.last_id ≡ last = omega (arith, last_e) in
        let top = internal next kids.centers kids.ids ∷ [] in
        (
          renamed (top ++ kids.built) pages kids.last_id last (ap (λ p. p.0) pair) same
              (prefixed top kids.built kids.last_id ends),
          omega (arith, total', same),
        )

    children_end :
        (children : PartitionNodes) (cur last_id : ℕ) (kids : ChildPages)
        → AreBushy children
        → 1 ≤ page_counts children
        → cur + page_counts children ≤ 2 ^ 32
        → last_id + 1 ≤ cur
        → children_to_pages f children cur last_id ≡ ok kids
        → EndsInLeaf kids.built kids.last_id × (kids.last_id + 1 ≡ cur + page_counts children)
    children_end no_nodes cur last_id kids bushy some_child room low h = ground arith
    children_end (nodes_cons child no_nodes) cur last_id kids (bushy, all) some_child room low h =
        let ((pages, sl), built, after) = bind_parts (partition_to_pages_id f child cur) _ h in
        let (first, first_e, done) = bind_parts (first_page f pages) _ after in
        let same = ok_inj _ _ done in
        let (ends, total) = node_ends child cur sl pages bushy (omega arith) built in
        let positive = page_count_positive child in
        let total' : sl + 1 ≡ cur + page_count child = total in
        let last_e : max last_id sl ≡ kids.last_id = ap (λ k. k.last_id) same in
        let id : sl ≡ kids.last_id = omega (arith, last_e, total', positive) in
        (
          renamed pages kids.built sl kids.last_id (sym (append-nil pages) ∙ ap (λ k. k.built) same)
              id ends,
          omega (arith, total', id),
        )
    children_end (nodes_cons child (nodes_cons next more)) cur last_id kids (bushy, all) some_child
          room low h =
        let ((pages, sl), built, after) = bind_parts (partition_to_pages_id f child cur) _ h in
        let (first, first_e, after') = bind_parts (first_page f pages) _ after in
        let (rest, rest_e, done) =
          bind_parts
            (children_to_pages f (nodes_cons next more) ((sl + 1) % 2 ^ 32) (max last_id sl)) _
            after' in
        let same = ok_inj _ _ done in
        let next_positive = page_count_positive next in
        let positive = page_count_positive child in
        let (ends, total) = node_ends child cur sl pages bushy (omega arith) built in
        let total' : sl + 1 ≡ cur + page_count child = total in
        let small : (sl + 1) % 2 ^ 32 ≡ sl + 1 = omega (arith, total', next_positive) in
        let top : max last_id sl ≡ sl = omega (arith, total', positive) in
        let (rest_ends, rest_total) =
          children_end (nodes_cons next more) (sl + 1) sl rest all (omega (arith, next_positive))
            (omega (arith, total')) (omega arith) (rw (small, top) at rest_e) in
        let rest_total' : rest.last_id + 1 ≡ sl + 1 + page_counts (nodes_cons next more) =
          rest_total in
        let id : rest.last_id ≡ kids.last_id = ap (λ k. k.last_id) same in
        (
          renamed (pages ++ rest.built) kids.built rest.last_id kids.last_id
              (ap (λ k. k.built) same) id (prefixed pages rest.built rest.last_id rest_ends),
          omega (arith, rest_total', total', id),
        )

  -- The pages of a tree whose ids fit end in the leaf whose id is returned.
  pub partition_to_pages_ends :
      (node : PartitionNode) (last : ℕ) (pages : List Page)
      → IsBushy node
      → page_count node ≤ 2 ^ 32
      → partition_to_pages_id f node 0 ≡ ok (pages, last)
      → EndsInLeaf pages last
  partition_to_pages_ends node last pages bushy room h =
      (node_ends node 0 last pages bushy (omega arith) h).0
