-- ===== src/Bpann/Forest/Tiles.antt =====
-- The forests hold each row of their span once, in order.
use ennbo.Prelude.{ℕ, zero, suc, ◌+◌, ◌-◌, ◌%◌, ◌^◌, ◌<◌, ◌≤◌, max, min, ltb, range}
use ennbo.Prelude.{◌≡◌, refl, sym, ap, ap₂, ◌∙◌, arith, All, range-append, length-range}
use ennbo.Prelude.{List, [], ◌∷◌, ◌++◌, length}
use ennbo.Prelude.{Bool-cases, inl, inr, joined-All, append-nil, member}
use ennbo.Prelude.{Result, ok}
use ennbo.Bpann.Floats.{BpannError}
use ennbo.Bpann.Page.{Page, internal, page_id}
use ennbo.Bpann.Index.{
  BpannIndex, IndexHeader, default_skip_neighbors, rows_of, indexed, from_pages_unpersisted,
}
use ennbo.Bpann.Index.Closed.{
  page_ids, IsClosed, HasCenter, IsIndex, member_left, member_right, All-impl, all-IsKnown,
}
use ennbo.Bpann.Index.Remapped.{rows_of-append, page_ids-append, widen-IsClosed}
use ennbo.Bpann.Forest.{Leaves, no_leaves, push_leaf, forest_leaves, build_forest}

-- The body gives a chunk a leaf with its id, its rows and a centroid of the dimension.
abbrev pub IsBody : ℕ → ℕ → (ℕ → ℕ → ℕ → Result BpannError (List ℕ × Page)) → Type 0
IsBody d end body =
    (id cur chunk_end : ℕ)
    → cur < chunk_end
    → chunk_end ≤ end
    → (c : List ℕ) × (p : Page) × (body id cur chunk_end ≡ ok (c, p))
      × (length c ≡ d)
      × (page_id p ≡ id)
      × HasCenter d p
      × IsClosed [] p
      × (rows_of (p ∷ []) ≡ range cur (chunk_end - cur))

-- What the loop pushes for the rows of a span.
pub record AreLeaves (d cur end : ℕ) (l : Leaves) : Type 0 where
  pub centered : All (HasCenter d) l.pages
  pub closed : All (IsClosed []) l.pages
  pub ids : page_ids l.pages ≡ l.child_page_ids
  pub long : All (λ c. length c ≡ d) l.child_centroids
  pub rows : rows_of l.pages ≡ range cur (end - cur)
  pub some_leaf : cur < end → 1 ≤ length l.child_centroids

no_leaves-AreLeaves : (d cur end : ℕ) → end ≤ cur → AreLeaves d cur end no_leaves
unfolding rows_of
no_leaves-AreLeaves d cur end h =
    let none_left : 0 ≡ end - cur = omega arith in
    record {
      centered = tt;
      closed = tt;
      ids = refl;
      long = tt;
      rows = ap (range cur) none_left;
      some_leaf = λ before. omega (arith, before);
    }

module _ (d : ℕ) (body : ℕ → ℕ → ℕ → Result BpannError (List ℕ × Page)) (end leaf_rows : ℕ) where
  forest_leaves_total :
      (fuel next_id cur : ℕ)
      → IsBody d end body
      → 1 ≤ leaf_rows
      → end ≤ cur + fuel
      → (l : Leaves) × (forest_leaves body fuel next_id cur end leaf_rows ≡ ok l)
        × AreLeaves d cur end l
  unfolding forest_leaves rows_of
  forest_leaves_total zero next_id cur good some_rows enough =
      (no_leaves, refl, no_leaves-AreLeaves d cur end (omega arith))
  forest_leaves_total (suc fuel) next_id cur good some_rows enough =
      elim (Bool-cases (ltb cur end)) [
        | inr past ↦
            (no_leaves, rw (forest_leaves, past) refl, no_leaves-AreLeaves d cur end (ground arith))
        | inl before ↦
            let inside : cur < end = ground arith in
            let chunk_end = min (cur + leaf_rows) end in
            let forth : cur < chunk_end = omega arith in
            let within_end : chunk_end ≤ end = omega arith in
            let (c, p, e, long, id, center, closed, rows) =
              good next_id cur chunk_end forth within_end in
            let (l, e', h) =
              forest_leaves_total fuel ((next_id + 1) % 2 ^ 32) chunk_end good some_rows
                (omega arith) in
            let split : chunk_end - cur + (end - chunk_end) ≡ end - cur = omega arith in
            let next : cur + (chunk_end - cur) ≡ chunk_end = omega arith in
            (
              push_leaf next_id c p l,
              rw (forest_leaves, before, e, e') refl,
              record {
                centered = (center, h.centered);
                closed = (closed, h.closed);
                ids = ap₂ (λ i is. i ∷ is) id h.ids;
                long = (long, h.long);
                rows =
                    rows_of-append (p ∷ []) l.pages
                    ∙ ap₂ (λ s t. s ++ t) rows h.rows
                    ∙ ap (λ i. range cur (chunk_end - cur) ++ range i (end - chunk_end)) (sym next)
                    ∙ range-append cur (chunk_end - cur) (end - chunk_end)
                    ∙ ap (range cur) split;
                some_leaf = λ some_before. omega arith;
              },
            )
      ]

  -- The header of a forest.
  abbrev forest_header : ℕ → IndexHeader
  forest_header rows = record {
    num_dim = d;
    indexed_rows = rows;
    root_page_id = 0;
    leaf_capacity = max (max leaf_rows 1) 1;
    skip_neighbors = default_skip_neighbors;
  }

  from_pages-append :
      (rows : ℕ) (ps : List Page) (top : Page)
      → from_pages_unpersisted d rows (max leaf_rows 1) (ps ++ (top ∷ []))
        ≡ ok (indexed (forest_header rows) (ps ++ (top ∷ [])) [])
  unfolding from_pages_unpersisted
  from_pages-append rows [] top = refl
  from_pages-append rows (p ∷ ps) top = refl

  -- The forest of a span that is not empty is an index of its rows.
  pub build_forest_total :
      (start : ℕ)
      → IsBody d end body
      → start < end
      → (fits : 1 ≤ leaf_rows)
      → (index : BpannIndex) × (build_forest body d start end leaf_rows ≡ ok index)
        × IsIndex d index
        × (rows_of index.pages ≡ range start (end - start))
        × (index.header.indexed_rows ≡ end - start)
  unfolding build_forest from_pages_unpersisted rows_of page_id
  build_forest_total start good inside fits =
      let (l, e, h) = forest_leaves_total (end - start) 1 start good fits (omega arith) in
      forest_index l e h
    where
      forest_index :
          (l : Leaves)
          → forest_leaves body (end - start) 1 start end leaf_rows ≡ ok l
          → AreLeaves d start end l
          → (index : BpannIndex) × (build_forest body d start end leaf_rows ≡ ok index)
            × IsIndex d index
            × (rows_of index.pages ≡ range start (end - start))
            × (index.header.indexed_rows ≡ end - start)
      forest_index l e h =
          let top = internal 0 l.child_centroids l.child_page_ids in
          let all = page_ids (l.pages ++ (top ∷ [])) in
          let split = page_ids-append l.pages (top ∷ []) in
          let whole : max leaf_rows 1 ≡ leaf_rows = omega arith in
          let e' = ap (forest_leaves body (end - start) 1 start end) whole ∙ e in
          let rows = rows_of-append l.pages (top ∷ []) ∙ append-nil (rows_of l.pages) ∙ h.rows in
          (
            indexed (forest_header (end - start)) (l.pages ++ (top ∷ [])) [],
            rw e' (from_pages-append (end - start) l.pages top),
            record {
              centered =
                  joined-All (HasCenter d) l.pages top h.centered (h.some_leaf inside, h.long);
              closed =
                  joined-All (IsClosed all) l.pages top
                    (All-impl (λ p. widen-IsClosed [] all p (λ id none_known. cc)) l.pages h.closed)
                    (All-impl
                      (λ id known.
                        ap (member id) split ∙ member_left id (page_ids l.pages) (0 ∷ []) known)
                      l.child_page_ids (rw (← h.ids) (all-IsKnown (page_ids l.pages))));
              rooted = ap (member 0) split ∙ member_right 0 (page_ids l.pages) (0 ∷ []) refl;
              mapped = refl;
              counted = ap length rows ∙ length-range start (end - start);
            },
            rows,
            refl,
          )
