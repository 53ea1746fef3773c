-- ===== src/Bpann/Index/Merged.antt =====
-- What `concat_merge` makes of indices whose pages refer to each other only.
use ennbo.Prelude.{ℕ, suc, ◌+◌, ◌≤◌, ◌≡◌, refl, sym, ap, ap₂, ◌∙◌, arith, All, joined-All}
use ennbo.Prelude.{ok, length-append, member}
use ennbo.Prelude.{List, [], ◌∷◌, ◌++◌, length, append_assoc, append-nil}
use ennbo.Bpann.Floats.{Floats}
use ennbo.Bpann.Page.{Page, internal, page_id}
use ennbo.Bpann.Index.{
  IndexHeader, BpannIndex, Merging, rows_of, number_pages, with_part, merge_part, merge_parts,
  merging, merged_index, concat_merge,
}
use ennbo.Bpann.Index.Closed.{
  page_ids, IsKnown, IsClosed, HasCenter, IsIndex, member_left, member_right, append-All, All-impl,
  all-IsKnown, number_pages_known,
}
use ennbo.Bpann.Index.Centers.{root_centroid_total}
use ennbo.Bpann.Index.Remapped.{
  rows_of-append, page_ids-append, widen-IsClosed, known_ids-IsKnown, remap_pages_total,
}

-- The rows of the leaves of several indices.
abbrev pub all_rows : List BpannIndex → List ℕ
all_rows [] = []
all_rows (index ∷ indices) = rows_of index.pages ++ all_rows indices

pub record IsMerging (d : ℕ) (m : Merging) : Type 0 where
  pub centered : All (HasCenter d) m.merged_pages
  pub closed : All (IsClosed (page_ids m.merged_pages)) m.merged_pages
  pub rooted : All (IsKnown (page_ids m.merged_pages)) m.child_page_ids
  pub long : All (λ c. length c ≡ d) m.child_centroids
  pub counted : length (rows_of m.merged_pages) ≡ m.total_rows

IsClosed-wider :
    (ids more : List ℕ) (ps : List Page)
    → ((id : ℕ) → IsKnown ids id → IsKnown more id)
    → All (IsClosed ids) ps
    → All (IsClosed more) ps
IsClosed-wider ids more ps wider = All-impl (λ p. widen-IsClosed ids more p wider) ps

module _ (f : Floats) (d : ℕ) where
  -- A part adds its rows behind those that were there.
  merge_part_total :
      (m : Merging) (part : BpannIndex)
      → IsMerging d m
      → IsIndex d part
      → (m' : Merging) × (merge_part f m part ≡ ok m')
        × IsMerging d m'
        × (rows_of m'.merged_pages ≡ rows_of m.merged_pages ++ rows_of part.pages)
        × (length m'.child_centroids ≡ suc (length m.child_centroids))
  unfolding merge_part
  merge_part_total m part h w =
      let id_map = (number_pages m.next_id part.pages).0 in
      let total = λ (id : ℕ). number_pages_known m.next_id id part.pages in
      let old = page_ids part.pages in
      let (root, root_e) = total part.header.root_page_id w.rooted in
      let (c, center_e, long) = root_centroid_total f d part w in
      let (qs, pages_e, ids, rows, centers, closed) =
        remap_pages_total d id_map old part.pages total (all-IsKnown old) w.closed w.centered in
      let all = page_ids (m.merged_pages ++ qs) in
      let old_all : (id : ℕ) → IsKnown (page_ids m.merged_pages) id → IsKnown all id = λ id known.
        ap (λ s. member id s) (page_ids-append m.merged_pages qs)
        ∙ member_left id (page_ids m.merged_pages) (page_ids qs) known in
      let new_all : (id : ℕ) → IsKnown (page_ids qs) id → IsKnown all id = λ id known.
        ap (λ s. member id s) (page_ids-append m.merged_pages qs)
        ∙ member_right id (page_ids m.merged_pages) (page_ids qs) known in
      let known_root = known_ids-IsKnown id_map part.header.root_page_id root old w.rooted root_e in
      let root_all = new_all root (rw ids known_root) in
      (
        with_part m part id_map (number_pages m.next_id part.pages).1 root c qs,
        rw (root_e, center_e, pages_e) refl,
        record {
          centered = append-All (HasCenter d) m.merged_pages qs h.centered centers;
          closed =
              append-All (IsClosed all) m.merged_pages qs
                (IsClosed-wider (page_ids m.merged_pages) all m.merged_pages old_all h.closed)
                (IsClosed-wider (page_ids qs) all qs new_all (rw ids closed));
          rooted =
              joined-All (IsKnown all) m.child_page_ids root
                (All-impl old_all m.child_page_ids h.rooted) root_all;
          long = joined-All (λ s. length s ≡ d) m.child_centroids c h.long long;
          counted =
              ap length (rows_of-append m.merged_pages qs)
              ∙ length-append (rows_of m.merged_pages) (rows_of qs)
              ∙ ap₂ (λ a b. a + b) h.counted (ap length rows ∙ w.counted);
        },
        rows_of-append m.merged_pages qs ∙ ap (λ t. rows_of m.merged_pages ++ t) rows,
        omega (arith, length-append m.child_centroids (c ∷ [])),
      )

  merge_parts_total :
      (m : Merging) (parts : List BpannIndex)
      → IsMerging d m
      → All (IsIndex d) parts
      → (m' : Merging) × (merge_parts f m parts ≡ ok m')
        × IsMerging d m'
        × (rows_of m'.merged_pages ≡ rows_of m.merged_pages ++ all_rows parts)
        × (length m'.child_centroids ≡ length m.child_centroids + length parts)
  unfolding merge_parts
  merge_parts_total m [] h all =
      (m, refl, h, sym (append-nil (rows_of m.merged_pages)), omega arith)
  merge_parts_total m (part ∷ parts) h (here, there) =
      let (m1, e, h1, rows, more) = merge_part_total m part h here in
      let (m2, e', h2, rows', more') = merge_parts_total m1 parts h1 there in
      (
        m2,
        rw e e',
        h2,
        rows'
            ∙ ap (λ t. t ++ all_rows parts) rows
            ∙ append_assoc (rows_of m.merged_pages) (rows_of part.pages) (all_rows parts),
        omega arith,
      )

  merging-IsMerging : IsMerging d merging
  unfolding rows_of
  merging-IsMerging = record { centered = tt; closed = tt; rooted = tt; long = tt; counted = refl }

  merged_index-IsIndex :
      (h : IndexHeader) (m : Merging)
      → IsMerging d m
      → 1 ≤ length m.child_centroids
      → IsIndex d (merged_index h m)
  unfolding rows_of page_id
  merged_index-IsIndex h m w some_child =
      let top = internal 0 m.child_centroids m.child_page_ids in
      let all = page_ids (m.merged_pages ++ (top ∷ [])) in
      let split = page_ids-append m.merged_pages (top ∷ []) in
      let wider : (id : ℕ) → IsKnown (page_ids m.merged_pages) id → IsKnown all id = λ id known.
        ap (λ s. member id s) split ∙ member_left id (page_ids m.merged_pages) (0 ∷ []) known in
      record {
        centered = joined-All (HasCenter d) m.merged_pages top w.centered (some_child, w.long);
        closed =
            joined-All (IsClosed all) m.merged_pages top
              (IsClosed-wider (page_ids m.merged_pages) all m.merged_pages wider w.closed)
              (All-impl wider m.child_page_ids w.rooted);
        rooted =
            ap (λ s. member 0 s) split ∙ member_right 0 (page_ids m.merged_pages) (0 ∷ []) refl;
        mapped = refl;
        counted = ap length (rows_of-append m.merged_pages (top ∷ []) ∙ append-nil _) ∙ w.counted;
      }

  -- Indices of one dimension whose pages refer to each other only are merged without a panic, into
  -- such an index: its leaves hold the rows of the parts' leaves, in their order.
  pub concat_merge_total :
      (parts : List BpannIndex)
      → 1 ≤ length parts
      → All (IsIndex d) parts
      → (index : BpannIndex) × (concat_merge f parts ≡ ok index)
        × IsIndex d index
        × (rows_of index.pages ≡ all_rows parts)
  unfolding concat_merge rows_of
  concat_merge_total [] some_part all = ground arith
  concat_merge_total (single ∷ []) some_part (here, _) =
      (single, refl, here, sym (append-nil (rows_of single.pages)))
  concat_merge_total (first ∷ second ∷ parts) some_part all =
      let (m, e, h, rows, more) =
        merge_parts_total merging (first ∷ second ∷ parts) merging-IsMerging all in
      (
        merged_index first.header m,
        rw e refl,
        merged_index-IsIndex first.header m h (omega arith),
        rows_of-append m.merged_pages (internal 0 m.child_centroids m.child_page_ids ∷ [])
            ∙ append-nil (rows_of m.merged_pages)
            ∙ rows,
      )
