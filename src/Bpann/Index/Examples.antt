-- ===== src/Bpann/Index/Examples.antt =====
-- Two leaves are merged under a root.
use ennbo.Prelude.{ℕ, ◌≡◌, refl, arith, List, [], ◌∷◌, ◌++◌, ok}
use ennbo.Bpann.Samples.{simple}
use ennbo.Bpann.Page.{internal, page_id}
use ennbo.Bpann.Index.{BpannIndex, concat_merge, build_row_ids_leaf, rows_of}
use ennbo.Bpann.Index.Closed.{IsIndex}
use ennbo.Bpann.Index.Merged.{all_rows}
use ennbo.Bpann.Index.Renumbered.{renumbered, new_roots, AreCenters, concat_merge-renumbered}

abbrev left : BpannIndex
left = build_row_ids_leaf (0 ∷ 1 ∷ []) (5 ∷ []) 1

abbrev right : BpannIndex
right = build_row_ids_leaf (2 ∷ []) (7 ∷ []) 1

left-IsIndex : IsIndex 1 left
unfolding build_row_ids_leaf rows_of page_id
left-IsIndex = record {
  centered = (refl, tt);
  closed = (tt, tt);
  rooted = refl;
  mapped = refl;
  counted = refl;
}

right-IsIndex : IsIndex 1 right
unfolding build_row_ids_leaf rows_of page_id
right-IsIndex = record {
  centered = (refl, tt);
  closed = (tt, tt);
  rooted = refl;
  mapped = refl;
  counted = refl;
}

concat_merge-renumbered_example :
    (index : BpannIndex) × (cs : List (List ℕ)) × (concat_merge simple (left ∷ right ∷ [])
      ≡ ok index)
    × IsIndex 1 index
    × (rows_of index.pages ≡ all_rows (left ∷ right ∷ []))
    × AreCenters simple 1 (left ∷ right ∷ []) cs
    × (index.pages
        ≡ renumbered 1 (left ∷ right ∷ [])
          ++ (internal 0 cs (new_roots 1 (left ∷ right ∷ [])) ∷ []))
unfolding build_row_ids_leaf page_id
concat_merge-renumbered_example =
    concat_merge-renumbered simple 1 (left ∷ right ∷ []) (omega arith)
      (left-IsIndex, (right-IsIndex, tt)) ((refl, tt), ((refl, tt), tt)) (omega arith)
