-- ===== src/Bpann/Index/Centers.antt =====
-- The means of rows of one dimension, and the centroid of an index.
use ennbo.Prelude.{ℕ, suc, ◌≡◌, refl, ap, ◌∙◌, arith, All}
use ennbo.Prelude.{none, some, ok, length-map}
use ennbo.Prelude.{List, [], ◌∷◌, map, length, replicate, length-replicate}
use ennbo.Bpann.Floats.{Floats, add_row, add_rows}
use ennbo.Bpann.Page.{Page, internal, leaf}
use ennbo.Bpann.Index.{
  BpannIndex, mean_rows, centroid, root_centroid, centroid_or_default, page_by_id, read_map,
}
use ennbo.Bpann.Index.Closed.{AreLong, HasCenter, IsIndex, build_page_map_known, All-get_elem?}

add_row_total :
    (plus : ℕ → ℕ → ℕ) (acc row : List ℕ)
    → length row ≡ length acc
    → (sum : List ℕ) × (add_row plus acc row ≡ ok sum) × (length sum ≡ length acc)
unfolding add_row
add_row_total plus acc [] same = (acc, refl, refl)
add_row_total plus [] (v ∷ vs) same = ground arith
add_row_total plus (a ∷ acc) (v ∷ vs) same =
    let (sum, e, long) = add_row_total plus acc vs (omega arith) in
    (plus a v ∷ sum, rw e refl, omega arith)

pub add_rows_total :
    (plus : ℕ → ℕ → ℕ) (d : ℕ) (acc : List ℕ) (rows : List (List ℕ))
    → length acc ≡ d
    → All (λ row. length row ≡ d) rows
    → (sum : List ℕ) × (add_rows plus acc rows ≡ ok sum) × (length sum ≡ d)
unfolding add_rows
add_rows_total plus d acc [] same all = (acc, refl, same)
add_rows_total plus d acc (row ∷ rows) same (here, there) =
    let (acc', e, long) = add_row_total plus acc row (omega arith) in
    let (sum, e', long') = add_rows_total plus d acc' rows (omega arith) there in
    (sum, rw e e', long')

module _ (f : Floats) where
  pub mean_rows_total :
      (d : ℕ) (rows : List (List ℕ))
      → AreLong d rows
      → (c : List ℕ) × (mean_rows f rows ≡ ok c) × (length c ≡ d)
  unfolding mean_rows
  mean_rows_total d [] (some_row, all) = ground arith
  mean_rows_total d (row ∷ rows) (some_row, (here, there)) =
      let (sum, e, long) =
        add_rows_total f.add d (replicate (length row) 0) (row ∷ rows)
          (length-replicate (length row) 0 ∙ here) (here, there) in
      let divide = λ (s : ℕ). f.div s (f.of_usize (suc (length rows))) in
      (map divide sum, rw e refl, length-map sum divide ∙ long)

  centroid_total :
      (d : ℕ) (p : Page) → HasCenter d p → (c : List ℕ) × (centroid f p ≡ ok c) × (length c ≡ d)
  unfolding centroid
  centroid_total d (internal _ centroids _) h = mean_rows_total d centroids h
  centroid_total d (leaf _ _ _ vectors (some c)) h = (c, refl, h)
  centroid_total d (leaf _ _ _ vectors none) h = mean_rows_total d vectors h

  pub root_centroid_total :
      (d : ℕ) (index : BpannIndex)
      → IsIndex d index
      → (c : List ℕ) × (root_centroid f index ≡ ok c) × (length c ≡ d)
  unfolding root_centroid page_by_id centroid_or_default
  root_centroid_total d index h =
      let root = index.header.root_page_id in
      let (j, p, found, there) = build_page_map_known root index.pages h.rooted in
      let center = All-get_elem? (HasCenter d) index.pages j p h.centered there in
      let (c, e, long) = centroid_total d p center in
      let found' : read_map root index.page_map ≡ some j = ap (read_map root) h.mapped ∙ found in
      (c, rw (found', there) e, long)
