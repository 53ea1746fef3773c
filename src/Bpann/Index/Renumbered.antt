-- ===== src/Bpann/Index/Renumbered.antt =====
-- The ids that `concat_merge` gives to the pages of its parts.
use ennbo.Prelude.{ℕ, suc, ◌+◌, ◌%◌, ◌^◌, ◌≤◌, ◌<◌, ◌≡◌, refl, sym, ap, ap₂, ◌∙◌, arith, All}
use ennbo.Prelude.{Bool-cases, inl, inr, ◌==◌, if◌then◌else◌, ==_iff, false}
use ennbo.Prelude.{none, some, ok, ok_inj, bind_parts, member, member_tail, AreDistinct}
use ennbo.Prelude.{List, [], ◌∷◌, ◌++◌, map, length, append_assoc, append-nil}
use ennbo.Bpann.Floats.{Floats}
use ennbo.Bpann.Page.{Page, internal, leaf, page_id}
use ennbo.Bpann.Index.{
  BpannIndex, Merging, read_map, map_ids, remap_page, remap_pages, rows_of, number_pages, with_part,
  root_centroid, merge_part, merge_parts, merging, merged_index, concat_merge,
}
use ennbo.Bpann.Index.Closed.{page_ids, IsKnown, IsClosed, IsIndex, all-IsKnown}
use ennbo.Bpann.Index.Centers.{root_centroid_total}
use ennbo.Bpann.Index.Merged.{all_rows, concat_merge_total}

-- The place of the first occurrence.
abbrev pub place_of : ℕ → List ℕ → ℕ
place_of id [] = 0
place_of id (x ∷ xs) = let later = suc (place_of id xs) in if id == x then 0 else later

-- A page whose ids are places in the list of ids, counted from `base`.
abbrev pub renumber : ℕ → List ℕ → Page → Page
renumber base ids (internal id centroids children) =
    internal (base + place_of id ids) centroids (map (λ child. base + place_of child ids) children)
renumber base ids (leaf id rows span vectors stored) =
    leaf (base + place_of id ids) rows span vectors stored

-- The pages of the parts in order, each part counted on from the one before it, and their roots.
abbrev pub renumbered : ℕ → List BpannIndex → List Page
renumbered base [] = []
renumbered base (part ∷ parts) =
    map (renumber base (page_ids part.pages)) part.pages
    ++ renumbered (base + length part.pages) parts

abbrev pub new_roots : ℕ → List BpannIndex → List ℕ
new_roots base [] = []
new_roots base (part ∷ parts) =
    (base + place_of part.header.root_page_id (page_ids part.pages))
    ∷ new_roots (base + length part.pages) parts

abbrev pub page_total : List BpannIndex → ℕ
page_total [] = 0
page_total (part ∷ parts) = length part.pages + page_total parts

read_map_unknown :
    (id next : ℕ) (ps : List Page)
    → member id (page_ids ps) ≡ false
    → read_map id (number_pages next ps).0 ≡ none
unfolding number_pages
read_map_unknown id next [] h = refl
read_map_unknown id next (p ∷ ps) h =
    let (apart, unknown) = member_tail id (page_id p) (page_ids ps) h in
    rw (read_map_unknown id ((next + 1) % 2 ^ 32) ps unknown, apart) refl

IsKnown-later : (id x : ℕ) (xs : List ℕ) → (id == x) ≡ false → IsKnown (x ∷ xs) id → IsKnown xs id
IsKnown-later id x xs apart known = rw apart at known

number_pages_read :
    (id next : ℕ) (ps : List Page)
    → AreDistinct (page_ids ps)
    → IsKnown (page_ids ps) id
    → next + length ps < 2 ^ 32
    → read_map id (number_pages next ps).0 ≡ some (next + place_of id (page_ids ps))
unfolding number_pages
number_pages_read id next [] d known few = cc
number_pages_read id next (p ∷ ps) (new, d) known few =
    let step : (next + 1) % 2 ^ 32 ≡ next + 1 = omega arith in
    elim (Bool-cases (id == page_id p)) [
      | inl same ↦
          let at : id ≡ page_id p = (==_iff id (page_id p)).0 same in
          let unknown : member id (page_ids ps) ≡ false = rw at new in
          let here : next ≡ next + 0 = omega arith in
          rw (read_map_unknown id ((next + 1) % 2 ^ 32) ps unknown, same) (ap some here)
      | inr apart ↦
          let known' = IsKnown-later id (page_id p) (page_ids ps) apart known in
          let later = number_pages_read id (next + 1) ps d known' (omega arith) in
          let shift : next + 1 + place_of id (page_ids ps)
              ≡ next + suc (place_of id (page_ids ps)) =
            omega arith in
          rw (step, later, apart) (ap some shift)
    ]

number_pages_next :
    (next : ℕ) (ps : List Page)
    → next + length ps < 2 ^ 32
    → (number_pages next ps).1 ≡ next + length ps
unfolding number_pages
number_pages_next next [] few = omega arith
number_pages_next next (p ∷ ps) few =
    let step : (next + 1) % 2 ^ 32 ≡ next + 1 = omega arith in
    rw step (omega (arith, number_pages_next (next + 1) ps (omega arith)))

-- A map that sends each known id to its place.
module _ (id_map : List (ℕ × ℕ)) (base : ℕ) (old : List ℕ)
    (placed : (id : ℕ) → IsKnown old id → read_map id id_map ≡ some (base + place_of id old)) where
  map_ids_placed :
      (ids : List ℕ)
      → All (IsKnown old) ids
      → map_ids id_map ids ≡ ok (map (λ child. base + place_of child old) ids)
  map_ids_placed [] all = refl
  map_ids_placed (id ∷ ids) (here, there) = rw (placed id here, map_ids_placed ids there) refl

  remap_page_placed :
      (p : Page)
      → IsKnown old (page_id p)
      → IsClosed old p
      → remap_page id_map p ≡ ok (renumber base old p)
  unfolding remap_page page_id
  remap_page_placed (internal id centroids children) known closed =
      rw (placed id known, map_ids_placed children closed) refl
  remap_page_placed (leaf id rows span vectors stored) known closed = rw (placed id known) refl

  remap_pages_placed :
      (ps : List Page)
      → All (IsKnown old) (page_ids ps)
      → All (IsClosed old) ps
      → remap_pages id_map ps ≡ ok (map (renumber base old) ps)
  remap_pages_placed [] known closed = refl
  remap_pages_placed (p ∷ ps) (here, known) (at, closed) =
      rw (remap_page_placed p here at, remap_pages_placed ps known closed) refl

module _ (f : Floats) (d : ℕ) where
  -- The centroids of the roots of the parts.
  abbrev pub AreCenters : List BpannIndex → List (List ℕ) → Type 0
  AreCenters [] cs = cs ≡ []
  AreCenters (part ∷ parts) [] = ⊥
  AreCenters (part ∷ parts) (c ∷ cs) = (root_centroid f part ≡ ok c) × AreCenters parts cs

  merge_part-renumbered :
      (m m' : Merging) (part : BpannIndex)
      → IsIndex d part
      → AreDistinct (page_ids part.pages)
      → m.next_id + length part.pages < 2 ^ 32
      → merge_part f m part ≡ ok m'
      → (c : List ℕ) × (root_centroid f part ≡ ok c)
        × (m'.merged_pages
            ≡ m.merged_pages ++ map (renumber m.next_id (page_ids part.pages)) part.pages)
        × (m'.child_page_ids
            ≡ m.child_page_ids
              ++ ((m.next_id + place_of part.header.root_page_id (page_ids part.pages)) ∷ []))
        × (m'.child_centroids ≡ m.child_centroids ++ (c ∷ []))
        × (m'.next_id ≡ m.next_id + length part.pages)
  unfolding merge_part
  merge_part-renumbered m m' part w distinct few e =
      let old = page_ids part.pages in
      let id_map = (number_pages m.next_id part.pages).0 in
      let placed = λ (id : ℕ) (known : IsKnown old id).
        number_pages_read id m.next_id part.pages distinct known few in
      let (c, center_e, long) = root_centroid_total f d part w in
      let root = m.next_id + place_of part.header.root_page_id old in
      let qs = map (renumber m.next_id old) part.pages in
      let pages_e =
        remap_pages_placed id_map m.next_id old placed part.pages (all-IsKnown old) w.closed in
      let made = with_part m part id_map (number_pages m.next_id part.pages).1 root c qs in
      let run : merge_part f m part ≡ ok made =
        rw (placed part.header.root_page_id w.rooted, center_e, pages_e) refl in
      let same : m' ≡ made = ok_inj m' made (sym e ∙ run) in
      (
        c,
        center_e,
        ap (λ (s : Merging). s.merged_pages) same,
        ap (λ (s : Merging). s.child_page_ids) same,
        ap (λ (s : Merging). s.child_centroids) same,
        ap (λ (s : Merging). s.next_id) same ∙ number_pages_next m.next_id part.pages few,
      )

  merge_parts-renumbered :
      (m m' : Merging) (parts : List BpannIndex)
      → All (IsIndex d) parts
      → All (λ (part : BpannIndex). AreDistinct (page_ids part.pages)) parts
      → m.next_id + page_total parts < 2 ^ 32
      → merge_parts f m parts ≡ ok m'
      → (cs : List (List ℕ)) × AreCenters parts cs
        × (m'.merged_pages ≡ m.merged_pages ++ renumbered m.next_id parts)
        × (m'.child_page_ids ≡ m.child_page_ids ++ new_roots m.next_id parts)
        × (m'.child_centroids ≡ m.child_centroids ++ cs)
  unfolding merge_parts
  merge_parts-renumbered m m' [] all distinct few e =
      let same : m ≡ m' = ok_inj m m' e in
      (
        [],
        refl,
        rw (← same) (sym (append-nil m.merged_pages)),
        rw (← same) (sym (append-nil m.child_page_ids)),
        rw (← same) (sym (append-nil m.child_centroids)),
      )
  merge_parts-renumbered m m' (part ∷ parts) (w, all) (new, distinct) few e =
      let (m1, e1, rest) = bind_parts (merge_part f m part) _ e in
      let (c, center, pages, roots, centers, next) =
        merge_part-renumbered m m1 part w new (omega arith) e1 in
      let (cs, are, pages', roots', centers') =
        merge_parts-renumbered m1 m' parts all distinct (omega arith) rest in
      (
        c ∷ cs,
        (center, are),
        pages'
            ∙ ap₂ (λ ps n. ps ++ renumbered n parts) pages next
            ∙ append_assoc m.merged_pages _ _,
        roots'
            ∙ ap₂ (λ ids n. ids ++ new_roots n parts) roots next
            ∙ append_assoc m.child_page_ids _ _,
        centers' ∙ ap (λ t. t ++ cs) centers ∙ append_assoc m.child_centroids (c ∷ []) cs,
      )

  -- Two or more indices of one dimension whose pages refer to each other only, with different ids in
  -- each index and fewer than 2^32 - 1 pages in all, are merged without a panic into such an index,
  -- whose leaves hold the rows of their leaves in order. Its pages are those of the parts in order,
  -- numbered from 1 on, each child under the number of the page that it was, and at last a root with
  -- id 0 above the roots of the parts and their centroids.
  pub concat_merge-renumbered :
      (parts : List BpannIndex)
      → 2 ≤ length parts
      → All (IsIndex d) parts
      → All (λ (part : BpannIndex). AreDistinct (page_ids part.pages)) parts
      → 1 + page_total parts < 2 ^ 32
      → (index : BpannIndex) × (cs : List (List ℕ)) × (concat_merge f parts ≡ ok index)
        × IsIndex d index
        × (rows_of index.pages ≡ all_rows parts)
        × AreCenters parts cs
        × (index.pages ≡ renumbered 1 parts ++ (internal 0 cs (new_roots 1 parts) ∷ []))
  unfolding concat_merge
  concat_merge-renumbered [] two all distinct few = ground arith
  concat_merge-renumbered (single ∷ []) two all distinct few = ground arith
  concat_merge-renumbered (first ∷ second ∷ parts) two all distinct few =
      let whole = first ∷ second ∷ parts in
      let (index, e, w, rows) = concat_merge_total f d whole (omega arith) all in
      let (m, merged, made) = bind_parts (merge_parts f merging whole) _ e in
      let (cs, are, pages, roots, centers) =
        merge_parts-renumbered merging m whole all distinct few merged in
      let same : merged_index first.header m ≡ index =
        ok_inj (merged_index first.header m) index made in
      (
        index,
        cs,
        e,
        w,
        rows,
        are,
        ap (λ (s : BpannIndex). s.pages) (sym same)
            ∙ ap₂ (λ ps top. ps ++ (top ∷ [])) pages (ap₂ (internal 0) centers roots),
      )
