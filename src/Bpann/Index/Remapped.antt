-- ===== src/Bpann/Index/Remapped.antt =====
-- The pages of a part under their new ids.
use ennbo.Prelude.{ℕ, ◌≡◌, refl, sym, ap, ap₂, ◌∙◌, arith, All}
use ennbo.Prelude.{◌==◌, ==_iff, Bool-cases, Option-cases, inl, inr}
use ennbo.Prelude.{Option, none, some, ok, true}
use ennbo.Prelude.{List, [], ◌∷◌, ◌++◌, append_assoc}
use ennbo.Bpann.Page.{Page, internal, leaf, page_id}
use ennbo.Bpann.Index.{read_map, map_ids, remap_page, remap_pages, rows_of, known_ids}
use ennbo.Bpann.Index.Closed.{page_ids, IsKnown, IsClosed, HasCenter, member_right, All-impl}

pub rows_of-append : (ps qs : List Page) → rows_of (ps ++ qs) ≡ rows_of ps ++ rows_of qs
unfolding rows_of
rows_of-append [] qs = refl
rows_of-append (internal _ _ _ ∷ ps) qs = rows_of-append ps qs
rows_of-append (leaf _ ids none _ _ ∷ ps) qs =
    rw (rows_of-append ps qs) (sym (append_assoc ids (rows_of ps) (rows_of qs)))
rows_of-append (leaf _ _ (some (start, end)) _ _ ∷ ps) qs =
    rw (rows_of-append ps qs) (sym (append_assoc _ (rows_of ps) (rows_of qs)))

pub page_ids-append : (ps qs : List Page) → page_ids (ps ++ qs) ≡ page_ids ps ++ page_ids qs
page_ids-append [] qs = refl
page_ids-append (p ∷ ps) qs = ap (λ t. page_id p ∷ t) (page_ids-append ps qs)

pub widen-IsClosed :
    (ids more : List ℕ) (p : Page)
    → ((id : ℕ) → IsKnown ids id → IsKnown more id)
    → IsClosed ids p
    → IsClosed more p
widen-IsClosed ids more (internal _ _ children) wider h = All-impl wider children h
widen-IsClosed ids more (leaf _ _ _ _ _) wider h = tt

leaf_rows :
    (id new : ℕ) (ids : List ℕ) (span : Option (ℕ × ℕ)) (vs : List (List ℕ)) (c : Option (List ℕ))
    → rows_of (leaf new ids span vs c ∷ []) ≡ rows_of (leaf id ids span vs c ∷ [])
unfolding rows_of
leaf_rows id new ids none vs c = refl
leaf_rows id new ids (some (start, end)) vs c = refl

leaf_center :
    (d id new : ℕ) (ids : List ℕ) (span : Option (ℕ × ℕ)) (vs : List (List ℕ)) (c : Option (List ℕ))
    → HasCenter d (leaf id ids span vs c)
    → HasCenter d (leaf new ids span vs c)
leaf_center d id new ids span vs none h = h
leaf_center d id new ids span vs (some c) h = h

-- The new id of a known id is among the new ids.
pub known_ids-IsKnown :
    (m : List (ℕ × ℕ)) (id new : ℕ) (ids : List ℕ)
    → IsKnown ids id
    → read_map id m ≡ some new
    → IsKnown (known_ids m ids) new
known_ids-IsKnown m id new [] known e = cc
known_ids-IsKnown m id new (x ∷ ids) known e = elim (Bool-cases (id == x)) [
  | inl same ↦
      let at : id ≡ x = (==_iff id x).0 same in
      let e' : read_map x m ≡ some new = rw (← at) e in
      let itself : (new == new) ≡ true = ground arith in rw (e', itself) refl
  | inr apart ↦
      let later = known_ids-IsKnown m id new ids (rw apart at known) e in
      elim (Option-cases (read_map x m)) [
        | inl missing ↦ rw missing later
        | inr (n, found) ↦ rw found (member_right new (n ∷ []) (known_ids m ids) later)
      ]
]

-- A map of ids that has every id of a part.
module _ (d : ℕ) (id_map : List (ℕ × ℕ)) (old : List ℕ) where
  abbrev pub IsTotal : Type 0
  IsTotal = (id : ℕ) → IsKnown old id → (new : ℕ) × (read_map id id_map ≡ some new)

  map_ids_total :
      (ids : List ℕ)
      → IsTotal
      → All (IsKnown old) ids
      → (mapped : List ℕ) × (map_ids id_map ids ≡ ok mapped)
        × All (IsKnown (known_ids id_map old)) mapped
  map_ids_total [] total all = ([], refl, tt)
  map_ids_total (id ∷ ids) total (here, there) =
      let (new, e) = total id here in
      let (rest, e', all) = map_ids_total ids total there in
      (new ∷ rest, rw (e, e') refl, (known_ids-IsKnown id_map id new old here e, all))

  -- A remapped page: a new id, the same rows and centroid, children under their new ids.
  record IsRemapped (p q : Page) : Type 0 where
    numbered : read_map (page_id p) id_map ≡ some (page_id q)
    same_rows : rows_of (q ∷ []) ≡ rows_of (p ∷ [])
    same_center : HasCenter d p → HasCenter d q
    still_closed : IsClosed (known_ids id_map old) q

  remap_page_total :
      (p : Page)
      → IsTotal
      → IsKnown old (page_id p)
      → IsClosed old p
      → (q : Page) × (remap_page id_map p ≡ ok q) × IsRemapped p q
  unfolding remap_page rows_of page_id
  remap_page_total (internal id centroids children) total here closed =
      let (new, e) = total id here in
      let (ids, e', all) = map_ids_total children total closed in
      (
        internal new centroids ids,
        rw (e, e') refl,
        record { numbered = e; same_rows = refl; same_center = λ h. h; still_closed = all },
      )
  remap_page_total (leaf id ids span vectors stored) total here closed =
      let (new, e) = total id here in
      (
        leaf new ids span vectors stored,
        rw e refl,
        record {
          numbered = e;
          same_rows = leaf_rows id new ids span vectors stored;
          same_center = leaf_center d id new ids span vectors stored;
          still_closed = tt;
        },
      )

  pub remap_pages_total :
      (ps : List Page)
      → IsTotal
      → All (IsKnown old) (page_ids ps)
      → All (IsClosed old) ps
      → All (HasCenter d) ps
      → (qs : List Page) × (remap_pages id_map ps ≡ ok qs)
        × (page_ids qs ≡ known_ids id_map (page_ids ps))
        × (rows_of qs ≡ rows_of ps)
        × All (HasCenter d) qs
        × All (IsClosed (known_ids id_map old)) qs
  unfolding rows_of
  remap_pages_total [] total known closed centers = ([], refl, refl, refl, tt, tt)
  remap_pages_total (p ∷ ps) total (known, knowns) (closed, closeds) (center, centers) =
      let (q, e, r) = remap_page_total p total known closed in
      let (qs, e', ids, rows, centers', closed') =
        remap_pages_total ps total knowns closeds centers in
      (
        q ∷ qs,
        rw (e, e') refl,
        rw (r.numbered, ids) refl,
        rows_of-append (q ∷ []) qs
            ∙ ap₂ (λ s t. s ++ t) r.same_rows rows
            ∙ sym (rows_of-append (p ∷ []) ps),
        (r.same_center center, centers'),
        (r.still_closed, closed'),
      )
