-- ===== src/Bpann/Index/Closed.antt =====
-- Indices whose pages refer to each other only, and the maps from page ids.
use ennbo.Prelude.{ℕ, zero, suc, ◌+◌, ◌%◌, ◌^◌, ◌≤◌, ◌≡◌, refl, arith}
use ennbo.Prelude.{true, ◌==◌, Bool-cases, Option-cases, inl, inr, ◌⊎◌}
use ennbo.Prelude.{none, some, member, All}
use ennbo.Prelude.{List, [], ◌∷◌, ◌++◌, map, length, get_elem?}
use ennbo.Bpann.Page.{Page, internal, leaf, page_id}
use ennbo.Bpann.Index.{BpannIndex, read_map, page_positions, build_page_map, number_pages, rows_of}

abbrev pub page_ids : List Page → List ℕ
page_ids pages = map page_id pages

abbrev pub IsKnown : List ℕ → ℕ → Type 0
IsKnown ids id = member id ids ≡ true

-- The children of the page are among the ids.
abbrev pub IsClosed : List ℕ → Page → Type 0
IsClosed ids (internal _ _ children) = All (IsKnown ids) children
IsClosed ids (leaf _ _ _ _ _) = Unit {0}

abbrev pub AreLong : ℕ → List (List ℕ) → Type 0
AreLong d rows = (1 ≤ length rows) × All (λ row. length row ≡ d) rows

-- The page has a centroid of the dimension.
abbrev pub HasCenter : ℕ → Page → Type 0
HasCenter d (internal _ centroids _) = AreLong d centroids
HasCenter d (leaf _ _ _ vectors (some c)) = length c ≡ d
HasCenter d (leaf _ _ _ vectors none) = AreLong d vectors

pub record IsIndex (d : ℕ) (index : BpannIndex) : Type 0 where
  pub centered : All (HasCenter d) index.pages
  pub closed : All (IsClosed (page_ids index.pages)) index.pages
  pub rooted : IsKnown (page_ids index.pages) index.header.root_page_id
  pub mapped : index.page_map ≡ build_page_map index.pages
  pub counted : length (rows_of index.pages) ≡ index.header.indexed_rows

pub member_left : (id : ℕ) (xs ys : List ℕ) → member id xs ≡ true → member id (xs ++ ys) ≡ true
member_left id (x ∷ xs) ys h = let later = member_left id xs ys in ground arith
member_left id [] ys h = cc

pub member_right : (id : ℕ) (xs ys : List ℕ) → member id ys ≡ true → member id (xs ++ ys) ≡ true
member_right id [] ys h = h
member_right id (x ∷ xs) ys h = let later = member_right id xs ys h in ground arith

pub All-impl {ℓ κ μ} :
    {A : Type ℓ} {P : A → Type κ} {Q : A → Type μ} (step : (a : A) → P a → Q a) (xs : List A)
    → All P xs
    → All Q xs
All-impl step [] all = tt
All-impl step (x ∷ xs) (here, there) = (step x here, All-impl step xs there)

pub append-All {ℓ κ} :
    {A : Type ℓ} (P : A → Type κ) (xs ys : List A) → All P xs → All P ys → All P (xs ++ ys)
append-All P [] ys all all' = all'
append-All P (x ∷ xs) ys (here, there) all' = (here, append-All P xs ys there all')

-- Each id of the pages is one of its own.
pub all-IsKnown : (ids : List ℕ) → All (IsKnown ids) ids
all-IsKnown [] = tt
all-IsKnown (id ∷ ids) =
    let itself : IsKnown (id ∷ ids) id = ground arith in
    (itself, All-impl (λ x known. member_right x (id ∷ []) ids known) ids (all-IsKnown ids))

-- The entry that a map has for a key, when an entry of the list or a later one has it.
read_map_later {ℓ} :
    {A : Type ℓ} (key k : ℕ) (a : A) (entries : List (ℕ × A))
    → ((key == k) ≡ true) ⊎ ((b : A) × (read_map key entries ≡ some b))
    → (b : A) × (read_map key ((k, a) ∷ entries) ≡ some b)
read_map_later key k a entries (inr (b, e)) = (b, rw e refl)
read_map_later key k a entries (inl e) = elim (Option-cases (read_map key entries)) [
  | inl missing ↦ (a, rw (missing, e) refl)
  | inr (b, found) ↦ (b, rw found refl)
]

member_cases :
    (id x : ℕ) (xs : List ℕ)
    → member id (x ∷ xs) ≡ true
    → ((id == x) ≡ true) ⊎ (member id xs ≡ true)
member_cases id x xs h = ground arith

-- Every id of the pages has a number.
pub number_pages_known :
    (next id : ℕ) (pages : List Page)
    → IsKnown (page_ids pages) id
    → (new : ℕ) × (read_map id (number_pages next pages).0 ≡ some new)
unfolding number_pages
number_pages_known next id [] h = cc
number_pages_known next id (p ∷ ps) h =
    let after = (next + 1) % 2 ^ 32 in
    elim (member_cases id (page_id p) (page_ids ps) h) [
      | inl e ↦ read_map_later id (page_id p) next (number_pages after ps).0 (inl e)
      | inr later ↦
          read_map_later id (page_id p) next (number_pages after ps).0
            (inr (number_pages_known after id ps later))
    ]

-- The map finds the id of a page at the position of a page.
abbrev pub IsFound : ℕ → List Page → ℕ → Type 0
IsFound i pages j = (k : ℕ) × (p : Page) × (j ≡ i + k) × (get_elem? pages k ≡ some p)

page_positions-IsFound :
    (i id j : ℕ) (pages : List Page)
    → read_map id (page_positions i pages) ≡ some j
    → IsFound i pages j
page_positions-IsFound i id j [] h = cc
page_positions-IsFound i id j (p ∷ ps) h =
    elim (Option-cases (read_map id (page_positions (suc i) ps))) [
      | inr (b, found) ↦
          let same : b ≡ j = cc in
          let (k, q, at, e) = page_positions-IsFound (suc i) id j ps (rw (← same) found) in
          (suc k, q, omega arith, e)
      | inl missing ↦ elim (Bool-cases (id == page_id p)) [
        | inl e ↦
            let there : some i ≡ some j = rw (missing, e) at h in
            let same : i ≡ j = cc in (zero, p, omega arith, refl)
        | inr e ↦ let lost : none ≡ some j = rw (missing, e) at h in cc
      ]
    ]

page_positions_known :
    (i id : ℕ) (pages : List Page)
    → IsKnown (page_ids pages) id
    → (j : ℕ) × (read_map id (page_positions i pages) ≡ some j)
page_positions_known i id [] h = cc
page_positions_known i id (p ∷ ps) h = elim (member_cases id (page_id p) (page_ids ps) h) [
  | inl e ↦ read_map_later id (page_id p) i (page_positions (suc i) ps) (inl e)
  | inr later ↦
      read_map_later id (page_id p) i (page_positions (suc i) ps)
        (inr (page_positions_known (suc i) id ps later))
]

-- A known id is found at the position of a page.
pub build_page_map_known :
    (id : ℕ) (pages : List Page)
    → IsKnown (page_ids pages) id
    → (j : ℕ) × (p : Page) × (read_map id (build_page_map pages) ≡ some j)
      × (get_elem? pages j ≡ some p)
build_page_map_known id pages h =
    let (j, found) = page_positions_known 0 id pages h in
    let (k, p, at, there) = page_positions-IsFound 0 id j pages found in
    let same : k ≡ j = omega arith in (j, p, found, rw (← same) there)

pub All-get_elem? {ℓ κ} :
    {A : Type ℓ} (P : A → Type κ) (xs : List A) (i : ℕ) (a : A)
    → All P xs
    → get_elem? xs i ≡ some a
    → P a
All-get_elem? P [] i a all h = cc
All-get_elem? P (x ∷ xs) zero a (here, there) h = let same : x ≡ a = cc in rw (← same) here
All-get_elem? P (x ∷ xs) (suc i) a (here, there) h = All-get_elem? P xs i a there h
