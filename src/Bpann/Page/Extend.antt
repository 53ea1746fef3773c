-- ===== src/Bpann/Page/Extend.antt =====
-- What the readers of page.rs do when more bytes stand behind the input.
use ennbo.Prelude.{
  ℕ, zero, suc, ◌+◌, ◌≤◌, ◌<◌, ◌≡◌, refl, List, [], ◌∷◌, ◌++◌, length, drop, get_or,
}
use ennbo.Prelude.{ok, bind_parts, ltb, arith}
use ennbo.Prelude.{length-append, Result-cases, Bool-cases, inl, inr, ◌-◌}
use ennbo.Bpann.Page.{Page}
use ennbo.Bpann.Page.Parse.{u32_at, Header, read_u32, read_f32, read_f32_vec, read_rows, read_ids}
use ennbo.Bpann.Page.Parse.{parse_header, by_kind, deserialize_rest, deserialize_internal}
use ennbo.Bpann.Page.Parse.{deserialize_leaf, deserialize_row_id_leaf, deserialize_range_leaf}

read_u32-append :
    (bs more : List ℕ) {n : ℕ} {rest : List ℕ}
    → read_u32 bs ≡ ok (n, rest)
    → read_u32 (bs ++ more) ≡ ok (n, rest ++ more)
unfolding read_u32
read_u32-append [] more h = cc
read_u32-append (a ∷ []) more h = cc
read_u32-append (a ∷ b ∷ []) more h = cc
read_u32-append (a ∷ b ∷ c ∷ []) more h = cc
read_u32-append (a ∷ b ∷ c ∷ d ∷ bs) more h = ground arith

read_f32-append :
    (bs more : List ℕ) {n : ℕ} {rest : List ℕ}
    → read_f32 bs ≡ ok (n, rest)
    → read_f32 (bs ++ more) ≡ ok (n, rest ++ more)
unfolding read_f32
read_f32-append [] more h = cc
read_f32-append (a ∷ []) more h = cc
read_f32-append (a ∷ b ∷ []) more h = cc
read_f32-append (a ∷ b ∷ c ∷ []) more h = cc
read_f32-append (a ∷ b ∷ c ∷ d ∷ bs) more h = ground arith

read_f32_vec-append :
    (k : ℕ) (bs more : List ℕ) {v rest : List ℕ}
    → read_f32_vec k bs ≡ ok (v, rest)
    → read_f32_vec k (bs ++ more) ≡ ok (v, rest ++ more)
unfolding read_f32_vec
read_f32_vec-append zero bs more h = ground arith
read_f32_vec-append (suc k) bs more h = elim (Result-cases (read_f32 bs)) [
  | inl ((x, r), e) ↦ elim (Result-cases (read_f32_vec k r)) [
    | inl ((xs, r'), e') ↦
        ground (arith, read_f32-append bs more e, read_f32_vec-append k r more e')
    | inr (x', e') ↦ ground arith
  ]
  | inr (x, e) ↦ ground arith
]

read_ids-append :
    (k : ℕ) (bs more : List ℕ) {ids rest : List ℕ}
    → read_ids k bs ≡ ok (ids, rest)
    → read_ids k (bs ++ more) ≡ ok (ids, rest ++ more)
unfolding read_ids
read_ids-append zero bs more h = ground arith
read_ids-append (suc k) bs more h = elim (Result-cases (read_u32 bs)) [
  | inl ((x, r), e) ↦ elim (Result-cases (read_ids k r)) [
    | inl ((xs, r'), e') ↦ ground (arith, read_u32-append bs more e, read_ids-append k r more e')
    | inr (x', e') ↦ ground arith
  ]
  | inr (x, e) ↦ ground arith
]

read_rows-append :
    (num_dim k : ℕ) (bs more : List ℕ) {ids : List ℕ} {vs : List (List ℕ)} {rest : List ℕ}
    → read_rows num_dim k bs ≡ ok (ids, vs, rest)
    → read_rows num_dim k (bs ++ more) ≡ ok (ids, vs, rest ++ more)
unfolding read_rows
read_rows-append nd zero bs more h = ground arith
read_rows-append nd (suc k) bs more h = elim (Result-cases (read_u32 bs)) [
  | inl ((x, r), e) ↦ elim (Result-cases (read_f32_vec nd r)) [
    | inl ((v, r'), e') ↦ elim (Result-cases (read_rows nd k r')) [
      | inl ((xs, vs', r''), e'') ↦ ground (
        arith,
        read_u32-append bs more e,
        read_f32_vec-append nd r more e',
        read_rows-append nd k r' more e'',
      )
      | inr (x', e'') ↦ ground arith
    ]
    | inr (x', e') ↦ ground arith
  ]
  | inr (x, e) ↦ ground arith
]

-- The header with more bytes behind its body.
abbrev extend : Header → List ℕ → Header
extend h more = record h { body = h.body ++ more }

internal-append :
    (h : Header) (more : List ℕ) {p : Page} {rest : List ℕ}
    → deserialize_internal h ≡ ok (p, rest)
    → deserialize_internal (extend h more) ≡ ok (p, rest ++ more)
unfolding deserialize_internal
internal-append h more e = elim (Result-cases (read_u32 h.body)) [
  | inl ((n, r), e') ↦ elim (Result-cases (read_rows h.num_dim n r)) [
    | inl ((xs, vs, r'), e'') ↦
        ground (arith, read_u32-append h.body more e', read_rows-append h.num_dim n r more e'')
    | inr (x, e'') ↦ ground arith
  ]
  | inr (x, e') ↦ ground arith
]

leaf-append :
    (h : Header) (more : List ℕ) {p : Page} {rest : List ℕ}
    → deserialize_leaf h ≡ ok (p, rest)
    → deserialize_leaf (extend h more) ≡ ok (p, rest ++ more)
unfolding deserialize_leaf
leaf-append h more e = elim (Result-cases (read_u32 h.body)) [
  | inl ((n, r), e') ↦ elim (Result-cases (read_rows h.num_dim n r)) [
    | inl ((xs, vs, r'), e'') ↦
        ground (arith, read_u32-append h.body more e', read_rows-append h.num_dim n r more e'')
    | inr (x, e'') ↦ ground arith
  ]
  | inr (x, e') ↦ ground arith
]

row_id_leaf-append :
    (h : Header) (more : List ℕ) {p : Page} {rest : List ℕ}
    → deserialize_row_id_leaf h ≡ ok (p, rest)
    → deserialize_row_id_leaf (extend h more) ≡ ok (p, rest ++ more)
unfolding deserialize_row_id_leaf
row_id_leaf-append h more e = elim (Result-cases (read_u32 h.body)) [
  | inl ((n, r), e') ↦ elim (Result-cases (read_ids n r)) [
    | inl ((xs, r'), e'') ↦ elim (Result-cases (read_f32_vec h.num_dim r')) [
      | inl ((c, r''), e3) ↦ ground (
        arith,
        read_u32-append h.body more e',
        read_ids-append n r more e'',
        read_f32_vec-append h.num_dim r' more e3,
      )
      | inr (x, e3) ↦ ground arith
    ]
    | inr (x, e'') ↦ ground arith
  ]
  | inr (x, e') ↦ ground arith
]

range_leaf-append :
    (h : Header) (more : List ℕ) {p : Page} {rest : List ℕ}
    → deserialize_range_leaf h ≡ ok (p, rest)
    → deserialize_range_leaf (extend h more) ≡ ok (p, rest ++ more)
unfolding deserialize_range_leaf
range_leaf-append h more e = elim (Result-cases (read_u32 h.body)) [
  | inl ((s, r), e') ↦ elim (Result-cases (read_u32 r)) [
    | inl ((t, r'), e'') ↦ elim (Result-cases (read_f32_vec h.num_dim r')) [
      | inl ((c, r''), e3) ↦ ground (
        arith,
        read_u32-append h.body more e',
        read_u32-append r more e'',
        read_f32_vec-append h.num_dim r' more e3,
      )
      | inr (x, e3) ↦ ground arith
    ]
    | inr (x, e'') ↦ ground arith
  ]
  | inr (x, e') ↦ ground arith
]

by_kind-append :
    (h : Header) (more : List ℕ) {p : Page} {rest : List ℕ}
    → by_kind h.kind h ≡ ok (p, rest)
    → by_kind h.kind (extend h more) ≡ ok (p, rest ++ more)
unfolding by_kind
by_kind-append h more {p} {rest} e = ground (
  arith,
  internal-append h more {p = p} {rest = rest},
  leaf-append h more {p = p} {rest = rest},
  row_id_leaf-append h more {p = p} {rest = rest},
  range_leaf-append h more {p = p} {rest = rest},
)

drop-append_le : (n : ℕ) (xs ys : List ℕ) → n ≤ length xs → drop n (xs ++ ys) ≡ drop n xs ++ ys
drop-append_le zero xs ys h = refl
drop-append_le (suc n) [] ys h = absurd (omega arith)
drop-append_le (suc n) (x ∷ xs) ys h = drop-append_le n xs ys (omega arith)

get_or-append : (xs ys : List ℕ) (i d : ℕ) → i < length xs → get_or (xs ++ ys) i d ≡ get_or xs i d
get_or-append [] ys i d h = absurd (omega arith)
get_or-append (x ∷ xs) ys zero d h = refl
get_or-append (x ∷ xs) ys (suc i) d h = get_or-append xs ys i d (omega arith)

length-drop : (n : ℕ) (xs : List ℕ) → length (drop n xs) ≡ length xs - n
length-drop zero xs = omega arith
length-drop (suc n) [] = omega arith
length-drop (suc n) (x ∷ xs) = omega (arith, length-drop n xs)

u32_at-append : (xs ys : List ℕ) (i : ℕ) → i + 4 ≤ length xs → u32_at (xs ++ ys) i ≡ u32_at xs i
u32_at-append xs ys i h = rw (
  drop-append_le i xs ys (omega arith),
  get_or-append (drop i xs) ys 0 0 (omega (arith, length-drop i xs)),
  get_or-append (drop i xs) ys 1 0 (omega (arith, length-drop i xs)),
  get_or-append (drop i xs) ys 2 0 (omega (arith, length-drop i xs)),
  get_or-append (drop i xs) ys 3 0 (omega (arith, length-drop i xs)),
)

parse_header-append :
    (bs more : List ℕ) {h : Header}
    → parse_header bs ≡ ok h
    → parse_header (bs ++ more) ≡ ok (extend h more)
unfolding parse_header
parse_header-append bs more e = elim (Bool-cases (ltb (length bs) 13)) [
  | inl short ↦ ground arith
  | inr long ↦ ground (
    arith,
    length-append bs more,
    u32_at-append bs more 0,
    u32_at-append bs more 5,
    u32_at-append bs more 9,
    get_or-append bs more 4 0,
    drop-append_le 13 bs more,
  )
]

-- Bytes behind a page that was read join the rest.
pub deserialize_rest-append :
    (bs more : List ℕ) {p : Page} {rest : List ℕ}
    → deserialize_rest bs ≡ ok (p, rest)
    → deserialize_rest (bs ++ more) ≡ ok (p, rest ++ more)
unfolding deserialize_rest
deserialize_rest-append bs more {p} {rest} e =
    let (h, eh, ek) = bind_parts (parse_header bs) (λ h. by_kind h.kind h) e in
    rw (parse_header-append bs more eh) (by_kind-append h more ek)
