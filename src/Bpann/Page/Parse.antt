-- ===== src/Bpann/Page/Parse.antt =====
-- The reading side of page.rs. The cursor `off` is the list of the bytes that it has not passed.
use ennbo.Prelude.{ℕ, zero, suc, none, some, List, [], ◌∷◌}
use ennbo.Prelude.{length, get_or, drop, ltb, ◌==◌, if◌then◌else◌, not}
use ennbo.Prelude.{Result, ok, err, ◌>>=◌, ◌>>◌, fail_if}
use ennbo.Bpann.Bytes.{from_le_bytes}
use ennbo.Bpann.Page.{Page, internal, leaf, empty_range_leaf, page_magic}

pub data PageError : Type 0 where
  page_too_short bad_magic truncated_u32 truncated_f32 : PageError
  unknown_kind : ℕ → PageError
  range_reversed : ℕ → ℕ → PageError

unfoldable pub read_u32 : List ℕ → Result PageError (ℕ × List ℕ)
read_u32 (a ∷ b ∷ c ∷ d ∷ rest) = ok (from_le_bytes a b c d, rest)
read_u32 _ = err truncated_u32

unfoldable pub read_f32 : List ℕ → Result PageError (ℕ × List ℕ)
read_f32 (a ∷ b ∷ c ∷ d ∷ rest) = ok (from_le_bytes a b c d, rest)
read_f32 _ = err truncated_f32

unfoldable pub read_f32_vec : ℕ → List ℕ → Result PageError (List ℕ × List ℕ)
read_f32_vec zero bytes = ok ([], bytes)
read_f32_vec (suc n) bytes = do
  (x, rest) ← read_f32 bytes
  (xs, rest') ← read_f32_vec n rest
  ok (x ∷ xs, rest')

-- The loop of `deserialize_internal` and of `deserialize_leaf`: `n` times an id and its vector.
unfoldable pub read_rows : ℕ → ℕ → List ℕ → Result PageError (List ℕ × List (List ℕ) × List ℕ)
read_rows num_dim zero bytes = ok ([], [], bytes)
read_rows num_dim (suc n) bytes = do
  (id, rest) ← read_u32 bytes
  (v, rest') ← read_f32_vec num_dim rest
  (ids, vs, rest'') ← read_rows num_dim n rest'
  ok (id ∷ ids, v ∷ vs, rest'')

-- The loop of `deserialize_row_id_leaf`.
unfoldable pub read_ids : ℕ → List ℕ → Result PageError (List ℕ × List ℕ)
read_ids zero bytes = ok ([], bytes)
read_ids (suc n) bytes = do
  (id, rest) ← read_u32 bytes
  (ids, rest') ← read_ids n rest
  ok (id ∷ ids, rest')

-- Kind, page id, dimension and the bytes from offset 13 on.
pub record Header : Type 0 where
  pub kind : ℕ
  pub id : ℕ
  pub num_dim : ℕ
  pub body : List ℕ

abbrev pub u32_at : List ℕ → ℕ → ℕ
u32_at bytes i =
    let b = drop i bytes in
    from_le_bytes (get_or b 0 0) (get_or b 1 0) (get_or b 2 0) (get_or b 3 0)

unfoldable pub parse_header : List ℕ → Result PageError Header
parse_header bytes = do
  fail_if (ltb (length bytes) 13) page_too_short
  fail_if (not (u32_at bytes 0 == page_magic)) bad_magic
  ok (record {
    kind = get_or bytes 4 0;
    id = u32_at bytes 5;
    num_dim = u32_at bytes 9;
    body = drop 13 bytes;
  })

unfoldable pub deserialize_internal : Header → Result PageError (Page × List ℕ)
deserialize_internal h = do
  (n, rest) ← read_u32 h.body
  (child_page_ids, centroids, rest') ← read_rows h.num_dim n rest
  ok (internal h.id centroids child_page_ids, rest')

unfoldable pub deserialize_leaf : Header → Result PageError (Page × List ℕ)
deserialize_leaf h = do
  (n, rest) ← read_u32 h.body
  (row_ids, vectors, rest') ← read_rows h.num_dim n rest
  ok (leaf h.id row_ids none vectors none, rest')

unfoldable pub deserialize_row_id_leaf : Header → Result PageError (Page × List ℕ)
deserialize_row_id_leaf h = do
  (n, rest) ← read_u32 h.body
  (row_ids, rest') ← read_ids n rest
  (centroid, rest'') ← read_f32_vec h.num_dim rest'
  ok (leaf h.id row_ids none [] (some centroid), rest'')

unfoldable pub deserialize_range_leaf : Header → Result PageError (Page × List ℕ)
deserialize_range_leaf h = do
  (start, rest) ← read_u32 h.body
  (end, rest') ← read_u32 rest
  fail_if (ltb end start) (range_reversed start end)
  (centroid, rest'') ← read_f32_vec h.num_dim rest'
  ok (empty_range_leaf h.id start end centroid, rest'')

-- `match kind`
unfoldable pub by_kind : ℕ → Header → Result PageError (Page × List ℕ)
by_kind kind h =
    if kind == 0
    then deserialize_internal h
    else (if kind == 1
        then deserialize_leaf h
        else (if kind == 2
            then deserialize_row_id_leaf h
            else (if kind == 3 then deserialize_range_leaf h else err (unknown_kind kind))))

-- The page with the bytes behind it, which the code leaves unread.
unfoldable pub deserialize_rest : List ℕ → Result PageError (Page × List ℕ)
deserialize_rest bytes = do h ← parse_header bytes; by_kind h.kind h

unfoldable pub deserialize : List ℕ → Result PageError Page
deserialize bytes = do (page, rest) ← deserialize_rest bytes; ok page
