-- ===== src/Ennx/Tracker/TopM.antt =====
-- `push_top_m` and the sorted list of all entries.
use ennbo.Prelude.{ℕ, ◌≡◌, ap, sym, ◌∙◌, arith}
use ennbo.Prelude.{List, [], ◌∷◌, ◌++◌, take}
use ennbo.Sort.{sort_by, insert_sorted, sort_by-append, take-insert_sorted}
use ennbo.Sort.Ordered.{IsStrict, take-AreOrdered, sort_by-AreOrdered, sort_by_ordered}
use ennbo.Ennx.Tracker.{entry_before, push_top_m}

-- The `m` best entries: the greatest values, on a tie the lower indices.
abbrev pub best : ℕ → List (ℕ × ℕ) → List (ℕ × ℕ)
best m entries = take m (sort_by entry_before entries)

pub entry_before-IsStrict : IsStrict entry_before
unfolding entry_before
entry_before-IsStrict = record {
  asymm = λ (ia, va) (ib, vb) h. ground arith;
  trans = λ (ia, va) (ib, vb) (ic, vc) h k. ground arith;
}

pub push_top_m-best :
    (m index value : ℕ) (entries : List (ℕ × ℕ))
    → push_top_m (best m entries) index value m ≡ best m (entries ++ ((index, value) ∷ []))
unfolding push_top_m
push_top_m-best m index value entries =
    let new : ℕ × ℕ = (index, value) in
    let ordered =
      take-AreOrdered entry_before m (sort_by entry_before entries)
        (sort_by-AreOrdered entry_before entry_before-IsStrict entries) in
    ap (take m) (
      sort_by-append entry_before (best m entries) new
      ∙ ap (insert_sorted entry_before new) (sort_by_ordered entry_before (best m entries) ordered))
    ∙ take-insert_sorted entry_before m new (sort_by entry_before entries)
    ∙ ap (take m) (sym (sort_by-append entry_before entries new))
