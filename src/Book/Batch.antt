-- ===== src/Book/Batch.antt =====
-- ApplyBatch and Replace against the plain reference: applying the changes one by one.
use home_assignment.Common.{Bool, List, [], ◌≡◌, sym, ◌∙◌, ap, Bool-cases, inl, inr, ltb}
use home_assignment.Common.Lists.{length}
use home_assignment.Common.Int.{ℤ}
use home_assignment.Book.{
  Level, apply_each, merge, sort_best_first_last_wins, apply_batch, replace, batch_merge_threshold,
}
use home_assignment.Book.Order.{IsBook}
use home_assignment.Book.Lookup.{qty_at, book_ext}
use home_assignment.Book.Keep.{apply_each-IsBook}
use home_assignment.Book.Deltas.{last_at, override, qty_at-apply_each, last_at-sort, Ordered-sort}
use home_assignment.Book.Merge.{qty_at-merge, merge-IsBook, remove_zero-merge}

sorted_merge-apply_each :
    (d : Bool) (deltas ls : List Level)
    → IsBook d ls
    → merge d ls (sort_best_first_last_wins d deltas) ≡ apply_each d deltas ls
sorted_merge-apply_each d deltas ls b =
    book_ext d _ _ (merge-IsBook d ls sorted b (Ordered-sort d deltas))
      (apply_each-IsBook d deltas ls b)
      (λ p.
        qty_at-merge d p ls sorted b.0 (Ordered-sort d deltas)
        ∙ ap (λ o. override o (qty_at p ls)) (last_at-sort d p deltas)
        ∙ sym (qty_at-apply_each d p deltas ls b.0))
  where
    sorted : List Level
    sorted = sort_best_first_last_wins d deltas

-- On a side in order, with no empty level, ApplyBatch gives exactly the levels that Apply gives
-- when it is called on the changes one by one, in the order in which they came, whichever of its
-- two ways it takes.
pub apply_batch-apply_each :
    (d : Bool) (deltas ls : List Level)
    → IsBook d ls
    → apply_batch d deltas ls ≡ apply_each d deltas ls
unfolding apply_batch
apply_batch-apply_each d deltas ls b =
    elim (Bool-cases (ltb (length deltas) batch_merge_threshold)) [
      | inl few ↦ rw few
      | inr many ↦ rw many (sorted_merge-apply_each d deltas ls b)
    ]

-- Replace gives the levels that Apply builds from an empty side.
pub replace-apply_each :
    (d : Bool) (levels : List Level) → replace d levels ≡ apply_each d levels []
unfolding replace
replace-apply_each d levels =
    remove_zero-merge d (sort_best_first_last_wins d levels)
    ∙ sorted_merge-apply_each d levels [] (tt, tt)

-- After ApplyBatch the quantity at each price is the one that the last change for that price
-- carries, and the old one where there is none.
pub qty_at-apply_batch :
    (d : Bool) (p : ℤ) (deltas ls : List Level)
    → IsBook d ls
    → qty_at p (apply_batch d deltas ls) ≡ override (last_at p deltas) (qty_at p ls)
qty_at-apply_batch d p deltas ls b =
    ap (qty_at p) (apply_batch-apply_each d deltas ls b) ∙ qty_at-apply_each d p deltas ls b.0
