-- ===== src/Examples/Books.antt =====
-- Sides of books, and changes to them.
use home_assignment.Common.{ℕ, true, false, List, [], ◌∷◌, ◌≡◌, refl}
use home_assignment.Common.Lists.{All}
use home_assignment.Common.Int.{pos, leb_ℤ, ltb_ℤ, eq_ℤ}
use home_assignment.Book.{
  Level, apply_batch, apply_each, replace, invariant, VenueBook, FeedUpdateLevels,
  apply_feed_update, crossed, best_px,
}
use home_assignment.Book.Order.{IsBook}
use home_assignment.Book.Lookup.{qty_at}
use home_assignment.Book.Deltas.{override, last_at}
use home_assignment.Book.Batch.{apply_batch-apply_each, qty_at-apply_batch}
use home_assignment.Book.Invariant.{IsChange, BothSides, apply_feed_update-invariant}

abbrev at : ℕ → ℕ → Level
at px qty = record { px = pos px; qty = pos qty }

methods : Unit {0}
unfolding apply_batch apply_each replace invariant apply_feed_update crossed best_px leb_ℤ ltb_ℤ
    eq_ℤ
methods = tt

abbrev bids : List Level
bids = at 105 3 ∷ at 103 1 ∷ at 100 7 ∷ []

-- Nine changes, so the merge is taken: 103 is removed, 105 set twice.
abbrev changes : List Level
changes =
    at 103 0 ∷ at 105 9 ∷ at 104 2 ∷ at 105 4 ∷ at 99 1 ∷ at 98 1 ∷ at 97 1 ∷ at 96 0 ∷ at 95 6 ∷ []

bids-IsBook : IsBook true bids
unfolding methods
bids-IsBook = ((((refl, (refl, tt)), ((refl, tt), (tt, tt)))), (refl, (refl, (refl, tt))))

merged :
    apply_batch true changes bids
    ≡ at 105 4 ∷ at 104 2 ∷ at 100 7 ∷ at 99 1 ∷ at 98 1 ∷ at 97 1 ∷ at 95 6 ∷ []
unfolding methods
merged = refl

apply_batch-apply_each_example : apply_batch true changes bids ≡ apply_each true changes bids
apply_batch-apply_each_example = apply_batch-apply_each true changes bids bids-IsBook

qty_at-apply_batch_example :
    qty_at (pos 105) (apply_batch true changes bids)
    ≡ override (last_at (pos 105) changes) (qty_at (pos 105) bids)
qty_at-apply_batch_example = qty_at-apply_batch true (pos 105) changes bids bids-IsBook

abbrev book : VenueBook
book = record { bids = bids; asks = at 106 2 ∷ at 110 5 ∷ [] }

abbrev delta : FeedUpdateLevels
delta = record { is_snapshot = false; bids = at 103 0 ∷ at 104 8 ∷ []; asks = at 106 4 ∷ [] }

delta-bids : All IsChange delta.bids
unfolding methods
delta-bids = ((refl, refl), ((refl, refl), tt))

delta-asks : All IsChange delta.asks
unfolding methods
delta-asks = ((refl, refl), tt)

book-BothSides : BothSides book
unfolding methods
book-BothSides = (refl, refl)

apply_feed_update-invariant_example : BothSides (apply_feed_update book delta)
apply_feed_update-invariant_example =
    apply_feed_update-invariant book delta delta-bids delta-asks book-BothSides

not_crossed : crossed (apply_feed_update book delta) ≡ false
unfolding methods
not_crossed = refl
