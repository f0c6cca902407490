-- ===== src/Book.antt =====
-- src/core/book.h and src/core/book.cc: one side of one venue's book, and a venue's two sides.
-- A vector of levels is a list, best level first; `scratch_` is only the buffer that ApplyBatch
-- swaps with the levels. `std::lower_bound` and `std::stable_sort` are modelled by what the
-- standard says of them.
pub mod Order
pub mod Lookup
pub mod Keep
pub mod Deltas
pub mod Merge
pub mod Batch
pub mod Invariant
use home_assignment.Common.{
  ℕ, Bool, true, false, not, ◌&&◌, ◌||◌, List, [], ◌∷◌, ◌++◌, if◌then◌else◌, ltb,
}
use home_assignment.Common.Lists.{length}
use home_assignment.Common.Int.{ℤ, pos, ltb_ℤ, leb_ℤ, eq_ℤ}

pub record Level : Type 0 where
  pub px : ℤ
  pub qty : ℤ

-- Closer to the touch: higher for bids, lower for asks.
unfoldable pub better : Bool → ℤ → ℤ → Bool
better true a b = ltb_ℤ b a
better false a b = ltb_ℤ a b

abbrev pub batch_merge_threshold : ℕ
batch_merge_threshold = 8

abbrev cons_before : Level → List Level × List Level → List Level × List Level
cons_before l (before, from) = (l ∷ before, from)

-- The levels before the iterator that `std::lower_bound` returns, and those from it on.
pub lower_bound : Bool → ℤ → List Level → List Level × List Level
lower_bound d px [] = ([], [])
lower_bound d px (l ∷ ls) =
    if better d l.px px then cons_before l (lower_bound d px ls) else ([], l ∷ ls)

-- What `Apply` does at the iterator: erase, assign, insert, or nothing.
pub amend : ℤ → ℤ → List Level → List Level
amend px qty [] = if eq_ℤ qty (pos 0) then [] else record { px = px; qty = qty } ∷ []
amend px qty (it ∷ rest) =
    if eq_ℤ it.px px
    then (if eq_ℤ qty (pos 0) then rest else record it { qty = qty } ∷ rest)
    else if eq_ℤ qty (pos 0)
    then it ∷ rest
    else record { px = px; qty = qty } ∷ it ∷ rest

abbrev join : ℤ → ℤ → List Level × List Level → List Level
join px qty (before, from) = before ++ amend px qty from

unfoldable pub apply : Bool → ℤ → ℤ → List Level → List Level
unfolding lower_bound amend better
apply d px qty levels = join px qty (lower_bound d px levels)

-- `for (const Level& level : *deltas) Apply(level.px, level.qty);`
unfoldable pub apply_each : Bool → List Level → List Level → List Level
unfolding apply
apply_each d [] levels = levels
apply_each d (l ∷ deltas) levels = apply_each d deltas (apply d l.px l.qty levels)

-- `std::stable_sort`: an entry goes before the first later entry that is not better than it.
pub stable_insert : Bool → Level → List Level → List Level
stable_insert d x [] = x ∷ []
stable_insert d x (l ∷ ls) = if better d l.px x.px then l ∷ stable_insert d x ls else x ∷ l ∷ ls

pub stable_sort : Bool → List Level → List Level
stable_sort d [] = []
stable_sort d (l ∷ ls) = stable_insert d l (stable_sort d ls)

-- The compaction loop: of each run of equal prices the last entry is kept. `read` is the first
-- entry of the run so far.
pub keep_last : List Level → List Level
keep_last [] = []
keep_last (read ∷ []) = read ∷ []
keep_last (read ∷ next ∷ rest) =
    if eq_ℤ next.px read.px then keep_last (next ∷ rest) else read ∷ keep_last (next ∷ rest)

unfoldable pub sort_best_first_last_wins : Bool → List Level → List Level
unfolding stable_insert stable_sort keep_last better
sort_best_first_last_wins d v = keep_last (stable_sort d v)

abbrev push_unless_zero : Level → List Level → List Level
push_unless_zero l out = if eq_ℤ l.qty (pos 0) then out else l ∷ out

-- The tail loop over the deltas that are left.
pub push_rest : List Level → List Level
push_rest [] = []
push_rest (u ∷ deltas) = push_unless_zero u (push_rest deltas)

-- The merge loop over `i` and `j`, with what is left of the levels and of the deltas.
unfoldable pub merge : Bool → List Level → List Level → List Level
unfolding push_rest better
merge d [] deltas = push_rest deltas
merge d (existing ∷ levels) [] = existing ∷ levels
merge d (existing ∷ levels) (update ∷ deltas) =
    let both = push_unless_zero update (merge d levels deltas) in
    let keep = existing ∷ merge d levels (update ∷ deltas) in
    let change = push_unless_zero update (merge d (existing ∷ levels) deltas) in
    if eq_ℤ existing.px update.px
    then both
    else if better d existing.px update.px
    then keep
    else change

-- Few deltas are applied one by one, many are sorted and merged.
unfoldable pub apply_batch : Bool → List Level → List Level → List Level
unfolding apply_each sort_best_first_last_wins merge
apply_batch d deltas levels =
    if ltb (length deltas) batch_merge_threshold
    then apply_each d deltas levels
    else merge d levels (sort_best_first_last_wins d deltas)

-- `std::remove_if` of the levels with no quantity.
pub remove_zero : List Level → List Level
remove_zero [] = []
remove_zero (l ∷ ls) = push_unless_zero l (remove_zero ls)

unfoldable pub replace : Bool → List Level → List Level
unfolding sort_best_first_last_wins remove_zero
replace d levels = remove_zero (sort_best_first_last_wins d levels)

-- The loop of `Invariant` behind a level at price `prev`.
pub invariant_from : Bool → ℤ → List Level → Bool
invariant_from d prev [] = true
invariant_from d prev (l ∷ ls) =
    not (leb_ℤ l.qty (pos 0) || leb_ℤ l.px (pos 0))
    && better d prev l.px
    && invariant_from d l.px ls

unfoldable pub invariant : Bool → List Level → Bool
unfolding invariant_from better
invariant d [] = true
invariant d (l ∷ ls) = not (leb_ℤ l.qty (pos 0) || leb_ℤ l.px (pos 0)) && invariant_from d l.px ls

unfoldable pub best_px : List Level → ℤ
best_px [] = pos 0
best_px (l ∷ ls) = l.px

unfoldable pub best_qty : List Level → ℤ
best_qty [] = pos 0
best_qty (l ∷ ls) = l.qty

pub record VenueBook : Type 0 where
  pub bids : List Level
  pub asks : List Level

unfoldable pub clear : VenueBook → VenueBook
clear book = record { bids = []; asks = [] }

abbrev is_empty : List Level → Bool
is_empty [] = true
is_empty (l ∷ ls) = false

-- A venue's own best bid at or above its best ask.
unfoldable pub crossed : VenueBook → Bool
unfolding best_px
crossed book =
    not (is_empty book.bids)
    && not (is_empty book.asks)
    && leb_ℤ (best_px book.asks) (best_px book.bids)

pub record FeedUpdateLevels : Type 0 where
  pub is_snapshot : Bool
  pub bids : List Level
  pub asks : List Level

unfoldable pub apply_feed_update : VenueBook → FeedUpdateLevels → VenueBook
unfolding replace apply_batch
apply_feed_update book update =
    if update.is_snapshot
    then record { bids = replace true update.bids; asks = replace false update.asks }
    else record {
      bids = apply_batch true update.bids book.bids;
      asks = apply_batch false update.asks book.asks;
    }
