-- ===== src/Ladder.antt =====
-- src/core/consolidated.h and src/core/consolidated.cc: the merge of the venues' sides into one
-- ladder. An input is the levels that its cursor has not passed; `by_venue` slots and the assertion
-- on their number play no part in the result.
pub mod Heads
pub mod Sums
pub mod Total
use home_assignment.Common.{
  ℕ, zero, suc, Bool, true, false, ◌&&◌, ◌||◌, not, List, [], ◌∷◌, if◌then◌else◌, leb, ◌+◌, Option,
  none, some,
}
use home_assignment.Common.Lists.{length}
use home_assignment.Common.Int.{ℤ, pos, ◌+ℤ◌, ltb_ℤ, leb_ℤ, eq_ℤ}
use home_assignment.Book.{Level, better}
use home_assignment.Fixed.{notional_wide, offset_by_bps_outward}

pub record MergedLevel : Type 0 where
  pub px : ℤ
  pub qty : ℤ

pub record MergeLimits : Type 0 where
  pub notional_target : ℤ
  pub max_bps_from_touch : ℤ
  pub max_levels : ℕ

abbrev pub better_of : Bool → Option ℤ → ℤ → ℤ
better_of descending none candidate = candidate
better_of descending (some best) candidate =
    if better descending candidate best then candidate else best

-- The first loop over the cursor heads: the best price among them, if there is one.
unfoldable pub best_head : Bool → Option ℤ → List (List Level) → Option ℤ
unfolding better
best_head descending best [] = best
best_head descending best ([] ∷ inputs) = best_head descending best inputs
best_head descending best ((l ∷ ls) ∷ inputs) =
    best_head descending (some (better_of descending best l.px)) inputs

-- The second loop: the quantity at the price, and the cursors moved past it.
unfoldable pub qty_of_head : ℤ → List Level → ℤ
qty_of_head px [] = pos 0
qty_of_head px (l ∷ ls) = if eq_ℤ l.px px then l.qty else pos 0

unfoldable pub advance : ℤ → List Level → List Level
advance px [] = []
advance px (l ∷ ls) = if eq_ℤ l.px px then ls else l ∷ ls

unfoldable pub consumed_qty : ℤ → ℤ → List (List Level) → ℤ
unfolding qty_of_head
consumed_qty qty px [] = qty
consumed_qty qty px (ls ∷ inputs) = consumed_qty (qty +ℤ qty_of_head px ls) px inputs

unfoldable pub advance_all : ℤ → List (List Level) → List (List Level)
unfolding advance
advance_all px [] = []
advance_all px (ls ∷ inputs) = advance px ls ∷ advance_all px inputs

unfoldable pub any_left : List (List Level) → Bool
any_left [] = false
any_left ([] ∷ inputs) = any_left inputs
any_left ((l ∷ ls) ∷ inputs) = true

-- The bound, which the first level found fixes.
abbrev pub bound_for : Bool → MergeLimits → Option ℤ → ℤ → ℤ
bound_for descending limits none best =
    offset_by_bps_outward best limits.max_bps_from_touch descending
bound_for descending limits (some bound) best = bound

abbrev pub is_inside : Bool → ℤ → ℤ → Bool
is_inside descending best bound = if descending then leb_ℤ bound best else leb_ℤ best bound

abbrev pub push : MergedLevel → Option (List MergedLevel × Bool) → Option (List MergedLevel × Bool)
push level none = none
push level (some (out, truncated)) = some (level ∷ out, truncated)

-- The stop once the notional target is covered: whether anything remained.
abbrev pub is_covered : MergeLimits → ℤ → Bool
is_covered limits cum = ltb_ℤ (pos 0) limits.notional_target && leb_ℤ limits.notional_target cum

-- The loop: the levels that it pushes from here on, and whether it was cut short. `size` is the
-- number of levels pushed before. `none` means that the fuel ran out.
unfoldable pub merge_loop :
    Bool → MergeLimits → ℕ → ℕ → ℤ → Option ℤ → List (List Level) → Option (List MergedLevel × Bool)
unfolding best_head consumed_qty advance_all any_left
merge_loop descending limits zero size cum bound inputs = none
merge_loop descending limits (suc fuel) size cum bound inputs =
    elim (best_head descending none inputs) [
      | none ↦ some ([], false)
      | some best ↦
          let limit = bound_for descending limits bound best in
          let bounded = ltb_ℤ (pos 0) limits.max_bps_from_touch in
          let level : MergedLevel = record { px = best; qty = consumed_qty (pos 0) best inputs } in
          let left = advance_all best inputs in
          let cum' = cum +ℤ notional_wide best level.qty in
          let rest =
            merge_loop descending limits fuel (suc size) cum'
              (if bounded then some limit else bound) left in
          if leb limits.max_levels size
          then some ([], true)
          else if bounded && not (is_inside descending best limit)
          then some ([], true)
          else if is_covered limits cum'
          then some (level ∷ [], any_left left)
          else push level rest
    ]

-- The number of levels of all inputs: every round passes at least one.
abbrev pub level_count : List (List Level) → ℕ
level_count [] = 0
level_count (ls ∷ inputs) = length ls + level_count inputs

unfoldable pub merge_side :
    Bool → MergeLimits → List (List Level) → Option (List MergedLevel × Bool)
unfolding merge_loop
merge_side descending limits inputs =
    merge_loop descending limits (suc (level_count inputs)) 0 (pos 0) none inputs
