-- ===== src/Analytics/PriceBands.antt =====
-- The price bands of ComputeSideBands, each worked out alone from the ladder.
use home_assignment.Common.{
  ℕ, ◌+◌, Bool, true, false, ◌||◌, List, [], ◌∷◌, ◌++◌, ◌≡◌, refl, sym, ap, ap₂, ◌∙◌, map, fun_ext,
  arith, Bool-cases, inl, inr, if◌then◌else◌,
}
use home_assignment.Common.Lists.{length}
use home_assignment.Common.Int.{ℤ, pos, ◌+ℤ◌, ◌-ℤ◌, ◌*ℤ◌, ◌/ℤ◌, ◌≤ℤ◌, leb_ℤ, eq_ℤ, int_laws}
use home_assignment.Fixed.{
  scale, bps_scale, largest, narrow_saturating, notional_wide, vwap, outward_delta,
  offset_by_bps_outward,
}
use home_assignment.Ladder.{MergedLevel}
use home_assignment.Analytics.{
  PriceBandResult, BandConfig, LadderView, Cumulative, view_best_px, make_price_band, nothing_yet,
  is_inside, bound_of, leaves, add_level, compute_side_bands,
}
use home_assignment.Analytics.Drain.{Ascending}
use home_assignment.Analytics.Bands.{
  sum_levels, inside_prefix, all_inside, price_band, compute_side_bands-price,
}

-- The sum of the quantities, and of the notionals, each rounded towards zero.
unfoldable pub total_qty : List MergedLevel → ℤ
total_qty [] = pos 0
total_qty (l ∷ ls) = l.qty +ℤ total_qty ls

unfoldable pub total_notional : List MergedLevel → ℤ
total_notional [] = pos 0
total_notional (l ∷ ls) = l.px *ℤ l.qty /ℤ pos scale +ℤ total_notional ls

unfoldable pub last_px : ℤ → List MergedLevel → ℤ
last_px px [] = px
last_px px (l ∷ ls) = last_px l.px ls

-- A price at the distance of the offset from the best one, away from the touch: below for bids,
-- above for asks. The distance is rounded up.
unfoldable pub bound_at : Bool → ℤ → ℤ → ℤ
bound_at descending best offset =
    let distance = (best *ℤ offset +ℤ pos bps_scale -ℤ pos 1) /ℤ pos bps_scale in
    if leb_ℤ best (pos 0) || leb_ℤ offset (pos 0)
    then best
    else narrow_saturating (if descending then best -ℤ distance else best +ℤ distance)

unfoldable pub no_further : Bool → ℤ → ℤ → Bool
no_further true bound px = leb_ℤ bound px
no_further false bound px = leb_ℤ px bound

-- The levels before the first one past the bound, and whether none is past it.
unfoldable pub within : Bool → ℤ → List MergedLevel → List MergedLevel
within descending bound [] = []
within descending bound (l ∷ ls) =
    if no_further descending bound l.px then l ∷ within descending bound ls else []

unfoldable pub none_past : Bool → ℤ → List MergedLevel → Bool
none_past descending bound [] = true
none_past descending bound (l ∷ ls) =
    if no_further descending bound l.px then none_past descending bound ls else false

-- The band that some levels make.
abbrev pub band_over : ℤ → ℤ → List MergedLevel → Bool → Bool → PriceBandResult
band_over offset bound ls open_ended depth_limited = record {
  offset_bps = offset;
  bound = bound;
  vwap_price =
      if leb_ℤ (total_qty ls) (pos 0)
      then pos 0
      else narrow_saturating (total_notional ls *ℤ pos scale /ℤ total_qty ls);
  qty = narrow_saturating (total_qty ls);
  notional = narrow_saturating (total_notional ls);
  levels = length ls;
  open_ended = open_ended;
  depth_limited = depth_limited;
}

abbrev pub band_of : LadderView → ℤ → PriceBandResult
band_of side offset =
    let bound = bound_at side.descending (view_best_px side) offset in
    band_over offset bound (within side.descending bound side.levels) false
      (none_past side.descending bound side.levels)

bound_of-bound_at :
    (side : LadderView) (offset : ℤ)
    → bound_of side offset ≡ bound_at side.descending (view_best_px side) offset
unfolding bound_of bound_at offset_by_bps_outward outward_delta
bound_of-bound_at side offset = refl

leaves-no_further :
    (side : LadderView) (px offset : ℤ)
    → no_further side.descending (bound_of side offset) px
      ≡ (if leaves side px offset then false else true)
unfolding leaves is_inside no_further
leaves-no_further side px offset = ground arith

inside_prefix-within :
    (side : LadderView) (offset : ℤ) (ls : List MergedLevel)
    → (inside_prefix side offset ls ≡ within side.descending (bound_of side offset) ls)
      × (all_inside side offset ls ≡ none_past side.descending (bound_of side offset) ls)
unfolding inside_prefix all_inside within none_past
inside_prefix-within side offset [] = (refl, refl)
inside_prefix-within side offset (l ∷ ls) = elim (Bool-cases (leaves side l.px offset)) [
  | inl out ↦ rw (leaves-no_further side l.px offset, out) (refl, refl)
  | inr inside ↦
      let (same, all) = inside_prefix-within side offset ls in
      rw (leaves-no_further side l.px offset, inside) (ap (λ xs. l ∷ xs) same, all)
]

abbrev sums : ℤ → ℤ → ℕ → ℤ → Cumulative
sums qty notional levels worst = record {
  qty = qty;
  notional = notional;
  levels = levels;
  worst_px = worst;
}

totals_eq :
    {q q2 n n2 px : ℤ} {k k2 : ℕ} → q ≡ q2 → n ≡ n2 → k ≡ k2 → sums q n k px ≡ sums q2 n2 k2 px
totals_eq e f g = rw (e, f, g) refl

+ℤ_assoc : (a b c : ℤ) → (a +ℤ b) +ℤ c ≡ a +ℤ (b +ℤ c)
+ℤ_assoc a b c = omega int_laws

zero_+ℤ : (a : ℤ) → (pos 0 +ℤ a ≡ a) × (a +ℤ pos 0 ≡ a)
zero_+ℤ a = (omega int_laws, omega int_laws)

-- What the walk adds up, on top of what it starts from.
sum_levels-totals :
    (cum : Cumulative) (ls : List MergedLevel)
    → sum_levels cum ls ≡ record {
      qty = cum.qty +ℤ total_qty ls;
      notional = cum.notional +ℤ total_notional ls;
      levels = cum.levels + length ls;
      worst_px = last_px cum.worst_px ls;
    }
unfolding sum_levels add_level notional_wide total_qty total_notional last_px
sum_levels-totals cum [] =
    sym (totals_eq ((zero_+ℤ cum.qty).1) ((zero_+ℤ cum.notional).1) (omega arith))
sum_levels-totals cum (l ∷ ls) =
    sum_levels-totals (add_level cum l) ls
    ∙ totals_eq (+ℤ_assoc cum.qty l.qty (total_qty ls))
        (+ℤ_assoc cum.notional (l.px *ℤ l.qty /ℤ pos scale) (total_notional ls)) (omega arith)

totals :
    (best : ℤ) (ls : List MergedLevel)
    → sum_levels (nothing_yet best) ls ≡ record {
      qty = total_qty ls;
      notional = total_notional ls;
      levels = length ls;
      worst_px = last_px best ls;
    }
totals best ls =
    sum_levels-totals (nothing_yet best) ls
    ∙ totals_eq ((zero_+ℤ (total_qty ls)).0) ((zero_+ℤ (total_notional ls)).0) (omega arith)

make_price_band-over :
    (best offset bound : ℤ) (ls : List MergedLevel) (open_ended depth_limited : Bool)
    → make_price_band offset bound (sum_levels (nothing_yet best) ls) open_ended depth_limited
      ≡ band_over offset bound ls open_ended depth_limited
unfolding make_price_band vwap
make_price_band-over best offset bound ls open_ended depth_limited =
    ap (λ cum. make_price_band offset bound cum open_ended depth_limited) (totals best ls)

price_band-of :
    (side : LadderView) (offset : ℤ)
    → price_band side (nothing_yet (view_best_px side)) side.levels offset ≡ band_of side offset
price_band-of side offset =
    let (same, all) = inside_prefix-within side offset side.levels in
    rw (same, all, bound_of-bound_at side offset)
      (make_price_band-over (view_best_px side) offset
        (bound_at side.descending (view_best_px side) offset) _ false _)

-- For offsets in ascending order, on a side with a best price that fits int64_t, the price bands
-- are, in the order of the offsets, one band each, and then the open-ended band over the whole
-- ladder, bounded by the last price. The band of an offset is over the levels before the first one
-- that lies past the offset's distance from the best price, and it is limited by depth exactly if
-- no level does. Every band has the sums of the quantities and of the notionals of its levels,
-- saturated to int64_t, their quotient as the average price, and the number of its levels.
pub compute_side_bands-band_of :
    (side : LadderView) (config : BandConfig)
    → eq_ℤ (view_best_px side) (pos 0) ≡ false
    → view_best_px side ≤ℤ largest
    → Ascending ◌≤ℤ◌ config.offsets_bps
    → (compute_side_bands side config).price
      ≡ map (band_of side) config.offsets_bps
        ++ band_over (pos 0) (last_px (view_best_px side) side.levels) side.levels true false ∷ []
compute_side_bands-band_of side config some_ fits a =
    let best = view_best_px side in
    compute_side_bands-price side config some_ fits a
    ∙ ap₂ (λ f band. map f config.offsets_bps ++ band ∷ []) (fun_ext (price_band-of side))
        (make_price_band-over best (pos 0) (sum_levels (nothing_yet best) side.levels).worst_px
            side.levels true false
          ∙ ap (λ px. band_over (pos 0) px side.levels true false)
              (ap (λ cum. cum.worst_px) (totals best side.levels)))
