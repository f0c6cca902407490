-- ===== src/Analytics.antt =====
-- src/core/analytics.h and src/core/analytics.cc: the touch, and the volume and price bands of one
-- side, which one outward walk over the ladder computes. An index into a list of thresholds is the
-- list of those that are left.
pub mod Drain
pub mod Bands
pub mod PriceBands
pub mod Filled
use home_assignment.Common.{
  ℕ, suc, ◌+◌, Bool, true, false, not, ◌||◌, List, [], ◌∷◌, ◌++◌, map, if◌then◌else◌,
}
use home_assignment.Common.Int.{ℤ, pos, ◌+ℤ◌, ◌-ℤ◌, ◌/ℤ◌, ltb_ℤ, leb_ℤ, eq_ℤ}
use home_assignment.Fixed.{
  narrow_saturating, notional_wide, qty_for_notional, vwap, bps_e8, offset_by_bps_outward,
}
use home_assignment.Ladder.{MergedLevel}

pub record TouchInfo : Type 0 where
  pub has_bid : Bool
  pub has_ask : Bool
  pub best_bid : ℤ
  pub best_ask : ℤ
  pub mid : ℤ
  pub spread : ℤ
  pub spread_bps : ℤ
  pub crossed : Bool

pub record VolumeBandResult : Type 0 where
  pub target : ℤ
  pub vwap_price : ℤ
  pub worst : ℤ
  pub filled_qty : ℤ
  pub filled_notional : ℤ
  pub fully_filled : Bool
  pub open_ended : Bool
  pub levels_consumed : ℕ

pub record PriceBandResult : Type 0 where
  pub offset_bps : ℤ
  pub bound : ℤ
  pub vwap_price : ℤ
  pub qty : ℤ
  pub notional : ℤ
  pub levels : ℕ
  pub open_ended : Bool
  pub depth_limited : Bool

pub record BandConfig : Type 0 where
  pub notionals : List ℤ
  pub offsets_bps : List ℤ

pub record SideBands : Type 0 where
  pub volume : List VolumeBandResult
  pub price : List PriceBandResult

pub record LadderView : Type 0 where
  pub levels : List MergedLevel
  pub descending : Bool

abbrev first_px : List MergedLevel → ℤ
first_px [] = pos 0
first_px (l ∷ ls) = l.px

abbrev first_qty : List MergedLevel → ℤ
first_qty [] = pos 0
first_qty (l ∷ ls) = l.qty

unfoldable pub view_best_px : LadderView → ℤ
view_best_px view = first_px view.levels

unfoldable pub view_best_qty : LadderView → ℤ
view_best_qty view = first_qty view.levels

unfoldable pub compute_touch : LadderView → LadderView → TouchInfo
unfolding view_best_px
compute_touch bids asks =
    let best_bid = view_best_px bids in
    let best_ask = view_best_px asks in
    let has_bid = not (eq_ℤ best_bid (pos 0)) in
    let has_ask = not (eq_ℤ best_ask (pos 0)) in
    let mid = narrow_saturating ((best_bid +ℤ best_ask) /ℤ pos 2) in
    let spread = best_ask -ℤ best_bid in
    if not has_bid || not has_ask
    then record {
      has_bid = has_bid;
      has_ask = has_ask;
      best_bid = best_bid;
      best_ask = best_ask;
      mid = pos 0;
      spread = pos 0;
      spread_bps = pos 0;
      crossed = false;
    }
    else record {
      has_bid = has_bid;
      has_ask = has_ask;
      best_bid = best_bid;
      best_ask = best_ask;
      mid = mid;
      spread = spread;
      spread_bps = bps_e8 spread mid;
      crossed = leb_ℤ best_ask best_bid;
    }

-- The variables of the walk: what the levels passed so far add up to.
pub record Cumulative : Type 0 where
  pub qty : ℤ
  pub notional : ℤ
  pub levels : ℕ
  pub worst_px : ℤ

unfoldable pub make_price_band : ℤ → ℤ → Cumulative → Bool → Bool → PriceBandResult
make_price_band offset bound cum open_ended depth_limited = record {
  offset_bps = offset;
  bound = bound;
  vwap_price = vwap cum.notional cum.qty;
  qty = narrow_saturating cum.qty;
  notional = narrow_saturating cum.notional;
  levels = cum.levels;
  open_ended = open_ended;
  depth_limited = depth_limited;
}

abbrev pub nothing_yet : ℤ → Cumulative
nothing_yet worst = record { qty = pos 0; notional = pos 0; levels = 0; worst_px = worst }

abbrev empty_volume_band : ℤ → Bool → VolumeBandResult
empty_volume_band target open_ended = record {
  target = target;
  vwap_price = pos 0;
  worst = pos 0;
  filled_qty = pos 0;
  filled_notional = pos 0;
  fully_filled = false;
  open_ended = open_ended;
  levels_consumed = 0;
}

unfoldable pub emit_empty_bands : BandConfig → SideBands
unfolding make_price_band
emit_empty_bands config = record {
  volume =
      map (λ target. empty_volume_band target false) config.notionals
      ++ empty_volume_band (pos 0) true ∷ [];
  price =
      map (λ offset. make_price_band offset (pos 0) (nothing_yet (pos 0)) false true)
        config.offsets_bps
      ++ make_price_band (pos 0) (pos 0) (nothing_yet (pos 0)) true false ∷ [];
}

unfoldable pub close_volume_band : ℤ → ℤ → ℤ → Cumulative → VolumeBandResult
close_volume_band target px partial cum =
    let taken = ltb_ℤ (pos 0) partial in
    let partial_notional = if taken then notional_wide px partial else pos 0 in
    let filled_qty = cum.qty +ℤ partial in
    let filled_notional = cum.notional +ℤ partial_notional in
    record {
      target = target;
      vwap_price = vwap filled_notional filled_qty;
      worst = if taken then px else cum.worst_px;
      filled_qty = narrow_saturating filled_qty;
      filled_notional = narrow_saturating filled_notional;
      fully_filled = true;
      open_ended = false;
      levels_consumed = cum.levels + (if taken then 1 else 0);
    }

-- `while (index < size && test) { push_back(emit); ++index; }`: what was pushed and what is left.
unfoldable pub drain {ℓ κ} :
    {A : Type ℓ} {B : Type κ} → (A → Bool) → (A → B) → List A → List B × List A
drain test emit [] = ([], [])
drain test emit (x ∷ xs) =
    let (out, left) = drain test emit xs in if test x then (emit x ∷ out, left) else ([], x ∷ xs)

unfoldable pub is_inside : LadderView → ℤ → ℤ → Bool
is_inside side px bound = if side.descending then leb_ℤ bound px else leb_ℤ px bound

-- The bound of a price band of the side.
unfoldable pub bound_of : LadderView → ℤ → ℤ
unfolding view_best_px
bound_of side offset = offset_by_bps_outward (view_best_px side) offset side.descending

-- The price bands that the level falls outside.
unfoldable pub leaves : LadderView → ℤ → ℤ → Bool
unfolding is_inside bound_of
leaves side px offset = not (is_inside side px (bound_of side offset))

-- Whether the target is reached inside the level, and the band that is closed then.
unfoldable pub reaches : Cumulative → MergedLevel → ℤ → Bool
reaches cum level target = leb_ℤ target (cum.notional +ℤ notional_wide level.px level.qty)

unfoldable pub close_at : Cumulative → MergedLevel → ℤ → VolumeBandResult
unfolding close_volume_band
close_at cum level target =
    let consumes_whole_level = leb_ℤ (cum.notional +ℤ notional_wide level.px level.qty) target in
    let partial =
      if consumes_whole_level
      then level.qty
      else qty_for_notional (target -ℤ cum.notional) level.px in
    close_volume_band target level.px partial cum

unfoldable pub add_level : Cumulative → MergedLevel → Cumulative
add_level cum level = record {
  qty = cum.qty +ℤ level.qty;
  notional = cum.notional +ℤ notional_wide level.px level.qty;
  levels = suc cum.levels;
  worst_px = level.px;
}

-- The walk: the bands it has pushed, the thresholds that are left, and the sums.
pub record Walk : Type 0 where
  pub cum : Cumulative
  pub volume : List VolumeBandResult
  pub price : List PriceBandResult
  pub notionals : List ℤ
  pub offsets : List ℤ

unfoldable pub walk_level : LadderView → Walk → MergedLevel → Walk
unfolding drain leaves make_price_band reaches close_at add_level
walk_level side w level =
    let (price, offsets) =
      drain (leaves side level.px)
        (λ offset. make_price_band offset (bound_of side offset) w.cum false false) w.offsets in
    let (volume, notionals) = drain (reaches w.cum level) (close_at w.cum level) w.notionals in
    record {
      cum = add_level w.cum level;
      volume = w.volume ++ volume;
      price = w.price ++ price;
      notionals = notionals;
      offsets = offsets;
    }

unfoldable pub walk_levels : LadderView → Walk → List MergedLevel → Walk
unfolding walk_level
walk_levels side w [] = w
walk_levels side w (level ∷ levels) = walk_levels side (walk_level side w level) levels

-- A volume band that ends with the ladder: a target that was not met, or the open-ended band.
unfoldable pub thin_volume_band : Cumulative → Bool → ℤ → VolumeBandResult
thin_volume_band cum open_ended target = record {
  target = target;
  vwap_price = vwap cum.notional cum.qty;
  worst = cum.worst_px;
  filled_qty = narrow_saturating cum.qty;
  filled_notional = narrow_saturating cum.notional;
  fully_filled = false;
  open_ended = open_ended;
  levels_consumed = cum.levels;
}

-- The loops behind the walk: the thresholds that are left, and the open-ended bands.
unfoldable pub finish : LadderView → Walk → SideBands
unfolding make_price_band thin_volume_band
finish side w = record {
  volume =
      w.volume
      ++ (map (thin_volume_band w.cum false) w.notionals
          ++ thin_volume_band w.cum true (pos 0) ∷ []);
  price =
      w.price
      ++ (map (λ offset. make_price_band offset (bound_of side offset) w.cum false true) w.offsets
          ++ make_price_band (pos 0) w.cum.worst_px w.cum true false ∷ []);
}

unfoldable pub compute_side_bands : LadderView → BandConfig → SideBands
unfolding emit_empty_bands walk_levels finish
compute_side_bands side config =
    let reference = view_best_px side in
    let start : Walk = record {
      cum = nothing_yet reference;
      volume = [];
      price = [];
      notionals = config.notionals;
      offsets = config.offsets_bps;
    } in
    if eq_ℤ reference (pos 0)
    then emit_empty_bands config
    else finish side (walk_levels side start side.levels)
