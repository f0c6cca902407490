-- ===== src/Analytics/Bands.antt =====
-- The single walk of ComputeSideBands against a description of each band on its own.
use mathlib.Core.List.{append_assoc}
use home_assignment.Common.{
  Bool, true, false, List, [], ◌∷◌, ◌++◌, ◌≡◌, refl, sym, ap, ap₂, ◌∙◌, map, fun_ext, arith,
  Bool-cases, inl, inr, if◌then◌else◌,
}
use home_assignment.Common.Int.{ℤ, pos, ◌≤ℤ◌, leb_ℤ, eq_ℤ}
use home_assignment.Fixed.{largest}
use home_assignment.Fixed.Bounds.{offset_mono}
use home_assignment.Ladder.{MergedLevel}
use home_assignment.Analytics.{
  VolumeBandResult, PriceBandResult, BandConfig, LadderView, Cumulative, Walk, view_best_px,
  make_price_band, nothing_yet, is_inside, bound_of, leaves, reaches, close_at, add_level,
  walk_level, walk_levels, thin_volume_band, finish, compute_side_bands,
}
use home_assignment.Analytics.Drain.{Ascending, map-drain}

-- A sweep for one target alone, outward from the levels already passed.
unfoldable pub sweep : Cumulative → List MergedLevel → ℤ → VolumeBandResult
sweep cum [] target = thin_volume_band cum false target
sweep cum (l ∷ ls) target =
    if reaches cum l target then close_at cum l target else sweep (add_level cum l) ls target

-- The levels up to the first one outside the bound of the offset, and whether none was outside.
unfoldable pub inside_prefix : LadderView → ℤ → List MergedLevel → List MergedLevel
inside_prefix side offset [] = []
inside_prefix side offset (l ∷ ls) =
    if leaves side l.px offset then [] else l ∷ inside_prefix side offset ls

unfoldable pub all_inside : LadderView → ℤ → List MergedLevel → Bool
all_inside side offset [] = true
all_inside side offset (l ∷ ls) =
    if leaves side l.px offset then false else all_inside side offset ls

-- The sums over some levels, on top of what was passed before them.
unfoldable pub sum_levels : Cumulative → List MergedLevel → Cumulative
sum_levels cum [] = cum
sum_levels cum (l ∷ ls) = sum_levels (add_level cum l) ls

-- One price band alone: the sums over the levels inside its bound.
abbrev pub price_band : LadderView → Cumulative → List MergedLevel → ℤ → PriceBandResult
price_band side cum ls offset =
    make_price_band offset (bound_of side offset) (sum_levels cum (inside_prefix side offset ls))
      false (all_inside side offset ls)

reaches_stays :
    (cum : Cumulative) (l : MergedLevel) (a b : ℤ)
    → a ≤ℤ b
    → reaches cum l a ≡ false
    → reaches cum l b ≡ false
unfolding reaches leb_ℤ
reaches_stays cum l a b h e = ground arith

leaves_stays :
    (side : LadderView) (px a b : ℤ)
    → view_best_px side ≤ℤ largest
    → a ≤ℤ b
    → leaves side px a ≡ false
    → leaves side px b ≡ false
unfolding leaves is_inside bound_of leb_ℤ
leaves_stays side px a b fits h e =
    ground (arith, offset_mono side.descending (view_best_px side) a b fits h)

regroup {ℓ} :
    {A : Type ℓ} (xs ys zs : List A) {ws : List A} → ws ≡ ys ++ zs → (xs ++ ys) ++ zs ≡ xs ++ ws
regroup xs ys zs e = append_assoc xs ys zs ∙ ap (λ t. xs ++ t) (sym e)

walk-cum :
    (side : LadderView) (w : Walk) (ls : List MergedLevel)
    → (walk_levels side w ls).cum ≡ sum_levels w.cum ls
unfolding walk_levels sum_levels
walk-cum side w [] = refl
walk-cum side w (l ∷ ls) = unfold walk_level in walk-cum side (walk_level side w l) ls

-- What the walk has closed, with what the end of the ladder closes, is the sweep of each target.
walk-volume :
    (side : LadderView) (w : Walk) (ls : List MergedLevel)
    → Ascending ◌≤ℤ◌ w.notionals
    → let end = walk_levels side w ls in
      end.volume ++ map (thin_volume_band end.cum false) end.notionals
      ≡ w.volume ++ map (sweep w.cum ls) w.notionals
unfolding walk_levels sweep
walk-volume side w [] a = ap (λ f. w.volume ++ map f w.notionals) (fun_ext (λ t. refl))
walk-volume side w (l ∷ ls) a =
    let (same, left) =
      map-drain ◌≤ℤ◌ (reaches w.cum l) (close_at w.cum l) (sweep (add_level w.cum l) ls)
        (reaches_stays w.cum l) w.notionals a in
    unfold walk_level in
    walk-volume side (walk_level side w l) ls left
    ∙ regroup w.volume _ _ same
    ∙ ap (λ f. w.volume ++ map f w.notionals) (fun_ext (λ t. refl))

price_band-cons :
    (side : LadderView) (cum : Cumulative) (l : MergedLevel) (ls : List MergedLevel) (offset : ℤ)
    → price_band side cum (l ∷ ls) offset ≡ (
        if leaves side l.px offset
        then make_price_band offset (bound_of side offset) cum false false
        else price_band side (add_level cum l) ls offset)
unfolding inside_prefix all_inside sum_levels
price_band-cons side cum l ls offset = elim (Bool-cases (leaves side l.px offset)) [
  | inl out ↦ rw out
  | inr inside ↦ rw inside
]

walk-price :
    (side : LadderView) (w : Walk) (ls : List MergedLevel)
    → view_best_px side ≤ℤ largest
    → Ascending ◌≤ℤ◌ w.offsets
    → let end = walk_levels side w ls in
      end.price
        ++ map
            (λ offset. make_price_band offset (bound_of side offset) end.cum false true)
            end.offsets
      ≡ w.price ++ map (price_band side w.cum ls) w.offsets
unfolding walk_levels inside_prefix all_inside sum_levels
walk-price side w [] fits a = refl
walk-price side w (l ∷ ls) fits a =
    let (same, left) =
      map-drain ◌≤ℤ◌ (leaves side l.px)
        (λ offset. make_price_band offset (bound_of side offset) w.cum false false)
        (price_band side (add_level w.cum l) ls) (λ x y. leaves_stays side l.px x y fits) w.offsets
        a in
    unfold walk_level in
    walk-price side (walk_level side w l) ls fits left
    ∙ regroup w.price _ _ same
    ∙ ap (λ f. w.price ++ map f w.offsets) (fun_ext (λ o. sym (price_band-cons side w.cum l ls o)))

abbrev walk_start : LadderView → BandConfig → Walk
walk_start side config = record {
  cum = nothing_yet (view_best_px side);
  volume = [];
  price = [];
  notionals = config.notionals;
  offsets = config.offsets_bps;
}

end_cum :
    (side : LadderView) (config : BandConfig)
    → (walk_levels side (walk_start side config) side.levels).cum
      ≡ sum_levels (nothing_yet (view_best_px side)) side.levels
end_cum side config = walk-cum side (walk_start side config) side.levels

-- For targets in ascending order, on a side with a best price: the one walk over the ladder gives,
-- in the order of the targets, exactly the band that a sweep for each target alone gives, and
-- then the open-ended band over the whole ladder.
pub compute_side_bands-volume :
    (side : LadderView) (config : BandConfig)
    → eq_ℤ (view_best_px side) (pos 0) ≡ false
    → Ascending ◌≤ℤ◌ config.notionals
    → (compute_side_bands side config).volume
      ≡ map (sweep (nothing_yet (view_best_px side)) side.levels) config.notionals
        ++ thin_volume_band (sum_levels (nothing_yet (view_best_px side)) side.levels) true (pos 0)
          ∷ []
unfolding compute_side_bands finish
compute_side_bands-volume side config some_ a = rw (some_) (
    sym (append_assoc (walk_levels side (walk_start side config) side.levels).volume _ _)
    ∙ ap₂ (λ xs c. xs ++ thin_volume_band c true (pos 0) ∷ [])
        (walk-volume side (walk_start side config) side.levels a) (end_cum side config))

-- For offsets in ascending order, on a side with a best price that fits int64_t: the one walk
-- gives, in the order of the offsets, the sums over the levels up to the first one outside the
-- bound of each, marked as limited by depth exactly if no level was outside, and then the
-- open-ended band over the whole ladder, bounded by the last price.
pub compute_side_bands-price :
    (side : LadderView) (config : BandConfig)
    → eq_ℤ (view_best_px side) (pos 0) ≡ false
    → view_best_px side ≤ℤ largest
    → Ascending ◌≤ℤ◌ config.offsets_bps
    → let total = sum_levels (nothing_yet (view_best_px side)) side.levels in
      (compute_side_bands side config).price
      ≡ map (price_band side (nothing_yet (view_best_px side)) side.levels) config.offsets_bps
        ++ make_price_band (pos 0) total.worst_px total true false ∷ []
unfolding compute_side_bands finish
compute_side_bands-price side config some_ fits a = rw (some_) (
    sym (append_assoc (walk_levels side (walk_start side config) side.levels).price _ _)
    ∙ ap₂ (λ xs c. xs ++ make_price_band (pos 0) c.worst_px c true false ∷ [])
        (walk-price side (walk_start side config) side.levels fits a) (end_cum side config))
