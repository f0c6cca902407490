-- ===== src/Examples/Ladders.antt =====
-- Merged ladders and the bands over them.
use home_assignment.Common.{
  ℕ, Bool, true, false, List, [], ◌∷◌, ◌++◌, ◌≡◌, refl, map, some, arith, ◌*◌,
}
use home_assignment.Common.Lists.{All}
use home_assignment.Analytics.Filled.{IsWithinTarget, compute_side_bands-IsWithinTarget}
use home_assignment.Common.Int.{pos, ◌+ℤ◌, ◌-ℤ◌, ◌*ℤ◌, ◌/ℤ◌, leb_ℤ, ltb_ℤ, eq_ℤ}
use home_assignment.Fixed.{scale, notional_wide, offset_by_bps_outward}
use home_assignment.Book.{Level}
use home_assignment.Book.Order.{Ordered}
use home_assignment.Ladder.{MergedLevel, MergeLimits, merge_side}
use home_assignment.Ladder.Total.{Merges, merge_side-Merges}
use home_assignment.Analytics.{
  LadderView, BandConfig, compute_side_bands, view_best_px, nothing_yet, thin_volume_band,
}
use home_assignment.Analytics.Bands.{sweep, sum_levels, compute_side_bands-volume}
use home_assignment.Analytics.PriceBands.{band_of, band_over, last_px, compute_side_bands-band_of}

abbrev at : ℕ → ℕ → Level
at px qty = record { px = pos (px * scale); qty = pos (qty * scale) }

methods : Unit {0}
unfolding merge_side compute_side_bands offset_by_bps_outward view_best_px leb_ℤ ltb_ℤ eq_ℤ
    notional_wide ◌+ℤ◌ ◌-ℤ◌ ◌*ℤ◌ ◌/ℤ◌
methods = tt

abbrev venues : List (List Level)
venues = (at 100 2 ∷ at 101 1 ∷ []) ∷ [] ∷ (at 100 3 ∷ at 102 4 ∷ at 110 1 ∷ []) ∷ []

-- Two levels at most.
abbrev limits : MergeLimits
limits = record { notional_target = pos 0; max_bps_from_touch = pos (500 * scale); max_levels = 2 }

abbrev merged : ℕ → ℕ → MergedLevel
merged px qty = record { px = pos (px * scale); qty = pos (qty * scale) }

truncated : merge_side false limits venues ≡ some (merged 100 5 ∷ merged 101 1 ∷ [], true)
unfolding methods
truncated = refl

venues-Ordered : All (Ordered false) venues
unfolding methods
venues-Ordered = (((refl, tt), (tt, tt)), (tt, (((refl, (refl, tt)), ((refl, tt), (tt, tt))), tt)))

merge_side-Merges_example :
    (r : List MergedLevel × Bool) × (merge_side false limits venues ≡ some r)
    × Merges false venues r
merge_side-Merges_example = merge_side-Merges false limits venues venues-Ordered

abbrev asks : LadderView
asks = record { levels = merged 100 5 ∷ merged 101 1 ∷ merged 102 4 ∷ []; descending = false }

abbrev config : BandConfig
config = record {
  notionals = pos (200 * scale) ∷ pos (550 * scale) ∷ pos (5000 * scale) ∷ [];
  offsets_bps = pos (50 * scale) ∷ pos (100 * scale) ∷ [];
}

compute_side_bands-volume_example :
    (compute_side_bands asks config).volume
    ≡ map (sweep (nothing_yet (view_best_px asks)) asks.levels) config.notionals
      ++ thin_volume_band (sum_levels (nothing_yet (view_best_px asks)) asks.levels) true (pos 0)
        ∷ []
unfolding methods
compute_side_bands-volume_example = compute_side_bands-volume asks config refl (omega arith)

compute_side_bands-band_of_example :
    (compute_side_bands asks config).price
    ≡ map (band_of asks) config.offsets_bps
      ++ band_over (pos 0) (last_px (view_best_px asks) asks.levels) asks.levels true false ∷ []
unfolding methods
compute_side_bands-band_of_example =
    compute_side_bands-band_of asks config refl (omega arith) (omega arith)

compute_side_bands-IsWithinTarget_example :
    All IsWithinTarget (compute_side_bands asks config).volume
compute_side_bands-IsWithinTarget_example =
    compute_side_bands-IsWithinTarget asks config (omega arith)
      (omega arith, (omega arith, (omega arith, tt)))
