-- ===== src/Analytics/Filled.antt =====
-- The volume bands of a side never take more than their targets.
use home_assignment.Common.{
  Bool, true, false, List, [], ◌∷◌, ◌≡◌, refl, sym, subst, ◌⊎◌, inl, inr, map, arith, Bool-cases,
  if◌then◌else◌,
}
use home_assignment.Common.Lists.{All, All-append}
use home_assignment.Common.Int.{ℤ, pos, ◌≤ℤ◌, ◌+ℤ◌, ◌-ℤ◌, leb_ℤ, ltb_ℤ, eq_ℤ, int_laws}
use home_assignment.Fixed.{narrow_saturating, notional_wide, qty_for_notional}
use home_assignment.Fixed.Bounds.{notional_wide-qty_for_notional}
use home_assignment.Ladder.{MergedLevel}
use home_assignment.Analytics.{
  VolumeBandResult, BandConfig, LadderView, Cumulative, view_best_px, nothing_yet, reaches,
  close_at, close_volume_band, add_level, thin_volume_band, emit_empty_bands, compute_side_bands,
}
use home_assignment.Analytics.Drain.{Ascending}
use home_assignment.Analytics.Bands.{sweep, compute_side_bands-volume}

-- The band is the open-ended one, or what it has filled is within its target.
abbrev pub IsWithinTarget : VolumeBandResult → Type 0
IsWithinTarget band = (band.open_ended ≡ true) ⊎ (band.filled_notional ≤ℤ band.target)

narrow_within : (v target : ℤ) → pos 0 ≤ℤ target → v ≤ℤ target → narrow_saturating v ≤ℤ target
unfolding narrow_saturating ltb_ℤ
narrow_within v target h k = ground arith

add_within :
    (n x target : ℤ) (taken : Bool)
    → n ≤ℤ target
    → n +ℤ x ≤ℤ target
    → n +ℤ (if taken then x else pos 0) ≤ℤ target
add_within n x target true h k = k
add_within n x target false h k = omega (int_laws, h)

-- What the level adds is paid for by what is left of the target.
partial_within :
    (cum : Cumulative) (l : MergedLevel) (target : ℤ)
    → cum.notional ≤ℤ target
    → let partial =
        if leb_ℤ (cum.notional +ℤ notional_wide l.px l.qty) target
        then l.qty
        else qty_for_notional (target -ℤ cum.notional) l.px in
      cum.notional +ℤ notional_wide l.px partial ≤ℤ target
partial_within cum l target h =
    elim (Bool-cases (leb_ℤ (cum.notional +ℤ notional_wide l.px l.qty) target)) [
      | inl fits ↦ rw fits (unfold leb_ℤ in ground (arith, fits))
      | inr over ↦
          let rest : pos 0 ≤ℤ target -ℤ cum.notional = omega (int_laws, h) in
          let bought = notional_wide-qty_for_notional (target -ℤ cum.notional) l.px rest in
          rw over (omega (int_laws, bought))
    ]

close_at-IsWithinTarget :
    (cum : Cumulative) (l : MergedLevel) (target : ℤ)
    → pos 0 ≤ℤ target
    → cum.notional ≤ℤ target
    → IsWithinTarget (close_at cum l target)
unfolding close_at close_volume_band
close_at-IsWithinTarget cum l target h k = inr (
    narrow_within _ target h (add_within cum.notional _ target _ k (partial_within cum l target k)))

sweep-IsWithinTarget :
    (cum : Cumulative) (ls : List MergedLevel) (target : ℤ)
    → pos 0 ≤ℤ target
    → cum.notional ≤ℤ target
    → IsWithinTarget (sweep cum ls target)
unfolding sweep
sweep-IsWithinTarget cum [] target h k =
    unfold thin_volume_band in inr (narrow_within cum.notional target h k)
sweep-IsWithinTarget cum (l ∷ ls) target h k = elim (Bool-cases (reaches cum l target)) [
  | inl here ↦ rw (here, sweep) (close_at-IsWithinTarget cum l target h k)
  | inr short ↦
      let under : (add_level cum l).notional ≤ℤ target =
        unfold add_level reaches leb_ℤ in ground (arith, short) in
      rw (short, sweep) (sweep-IsWithinTarget (add_level cum l) ls target h under)
]

All-map :
    {A B : Type 0} (P : B → Type 0) (Q : A → Type 0) (f : A → B) (xs : List A)
    → ((x : A) → Q x → P (f x))
    → All Q xs
    → All P (map f xs)
All-map P Q f [] g h = tt
All-map P Q f (x ∷ xs) g h = (g x h.0, All-map P Q f xs g h.1)

-- For targets of at least 0 in ascending order, every volume band of a side, empty or not, other
-- than the open-ended one fills at most its target.
pub compute_side_bands-IsWithinTarget :
    (side : LadderView) (config : BandConfig)
    → Ascending ◌≤ℤ◌ config.notionals
    → All (λ target. pos 0 ≤ℤ target) config.notionals
    → All IsWithinTarget (compute_side_bands side config).volume
compute_side_bands-IsWithinTarget side config a h =
    elim (Bool-cases (eq_ℤ (view_best_px side) (pos 0))) [
      | inl empty ↦
          unfold compute_side_bands emit_empty_bands in
          rw empty (
            All-append IsWithinTarget _ _
              (All-map IsWithinTarget (λ target. pos 0 ≤ℤ target) _ config.notionals (λ t k. inr k)
                h)
              (inl refl, tt))
      | inr some_ ↦
          subst (All IsWithinTarget) (sym (compute_side_bands-volume side config some_ a)) (
            All-append IsWithinTarget _ _
              (All-map IsWithinTarget (λ target. pos 0 ≤ℤ target) _ config.notionals
                (λ t k. sweep-IsWithinTarget (nothing_yet (view_best_px side)) side.levels t k k) h)
              (unfold thin_volume_band in (inl refl, tt)))
    ]
