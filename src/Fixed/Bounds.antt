-- ===== src/Fixed/Bounds.antt =====
-- Bounds of the fixed-point helpers.
use native.Mathlib.Nat.{mul-le-mul_left}
use home_assignment.Common.{
  ℕ, zero, suc, ◌+◌, ◌-◌, ◌*◌, ◌/◌, ◌≤◌, ◌<◌, ◌≡◌, refl, Bool, true, false, arith, if◌then◌else◌,
  inl, inr, ◌⊎◌,
}
use home_assignment.Common.Int.{
  ℤ, pos, negsuc, pos_part, ◌≤ℤ◌, ◌+ℤ◌, ◌-ℤ◌, ◌*ℤ◌, ◌/ℤ◌, ltb_ℤ, leb_ℤ, *ℤ_pos, /ℤ_pos, int_laws,
}
use home_assignment.Fixed.{
  scale, bps_scale, largest, smallest, narrow_saturating, notional_wide, qty_for_notional,
  outward_delta, offset_by_bps_outward,
}

-- The result fits int64_t, and a value that fits is returned as it is.
pub narrow_saturating_range :
    (v : ℤ)
    → (smallest ≤ℤ narrow_saturating v)
      × (narrow_saturating v ≤ℤ largest)
      × (smallest ≤ℤ v → v ≤ℤ largest → narrow_saturating v ≡ v)
unfolding narrow_saturating ltb_ℤ
narrow_saturating_range v = ground arith

pub narrow_mono : (a b : ℤ) → a ≤ℤ b → narrow_saturating a ≤ℤ narrow_saturating b
unfolding narrow_saturating ltb_ℤ
narrow_mono a b h = ground arith

pub narrow_pos : (n : ℕ) → (q : ℕ) × (narrow_saturating (pos n) ≡ pos q) × (q ≤ n)
unfolding narrow_saturating ltb_ℤ
narrow_pos n = (pos_part (narrow_saturating (pos n)), ground arith, ground arith)

product_div : (n s p q : ℕ) → 0 < p → q ≤ n * s / p → p * q ≤ n * s
product_div n s p q h k = grind arith

notional_wide_zero : (px : ℤ) → notional_wide px (pos 0) ≡ pos 0
unfolding notional_wide ◌*ℤ◌ ◌/ℤ◌
notional_wide_zero px = ground arith

notional_wide_pos : (p q : ℕ) → notional_wide (pos p) (pos q) ≡ pos (p * q / scale)
unfolding notional_wide
notional_wide_pos p q = rw (*ℤ_pos p q) (/ℤ_pos (p * q) scale)

-- A price and an amount above 0: the quantity is the quotient, rounded down and narrowed.
qty_for_notional_pos :
    (n p : ℕ)
    → 0 < n
    → 0 < p
    → qty_for_notional (pos n) (pos p) ≡ narrow_saturating (pos (n * scale / p))
unfolding qty_for_notional leb_ℤ
qty_for_notional_pos n p h k =
    let e : pos n *ℤ pos scale /ℤ pos p ≡ pos (n * scale / p) =
      rw (*ℤ_pos n scale) (/ℤ_pos (n * scale) p) in
    ground arith

-- A quantity bought for an amount at a price never costs more than that amount.
pub notional_wide-qty_for_notional :
    (notional px : ℤ)
    → pos 0 ≤ℤ notional
    → notional_wide px (qty_for_notional notional px) ≤ℤ notional
notional_wide-qty_for_notional (negsuc n) px h = absurd (omega arith)
notional_wide-qty_for_notional (pos n) (negsuc p) h =
    unfold qty_for_notional leb_ℤ in ground (arith, notional_wide_zero (negsuc p))
notional_wide-qty_for_notional (pos zero) (pos p) h =
    unfold qty_for_notional leb_ℤ in ground (arith, notional_wide_zero (pos p))
notional_wide-qty_for_notional (pos (suc n)) (pos zero) h =
    unfold qty_for_notional leb_ℤ in ground (arith, notional_wide_zero (pos 0))
notional_wide-qty_for_notional (pos (suc n)) (pos (suc p)) h =
    let (q, is, small) = narrow_pos (suc n * scale / suc p) in
    rw
      (
        qty_for_notional_pos (suc n) (suc p) (omega arith) (omega arith),
        is,
        notional_wide_pos (suc p) q,
      )
      (omega (arith, product_div (suc n) scale (suc p) q (omega arith) small))

outward_delta_pos :
    (r o : ℕ)
    → 0 < r
    → 0 < o
    → outward_delta (pos r) (pos o) ≡ pos ((r * o + (bps_scale - 1)) / bps_scale)
unfolding outward_delta
outward_delta_pos r o h k =
    let e : pos (r * o) +ℤ pos bps_scale -ℤ pos 1 ≡ pos (r * o + (bps_scale - 1)) =
      omega int_laws in
    rw (*ℤ_pos r o, e) (/ℤ_pos (r * o + (bps_scale - 1)) bps_scale)

-- Further offsets give bounds that are further out.
delta_mono :
    (r o o' : ℕ)
    → o ≤ o'
    → (r * o + (bps_scale - 1)) / bps_scale ≤ (r * o' + (bps_scale - 1)) / bps_scale
delta_mono r o o' h = let m : r * o ≤ r * o' = mul-le-mul_left r h in omega arith

-- Where the bound lies: the distance is subtracted on the bid side and added on the ask side.
offset_pos :
    (r o : ℕ) (downward : Bool)
    → 0 < r
    → 0 < o
    → offset_by_bps_outward (pos r) (pos o) downward
      ≡ narrow_saturating (
          if downward
          then pos r -ℤ pos ((r * o + (bps_scale - 1)) / bps_scale)
          else pos r +ℤ pos ((r * o + (bps_scale - 1)) / bps_scale))
unfolding offset_by_bps_outward leb_ℤ
offset_pos r o downward h k = ground (arith, outward_delta_pos r o h k)

-- Not past the reference on the inner side.
abbrev pub Outside : Bool → ℤ → ℤ → Type 0
Outside true a b = b ≤ℤ a
Outside false a b = a ≤ℤ b

narrow_Outside :
    (d : Bool) (r x y : ℕ)
    → r ≤ pos_part largest
    → x ≤ y
    → Outside d (pos r) (narrow_saturating (if d then pos r -ℤ pos x else pos r +ℤ pos x))
      × Outside d
          (narrow_saturating (if d then pos r -ℤ pos x else pos r +ℤ pos x))
          (narrow_saturating (if d then pos r -ℤ pos y else pos r +ℤ pos y))
unfolding narrow_saturating ltb_ℤ ◌+ℤ◌ ◌-ℤ◌
narrow_Outside true r x y h k = ground arith
narrow_Outside false r x y h k = ground arith

Outside-refl : (d : Bool) (a : ℤ) → Outside d a a
Outside-refl true a = omega arith
Outside-refl false a = omega arith

offset_flat : (r o : ℤ) (d : Bool) → (r ≤ℤ pos 0) ⊎ (o ≤ℤ pos 0) → offset_by_bps_outward r o d ≡ r
unfolding offset_by_bps_outward leb_ℤ
offset_flat r o d h = ground arith

sign_cases : (a : ℤ) → (a ≤ℤ pos 0) ⊎ ((n : ℕ) × (0 < n) × (a ≡ pos n))
sign_cases (negsuc n) = inl (omega arith)
sign_cases (pos zero) = inl (omega arith)
sign_cases (pos (suc n)) = inr (suc n, omega arith, refl)

both_out :
    (d : Bool) (r o o' : ℕ)
    → 0 < r
    → 0 < o
    → pos o ≤ℤ pos o'
    → pos r ≤ℤ largest
    → Outside d (pos r) (offset_by_bps_outward (pos r) (pos o) d)
      × Outside d
          (offset_by_bps_outward (pos r) (pos o) d)
          (offset_by_bps_outward (pos r) (pos o') d)
both_out d r o o' h k le fits =
    rw (offset_pos r o d h k, offset_pos r o' d h (omega arith))
      (narrow_Outside d r _ _ (omega arith) (delta_mono r o o' (omega arith)))

-- A bound lies outward of its reference price, and a larger offset never gives a bound that is
-- closer to it.
pub offset_mono :
    (d : Bool) (r o o' : ℤ)
    → r ≤ℤ largest
    → o ≤ℤ o'
    → Outside d r (offset_by_bps_outward r o d)
      × Outside d (offset_by_bps_outward r o d) (offset_by_bps_outward r o' d)
offset_mono d r o o' fits le = elim (sign_cases r) [
  | inl none ↦
      rw (offset_flat r o d (inl none), offset_flat r o' d (inl none))
        (Outside-refl d r, Outside-refl d r)
  | inr (n, above, e) ↦ elim (sign_cases o) [
    | inl flat ↦ elim (sign_cases o') [
      | inl flat' ↦
          rw (offset_flat r o d (inr flat), offset_flat r o' d (inr flat'))
            (Outside-refl d r, Outside-refl d r)
      | inr (m', up', e') ↦
          rw (offset_flat r o d (inr flat), e, e')
            (Outside-refl d (pos n), (both_out d n m' m' above up' (omega arith) (rw e at fits)).0)
    ]
    | inr (m, up, f) ↦ elim (sign_cases o') [
      | inl flat' ↦ absurd (omega (arith, rw f at le))
      | inr (m', up', e') ↦
          rw (e, f, e') (both_out d n m m' above up (rw (f, e') at le) (rw e at fits))
    ]
  ]
]
