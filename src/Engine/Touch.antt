-- ===== src/Engine/Touch.antt =====
-- src/aggregator/engine.cc: who is at the touch. The quantities of the venues that are named there are
-- those that the merge summed.
use home_assignment.Common.{
  Bool, true, false, not, ◌&&◌, List, [], ◌∷◌, map, ◌≡◌, refl, sym, ap, subst, ◌∙◌, Bool-cases, inl,
  inr, if◌then◌else◌, arith,
}
use home_assignment.Common.Lists.{All}
use home_assignment.Common.Int.{ℤ, pos, ◌+ℤ◌, ◌≤ℤ◌, eq_ℤ, eq_ℤ→eq, eq_ℤ_refl, leb_ℤ, int_laws}
use home_assignment.Book.{Level, VenueBook, better, best_px, best_qty}
use home_assignment.Book.Order.{better_total, better_irrefl, better_asym, AllWorse-trans, Ordered}
use home_assignment.Book.Lookup.{qty_at, qty_at-AllWorse}
use home_assignment.Book.Invariant.{IsPositive}
use home_assignment.Ladder.{MergedLevel}
use home_assignment.Ladder.Sums.{total_at}
use home_assignment.Ladder.Total.{Merges, merged_at, merged_at-WorseLadder, WorseLadder-trans}
use home_assignment.Engine.{Venue, VenueTouch, touch_of, first_px}

-- A side whose check passes.
abbrev pub IsSide : Bool → List Level → Type 0
IsSide d ls = Ordered d ls × All IsPositive ls

-- The best price is not better than a price.
abbrev Within : Bool → ℤ → List Level → Type 0
Within d p [] = Unit
Within d p (l ∷ ls) = better d l.px p ≡ false

abbrev pub sum_qty : List VenueTouch → ℤ
sum_qty [] = pos 0
sum_qty (t ∷ ts) = t.qty +ℤ sum_qty ts

qty_at-nonneg : (p : ℤ) (ls : List Level) → All IsPositive ls → pos 0 ≤ℤ qty_at p ls
unfolding qty_at leb_ℤ
qty_at-nonneg p [] h = omega arith
qty_at-nonneg p (l ∷ ls) h = ground (arith, h.0, qty_at-nonneg p ls h.1)

total_at-nonneg :
    (d : Bool) (p : ℤ) (inputs : List (List Level))
    → All (IsSide d) inputs
    → pos 0 ≤ℤ total_at p inputs
unfolding total_at
total_at-nonneg d p [] h = omega arith
total_at-nonneg d p (ls ∷ inputs) h =
    omega (int_laws, qty_at-nonneg p ls h.0.1, total_at-nonneg d p inputs h.1)

qty_at-head : (l : Level) (ls : List Level) → qty_at l.px (l ∷ ls) ≡ l.qty
unfolding qty_at eq_ℤ
qty_at-head l ls = ground arith

zero_parts : (a b : ℤ) → pos 0 ≤ℤ a → pos 0 ≤ℤ b → a +ℤ b ≡ pos 0 → (a ≡ pos 0) × (b ≡ pos 0)
zero_parts a b h k e =
    let le : a +ℤ b ≤ℤ pos 0 = subst (λ z. z ≤ℤ pos 0) (sym e) (omega arith) in
    let left : a ≤ℤ pos 0 = omega (int_laws, h, k, le) in
    let right : b ≤ℤ pos 0 = omega (int_laws, h, k, le) in
    (
      eq_ℤ→eq a (pos 0) (unfold eq_ℤ in ground (arith, h, left)),
      eq_ℤ→eq b (pos 0) (unfold eq_ℤ in ground (arith, k, right)),
    )

head-Within :
    (d : Bool) (p : ℤ) (ls : List Level)
    → IsSide d ls
    → ((q : ℤ) → better d q p ≡ true → qty_at q ls ≡ pos 0)
    → Within d p ls
head-Within d p [] h none_at = tt
head-Within d p (l ∷ ls) h none_at = elim (Bool-cases (better d l.px p)) [
  | inl b ↦
      let e : l.qty ≡ pos 0 = sym (qty_at-head l ls) ∙ none_at l.px b in
      absurd (unfold leb_ℤ in ground (arith, h.1.0.0, e))
  | inr worse ↦ worse
]

-- Where nothing is better than a price, no best price is.
total_at-Within :
    (d : Bool) (p : ℤ) (inputs : List (List Level))
    → All (IsSide d) inputs
    → ((q : ℤ) → better d q p ≡ true → total_at q inputs ≡ pos 0)
    → All (Within d p) inputs
unfolding total_at
total_at-Within d p [] h none_at = tt
total_at-Within d p (ls ∷ inputs) h none_at =
    let parts : (q : ℤ)
        → better d q p ≡ true
        → (qty_at q ls ≡ pos 0) × (total_at q inputs ≡ pos 0) =
      λ q b.
        zero_parts (qty_at q ls) (total_at q inputs) (qty_at-nonneg q ls h.0.1)
          (total_at-nonneg d q inputs h.1) (none_at q b) in
    (
      head-Within d p ls h.0 (λ q b. (parts q b).0),
      total_at-Within d p inputs h.1 (λ q b. (parts q b).1),
    )

-- The quantity that a side adds at a price that its best price is not better than.
qty_at-best :
    (d : Bool) (p : ℤ) (ls : List Level)
    → IsSide d ls
    → Within d p ls
    → qty_at p ls ≡ (if not (eq_ℤ p (pos 0)) && eq_ℤ (best_px ls) p then best_qty ls else pos 0)
unfolding qty_at best_px best_qty
qty_at-best d p [] h w = unfold eq_ℤ in ground arith
qty_at-best d p (l ∷ ls) h w = elim (Bool-cases (eq_ℤ l.px p)) [
  | inl at ↦
      let above : eq_ℤ p (pos 0) ≡ false = unfold leb_ℤ eq_ℤ in ground (arith, h.1.0.1, at) in
      rw (at, above) refl
  | inr off ↦
      let b : better d p l.px ≡ true = ground (arith, better_total d l.px p w) in
      let none_at = qty_at-AllWorse d p ls (AllWorse-trans d p l.px ls b h.0.0) in
      rw (off, none_at) (ground arith)
]

-- The quantities named at the touch add up to those that the sides have there.
touch_of-total_at :
    (d : Bool) (side : VenueBook → List Level) (p : ℤ) (vs : List Venue)
    → All (λ v. IsSide d (side v.book)) vs
    → All (λ v. Within d p (side v.book)) vs
    → sum_qty (touch_of side p vs) ≡ total_at p (map (λ v. side v.book) vs)
unfolding touch_of total_at
touch_of-total_at d side p [] h w = refl
touch_of-total_at d side p (v ∷ vs) h w =
    let rest = touch_of-total_at d side p vs h.1 w.1 in
    let mine = qty_at-best d p (side v.book) h.0 w.0 in
    elim (Bool-cases (not (eq_ℤ p (pos 0)) && eq_ℤ (best_px (side v.book)) p)) [
      | inl named ↦ rw (mine, named) (ap (λ t. best_qty (side v.book) +ℤ t) rest)
      | inr other ↦ rw (mine, other) (rest ∙ omega int_laws)
    ]

All-map :
    (P : List Level → Type 0) (side : VenueBook → List Level) (vs : List Venue)
    → All (λ v. P (side v.book)) vs
    → All P (map (λ v. side v.book) vs)
All-map P side [] h = tt
All-map P side (v ∷ vs) h = (h.0, All-map P side vs h.1)

All-unmap :
    (P : List Level → Type 0) (side : VenueBook → List Level) (vs : List Venue)
    → All P (map (λ v. side v.book) vs)
    → All (λ v. P (side v.book)) vs
All-unmap P side [] h = tt
All-unmap P side (v ∷ vs) h = (h.0, All-unmap P side vs h.1)

-- The first level of a merge has what the sides have at its price, and no side is better.
module _ (d : Bool) (inputs : List (List Level)) (l : MergedLevel) (ls : List MergedLevel)
    (truncated : Bool) (m : Merges d inputs (l ∷ ls, truncated)) where
  first_qty : l.qty ≡ total_at l.px inputs
  unfolding merged_at
  first_qty = elim (m.exact l.px) [
    | inl e ↦ rw (← e, eq_ℤ_refl l.px) refl
    | inr (cut, past) ↦ absurd (cc (past.0, better_irrefl d l.px))
  ]

  none_before : (q : ℤ) → better d q l.px ≡ true → total_at q inputs ≡ pos 0
  none_before q b = elim (m.exact q) [
    | inl e ↦
        sym e ∙ merged_at-WorseLadder d q (l ∷ ls) (b, WorseLadder-trans d q l.px ls b m.ordered.0)
    | inr (cut, past) ↦ absurd (cc (past.0, better_asym d q l.px b))
  ]

abbrev pub first_qty_of : List MergedLevel → ℤ
first_qty_of [] = pos 0
first_qty_of (l ∷ ls) = l.qty

touch_of-none : (side : VenueBook → List Level) (vs : List Venue) → touch_of side (pos 0) vs ≡ []
unfolding touch_of eq_ℤ
touch_of-none side [] = refl
touch_of-none side (v ∷ vs) = touch_of-none side vs

-- What the venues at the touch of a merged ladder have adds up to its first level.
pub touch_of-first :
    (d : Bool) (side : VenueBook → List Level) (vs : List Venue) (ladder : List MergedLevel)
    (truncated : Bool)
    → All (λ v. IsSide d (side v.book)) vs
    → Merges d (map (λ v. side v.book) vs) (ladder, truncated)
    → sum_qty (touch_of side (first_px ladder) vs) ≡ first_qty_of ladder
touch_of-first d side vs [] truncated h m = ap sum_qty (touch_of-none side vs)
touch_of-first d side vs (l ∷ ls) truncated h m =
    let inputs = map (λ v. side v.book) vs in
    touch_of-total_at d side l.px vs h (
      All-unmap (Within d l.px) side vs (
        total_at-Within d l.px inputs (All-map (IsSide d) side vs h)
          (none_before d inputs l ls truncated m)))
    ∙ sym (first_qty d inputs l ls truncated m)
