-- ===== src/Book/Invariant.antt =====
-- The check `Invariant` of a side, and that every update of a book keeps it.
use home_assignment.Common.{
  Bool, true, false, List, [], ◌∷◌, ◌≡◌, refl, sym, subst, arith, ◌↔◌, Bool-cases, inl, inr,
}
use home_assignment.Common.Lists.{All, All-mono}
use home_assignment.Common.Int.{ℤ, pos, eq_ℤ, leb_ℤ, ltb_ℤ}
use home_assignment.Book.{
  Level, better, apply, apply_each, apply_batch, replace, invariant, invariant_from, VenueBook,
  FeedUpdateLevels, apply_feed_update,
}
use home_assignment.Book.Order.{AllWorse, AllWorse-trans, Ordered, IsBook}
use home_assignment.Book.Keep.{All-apply, apply_each-IsBook}
use home_assignment.Book.Batch.{apply_batch-apply_each, replace-apply_each}

-- A price and a quantity above 0.
abbrev pub IsPositive : Level → Type 0
IsPositive l = (leb_ℤ l.qty (pos 0) ≡ false) × (leb_ℤ l.px (pos 0) ≡ false)

-- What ParseLevelArray lets through: a price above 0, and a quantity of at least 0.
abbrev pub IsChange : Level → Type 0
IsChange l = (leb_ℤ l.px (pos 0) ≡ false) × (ltb_ℤ l.qty (pos 0) ≡ false)

invariant_from-AllWorse :
    (d : Bool) (p : ℤ) (ls : List Level)
    → invariant_from d p ls ≡ true
    → AllWorse d p ls × Ordered d ls × All IsPositive ls
unfolding invariant_from
invariant_from-AllWorse d p [] h = (tt, tt, tt)
invariant_from-AllWorse d p (l ∷ ls) h =
    let head : (better d p l.px ≡ true)
        × (leb_ℤ l.qty (pos 0) ≡ false)
        × (leb_ℤ l.px (pos 0) ≡ false)
        × (invariant_from d l.px ls ≡ true) =
      ground arith in
    let (worse, ordered, positive) = invariant_from-AllWorse d l.px ls head.3 in
    (
      (head.0, AllWorse-trans d p l.px ls head.0 worse),
      (worse, ordered),
      ((head.1, head.2), positive),
    )

AllWorse-invariant_from :
    (d : Bool) (p : ℤ) (ls : List Level)
    → AllWorse d p ls
    → Ordered d ls
    → All IsPositive ls
    → invariant_from d p ls ≡ true
unfolding invariant_from
AllWorse-invariant_from d p [] w o h = refl
AllWorse-invariant_from d p (l ∷ ls) w o h =
    ground (arith, AllWorse-invariant_from d l.px ls o.0 o.1 h.1, w.0, h.0.0, h.0.1)

-- The check passes exactly on the sides whose prices strictly fall away from the touch, each
-- price and each quantity above 0.
pub invariant-Ordered :
    (d : Bool) (ls : List Level) → (invariant d ls ≡ true) ↔ (Ordered d ls × All IsPositive ls)
unfolding invariant
invariant-Ordered d [] = (λ h. (tt, tt), λ h. refl)
invariant-Ordered d (l ∷ ls) = (
  λ h.
      let head : (leb_ℤ l.qty (pos 0) ≡ false)
          × (leb_ℤ l.px (pos 0) ≡ false)
          × (invariant_from d l.px ls ≡ true) =
        ground arith in
      let (worse, ordered, positive) = invariant_from-AllWorse d l.px ls head.2 in
      ((worse, ordered), ((head.0, head.1), positive)),
  λ h. ground (arith, AllWorse-invariant_from d l.px ls h.0.0 h.0.1 h.1.1, h.1.0.0, h.1.0.1),
)

positive-nonzero : (l : Level) → IsPositive l → eq_ℤ l.qty (pos 0) ≡ false
unfolding eq_ℤ leb_ℤ
positive-nonzero l h = ground arith

change-IsPositive : (l : Level) → IsChange l → eq_ℤ l.qty (pos 0) ≡ false → IsPositive l
unfolding eq_ℤ leb_ℤ ltb_ℤ
change-IsPositive l h kept = ground arith

apply_each-IsPositive :
    (d : Bool) (deltas ls : List Level)
    → All IsChange deltas
    → All IsPositive ls
    → All IsPositive (apply_each d deltas ls)
unfolding apply_each
apply_each-IsPositive d [] ls c h = h
apply_each-IsPositive d (u ∷ deltas) ls c h =
    apply_each-IsPositive d deltas (apply d u.px u.qty ls) c.1
      (All-apply IsPositive u.px u.qty (change-IsPositive u c.0) d ls h)

apply_each-invariant :
    (d : Bool) (deltas ls : List Level)
    → All IsChange deltas
    → invariant d ls ≡ true
    → (apply_each d deltas ls ≡ apply_batch d deltas ls)
      × (invariant d (apply_each d deltas ls) ≡ true)
apply_each-invariant d deltas ls c h =
    let (ordered, positive) = (invariant-Ordered d ls).0 h in
    let book : IsBook d ls = (
      ordered,
      All-mono IsPositive (λ l. eq_ℤ l.qty (pos 0) ≡ false) ls positive-nonzero positive,
    ) in
    (
      sym (apply_batch-apply_each d deltas ls book),
      (invariant-Ordered d _).1
          ((apply_each-IsBook d deltas ls book).0, apply_each-IsPositive d deltas ls c positive),
    )

apply_batch-invariant :
    (d : Bool) (deltas ls : List Level)
    → All IsChange deltas
    → invariant d ls ≡ true
    → invariant d (apply_batch d deltas ls) ≡ true
apply_batch-invariant d deltas ls c h =
    let (same, kept) = apply_each-invariant d deltas ls c h in
    subst (λ x. invariant d x ≡ true) same kept

replace-invariant :
    (d : Bool) (levels : List Level) → All IsChange levels → invariant d (replace d levels) ≡ true
replace-invariant d levels c =
    subst (λ x. invariant d x ≡ true) (sym (replace-apply_each d levels))
      (apply_each-invariant d levels [] c ((invariant-Ordered d []).1 (tt, tt))).1

abbrev pub BothSides : VenueBook → Type 0
BothSides book = (invariant true book.bids ≡ true) × (invariant false book.asks ≡ true)

-- An update of levels that passed ingestion, snapshot or not, keeps the invariant of both sides.
pub apply_feed_update-invariant :
    (book : VenueBook) (update : FeedUpdateLevels)
    → All IsChange update.bids
    → All IsChange update.asks
    → BothSides book
    → BothSides (apply_feed_update book update)
unfolding apply_feed_update
apply_feed_update-invariant book update b a h = elim (Bool-cases update.is_snapshot) [
  | inl snapshot ↦
      rw snapshot (replace-invariant true update.bids b, replace-invariant false update.asks a)
  | inr delta ↦ rw delta (
    apply_batch-invariant true update.bids book.bids b h.0,
    apply_batch-invariant false update.asks book.asks a h.1,
  )
]
