-- ===== src/Book/Lookup.antt =====
-- A side of a book seen as a map from prices to quantities: what Apply does to the map, and that
-- the map determines the book.
use home_assignment.Common.{
  Bool, true, false, List, [], ◌∷◌, ◌≡◌, refl, sym, subst, ap, ap₂, ◌∙◌, arith, if◌then◌else◌,
  Bool-cases, inl, inr,
}
use home_assignment.Common.Int.{ℤ, pos, eq_ℤ, eq_ℤ→eq, eq_ℤ_refl, eq_ℤ_comm}
use home_assignment.Book.{Level, better, lower_bound, amend, apply}
use home_assignment.Book.Order.{
  better_total, better-eq_ℤ, AllWorse, AllWorse-trans, Ordered, IsBook,
}

-- The quantity at a price, 0 where there is no level.
unfoldable pub qty_at : ℤ → List Level → ℤ
qty_at p [] = pos 0
qty_at p (l ∷ ls) = if eq_ℤ l.px p then l.qty else qty_at p ls

pub qty_at-AllWorse : (d : Bool) (p : ℤ) (ls : List Level) → AllWorse d p ls → qty_at p ls ≡ pos 0
unfolding qty_at
qty_at-AllWorse d p [] w = refl
qty_at-AllWorse d p (l ∷ ls) w =
    ground (arith, better-eq_ℤ d p l.px w.0, eq_ℤ_comm p l.px, qty_at-AllWorse d p ls w.1)

pub AllWorse-eq_ℤ :
    (d : Bool) (p q : ℤ) (ls : List Level) → eq_ℤ p q ≡ true → AllWorse d p ls → AllWorse d q ls
AllWorse-eq_ℤ d p q ls e w = subst (λ x. AllWorse d x ls) (eq_ℤ→eq p q e) w

pub apply-cons :
    (d : Bool) (px qty : ℤ) (l : Level) (ls : List Level)
    → apply d px qty (l ∷ ls)
      ≡ (if better d l.px px then l ∷ apply d px qty ls else amend px qty (l ∷ ls))
unfolding apply lower_bound
apply-cons d px qty l ls = ground arith

-- At the place where the level belongs, `amend` sets the quantity.
qty_at-amend :
    (d : Bool) (px qty p : ℤ) (l : Level) (ls : List Level)
    → Ordered d (l ∷ ls)
    → better d l.px px ≡ false
    → qty_at p (amend px qty (l ∷ ls)) ≡ (if eq_ℤ px p then qty else qty_at p (l ∷ ls))
unfolding qty_at amend
qty_at-amend d px qty p l ls o place = ground (
  arith,
  eq_ℤ→eq qty (pos 0),
  eq_ℤ→eq l.px px,
  eq_ℤ→eq l.px p,
  eq_ℤ→eq px p,
  eq_ℤ_refl p,
  better_total d l.px px place,
  λ (e : eq_ℤ l.px p ≡ true). qty_at-AllWorse d p ls (AllWorse-eq_ℤ d l.px p ls e o.0),
  λ (b : better d px l.px ≡ true). qty_at-AllWorse d px ls (AllWorse-trans d px l.px ls b o.0),
)

-- Applying a change sets the quantity at its price and leaves every other price as it was.
pub qty_at-apply :
    (d : Bool) (px qty p : ℤ) (ls : List Level)
    → Ordered d ls
    → qty_at p (apply d px qty ls) ≡ (if eq_ℤ px p then qty else qty_at p ls)
unfolding qty_at
qty_at-apply d px qty p [] o = unfold apply lower_bound amend in ground (arith, eq_ℤ→eq qty (pos 0))
qty_at-apply d px qty p (l ∷ ls) o = rw apply-cons (elim (Bool-cases (better d l.px px)) [
  | inl further ↦ rw further (
      ground (
        arith,
        eq_ℤ→eq l.px p,
        eq_ℤ→eq px p,
        eq_ℤ_refl p,
        better-eq_ℤ d l.px px further,
        qty_at-apply d px qty p ls o.1,
      ))
  | inr here ↦ rw here (qty_at-amend d px qty p l ls o here)
])

qty_at_head : (l : Level) (ls : List Level) → qty_at l.px (l ∷ ls) ≡ l.qty
unfolding qty_at
qty_at_head l ls = rw eq_ℤ_refl

-- A level of one book is found in every book with the same map.
not_missing :
    (d : Bool) (l : Level) (ls other : List Level)
    → eq_ℤ l.qty (pos 0) ≡ false
    → qty_at l.px (l ∷ ls) ≡ qty_at l.px other
    → AllWorse d l.px other
    → ⊥
not_missing d l ls other n e w =
    ground (arith, qty_at_head l ls, qty_at-AllWorse d l.px other w, eq_ℤ_refl (pos 0))

abbrev SameMap : List Level → List Level → Type 0
SameMap xs ys = (p : ℤ) → qty_at p xs ≡ qty_at p ys

tail-SameMap :
    (d : Bool) (x y : Level) (xs ys : List Level)
    → Ordered d (x ∷ xs)
    → Ordered d (y ∷ ys)
    → x.px ≡ y.px
    → SameMap (x ∷ xs) (y ∷ ys)
    → SameMap xs ys
unfolding qty_at
tail-SameMap d x y xs ys ox oy e h p = elim (Bool-cases (eq_ℤ x.px p)) [
  | inl same ↦
      qty_at-AllWorse d p xs (AllWorse-eq_ℤ d x.px p xs same ox.0)
      ∙ sym (qty_at-AllWorse d p ys (AllWorse-eq_ℤ d y.px p ys (rw (← e) same) oy.0))
  | inr other ↦ ground (arith, h p)
]

same_head :
    (d : Bool) (x y : Level) (xs ys : List Level)
    → IsBook d (x ∷ xs)
    → IsBook d (y ∷ ys)
    → SameMap (x ∷ xs) (y ∷ ys)
    → eq_ℤ x.px y.px ≡ true
same_head d x y xs ys bx by_ h = elim (Bool-cases (better d x.px y.px)) [
  | inl b ↦
      absurd
        (not_missing d x xs (y ∷ ys) bx.1.0 (h x.px) (b, AllWorse-trans d x.px y.px ys b by_.0.0))
  | inr n ↦ elim (Bool-cases (better d y.px x.px)) [
    | inl b ↦ absurd (
        not_missing d y ys (x ∷ xs) by_.1.0 (sym (h y.px))
          (b, AllWorse-trans d y.px x.px xs b bx.0.0))
    | inr m ↦ better_total d x.px y.px n m
  ]
]

level_eq : (x y : Level) → x.px ≡ y.px → x.qty ≡ y.qty → x ≡ y
level_eq x y p q = λ i. record { px = p i; qty = q i }

-- Two books with the same quantity at every price are the same book.
pub book_ext : (d : Bool) (xs ys : List Level) → IsBook d xs → IsBook d ys → SameMap xs ys → xs ≡ ys
book_ext d [] [] bx by_ h = refl
book_ext d [] (y ∷ ys) bx by_ h = absurd (not_missing d y ys [] by_.1.0 (sym (h y.px)) tt)
book_ext d (x ∷ xs) [] bx by_ h = absurd (not_missing d x xs [] bx.1.0 (h x.px) tt)
book_ext d (x ∷ xs) (y ∷ ys) bx by_ h =
    let e : x.px ≡ y.px = eq_ℤ→eq x.px y.px (same_head d x y xs ys bx by_ h) in
    let q : x.qty ≡ y.qty =
      sym (qty_at_head x xs) ∙ h x.px ∙ ap (λ p. qty_at p (y ∷ ys)) e ∙ qty_at_head y ys in
    let rest = tail-SameMap d x y xs ys bx.0 by_.0 e h in
    ap₂ ◌∷◌ (level_eq x y e q) (book_ext d xs ys (bx.0.1, bx.1.1) (by_.0.1, by_.1.1) rest)
