-- ===== src/Book/Order.antt =====
-- The order of prices on a side of a book, and books in that order: prices strictly fall away
-- from the touch and no level is empty.
use home_assignment.Common.{Bool, true, false, List, [], ◌∷◌, ◌≡◌, arith}
use home_assignment.Common.Lists.{All}
use home_assignment.Common.Int.{ℤ, pos, ltb_ℤ, eq_ℤ}
use home_assignment.Book.{Level, better}

pub better_trans :
    (d : Bool) (a b c : ℤ) → better d a b ≡ true → better d b c ≡ true → better d a c ≡ true
unfolding better ltb_ℤ
better_trans true a b c h k = ground arith
better_trans false a b c h k = ground arith

pub better_asym : (d : Bool) (a b : ℤ) → better d a b ≡ true → better d b a ≡ false
unfolding better ltb_ℤ
better_asym true a b h = ground arith
better_asym false a b h = ground arith

pub better_irrefl : (d : Bool) (a : ℤ) → better d a a ≡ false
unfolding better ltb_ℤ
better_irrefl true a = ground arith
better_irrefl false a = ground arith

-- Of two prices neither of which is better, both are one.
pub better_total :
    (d : Bool) (a b : ℤ) → better d a b ≡ false → better d b a ≡ false → eq_ℤ a b ≡ true
unfolding better ltb_ℤ eq_ℤ
better_total true a b h k = ground arith
better_total false a b h k = ground arith

pub better-eq_ℤ : (d : Bool) (a b : ℤ) → better d a b ≡ true → eq_ℤ a b ≡ false
unfolding better ltb_ℤ eq_ℤ
better-eq_ℤ true a b h = ground arith
better-eq_ℤ false a b h = ground arith

-- Every level is worse than the price.
abbrev pub AllWorse : Bool → ℤ → List Level → Type 0
AllWorse d p = All (λ l. better d p l.px ≡ true)

-- Strictly ordered, best first.
abbrev pub Ordered : Bool → List Level → Type 0
Ordered d [] = Unit
Ordered d (l ∷ ls) = AllWorse d l.px ls × Ordered d ls

abbrev pub NonZero : List Level → Type 0
NonZero = All (λ l. eq_ℤ l.qty (pos 0) ≡ false)

abbrev pub IsBook : Bool → List Level → Type 0
IsBook d ls = Ordered d ls × NonZero ls

pub AllWorse-trans :
    (d : Bool) (p q : ℤ) (ls : List Level) → better d p q ≡ true → AllWorse d q ls → AllWorse d p ls
AllWorse-trans d p q [] h w = tt
AllWorse-trans d p q (l ∷ ls) h w = (better_trans d p q l.px h w.0, AllWorse-trans d p q ls h w.1)
