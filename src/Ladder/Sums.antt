-- ===== src/Ladder/Sums.antt =====
-- What one round takes from the inputs: the quantity at the best price, summed over the venues.
use home_assignment.Common.{
  Bool, true, false, List, [], ◌∷◌, ◌≡◌, refl, sym, ap₂, ◌∙◌, arith, Bool-cases, inl, inr,
}
use home_assignment.Common.Lists.{All}
use home_assignment.Common.Int.{ℤ, pos, ◌+ℤ◌, eq_ℤ, eq_ℤ→eq, int_laws}
use home_assignment.Book.{Level, better}
use home_assignment.Book.Order.{better_total, AllWorse, AllWorse-trans, Ordered}
use home_assignment.Book.Lookup.{qty_at, qty_at-AllWorse, AllWorse-eq_ℤ}
use home_assignment.Ladder.{qty_of_head, advance, consumed_qty, advance_all, any_left}
use home_assignment.Ladder.Heads.{NoneBetter}

-- The quantity at a price, summed over the inputs.
unfoldable pub total_at : ℤ → List (List Level) → ℤ
total_at p [] = pos 0
total_at p (ls ∷ inputs) = qty_at p ls +ℤ total_at p inputs

-- Past a price that no level is better than, everything that is left is worse.
advance-AllWorse :
    (d : Bool) (p : ℤ) (ls : List Level)
    → Ordered d ls
    → NoneBetter d p ls
    → AllWorse d p (advance p ls) × Ordered d (advance p ls)
unfolding advance
advance-AllWorse d p [] o n = (tt, tt)
advance-AllWorse d p (l ∷ ls) o n = elim (Bool-cases (eq_ℤ l.px p)) [
  | inl at ↦ rw at (AllWorse-eq_ℤ d l.px p ls at o.0, o.1)
  | inr off ↦
      let b : better d p l.px ≡ true = ground (arith, better_total d l.px p n.0) in
      rw off ((b, AllWorse-trans d p l.px ls b o.0), o)
]

pub advance_all-AllWorse :
    (d : Bool) (p : ℤ) (inputs : List (List Level))
    → All (Ordered d) inputs
    → All (NoneBetter d p) inputs
    → All (AllWorse d p) (advance_all p inputs) × All (Ordered d) (advance_all p inputs)
unfolding advance_all
advance_all-AllWorse d p [] o n = (tt, tt)
advance_all-AllWorse d p (ls ∷ inputs) o n =
    let (worse, ordered) = advance-AllWorse d p ls o.0 n.0 in
    let (rest_worse, rest_ordered) = advance_all-AllWorse d p inputs o.1 n.1 in
    ((worse, rest_worse), (ordered, rest_ordered))

qty_of_head-qty_at :
    (d : Bool) (p : ℤ) (ls : List Level)
    → Ordered d ls
    → NoneBetter d p ls
    → qty_of_head p ls ≡ qty_at p ls
unfolding qty_of_head qty_at
qty_of_head-qty_at d p [] o n = refl
qty_of_head-qty_at d p (l ∷ ls) o n = elim (Bool-cases (eq_ℤ l.px p)) [
  | inl at ↦ rw at
  | inr off ↦
      let b : better d p l.px ≡ true = ground (arith, better_total d l.px p n.0) in
      rw off (sym (qty_at-AllWorse d p ls (AllWorse-trans d p l.px ls b o.0)))
]

pub consumed_qty-total_at :
    (d : Bool) (qty p : ℤ) (inputs : List (List Level))
    → All (Ordered d) inputs
    → All (NoneBetter d p) inputs
    → consumed_qty qty p inputs ≡ qty +ℤ total_at p inputs
unfolding consumed_qty total_at
consumed_qty-total_at d qty p [] o n = omega int_laws
consumed_qty-total_at d qty p (ls ∷ inputs) o n =
    consumed_qty-total_at d (qty +ℤ qty_of_head p ls) p inputs o.1 n.1
    ∙ rw (qty_of_head-qty_at d p ls o.0 n.0) (omega int_laws)

qty_at-advance :
    (p q : ℤ) (ls : List Level) → eq_ℤ p q ≡ false → qty_at q (advance p ls) ≡ qty_at q ls
unfolding qty_at advance
qty_at-advance p q [] e = refl
qty_at-advance p q (l ∷ ls) e = ground (arith, eq_ℤ→eq l.px p, eq_ℤ→eq l.px q)

-- A round leaves every other price as it was.
pub total_at-advance_all :
    (p q : ℤ) (inputs : List (List Level))
    → eq_ℤ p q ≡ false
    → total_at q (advance_all p inputs) ≡ total_at q inputs
unfolding total_at advance_all
total_at-advance_all p q [] e = refl
total_at-advance_all p q (ls ∷ inputs) e =
    ap₂ ◌+ℤ◌ (qty_at-advance p q ls e) (total_at-advance_all p q inputs e)

-- At a price before all levels there is nothing.
pub total_at-AllWorse :
    (d : Bool) (p : ℤ) (inputs : List (List Level))
    → All (AllWorse d p) inputs
    → total_at p inputs ≡ pos 0
unfolding total_at
total_at-AllWorse d p [] w = refl
total_at-AllWorse d p (ls ∷ inputs) w =
    rw (qty_at-AllWorse d p ls w.0, total_at-AllWorse d p inputs w.1) (omega int_laws)

pub total_at-empty :
    (p : ℤ) (inputs : List (List Level)) → All (λ ls. ls ≡ []) inputs → total_at p inputs ≡ pos 0
unfolding total_at qty_at
total_at-empty p [] e = refl
total_at-empty p (ls ∷ inputs) e = rw (e.0, total_at-empty p inputs e.1) (omega int_laws)

pub any_left-total_at :
    (p : ℤ) (inputs : List (List Level)) → any_left inputs ≡ false → total_at p inputs ≡ pos 0
unfolding any_left total_at qty_at
any_left-total_at p [] e = refl
any_left-total_at p ([] ∷ inputs) e = rw (any_left-total_at p inputs e) (omega int_laws)
any_left-total_at p ((l ∷ ls) ∷ inputs) e = cc
