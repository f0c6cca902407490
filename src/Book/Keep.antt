-- ===== src/Book/Keep.antt =====
-- Apply keeps a side of a book in order, with no empty level.
use home_assignment.Common.{
  Bool, true, false, List, [], ◌∷◌, ◌≡◌, sym, subst, arith, Bool-cases, inl, inr,
}
use home_assignment.Common.Lists.{All}
use home_assignment.Common.Int.{ℤ, pos, eq_ℤ, eq_ℤ→eq}
use home_assignment.Book.{Level, better, lower_bound, amend, apply, apply_each}
use home_assignment.Book.Order.{better_total, AllWorse-trans, Ordered, IsBook}
use home_assignment.Book.Lookup.{apply-cons}

abbrev pub level : ℤ → ℤ → Level
level px qty = record { px = px; qty = qty }

module _ {ℓ} (P : Level → Type ℓ) (px qty : ℤ)
    (new : eq_ℤ qty (pos 0) ≡ false → P (level px qty)) where
  All-amend : (ls : List Level) → All P ls → All P (amend px qty ls)
  unfolding amend
  All-amend [] h = elim (Bool-cases (eq_ℤ qty (pos 0))) [
    | inl gone ↦ rw gone tt
    | inr kept ↦ rw kept (new kept, tt)
  ]
  All-amend (it ∷ rest) h = elim (Bool-cases (eq_ℤ qty (pos 0))) [
    | inl gone ↦ elim (Bool-cases (eq_ℤ it.px px)) [
      | inl at ↦ rw (at, gone) h.1
      | inr off ↦ rw (off, gone) h
    ]
    | inr kept ↦ elim (Bool-cases (eq_ℤ it.px px)) [
      | inl at ↦
          rw (at, kept) (subst (λ p. P (level p qty)) (sym (eq_ℤ→eq it.px px at)) (new kept), h.1)
      | inr off ↦ rw (off, kept) (new kept, h)
    ]
  ]

  -- What every level and the change have, every level has afterwards.
  pub All-apply : (d : Bool) (ls : List Level) → All P ls → All P (apply d px qty ls)
  All-apply d [] h = unfold apply lower_bound in All-amend [] h
  All-apply d (l ∷ ls) h = rw apply-cons (elim (Bool-cases (better d l.px px)) [
    | inl further ↦ rw further (h.0, All-apply d ls h.1)
    | inr here ↦ rw here (All-amend (l ∷ ls) h)
  ])

Ordered-amend :
    (d : Bool) (px qty : ℤ) (l : Level) (ls : List Level)
    → better d l.px px ≡ false
    → Ordered d (l ∷ ls)
    → Ordered d (amend px qty (l ∷ ls))
unfolding amend
Ordered-amend d px qty l ls place o = elim (Bool-cases (eq_ℤ l.px px)) [
  | inl at ↦ elim (Bool-cases (eq_ℤ qty (pos 0))) [
    | inl gone ↦ rw (at, gone) o.1
    | inr kept ↦ rw (at, kept) o
  ]
  | inr off ↦ elim (Bool-cases (eq_ℤ qty (pos 0))) [
    | inl gone ↦ rw (off, gone) o
    | inr kept ↦
        let b : better d px l.px ≡ true = ground (arith, better_total d l.px px place) in
        rw (off, kept) ((b, AllWorse-trans d px l.px ls b o.0), o)
  ]
]

pub Ordered-apply :
    (d : Bool) (px qty : ℤ) (ls : List Level) → Ordered d ls → Ordered d (apply d px qty ls)
Ordered-apply d px qty [] o = unfold apply lower_bound amend in ground arith
Ordered-apply d px qty (l ∷ ls) o = rw apply-cons (elim (Bool-cases (better d l.px px)) [
  | inl further ↦ rw further (
    All-apply (λ x. better d l.px x.px ≡ true) px qty (λ _. further) d ls o.0,
    Ordered-apply d px qty ls o.1,
  )
  | inr here ↦ rw here (Ordered-amend d px qty l ls here o)
])

pub apply-IsBook :
    (d : Bool) (px qty : ℤ) (ls : List Level) → IsBook d ls → IsBook d (apply d px qty ls)
apply-IsBook d px qty ls b = (
  Ordered-apply d px qty ls b.0,
  All-apply (λ x. eq_ℤ x.qty (pos 0) ≡ false) px qty (λ kept. kept) d ls b.1,
)

pub apply_each-IsBook :
    (d : Bool) (deltas ls : List Level) → IsBook d ls → IsBook d (apply_each d deltas ls)
unfolding apply_each
apply_each-IsBook d [] ls b = b
apply_each-IsBook d (u ∷ deltas) ls b =
    apply_each-IsBook d deltas (apply d u.px u.qty ls) (apply-IsBook d u.px u.qty ls b)
