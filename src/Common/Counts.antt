-- ===== src/Common/Counts.antt =====
-- How often an integer stands in a list, which sorting does not change.
use home_assignment.Common.{
  ℕ, suc, List, [], ◌∷◌, ◌≡◌, refl, ◌∙◌, if◌then◌else◌, arith, Bool-cases, inl, inr,
}
use home_assignment.Common.Int.{ℤ, leb_ℤ, eq_ℤ}
use home_assignment.Common.Sort.{insert, sort}

unfoldable pub count : ℤ → List ℤ → ℕ
count v [] = 0
count v (x ∷ xs) = if eq_ℤ v x then suc (count v xs) else count v xs

count-swap : (v x y : ℤ) (xs : List ℤ) → count v (x ∷ y ∷ xs) ≡ count v (y ∷ x ∷ xs)
unfolding count
count-swap v x y xs = ground arith

count-cons :
    (v x : ℤ) (xs ys : List ℤ) → count v xs ≡ count v ys → count v (x ∷ xs) ≡ count v (x ∷ ys)
unfolding count
count-cons v x xs ys e = rw e refl

count-insert : (v x : ℤ) (xs : List ℤ) → count v (insert x xs) ≡ count v (x ∷ xs)
unfolding insert
count-insert v x [] = refl
count-insert v x (y ∷ ys) = elim (Bool-cases (leb_ℤ x y)) [
  | inl le ↦ rw le refl
  | inr gt ↦
      rw gt (count-cons v y (insert x ys) (x ∷ ys) (count-insert v x ys) ∙ count-swap v y x ys)
]

pub count-sort : (v : ℤ) (xs : List ℤ) → count v (sort xs) ≡ count v xs
unfolding sort
count-sort v [] = refl
count-sort v (x ∷ xs) = count-insert v x (sort xs) ∙ count-cons v x (sort xs) xs (count-sort v xs)
