-- ===== src/Analytics/Drain.antt =====
-- The loop that closes bands as the walk goes out, over thresholds in ascending order.
use home_assignment.Common.{
  Bool, false, List, [], ◌∷◌, ◌++◌, ◌≡◌, refl, ap, map, Bool-cases, inl, inr, if◌then◌else◌,
}
use home_assignment.Common.Lists.{All}
use home_assignment.Analytics.{drain}

abbrev pub Ascending {ℓ κ} : {A : Type ℓ} → (A → A → Type κ) → List A → Type κ
Ascending R [] = Unit
Ascending R (x ∷ xs) = All (R x) xs × Ascending R xs

module _ {ℓ κ ρ} {A : Type ℓ} {B : Type κ} (R : A → A → Type ρ) (test : A → Bool)
    (emit later : A → B) (stays : (a b : A) → R a b → test a ≡ false → test b ≡ false) where
  -- What each threshold gets, now or from the levels further out.
  abbrev now_or_later : A → B
  now_or_later x = if test x then emit x else later x

  map-later :
      (x : A) (xs : List A) → test x ≡ false → All (R x) xs → map now_or_later xs ≡ map later xs
  map-later x [] h r = refl
  map-later x (y ∷ ys) h r = rw (stays x y r.0 h) (ap (λ zs. later y ∷ zs) (map-later x ys h r.1))

  pub map-drain :
      (xs : List A)
      → Ascending R xs
      → (map now_or_later xs ≡ (drain test emit xs).0 ++ map later (drain test emit xs).1)
        × Ascending R (drain test emit xs).1
  unfolding drain
  map-drain [] a = (refl, tt)
  map-drain (x ∷ xs) a = elim (Bool-cases (test x)) [
    | inl close ↦
        let (same, left) = map-drain xs a.1 in rw close (ap (λ zs. emit x ∷ zs) same, left)
    | inr open_ ↦ rw open_ (ap (λ zs. later x ∷ zs) (map-later x xs open_ a.0), a)
  ]
