-- ===== src/Common/Lists.antt =====
-- Lists over the native numbers: lengths, and the predicate that every element satisfies.
use Prim.Native.Nat.{ℕ, zero, suc, ◌+◌, ◌<◌, ◌≤◌}
use mathlib.Core.Path.{◌≡◌, refl, ap}
use mathlib.Core.Logic.{◌≢◌}
use mathlib.Core.Option.{Option, none, some}
use mathlib.Core.List.{List, [], ◌∷◌, ◌++◌}
use native.Mathlib.Omega.{arith}

module _ {ℓ} {A : Type ℓ} where
  abbrev pub length : List A → ℕ
  length [] = 0
  length (x ∷ xs) = suc (length xs)

  pub length-append : (xs ys : List A) → length (xs ++ ys) ≡ length xs + length ys
  length-append [] ys = omega arith
  length-append (x ∷ xs) ys = omega (arith, length-append xs ys)

  abbrev pub All {κ} : (A → Type κ) → List A → Type κ
  All P [] = Unit
  All P (x ∷ xs) = P x × All P xs

  -- The i-th element, or the default past the end.
  abbrev pub get_or : List A → ℕ → A → A
  get_or [] i v = v
  get_or (x ∷ xs) zero v = x
  get_or (x ∷ xs) (suc i) v = get_or xs i v

  abbrev pub take : ℕ → List A → List A
  take zero xs = []
  take (suc n) [] = []
  take (suc n) (x ∷ xs) = x ∷ take n xs

  abbrev pub get_elem? : List A → ℕ → Option A
  get_elem? [] i = none
  get_elem? (x ∷ xs) zero = some x
  get_elem? (x ∷ xs) (suc i) = get_elem? xs i

  -- A write past the end changes nothing.
  abbrev pub set : List A → ℕ → A → List A
  set [] i v = []
  set (x ∷ xs) zero v = v ∷ xs
  set (x ∷ xs) (suc i) v = x ∷ set xs i v

  abbrev pub replicate : ℕ → A → List A
  replicate zero v = []
  replicate (suc n) v = v ∷ replicate n v

  pub length-set : (xs : List A) (i : ℕ) (v : A) → length (set xs i v) ≡ length xs
  length-set [] i v = refl
  length-set (x ∷ xs) zero v = refl
  length-set (x ∷ xs) (suc i) v = ap suc (length-set xs i v)

  pub length-replicate : (n : ℕ) (v : A) → length (replicate n v) ≡ n
  length-replicate zero v = refl
  length-replicate (suc n) v = ap suc (length-replicate n v)

  pub get_or-set_self :
      (xs : List A) (i : ℕ) (v w : A) → i < length xs → get_or (set xs i v) i w ≡ v
  get_or-set_self [] i v w h = absurd (omega arith)
  get_or-set_self (x ∷ xs) zero v w h = refl
  get_or-set_self (x ∷ xs) (suc i) v w h = get_or-set_self xs i v w (omega arith)

  pub get_or-set_ne :
      (xs : List A) (i j : ℕ) (v w : A) → i ≢ j → get_or (set xs i v) j w ≡ get_or xs j w
  get_or-set_ne [] i j v w h = refl
  get_or-set_ne (x ∷ xs) zero zero v w h = absurd (h refl)
  get_or-set_ne (x ∷ xs) zero (suc j) v w h = refl
  get_or-set_ne (x ∷ xs) (suc i) zero v w h = refl
  get_or-set_ne (x ∷ xs) (suc i) (suc j) v w h = get_or-set_ne xs i j v w (λ e. h (ap suc e))

  -- Past the end of a list the values added to it are found, and before its end its own.
  pub get_elem?-snoc_lt :
      (xs : List A) (v : A) (i : ℕ) → i < length xs → get_elem? (xs ++ v ∷ []) i ≡ get_elem? xs i
  get_elem?-snoc_lt [] v i h = absurd (omega arith)
  get_elem?-snoc_lt (x ∷ xs) v zero h = refl
  get_elem?-snoc_lt (x ∷ xs) v (suc i) h = get_elem?-snoc_lt xs v i (omega arith)

  pub get_elem?-snoc_end :
      (xs : List A) (v : A) (i : ℕ) → i ≡ length xs → get_elem? (xs ++ v ∷ []) i ≡ some v
  get_elem?-snoc_end [] v zero h = refl
  get_elem?-snoc_end [] v (suc i) h = absurd (omega arith)
  get_elem?-snoc_end (x ∷ xs) v zero h = absurd (omega arith)
  get_elem?-snoc_end (x ∷ xs) v (suc i) h = get_elem?-snoc_end xs v i (omega arith)

  pub get_elem?-none : (xs : List A) (i : ℕ) → get_elem? xs i ≡ none → length xs ≤ i
  get_elem?-none [] i h = omega arith
  get_elem?-none (x ∷ xs) zero h = absurd (cc)
  get_elem?-none (x ∷ xs) (suc i) h = omega (arith, get_elem?-none xs i h)

  pub take-snoc : (n : ℕ) (xs : List A) (v : A) → n ≤ length xs → take n (xs ++ v ∷ []) ≡ take n xs
  take-snoc zero xs v h = refl
  take-snoc (suc n) [] v h = absurd (omega arith)
  take-snoc (suc n) (x ∷ xs) v h = ap (λ ys. x ∷ ys) (take-snoc n xs v (omega arith))

  pub take-suc :
      (n : ℕ) (xs : List A) (v : A)
      → get_elem? xs n ≡ some v
      → take (suc n) xs ≡ take n xs ++ v ∷ []
  take-suc n [] v h = absurd (cc)
  take-suc zero (x ∷ xs) v h = let e : x ≡ v = cc in ap (λ y. y ∷ []) e
  take-suc (suc n) (x ∷ xs) v h = ap (λ ys. x ∷ ys) (take-suc n xs v h)

  pub length-take : (n : ℕ) (xs : List A) → n ≤ length xs → length (take n xs) ≡ n
  length-take zero xs h = refl
  length-take (suc n) [] h = absurd (omega arith)
  length-take (suc n) (x ∷ xs) h = ap suc (length-take n xs (omega arith))

  abbrev pub drop : ℕ → List A → List A
  drop zero xs = xs
  drop (suc n) [] = []
  drop (suc n) (x ∷ xs) = drop n xs

  pub All-append {κ} : (P : A → Type κ) (xs ys : List A) → All P xs → All P ys → All P (xs ++ ys)
  All-append P [] ys h k = k
  All-append P (x ∷ xs) ys h k = (h.0, All-append P xs ys h.1 k)

  pub All-mono {κ κ'} :
      (P : A → Type κ) (Q : A → Type κ') (xs : List A) → ((x : A) → P x → Q x) → All P xs → All Q xs
  All-mono P Q [] f h = tt
  All-mono P Q (x ∷ xs) f h = (f x h.0, All-mono P Q xs f h.1)
