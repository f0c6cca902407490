-- ===== src/Common/Sort.antt =====
-- `std::sort` on integers: insertion into a sorted list gives the same list, since equal integers
-- cannot be told apart.
use mathlib.Core.List.{append-nil, append_assoc}
use home_assignment.Common.{
  ℕ, zero, suc, ◌≤◌, ◌<◌, ◌≡◌, refl, sym, ap, ap₂, ◌∙◌, true, false, List, [], ◌∷◌, ◌++◌,
  if◌then◌else◌, Bool-cases, inl, inr, arith,
}
use home_assignment.Common.Lists.{All, length, get_or}
use home_assignment.Common.Int.{ℤ, ◌≤ℤ◌, leb_ℤ, eq_ℤ, eq_ℤ→eq}

unfoldable pub insert : ℤ → List ℤ → List ℤ
insert x [] = x ∷ []
insert x (y ∷ ys) = if leb_ℤ x y then x ∷ y ∷ ys else y ∷ insert x ys

unfoldable pub sort : List ℤ → List ℤ
unfolding insert
sort [] = []
sort (x ∷ xs) = insert x (sort xs)

-- Rising from a bound.
abbrev pub Sorted : ℤ → List ℤ → Type 0
Sorted a [] = Unit
Sorted a (x ∷ xs) = (a ≤ℤ x) × Sorted x xs

pub insert-Sorted : (a x : ℤ) (xs : List ℤ) → a ≤ℤ x → Sorted a xs → Sorted a (insert x xs)
unfolding insert leb_ℤ
insert-Sorted a x [] h s = (h, tt)
insert-Sorted a x (y ∷ ys) h s = elim (Bool-cases (leb_ℤ x y)) [
  | inl le ↦ rw (le) (h, (unfold leb_ℤ in ground (arith, le), s.1))
  | inr gt ↦ rw (gt) (s.0, insert-Sorted y x ys (unfold leb_ℤ in ground (arith, gt)) s.1)
]

pub sort-Sorted : (a : ℤ) (xs : List ℤ) → All (λ x. a ≤ℤ x) xs → Sorted a (sort xs)
unfolding sort
sort-Sorted a [] h = tt
sort-Sorted a (x ∷ xs) h = insert-Sorted a x (sort xs) h.0 (sort-Sorted a xs h.1)

pub length-insert : (x : ℤ) (xs : List ℤ) → length (insert x xs) ≡ suc (length xs)
unfolding insert
length-insert x [] = refl
length-insert x (y ∷ ys) = elim (Bool-cases (leb_ℤ x y)) [
  | inl le ↦ rw (le) refl
  | inr gt ↦ rw (gt) (ap suc (length-insert x ys))
]

pub length-sort : (xs : List ℤ) → length (sort xs) ≡ length xs
unfolding sort
length-sort [] = refl
length-sort (x ∷ xs) = length-insert x (sort xs) ∙ ap suc (length-sort xs)

pub insert-All {κ} : (P : ℤ → Type κ) (x : ℤ) (xs : List ℤ) → P x → All P xs → All P (insert x xs)
unfolding insert
insert-All P x [] p h = (p, tt)
insert-All P x (y ∷ ys) p h = elim (Bool-cases (leb_ℤ x y)) [
  | inl le ↦ rw (le) (p, h)
  | inr gt ↦ rw (gt) (h.0, insert-All P x ys p h.1)
]

pub sort-All {κ} : (P : ℤ → Type κ) (xs : List ℤ) → All P xs → All P (sort xs)
unfolding sort
sort-All P [] h = tt
sort-All P (x ∷ xs) h = insert-All P x (sort xs) h.0 (sort-All P xs h.1)

leb_ℤ-antisym : (x y : ℤ) → leb_ℤ x y ≡ true → leb_ℤ y x ≡ true → x ≡ y
leb_ℤ-antisym x y h k = eq_ℤ→eq x y (unfold leb_ℤ eq_ℤ in ground (arith, h, k))

both_first :
    (x y : ℤ) (zs : List ℤ)
    → (if leb_ℤ x y then x ∷ y ∷ zs else y ∷ x ∷ zs)
      ≡ (if leb_ℤ y x then y ∷ x ∷ zs else x ∷ y ∷ zs)
both_first x y zs = elim (Bool-cases (leb_ℤ x y)) [
  | inl le ↦ elim (Bool-cases (leb_ℤ y x)) [
    | inl ge ↦
        rw (le, ge)
          (ap₂ (λ a b. a ∷ b ∷ zs) (leb_ℤ-antisym x y le ge) (sym (leb_ℤ-antisym x y le ge)))
    | inr lt ↦ rw (le, lt) refl
  ]
  | inr gt ↦ let ge : leb_ℤ y x ≡ true = unfold leb_ℤ in ground (arith, gt) in rw (gt, ge) refl
]

insert-le : (x y : ℤ) (ys : List ℤ) → leb_ℤ x y ≡ true → insert x (y ∷ ys) ≡ x ∷ y ∷ ys
unfolding insert
insert-le x y ys h = rw (h) refl

insert-gt : (x y : ℤ) (ys : List ℤ) → leb_ℤ x y ≡ false → insert x (y ∷ ys) ≡ y ∷ insert x ys
unfolding insert
insert-gt x y ys h = rw (h) refl

insert_both :
    (x y z : ℤ) (zs : List ℤ)
    → leb_ℤ x z ≡ true
    → leb_ℤ y z ≡ true
    → insert x (y ∷ z ∷ zs) ≡ insert y (x ∷ z ∷ zs)
insert_both x y z zs xz yz = elim (Bool-cases (leb_ℤ x y)) [
  | inl le ↦ elim (Bool-cases (leb_ℤ y x)) [
    | inl ge ↦
        ap₂ (λ a b. insert a (b ∷ z ∷ zs)) (leb_ℤ-antisym x y le ge) (leb_ℤ-antisym y x ge le)
    | inr lt ↦
        insert-le x y (z ∷ zs) le
        ∙ ap (λ ws. x ∷ ws) (sym (insert-le y z zs yz))
        ∙ sym (insert-gt y x (z ∷ zs) lt)
  ]
  | inr gt ↦
      let ge : leb_ℤ y x ≡ true = unfold leb_ℤ in ground (arith, gt) in
      insert-gt x y (z ∷ zs) gt
      ∙ ap (λ ws. y ∷ ws) (insert-le x z zs xz)
      ∙ sym (insert-le y x (z ∷ zs) ge)
]

-- Past a smaller head, both orders put the larger of two behind the head.
insert-apart :
    (x y z : ℤ) (zs : List ℤ)
    → leb_ℤ y z ≡ true
    → leb_ℤ x z ≡ false
    → insert x (insert y (z ∷ zs)) ≡ insert y (insert x (z ∷ zs))
insert-apart x y z zs yz zx =
    let yx : leb_ℤ x y ≡ false = unfold leb_ℤ in ground (arith, yz, zx) in
    ap (insert x) (insert-le y z zs yz)
    ∙ insert-gt x y (z ∷ zs) yx
    ∙ ap (λ ws. y ∷ ws) (insert-gt x z zs zx)
    ∙ sym (insert-le y z (insert x zs) yz)
    ∙ ap (insert y) (sym (insert-gt x z zs zx))

-- The order of two insertions does not matter, so neither does that of the list.
insert-insert : (x y : ℤ) (xs : List ℤ) → insert x (insert y xs) ≡ insert y (insert x xs)
insert-insert x y [] = unfold insert in both_first x y []
insert-insert x y (z ∷ zs) = elim (Bool-cases (leb_ℤ y z)) [
  | inl yz ↦ elim (Bool-cases (leb_ℤ x z)) [
    | inl xz ↦
        ap (insert x) (insert-le y z zs yz)
        ∙ insert_both x y z zs xz yz
        ∙ ap (insert y) (sym (insert-le x z zs xz))
    | inr zx ↦ insert-apart x y z zs yz zx
  ]
  | inr zy ↦ elim (Bool-cases (leb_ℤ x z)) [
    | inl xz ↦ sym (insert-apart y x z zs xz zy)
    | inr zx ↦
        ap (insert x) (insert-gt y z zs zy)
        ∙ insert-gt x z (insert y zs) zx
        ∙ ap (λ ws. z ∷ ws) (insert-insert x y zs)
        ∙ sym (insert-gt y z (insert x zs) zy)
        ∙ ap (insert y) (sym (insert-gt x z zs zx))
  ]
]

pub sort-append : (xs ys : List ℤ) (x : ℤ) → sort (xs ++ x ∷ ys) ≡ insert x (sort (xs ++ ys))
unfolding sort
sort-append [] ys x = refl
sort-append (y ∷ xs) ys x =
    ap (insert y) (sort-append xs ys x) ∙ insert-insert y x (sort (xs ++ ys))

abbrev pub reverse : List ℤ → List ℤ
reverse [] = []
reverse (x ∷ xs) = reverse xs ++ x ∷ []

pub sort-reverse : (xs ys : List ℤ) → sort (reverse xs ++ ys) ≡ sort (xs ++ ys)
unfolding sort
sort-reverse [] ys = refl
sort-reverse (x ∷ xs) ys =
    ap sort (append_assoc (reverse xs) (x ∷ []) ys) ∙ sort-reverse xs (x ∷ ys) ∙ sort-append xs ys x

pub sort-reverse_after : (xs ys : List ℤ) → sort (xs ++ reverse ys) ≡ sort (xs ++ ys)
unfolding sort
sort-reverse_after [] ys =
    ap sort (sym (append-nil (reverse ys))) ∙ sort-reverse ys [] ∙ ap sort (append-nil ys)
sort-reverse_after (x ∷ xs) ys = ap (insert x) (sort-reverse_after xs ys)

Sorted-from : (a d : ℤ) (xs : List ℤ) (j : ℕ) → Sorted a xs → j < length xs → a ≤ℤ get_or xs j d
Sorted-from a d [] j s k = absurd (omega (arith, k))
Sorted-from a d (x ∷ xs) zero s k = s.0
Sorted-from a d (x ∷ xs) (suc j) s k =
    omega (arith, s.0, Sorted-from x d xs j s.1 (omega (arith, k)))

-- In a sorted list a later element is not smaller.
pub Sorted-get_or :
    (a d : ℤ) (xs : List ℤ) (i j : ℕ)
    → Sorted a xs
    → i ≤ j
    → j < length xs
    → get_or xs i d ≤ℤ get_or xs j d
Sorted-get_or a d [] i j s h k = absurd (omega (arith, k))
Sorted-get_or a d (x ∷ xs) zero zero s h k = omega arith
Sorted-get_or a d (x ∷ xs) zero (suc j) s h k = Sorted-from x d xs j s.1 (omega (arith, k))
Sorted-get_or a d (x ∷ xs) (suc i) zero s h k = absurd (omega (arith, h))
Sorted-get_or a d (x ∷ xs) (suc i) (suc j) s h k =
    Sorted-get_or x d xs i j s.1 (omega (arith, h)) (omega (arith, k))
