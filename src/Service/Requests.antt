-- ===== src/Service/Requests.antt =====
-- The bands that a request may ask for.
use home_assignment.Common.{
  Bool, false, List, [], ◌∷◌, ◌≡◌, refl, sym, subst, ap, ◌∙◌, ◌≤◌, Option, none, some, Bool-cases,
  inl, inr, arith, ltb,
}
use home_assignment.Common.Lists.{All, All-mono, length}
use home_assignment.Common.Sort.{insert, sort, Sorted, sort-Sorted}
use home_assignment.Common.Counts.{count, count-sort}
use home_assignment.Common.Int.{ℤ, pos, ◌≤ℤ◌, ◌<ℤ◌, leb_ℤ, eq_ℤ}
use home_assignment.Analytics.{compute_side_bands}
use home_assignment.Analytics.Drain.{Ascending}
use home_assignment.Analytics.Filled.{IsWithinTarget, compute_side_bands-IsWithinTarget}
use home_assignment.Engine.{ConsolidatedBook}
use home_assignment.Service.{
  volume_bands, make_view, default_notional_bands, accepted, find_not_positive, adjacent_find,
  normalise_bands, max_bands_per_request, refuse_not_positive, refuse_duplicate,
}

-- Strictly rising, from above a bound.
abbrev RisesFrom : ℤ → List ℤ → Type 0
RisesFrom a [] = Unit
RisesFrom a (x ∷ xs) = (a <ℤ x) × RisesFrom x xs

-- Strictly rising, and above 0.
abbrev pub IsBands : List ℤ → Type 0
IsBands xs = RisesFrom (pos 0) xs

find_not_positive-none : (xs : List ℤ) → find_not_positive xs ≡ none → All (λ x. pos 1 ≤ℤ x) xs
unfolding find_not_positive leb_ℤ
find_not_positive-none [] h = tt
find_not_positive-none (x ∷ xs) h = elim (Bool-cases (leb_ℤ x (pos 0))) [
  | inl le ↦ absurd (ground (arith, le, h))
  | inr gt ↦ (ground (arith, gt), find_not_positive-none xs (ground (arith, gt, h)))
]

adjacent_find-RisesFrom :
    (x : ℤ) (xs : List ℤ) → Sorted x xs → adjacent_find (x ∷ xs) ≡ none → RisesFrom x xs
unfolding adjacent_find eq_ℤ
adjacent_find-RisesFrom x [] s h = tt
adjacent_find-RisesFrom x (y ∷ ys) s h = elim (Bool-cases (eq_ℤ x y)) [
  | inl same ↦ absurd (ground (arith, same, h))
  | inr apart ↦
      (ground (arith, apart, s.0), adjacent_find-RisesFrom y ys s.1 (ground (arith, apart, h)))
]

RisesFrom-All : (a b : ℤ) (xs : List ℤ) → a ≤ℤ b → RisesFrom b xs → All (λ x. a <ℤ x) xs
RisesFrom-All a b [] h r = tt
RisesFrom-All a b (x ∷ xs) h r = (omega (arith, r.0), RisesFrom-All a x xs (omega (arith, r.0)) r.1)

RisesFrom-Ascending : (a : ℤ) (xs : List ℤ) → RisesFrom a xs → Ascending ◌≤ℤ◌ xs
RisesFrom-Ascending a [] r = tt
RisesFrom-Ascending a (x ∷ xs) r = (
  All-mono (λ y. x <ℤ y) (λ y. x ≤ℤ y) xs (λ y lt. omega arith)
      (RisesFrom-All x x xs (omega arith) r.1),
  RisesFrom-Ascending x xs r.1,
)

RisesFrom-mono : (a b : ℤ) (xs : List ℤ) → a ≤ℤ b → RisesFrom b xs → RisesFrom a xs
RisesFrom-mono a b [] h r = tt
RisesFrom-mono a b (x ∷ xs) h r = (omega (arith, r.0), r.1)

find_not_positive-RisesFrom :
    (a : ℤ) (xs : List ℤ) → pos 0 ≤ℤ a → RisesFrom a xs → find_not_positive xs ≡ none
unfolding find_not_positive leb_ℤ
find_not_positive-RisesFrom a [] h r = refl
find_not_positive-RisesFrom a (x ∷ xs) h r =
    ground (arith, r.0, find_not_positive-RisesFrom x xs (omega (arith, r.0)) r.1)

adjacent_find-none : (a : ℤ) (xs : List ℤ) → RisesFrom a xs → adjacent_find xs ≡ none
unfolding adjacent_find eq_ℤ
adjacent_find-none a [] r = refl
adjacent_find-none a (x ∷ []) r = refl
adjacent_find-none a (x ∷ y ∷ ys) r = ground (arith, r.1.0, adjacent_find-none x (y ∷ ys) r.1)

insert-RisesFrom : (x : ℤ) (xs : List ℤ) → RisesFrom x xs → insert x xs ≡ x ∷ xs
unfolding insert leb_ℤ
insert-RisesFrom x [] r = refl
insert-RisesFrom x (y ∷ ys) r = ground (arith, r.0)

sort-RisesFrom : (a : ℤ) (xs : List ℤ) → RisesFrom a xs → sort xs ≡ xs
unfolding sort
sort-RisesFrom a [] r = refl
sort-RisesFrom a (x ∷ xs) r = ap (insert x) (sort-RisesFrom x xs r.1) ∙ insert-RisesFrom x xs r.1

-- Strictly rising, from a bound of at least 1.
Sorted-IsBands :
    (sorted : List ℤ) → Sorted (pos 1) sorted → adjacent_find sorted ≡ none → IsBands sorted
Sorted-IsBands [] s h = tt
Sorted-IsBands (x ∷ xs) s h = (omega (arith, s.0), adjacent_find-RisesFrom x xs s.1 h)

refuse_duplicate-IsBands :
    (sorted out : List ℤ) (found : Option ℤ)
    → adjacent_find sorted ≡ found
    → Sorted (pos 1) sorted
    → refuse_duplicate sorted found ≡ accepted out
    → IsBands out
refuse_duplicate-IsBands sorted out none e s h =
    let same : sorted ≡ out = cc in subst IsBands same (Sorted-IsBands sorted s e)
refuse_duplicate-IsBands sorted out (some x) e s h = absurd cc

refuse_not_positive-IsBands :
    (requested out : List ℤ) (found : Option ℤ)
    → find_not_positive requested ≡ found
    → refuse_not_positive requested found ≡ accepted out
    → IsBands out
refuse_not_positive-IsBands requested out none e h =
    refuse_duplicate-IsBands (sort requested) out (adjacent_find (sort requested)) refl
      (sort-Sorted (pos 1) requested (find_not_positive-none requested e)) h
refuse_not_positive-IsBands requested out (some x) e h = absurd cc

normalise-IsBands :
    (requested defaults out : List ℤ)
    → IsBands defaults
    → normalise_bands requested defaults ≡ accepted out
    → IsBands out
unfolding normalise_bands
normalise-IsBands [] defaults out d h = let same : defaults ≡ out = cc in subst IsBands same d
normalise-IsBands (x ∷ xs) defaults out d h =
    elim (Bool-cases (ltb max_bands_per_request (length (x ∷ xs)))) [
      | inl many ↦ absurd (ground (arith, many, h))
      | inr few ↦
          refuse_not_positive-IsBands (x ∷ xs) out (find_not_positive (x ∷ xs)) refl
            (ground (arith, few, h))
    ]

unchanged :
    (x : ℤ) (xs defaults : List ℤ)
    → IsBands (x ∷ xs)
    → length (x ∷ xs) ≤ max_bands_per_request
    → normalise_bands (x ∷ xs) defaults ≡ accepted (x ∷ xs)
unfolding normalise_bands
unchanged x xs defaults r few =
    let fits : ltb max_bands_per_request (length (x ∷ xs)) ≡ false = ground (arith, few) in
    rw
      (
        fits,
        find_not_positive-RisesFrom (pos 0) (x ∷ xs) (omega arith) r,
        sort-RisesFrom (pos 0) (x ∷ xs) r,
        adjacent_find-none (pos 0) (x ∷ xs) r,
      )
      refl

-- The bands are those asked for, each as often, or the defaults if none was.
abbrev pub IsAnswer : List ℤ → List ℤ → List ℤ → Type 0
IsAnswer [] defaults out = out ≡ defaults
IsAnswer (x ∷ xs) defaults out =
    (length (x ∷ xs) ≤ max_bands_per_request) × ((v : ℤ) → count v out ≡ count v (x ∷ xs))

refuse_duplicate-sorted :
    (sorted out : List ℤ) (found : Option ℤ)
    → refuse_duplicate sorted found ≡ accepted out
    → sorted ≡ out
refuse_duplicate-sorted sorted out none h = cc
refuse_duplicate-sorted sorted out (some x) h = absurd cc

refuse_not_positive-sorted :
    (requested out : List ℤ) (found : Option ℤ)
    → refuse_not_positive requested found ≡ accepted out
    → sort requested ≡ out
refuse_not_positive-sorted requested out none h =
    refuse_duplicate-sorted (sort requested) out (adjacent_find (sort requested)) h
refuse_not_positive-sorted requested out (some x) h = absurd cc

normalise-IsAnswer :
    (requested defaults out : List ℤ)
    → normalise_bands requested defaults ≡ accepted out
    → IsAnswer requested defaults out
unfolding normalise_bands
normalise-IsAnswer [] defaults out h = cc
normalise-IsAnswer (x ∷ xs) defaults out h =
    elim (Bool-cases (ltb max_bands_per_request (length (x ∷ xs)))) [
      | inl many ↦ absurd (ground (arith, many, h))
      | inr few ↦
          let e =
            refuse_not_positive-sorted (x ∷ xs) out (find_not_positive (x ∷ xs))
              (ground (arith, few, h)) in
          (ground (arith, few), λ v. ap (count v) (sym e) ∙ count-sort v (x ∷ xs))
    ]

-- With defaults that rise strictly from above 0: whatever was asked, the bands of an accepted
-- request rise strictly from above 0, and so in the ascending order that the walk over a ladder
-- needs; they are the defaults if none was asked for, and otherwise at most 32 were and the
-- bands are those, each as often. An empty request is always accepted, and a request that is not
-- empty, has at most 32 values and rises strictly from above 0 is accepted as it is.
pub normalise_bands-IsBands :
    (defaults : List ℤ)
    → IsBands defaults
    → ((requested out : List ℤ)
        → normalise_bands requested defaults ≡ accepted out
        → IsBands out × Ascending ◌≤ℤ◌ out × IsAnswer requested defaults out)
      × (normalise_bands [] defaults ≡ accepted defaults)
      × ((x : ℤ) (xs : List ℤ)
          → IsBands (x ∷ xs)
          → length (x ∷ xs) ≤ max_bands_per_request
          → normalise_bands (x ∷ xs) defaults ≡ accepted (x ∷ xs))
unfolding normalise_bands
normalise_bands-IsBands defaults d = (
  λ requested out h.
      let bands = normalise-IsBands requested defaults out d h in
      (bands, RisesFrom-Ascending (pos 0) out bands, normalise-IsAnswer requested defaults out h),
  refl,
  λ x xs r few. unchanged x xs defaults r few,
)

-- The bands of every accepted request on every book fill at most their targets, on both sides: a
-- volume request's checked bands meet what the walk over the ladder needs.
pub volume_bands-IsWithinTarget :
    (requested notionals : List ℤ) (book : ConsolidatedBook) (bids : Bool)
    → volume_bands requested ≡ accepted notionals
    → All IsWithinTarget
        (compute_side_bands
          (make_view book bids)
          (record { notionals = notionals; offsets_bps = [] })).volume
unfolding volume_bands
volume_bands-IsWithinTarget requested notionals book bids h =
    let defaults : IsBands default_notional_bands = omega arith in
    let bands = normalise-IsBands requested default_notional_bands notionals defaults h in
    compute_side_bands-IsWithinTarget (make_view book bids)
      (record { notionals = notionals; offsets_bps = [] })
      (RisesFrom-Ascending (pos 0) notionals bands)
      (All-mono (λ x. pos 0 <ℤ x) (λ x. pos 0 ≤ℤ x) notionals (λ y lt. omega arith)
        (RisesFrom-All (pos 0) (pos 0) notionals (omega arith) bands))
