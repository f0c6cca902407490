-- ===== src/Book/Deltas.antt =====
-- A list of changes seen as a map in which the last entry of a price counts, and what the sort
-- of ApplyBatch and Replace does to it.
use home_assignment.Common.{
  Bool, true, false, List, [], ◌∷◌, ◌≡◌, refl, ◌∙◌, arith, Option, none, some, if◌then◌else◌,
  Bool-cases, inl, inr,
}
use home_assignment.Common.Lists.{All}
use home_assignment.Common.Int.{ℤ, eq_ℤ, eq_ℤ→eq, eq_ℤ_comm, eq_ℤ_refl}
use home_assignment.Book.{
  Level, better, stable_insert, stable_sort, keep_last, sort_best_first_last_wins, apply_each,
  apply,
}
use home_assignment.Book.Order.{
  better_trans, better_total, better-eq_ℤ, better_asym, AllWorse, Ordered,
}
use home_assignment.Book.Lookup.{qty_at, qty_at-apply}
use home_assignment.Book.Keep.{Ordered-apply}

abbrev or_head : Option ℤ → Level → ℤ → Option ℤ
or_head (some q) l p = some q
or_head none l p = if eq_ℤ l.px p then some l.qty else none

-- What the last entry for a price sets its quantity to.
unfoldable pub last_at : ℤ → List Level → Option ℤ
last_at p [] = none
last_at p (l ∷ ls) = or_head (last_at p ls) l p

abbrev pub override : Option ℤ → ℤ → ℤ
override (some q) r = q
override none r = r

-- Applying changes in turn leaves at each price what the last of them set.
pub qty_at-apply_each :
    (d : Bool) (p : ℤ) (deltas ls : List Level)
    → Ordered d ls
    → qty_at p (apply_each d deltas ls) ≡ override (last_at p deltas) (qty_at p ls)
unfolding apply_each last_at
qty_at-apply_each d p [] ls o = refl
qty_at-apply_each d p (u ∷ deltas) ls o =
    qty_at-apply_each d p deltas (apply d u.px u.qty ls) (Ordered-apply d u.px u.qty ls o)
    ∙ ground (arith, qty_at-apply d u.px u.qty p ls o)

pub last_at-AllWorse : (d : Bool) (p : ℤ) (ds : List Level) → AllWorse d p ds → last_at p ds ≡ none
unfolding last_at
last_at-AllWorse d p [] w = refl
last_at-AllWorse d p (l ∷ ls) w =
    ground (arith, better-eq_ℤ d p l.px w.0, eq_ℤ_comm p l.px, last_at-AllWorse d p ls w.1)

last_at-stable_insert :
    (d : Bool) (p : ℤ) (x : Level) (ls : List Level)
    → last_at p (stable_insert d x ls) ≡ or_head (last_at p ls) x p
unfolding last_at stable_insert
last_at-stable_insert d p x [] = refl
last_at-stable_insert d p x (l ∷ ls) = ground (
  arith,
  better-eq_ℤ d l.px x.px,
  eq_ℤ→eq l.px p,
  eq_ℤ→eq x.px p,
  eq_ℤ_refl p,
  last_at-stable_insert d p x ls,
)

last_at-stable_sort :
    (d : Bool) (p : ℤ) (ds : List Level) → last_at p (stable_sort d ds) ≡ last_at p ds
unfolding last_at stable_sort
last_at-stable_sort d p [] = refl
last_at-stable_sort d p (l ∷ ls) =
    last_at-stable_insert d p l (stable_sort d ls) ∙ ground (arith, last_at-stable_sort d p ls)

last_at-keep_last : (p : ℤ) (ds : List Level) → last_at p (keep_last ds) ≡ last_at p ds
unfolding last_at keep_last
last_at-keep_last p [] = refl
last_at-keep_last p (x ∷ []) = refl
last_at-keep_last p (x ∷ y ∷ rest) =
    ground (arith, eq_ℤ→eq y.px x.px, last_at-keep_last p (y ∷ rest))

-- The sort keeps the map: later entries still win.
pub last_at-sort :
    (d : Bool) (p : ℤ) (ds : List Level) → last_at p (sort_best_first_last_wins d ds) ≡ last_at p ds
unfolding sort_best_first_last_wins
last_at-sort d p ds = last_at-keep_last p (stable_sort d ds) ∙ last_at-stable_sort d p ds

-- Sorted as `std::stable_sort` leaves a range: no later entry is better.
abbrev NoneBetter : Bool → ℤ → List Level → Type 0
NoneBetter d p = All (λ l. better d l.px p ≡ false)

abbrev Sorted : Bool → List Level → Type 0
Sorted d [] = Unit
Sorted d (l ∷ ls) = NoneBetter d l.px ls × Sorted d ls

module _ {ℓ} (P : Level → Type ℓ) where
  All-stable_insert :
      (d : Bool) (x : Level) (ls : List Level) → P x → All P ls → All P (stable_insert d x ls)
  unfolding stable_insert
  All-stable_insert d x [] h k = (h, tt)
  All-stable_insert d x (l ∷ ls) h k = elim (Bool-cases (better d l.px x.px)) [
    | inl further ↦ rw further (k.0, All-stable_insert d x ls h k.1)
    | inr here ↦ rw here (h, k)
  ]

  All-stable_sort : (d : Bool) (ls : List Level) → All P ls → All P (stable_sort d ls)
  unfolding stable_sort
  All-stable_sort d [] h = tt
  All-stable_sort d (l ∷ ls) h =
      All-stable_insert d l (stable_sort d ls) h.0 (All-stable_sort d ls h.1)

  All-keep_last : (ls : List Level) → All P ls → All P (keep_last ls)
  unfolding keep_last
  All-keep_last [] h = tt
  All-keep_last (x ∷ []) h = h
  All-keep_last (x ∷ y ∷ rest) h = elim (Bool-cases (eq_ℤ y.px x.px)) [
    | inl same ↦ rw same (All-keep_last (y ∷ rest) h.1)
    | inr other ↦ rw other (h.0, All-keep_last (y ∷ rest) h.1)
  ]

  pub All-sort : (d : Bool) (ls : List Level) → All P ls → All P (sort_best_first_last_wins d ls)
  unfolding sort_best_first_last_wins
  All-sort d ls h = All-keep_last (stable_sort d ls) (All-stable_sort d ls h)

not_better_trans :
    (d : Bool) (a b c : ℤ) → better d b a ≡ false → better d c b ≡ false → better d c a ≡ false
not_better_trans d a b c h k =
    ground (arith, better_trans d c a b, better_total d b a h, eq_ℤ→eq b a)

NoneBetter-trans :
    (d : Bool) (a b : ℤ) (ls : List Level)
    → better d b a ≡ false
    → NoneBetter d b ls
    → NoneBetter d a ls
NoneBetter-trans d a b [] h k = tt
NoneBetter-trans d a b (l ∷ ls) h k =
    (not_better_trans d a b l.px h k.0, NoneBetter-trans d a b ls h k.1)

Sorted-stable_insert :
    (d : Bool) (x : Level) (ls : List Level) → Sorted d ls → Sorted d (stable_insert d x ls)
unfolding stable_insert
Sorted-stable_insert d x [] s = (tt, tt)
Sorted-stable_insert d x (l ∷ ls) s = elim (Bool-cases (better d l.px x.px)) [
  | inl further ↦ rw further (
    All-stable_insert (λ m. better d m.px l.px ≡ false) d x ls (better_asym d l.px x.px further)
        s.0,
    Sorted-stable_insert d x ls s.1,
  )
  | inr here ↦ rw here ((here, NoneBetter-trans d x.px l.px ls here s.0), s)
]

Sorted-stable_sort : (d : Bool) (ls : List Level) → Sorted d (stable_sort d ls)
unfolding stable_sort
Sorted-stable_sort d [] = tt
Sorted-stable_sort d (l ∷ ls) =
    Sorted-stable_insert d l (stable_sort d ls) (Sorted-stable_sort d ls)

better_past :
    (d : Bool) (a b c : ℤ) → better d a b ≡ true → better d c b ≡ false → better d a c ≡ true
better_past d a b c h k = ground (arith, better_trans d a b c h, better_total d c b k, eq_ℤ→eq c b)

AllWorse-past :
    (d : Bool) (a b : ℤ) (ls : List Level)
    → better d a b ≡ true
    → NoneBetter d b ls
    → AllWorse d a ls
AllWorse-past d a b [] h k = tt
AllWorse-past d a b (l ∷ ls) h k = (better_past d a b l.px h k.0, AllWorse-past d a b ls h k.1)

Ordered-keep_last : (d : Bool) (ls : List Level) → Sorted d ls → Ordered d (keep_last ls)
unfolding keep_last
Ordered-keep_last d [] s = tt
Ordered-keep_last d (x ∷ []) s = (tt, tt)
Ordered-keep_last d (x ∷ y ∷ rest) s = elim (Bool-cases (eq_ℤ y.px x.px)) [
  | inl same ↦ rw same (Ordered-keep_last d (y ∷ rest) s.1)
  | inr other ↦
      let b : better d x.px y.px ≡ true = ground (arith, better_total d y.px x.px s.0.0) in
      rw other (
        All-keep_last (λ m. better d x.px m.px ≡ true) (y ∷ rest)
            (b, AllWorse-past d x.px y.px rest b s.1.0),
        Ordered-keep_last d (y ∷ rest) s.1,
      )
]

-- The sort leaves the prices strictly in order, each once.
pub Ordered-sort : (d : Bool) (ls : List Level) → Ordered d (sort_best_first_last_wins d ls)
unfolding sort_best_first_last_wins
Ordered-sort d ls = Ordered-keep_last d (stable_sort d ls) (Sorted-stable_sort d ls)
