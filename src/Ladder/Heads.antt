-- ===== src/Ladder/Heads.antt =====
-- The best of the cursor heads.
use home_assignment.Common.{
  ◌≤◌, ◌<◌, ◌⊎◌, Bool, true, false, List, [], ◌∷◌, ◌≡◌, refl, arith, none, some, Bool-cases, inl,
  inr,
}
use home_assignment.Common.Lists.{All, length}
use home_assignment.Common.Int.{ℤ, eq_ℤ→eq, eq_ℤ_refl}
use home_assignment.Book.{Level, better}
use home_assignment.Book.Order.{
  better_trans, better_total, better_asym, better_irrefl, AllWorse, Ordered,
}
use home_assignment.Ladder.{best_head, advance, advance_all, level_count}

-- No level of the list is better than the price.
abbrev pub NoneBetter : Bool → ℤ → List Level → Type 0
NoneBetter d p = All (λ l. better d l.px p ≡ false)

not_better_trans :
    (d : Bool) (a b c : ℤ) → better d b a ≡ false → better d c b ≡ false → better d c a ≡ false
not_better_trans d a b c h k =
    ground (arith, better_trans d c a b, better_total d b a h, eq_ℤ→eq b a)

worse_not_better :
    (d : Bool) (p q : ℤ) (ls : List Level)
    → better d q p ≡ false
    → AllWorse d q ls
    → NoneBetter d p ls
worse_not_better d p q [] h w = tt
worse_not_better d p q (l ∷ ls) h w =
    (not_better_trans d p q l.px h (better_asym d q l.px w.0), worse_not_better d p q ls h w.1)

length-advance : (p : ℤ) (ls : List Level) → length (advance p ls) ≤ length ls
unfolding advance
length-advance p [] = omega arith
length-advance p (l ∷ ls) = ground arith

advance_all-le :
    (p : ℤ) (inputs : List (List Level)) → level_count (advance_all p inputs) ≤ level_count inputs
unfolding advance_all
advance_all-le p [] = omega arith
advance_all-le p (ls ∷ inputs) = omega (arith, length-advance p ls, advance_all-le p inputs)

-- A cursor at the price moves on.
advance-lt :
    (p : ℤ) (l : Level) (ls : List Level) → p ≡ l.px → length (advance p (l ∷ ls)) < length (l ∷ ls)
unfolding advance
advance-lt p l ls e = rw (e, eq_ℤ_refl l.px) (omega arith)

-- The search from a price on: the best of it and the heads, and the progress that a round makes.
record Found (d : Bool) (start : ℤ) (inputs : List (List Level)) : Type 0 where
  best : ℤ
  is_best : best_head d (some start) inputs ≡ some best
  no_worse : better d start best ≡ false
  none_better : All (NoneBetter d best) inputs
  beyond : (q : ℤ) → better d q start ≡ true → All (AllWorse d q) inputs → better d q best ≡ true
  progress : (best ≡ start) ⊎ (level_count (advance_all best inputs) < level_count inputs)

prefer_head :
    (d : Bool) (l : Level) (ls : List Level) (start : ℤ) (inputs : List (List Level))
    → Ordered d (l ∷ ls)
    → better d l.px start ≡ true
    → Found d l.px inputs
    → Found d start ((l ∷ ls) ∷ inputs)
unfolding best_head advance_all
prefer_head d l ls start inputs o closer f = record {
  best = f.best;
  is_best = rw closer f.is_best;
  no_worse = ground (arith, better_trans d l.px start f.best closer, f.no_worse);
  none_better = ((f.no_worse, worse_not_better d f.best l.px ls f.no_worse o.0), f.none_better);
  beyond = λ q h w. f.beyond q w.0.0 w.1;
  progress = inr (elim f.progress [
    | inl e ↦ omega (arith, advance-lt f.best l ls e, advance_all-le f.best inputs)
    | inr lt ↦ omega (arith, length-advance f.best (l ∷ ls))
  ]);
}

prefer_start :
    (d : Bool) (l : Level) (ls : List Level) (start : ℤ) (inputs : List (List Level))
    → Ordered d (l ∷ ls)
    → better d l.px start ≡ false
    → Found d start inputs
    → Found d start ((l ∷ ls) ∷ inputs)
unfolding best_head advance_all
prefer_start d l ls start inputs o closer f =
    let head = not_better_trans d f.best start l.px f.no_worse closer in
    record {
      best = f.best;
      is_best = rw closer f.is_best;
      no_worse = f.no_worse;
      none_better = ((head, worse_not_better d f.best l.px ls head o.0), f.none_better);
      beyond = λ q h w. f.beyond q h w.1;
      progress = elim f.progress [
        | inl e ↦ inl e
        | inr lt ↦ inr (omega (arith, length-advance f.best (l ∷ ls)))
      ];
    }

search_from :
    (d : Bool) (start : ℤ) (inputs : List (List Level))
    → All (Ordered d) inputs
    → Found d start inputs
unfolding best_head advance_all advance
search_from d start [] o = record {
  best = start;
  is_best = refl;
  no_worse = better_irrefl d start;
  none_better = tt;
  beyond = λ q h w. h;
  progress = inl refl;
}
search_from d start ([] ∷ inputs) o =
    let f = search_from d start inputs o.1 in
    record {
      best = f.best;
      is_best = f.is_best;
      no_worse = f.no_worse;
      none_better = (tt, f.none_better);
      beyond = λ q h w. f.beyond q h w.1;
      progress = elim f.progress [ inl e ↦ inl e | inr lt ↦ inr (omega arith) ];
    }
search_from d start ((l ∷ ls) ∷ inputs) o = elim (Bool-cases (better d l.px start)) [
  | inl closer ↦ prefer_head d l ls start inputs o.0 closer (search_from d l.px inputs o.1)
  | inr further ↦ prefer_start d l ls start inputs o.0 further (search_from d start inputs o.1)
]

-- Either every input is used up, or the search finds a price that no level is better than, that is
-- worse than what all levels are worse than, and moving the cursors past it leaves fewer levels.
abbrev pub Heads : Bool → List (List Level) → Type 0
Heads d inputs =
    ((best_head d none inputs ≡ none) × All (λ ls. ls ≡ []) inputs)
    ⊎ ((best : ℤ) × (best_head d none inputs ≡ some best)
        × All (NoneBetter d best) inputs
        × ((q : ℤ) → All (AllWorse d q) inputs → better d q best ≡ true)
        × (level_count (advance_all best inputs) < level_count inputs))

pub best_head-Heads :
    (d : Bool) (inputs : List (List Level)) → All (Ordered d) inputs → Heads d inputs
unfolding best_head advance_all advance
best_head-Heads d [] o = inl (refl, tt)
best_head-Heads d ([] ∷ inputs) o = elim (best_head-Heads d inputs o.1) [
  | inl (e, empty) ↦ inl (e, (refl, empty))
  | inr (best, e, none_better, beyond, lt) ↦
      inr (best, e, (tt, none_better), (λ q w. beyond q w.1), omega arith)
]
best_head-Heads d ((l ∷ ls) ∷ inputs) o =
    let f = search_from d l.px inputs o.1 in
    inr (
      f.best,
      f.is_best,
      ((f.no_worse, worse_not_better d f.best l.px ls f.no_worse o.0.0), f.none_better),
      (λ q w. f.beyond q w.0.0 w.1),
      elim f.progress [
        | inl e ↦ omega (arith, advance-lt f.best l ls e, advance_all-le f.best inputs)
        | inr lt ↦ omega (arith, length-advance f.best (l ∷ ls))
      ],
    )
