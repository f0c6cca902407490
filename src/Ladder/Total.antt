-- ===== src/Ladder/Total.antt =====
-- The merged ladder: in order, each price once, with the venues' quantities summed, and complete
-- unless it is marked as truncated.
use home_assignment.Common.{
  ℕ, zero, suc, ◌<◌, ◌⊎◌, Bool, true, false, not, ◌&&◌, List, [], ◌∷◌, ◌≡◌, refl, sym, ap, ◌∙◌,
  arith, Option, none, some, if◌then◌else◌, Bool-cases, inl, inr, leb,
}
use home_assignment.Common.Lists.{All, All-mono}
use home_assignment.Common.Int.{ℤ, pos, ◌+ℤ◌, eq_ℤ, eq_ℤ→eq, eq_ℤ_comm, int_laws, ltb_ℤ}
use home_assignment.Book.{Level, better}
use home_assignment.Book.Order.{better_trans, better_total, better-eq_ℤ, AllWorse, Ordered}
use home_assignment.Fixed.{notional_wide}
use home_assignment.Ladder.{
  MergedLevel, MergeLimits, consumed_qty, advance_all, any_left, level_count, push, merge_loop,
  merge_side, bound_for, is_inside, is_covered,
}
use home_assignment.Ladder.Heads.{NoneBetter, best_head-Heads}
use home_assignment.Ladder.Sums.{
  total_at, advance_all-AllWorse, consumed_qty-total_at, total_at-advance_all, total_at-AllWorse,
  total_at-empty, any_left-total_at,
}

abbrev pub WorseLadder : Bool → ℤ → List MergedLevel → Type 0
WorseLadder d p = All (λ l. better d p l.px ≡ true)

-- Prices strictly fall away from the touch.
abbrev pub OrderedLadder : Bool → List MergedLevel → Type 0
OrderedLadder d [] = Unit
OrderedLadder d (l ∷ ls) = WorseLadder d l.px ls × OrderedLadder d ls

-- The quantity that the ladder shows at a price, 0 where it has no level.
unfoldable pub merged_at : ℤ → List MergedLevel → ℤ
merged_at p [] = pos 0
merged_at p (l ∷ ls) = if eq_ℤ l.px p then l.qty else merged_at p ls

-- A result of the merge: its levels are in order, and each price has the sum of the inputs'
-- quantities there, or lies past the end of a truncated ladder.
pub record Merges (d : Bool) (inputs : List (List Level)) (r : List MergedLevel × Bool)
    : Type 0 where
  pub ordered : OrderedLadder d r.0
  pub exact :
      (p : ℤ)
      → (merged_at p r.0 ≡ total_at p inputs)
        ⊎ ((r.1 ≡ true) × All (λ l. better d l.px p ≡ true) r.0)
  pub within : (q : ℤ) → All (AllWorse d q) inputs → WorseLadder d q r.0

pub merged_at-WorseLadder :
    (d : Bool) (p : ℤ) (ls : List MergedLevel) → WorseLadder d p ls → merged_at p ls ≡ pos 0
unfolding merged_at
merged_at-WorseLadder d p [] w = refl
merged_at-WorseLadder d p (l ∷ ls) w =
    ground (arith, better-eq_ℤ d p l.px w.0, eq_ℤ_comm p l.px, merged_at-WorseLadder d p ls w.1)

cut : (d : Bool) (inputs : List (List Level)) → Merges d inputs ([], true)
cut d inputs = record { ordered = tt; exact = λ p. inr (refl, tt); within = λ q w. tt }

stop_at_end : (d : Bool) (inputs : List (List Level)) → Merges d inputs ([], any_left inputs)
unfolding merged_at
stop_at_end d inputs = record {
  ordered = tt;
  exact = λ p. elim (Bool-cases (any_left inputs)) [
    | inl more ↦ inr (more, tt)
    | inr done ↦ inl (sym (any_left-total_at p inputs done))
  ];
  within = λ q w. tt;
}

pub WorseLadder-trans :
    (d : Bool) (p q : ℤ) (ls : List MergedLevel)
    → better d p q ≡ true
    → WorseLadder d q ls
    → WorseLadder d p ls
WorseLadder-trans d p q [] h w = tt
WorseLadder-trans d p q (l ∷ ls) h w =
    (better_trans d p q l.px h w.0, WorseLadder-trans d p q ls h w.1)

-- A price better than the best one is better than every level.
past_best :
    (d : Bool) (p best : ℤ) (ls : List Level)
    → better d p best ≡ true
    → NoneBetter d best ls
    → AllWorse d p ls
past_best d p best [] h n = tt
past_best d p best (l ∷ ls) h n = (
  ground (arith, better_trans d p best l.px h, better_total d l.px best n.0, eq_ℤ→eq l.px best),
  past_best d p best ls h n.1,
)

past_best-All :
    (d : Bool) (p best : ℤ) (inputs : List (List Level))
    → better d p best ≡ true
    → All (NoneBetter d best) inputs
    → All (AllWorse d p) inputs
past_best-All d p best inputs h =
    All-mono (NoneBetter d best) (AllWorse d p) inputs (λ ls. past_best d p best ls h)

module _ (d : Bool) (inputs : List (List Level)) (best : ℤ) (ordered : All (Ordered d) inputs)
    (none_better : All (NoneBetter d best) inputs)
    (beyond : (q : ℤ) → All (AllWorse d q) inputs → better d q best ≡ true) where
  abbrev left : List (List Level)
  left = advance_all best inputs

  abbrev head : MergedLevel
  head = record { px = best; qty = consumed_qty (pos 0) best inputs }

  head_qty : head.qty ≡ total_at best inputs
  head_qty = consumed_qty-total_at d (pos 0) best inputs ordered none_better ∙ omega int_laws

  rest_worse : All (AllWorse d best) left
  rest_worse = (advance_all-AllWorse d best inputs ordered none_better).0

  -- The price of the round, a price past it, or a price before all levels.
  exact_at :
      (r : List MergedLevel × Bool)
      → Merges d left r
      → (p : ℤ)
      → (merged_at p (head ∷ r.0) ≡ total_at p inputs)
        ⊎ ((r.1 ≡ true) × All (λ l. better d l.px p ≡ true) (head ∷ r.0))
  unfolding merged_at
  exact_at r m p = elim (Bool-cases (eq_ℤ best p)) [
    | inl at ↦ inl (rw at (head_qty ∙ ap (λ x. total_at x inputs) (eq_ℤ→eq best p at)))
    | inr off ↦ elim (Bool-cases (better d best p)) [
      | inl past ↦ elim (m.exact p) [
        | inl e ↦ inl (rw off (e ∙ total_at-advance_all best p inputs off))
        | inr (t, all) ↦ inr (t, (past, all))
      ]
      | inr before ↦
          let b : better d p best ≡ true = ground (arith, better_total d best p before) in
          inl (
            rw off (
              merged_at-WorseLadder d p r.0
                (WorseLadder-trans d p best r.0 b (m.within best rest_worse))
              ∙ sym (total_at-AllWorse d p inputs (past_best-All d p best inputs b none_better))))
    ]
  ]

  round : (r : List MergedLevel × Bool) → Merges d left r → Merges d inputs (head ∷ r.0, r.1)
  round r m = record {
    ordered = (m.within best rest_worse, m.ordered);
    exact = exact_at r m;
    within =
        λ q w. (beyond q w, WorseLadder-trans d q best r.0 (beyond q w) (m.within best rest_worse));
  }

-- The loop returned, and its result merges the inputs.
abbrev Returns : Bool → List (List Level) → Option (List MergedLevel × Bool) → Type 0
Returns d inputs m = (r : List MergedLevel × Bool) × (m ≡ some r) × Merges d inputs r

Returns-cut : (d : Bool) (inputs : List (List Level)) → Returns d inputs (some ([], true))
Returns-cut d inputs = (([], true), refl, cut d inputs)

Returns-empty :
    (d : Bool) (inputs : List (List Level))
    → All (λ ls. ls ≡ []) inputs
    → Returns d inputs (some ([], false))
unfolding merged_at
Returns-empty d inputs e = (
  ([], false),
  refl,
  record { ordered = tt; exact = λ p. inl (sym (total_at-empty p inputs e)); within = λ q w. tt },
)

Returns-if :
    (d : Bool) (inputs : List (List Level)) (b : Bool) (m n : Option (List MergedLevel × Bool))
    → Returns d inputs m
    → Returns d inputs n
    → Returns d inputs (if b then m else n)
Returns-if d inputs true m n h k = h
Returns-if d inputs false m n h k = k

push-Returns :
    (d : Bool) (inputs : List (List Level)) (best : ℤ) (m : Option (List MergedLevel × Bool))
    → let level : MergedLevel = record { px = best; qty = consumed_qty (pos 0) best inputs } in
      ((r : List MergedLevel × Bool)
        → Merges d (advance_all best inputs) r
        → Merges d inputs (level ∷ r.0, r.1))
      → Returns d (advance_all best inputs) m
      → Returns d inputs (push level m)
push-Returns d inputs best m next (r, e, merges) = (_, rw e, next r merges)

merge_loop-Returns :
    (d : Bool) (limits : MergeLimits) (fuel size : ℕ) (cum : ℤ) (bound : Option ℤ)
    (inputs : List (List Level))
    → All (Ordered d) inputs
    → level_count inputs < fuel
    → Returns d inputs (merge_loop d limits fuel size cum bound inputs)
unfolding merge_loop
merge_loop-Returns d limits zero size cum bound inputs o lt = absurd (omega arith)
merge_loop-Returns d limits (suc fuel) size cum bound inputs o lt =
    elim (best_head-Heads d inputs o) [
      | inl (e, empty) ↦ rw (e, merge_loop) (Returns-empty d inputs empty)
      | inr (best, e, none_better, beyond, fewer) ↦
          let next = round d inputs best o none_better beyond in
          let left_ordered = (advance_all-AllWorse d best inputs o none_better).1 in
          let limit = bound_for d limits bound best in
          let bounded = ltb_ℤ (pos 0) limits.max_bps_from_touch in
          let cum' = cum +ℤ notional_wide best (consumed_qty (pos 0) best inputs) in
          rw (e, merge_loop)
            (Returns-if d inputs (leb limits.max_levels size) _ _ (Returns-cut d inputs) (
              Returns-if d inputs (bounded && not (is_inside d best limit)) _ _
                (Returns-cut d inputs)
                (Returns-if d inputs (is_covered limits cum') _ _
                  (_, refl, next ([], any_left (advance_all best inputs)) (stop_at_end d _))
                  (push-Returns d inputs best _ next (
                    merge_loop-Returns d limits fuel (suc size) cum'
                      (if bounded then some limit else bound) (advance_all best inputs) left_ordered
                      (omega arith))))))
    ]

-- On venue sides that are each in order the merge ends, with a ladder strictly in order that shows
-- at each price the sum of the venues' quantities there, except at prices past the end of a ladder
-- that is marked as truncated.
pub merge_side-Merges :
    (d : Bool) (limits : MergeLimits) (inputs : List (List Level))
    → All (Ordered d) inputs
    → (r : List MergedLevel × Bool) × (merge_side d limits inputs ≡ some r) × Merges d inputs r
unfolding merge_side
merge_side-Merges d limits inputs o =
    merge_loop-Returns d limits (suc (level_count inputs)) 0 (pos 0) none inputs o (omega arith)
