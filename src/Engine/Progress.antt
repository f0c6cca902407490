-- ===== src/Engine/Progress.antt =====
-- What one round of the engine does with the batches that wait.
use home_assignment.Common.{
  ℕ, zero, suc, ◌+◌, ◌≤◌, Bool, List, [], ◌∷◌, ◌≡◌, refl, ap, ◌∙◌, sym, subst, ◌⊎◌, some,
  Bool-cases, inl, inr, if◌then◌else◌, ltb, ◌||◌, arith,
}
use home_assignment.Common.Lists.{All, length}
use home_assignment.Common.Int.{ℤ}
use home_assignment.Engine.{Engine, VenueState, apply}
use home_assignment.Engine.Books.{BooksPass, Ingested, apply-BooksPass}
use home_assignment.Engine.Publishing.{publish_book-Publishes}
use home_assignment.Engine.Loop.{
  FeedBatch, Drained, max_batches_per_pass, drain_ring, drain_rings, run_round,
}

-- The batches that wait in all rings.
abbrev pub waiting : List (List FeedBatch) → ℕ
waiting [] = 0
waiting (ring ∷ rings) = length ring + waiting rings

abbrev pub IngestedRing : List FeedBatch → Type 0
IngestedRing = All (λ batch. All Ingested batch.updates)

-- What the loops keep: every batch taken is paid from the budget, which is left over only if no
-- batch is.
abbrev Paid : ℕ → Engine → ℕ → ℕ → Engine → ℕ → Type 0
Paid budget e count budget' e' count' =
    (budget' + count ≡ budget + count')
    × (budget' ≤ budget)
    × ((budget' ≡ 0) ⊎ (count' ≡ 0))
    × BooksPass e'.venues
    × (e'.published ≡ e.published)

drain_ring-Paid :
    (budget : ℕ) (e : Engine) (ring : List FeedBatch)
    → IngestedRing ring
    → BooksPass e.venues
    → let d = drain_ring budget e ring in
      Paid budget e (length ring) d.budget d.engine (length d.rings) × IngestedRing d.rings
unfolding drain_ring
drain_ring-Paid zero e ring c h = ((refl, omega arith, inl refl, h, refl), c)
drain_ring-Paid (suc budget) e [] c h = ((refl, omega arith, inr refl, h, refl), tt)
drain_ring-Paid (suc budget) e (b ∷ ring) c h =
    let ((sum, less, empty, pass, same), left) =
      drain_ring-Paid budget (apply e b.venue_index b.updates) ring c.1
        (apply-BooksPass e b.venue_index b.updates c.0 h) in
    ((omega (arith, sum), omega (arith, less), empty, pass, unfold apply in same), left)

drain_rings-Paid :
    (budget : ℕ) (e : Engine) (rings : List (List FeedBatch))
    → All IngestedRing rings
    → BooksPass e.venues
    → let d = drain_rings budget e rings in
      Paid budget e (waiting rings) d.budget d.engine (waiting d.rings) × All IngestedRing d.rings
unfolding drain_rings
drain_rings-Paid budget e [] c h = ((omega arith, omega arith, inr refl, h, refl), tt)
drain_rings-Paid budget e (ring ∷ rings) c h =
    let ((sum, less, empty, pass, same), left) = drain_ring-Paid budget e ring c.0 h in
    let d = drain_ring budget e ring in
    let ((sum', less', empty', pass', same'), left') =
      drain_rings-Paid d.budget d.engine rings c.1 pass in
    (
      (
        omega (arith, sum, sum'),
        omega (arith, less, less'),
        ground (arith, less', empty, empty', sum'),
        pass',
        same' ∙ same,
      ),
      (left, left'),
    )

-- What a round leaves: books that pass the check, rings with what could not be taken, and one
-- more book published if a batch was taken or the heartbeat was due.
pub record Advances (e : Engine) (rings : List (List FeedBatch)) (due : Bool)
    (r : Engine × List (List FeedBatch)) : Type 0 where
  pub books : BooksPass r.0.venues
  pub ingested : All IngestedRing r.1
  pub emptied : waiting rings ≤ max_batches_per_pass → waiting r.1 ≡ 0
  pub bounded : waiting rings ≤ max_batches_per_pass + waiting r.1
  pub published :
      r.0.published ≡ (if ltb 0 (waiting rings) || due then e.published + 1 else e.published)

module _ (e : Engine) (rings : List (List FeedBatch)) (c : All IngestedRing rings)
    (h : BooksPass e.venues) where
  abbrev drained : Drained (List (List FeedBatch))
  drained = drain_rings max_batches_per_pass e rings

  changed-waiting : ltb drained.budget max_batches_per_pass ≡ ltb 0 (waiting rings)
  changed-waiting =
      let ((sum, less, empty, pass, same), left) =
        drain_rings-Paid max_batches_per_pass e rings c h in
      ground (arith, sum, less, empty)

  advance :
      (due : Bool) (after : Engine)
      → BooksPass after.venues
      → after.published ≡ (
          if ltb 0 (waiting rings) || due
          then drained.engine.published + 1
          else drained.engine.published)
      → Advances e rings due (after, drained.rings)
  advance due after pass' counted =
      let ((sum, less, empty, pass, same), left) =
        drain_rings-Paid max_batches_per_pass e rings c h in
      record {
        books = pass';
        ingested = left;
        emptied = λ few. ground (arith, sum, less, empty, few);
        bounded = omega (arith, sum, less);
        published = counted ∙ ap (λ n. if ltb 0 (waiting rings) || due then n + 1 else n) same;
      }

-- With books that pass the check and batches of ingested levels in the rings, a round returns: the
-- books still pass it, no more than 256 batches are taken, all of them if they are no more, and
-- exactly one book is published if any batch waited or the heartbeat was due, and none otherwise.
pub run_round-Advances :
    (e : Engine) (rings : List (List FeedBatch)) (states : List VenueState) (now wall : ℤ)
    (heartbeat_due : Bool)
    → All IngestedRing rings
    → BooksPass e.venues
    → (r : Engine × List (List FeedBatch)) × (run_round e rings states now wall heartbeat_due
        ≡ some r)
      × Advances e rings heartbeat_due r
unfolding run_round
run_round-Advances e rings states now wall due c h =
    let d = drain_rings max_batches_per_pass e rings in
    let ((sum, less, empty, pass, same), left) =
      drain_rings-Paid max_batches_per_pass e rings c h in
    let ((book, after), is, published) = publish_book-Publishes d.engine states now wall pass in
    let same_test = changed-waiting e rings c h in
    elim (Bool-cases (ltb 0 (waiting rings) || due)) [
      | inl publishes ↦ (
        (after, d.rings),
        rw (same_test, publishes, is) refl,
        advance e rings c h due after (subst BooksPass (sym published.venues) pass)
            (rw publishes (published.counted ∙ published.sequence)),
      )
      | inr quiet ↦ (
        (d.engine, d.rings),
        rw (same_test, quiet) refl,
        advance e rings c h due d.engine pass (rw quiet refl),
      )
    ]
