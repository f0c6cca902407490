-- ===== src/Engine/Loop.antt =====
-- src/aggregator/engine.cc: one round of `Engine::Run`. A ring is the list of the batches that it
-- holds, the oldest first; the clocks, the connections' states and whether the heartbeat interval
-- has passed are arguments. The sleep of a round without work changes nothing.
use home_assignment.Common.{
  ℕ, zero, suc, Bool, List, [], ◌∷◌, Option, none, some, if◌then◌else◌, ltb, ◌||◌,
}
use home_assignment.Common.Int.{ℤ}
use home_assignment.Venues.{FeedUpdate}
use home_assignment.Engine.{Engine, VenueState, ConsolidatedBook, apply, publish_book}

-- FeedBatch.
pub record FeedBatch : Type 0 where
  pub venue_index : ℕ
  pub updates : List FeedUpdate

abbrev pub max_batches_per_pass : ℕ
max_batches_per_pass = 256

-- What the loops leave: how many more batches the round may take, the engine, and the rings.
pub record Drained (A : Type 0) : Type 0 where
  pub budget : ℕ
  pub engine : Engine
  pub rings : A

-- The inner loop, on one ring.
unfoldable pub drain_ring : ℕ → Engine → List FeedBatch → Drained (List FeedBatch)
unfolding apply
drain_ring zero e batches = record { budget = 0; engine = e; rings = batches }
drain_ring (suc budget) e [] = record { budget = suc budget; engine = e; rings = [] }
drain_ring (suc budget) e (batch ∷ batches) =
    drain_ring budget (apply e batch.venue_index batch.updates) batches

-- The loop over the venues.
unfoldable pub drain_rings : ℕ → Engine → List (List FeedBatch) → Drained (List (List FeedBatch))
unfolding drain_ring
drain_rings budget e [] = record { budget = budget; engine = e; rings = [] }
drain_rings budget e (ring ∷ rings) =
    let first = drain_ring budget e ring in
    let rest = drain_rings first.budget first.engine rings in
    record { budget = rest.budget; engine = rest.engine; rings = first.rings ∷ rest.rings }

abbrev pub after_publish :
    List (List FeedBatch)
    → Option (ConsolidatedBook × Engine)
    → Option (Engine × List (List FeedBatch))
after_publish rings none = none
after_publish rings (some (book, e)) = some (e, rings)

-- The round: drain, then publish on a change or on the heartbeat. `none` stands for a merge out of
-- fuel.
unfoldable pub run_round :
    Engine
    → List (List FeedBatch)
    → List VenueState
    → ℤ
    → ℤ
    → Bool
    → Option (Engine × List (List FeedBatch))
unfolding drain_rings publish_book
run_round e rings states now wall heartbeat_due =
    let drained = drain_rings max_batches_per_pass e rings in
    let changed = ltb drained.budget max_batches_per_pass in
    if changed || heartbeat_due
    then after_publish drained.rings (publish_book drained.engine states now wall)
    else some (drained.engine, drained.rings)
