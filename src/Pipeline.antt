-- ===== src/Pipeline.antt =====
-- src/aggregator/main.cc, src/venues/runner.cc and src/aggregator/engine.cc together: one venue's
-- runner, its ring and the engine, as the server wires them. The ring is the bounded queue that
-- Ring/Sequential shows it to be, and its answer to a push is that of the queue. What the engine
-- takes from the other venues' rings is an event.
pub mod Carrying
pub mod Feeds
pub mod Handlers
pub mod Invariant
pub mod Laws
pub mod Sending
pub mod Delivery
use home_assignment.Common.{
  ℕ, Bool, true, false, List, [], ◌∷◌, ◌++◌, map, Option, none, some, if◌then◌else◌, leb, not, ◌==◌,
}
use home_assignment.Common.Lists.{length, drop}
use home_assignment.Common.Int.{ℤ}
use home_assignment.Venues.{FeedUpdate}
use home_assignment.Engine.{Engine, VenueState, ConsolidatedBook, apply, publish_book}
use home_assignment.Engine.Loop.{FeedBatch}
use home_assignment.Runner
use home_assignment.Runner.{Options, start, Protocol, VenueRunner, Answers, Effect, pushes}

-- The capacity that BuildVenues gives every ring.
abbrev pub ring_capacity : ℕ
ring_capacity = 1024

-- The batches that the runner has pushed, the oldest first.
abbrev pub batches : List Effect → List (List FeedUpdate)
batches [] = []
batches (pushes batch ∷ log) = batches log ++ batch ∷ []
batches (_ ∷ log) = batches log

pub record Pipeline (S : Type 0) : Type 0 where
  pub venue_index : ℕ
  pub runner : VenueRunner S
  pub ring : List FeedBatch
  pub engine : Engine

abbrev pub batch_of : ℕ → List FeedUpdate → FeedBatch
batch_of venue_index updates = record { venue_index = venue_index; updates = updates }

-- The engine takes the oldest batch, if there is one.
abbrev pub take_batch : {S : Type 0} → List FeedBatch → Pipeline S → Pipeline S
take_batch [] s = s
take_batch (batch ∷ ring) s = record s {
  ring = ring;
  engine = apply s.engine batch.venue_index batch.updates;
}

abbrev pub keep_engine : {S : Type 0} → Option (ConsolidatedBook × Engine) → Pipeline S → Pipeline S
keep_engine none s = s
keep_engine (some (book, e)) s = record s { engine = e }

-- Something happens to the runner; the engine takes a batch of this ring, or one of another venue;
-- the engine publishes.
pub data Event : Type 0 where
  feeds : Runner.Event → Answers → Event
  takes : Event
  takes_other : ℕ → List FeedUpdate → Event
  publishes : List VenueState → ℤ → ℤ → Event

module _ (p : Protocol) (draw : ℕ → ℕ → ℕ) where
  -- The batches that a handler pushed join the ring.
  abbrev pub after_runner : VenueRunner p.State → Pipeline p.State → Pipeline p.State
  after_runner r s = record s {
    runner = r;
    ring =
        s.ring
        ++ map (batch_of s.venue_index) (drop (length (batches s.runner.log)) (batches r.log));
  }

  unfoldable pub step : Event → Pipeline p.State → Pipeline p.State
  unfolding Runner.step apply publish_book
  step (feeds e a) s =
      let answers = record a { room = not (leb ring_capacity (length s.ring)) } in
      after_runner (Runner.step p draw e answers s.runner) s
  step takes s = take_batch s.ring s
  step (takes_other index updates) s =
      if index == s.venue_index then s else record s { engine = apply s.engine index updates }
  step (publishes states now wall) s = keep_engine (publish_book s.engine states now wall) s

  unfoldable pub run : List Event → Pipeline p.State → Pipeline p.State
  unfolding step
  run [] s = s
  run (e ∷ es) s = run es (step e s)

-- The pipeline before the first event: the runner has started, the ring is empty.
abbrev pub start_pipeline :
    (p : Protocol) → (ℕ → ℕ → ℕ) → Options → Answers → p.State → ℕ → Engine → Pipeline p.State
start_pipeline p draw options a s i e = record {
  venue_index = i;
  runner = start p draw options a s;
  ring = [];
  engine = e;
}
