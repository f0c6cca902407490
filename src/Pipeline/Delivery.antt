-- ===== src/Pipeline/Delivery.antt =====
-- From a venue's connection to its book in the engine: what the ring carries across.
use home_assignment.Common.{
  ℕ, ◌≤◌, ◌≡◌, sym, subst, Bool, true, false, List, [], ◌∷◌, ◌++◌, map, Option, if◌then◌else◌, ◌==◌,
}
use home_assignment.Common.Lists.{All, length, get_elem?}
use home_assignment.Venues.{FeedUpdate}
use home_assignment.Engine.{Venue, Engine, apply, publish_book}
use home_assignment.Engine.Books.{BooksPass, Ingested, apply-BooksPass}
use home_assignment.Runner.{Protocol, Options, Answers}
use home_assignment.Pipeline.{
  start_pipeline, Pipeline, ring_capacity, batches, batch_of, take_batch, Event, feeds, takes,
  takes_other, publishes, step, run,
}
use home_assignment.Pipeline.Laws.{FeedLaws}
use home_assignment.Pipeline.Carrying.{map_batches, finish_publish-venues}
use home_assignment.Pipeline.Invariant.{Inv, step-Inv, run-Inv, start-Inv}

-- The runner's batches are those that the engine has applied to the venue, then those that wait in
-- the ring, which is never over its capacity.
pub record Delivers (p : Protocol) (i : ℕ) (before : Option Venue) (s : Pipeline p.State)
    : Type 0 where
  pub applied : List (List FeedUpdate)
  pub waiting : List (List FeedUpdate)
  pub sent : batches s.runner.log ≡ applied ++ waiting
  pub ring : s.ring ≡ map (batch_of i) waiting
  pub bounded : length waiting ≤ ring_capacity
  pub venue : get_elem? s.engine.venues i ≡ map_batches applied before

-- The levels that come from other venues passed ingestion.
abbrev pub Sane : Event → Type 0
Sane (takes_other j us) = All Ingested us
Sane _ = Unit

module _ (p : Protocol) {Good : p.State → Type 0} (laws : FeedLaws p Good) (draw : ℕ → ℕ → ℕ) where
  -- Whatever the venue, the network, the clocks and the engine do, and in whatever order: the
  -- batches that the runner pushed are those that the engine applied to the venue's book, each once
  -- and in the order of the pushes, then those that still wait in the ring, of which there are never
  -- more than its capacity.
  pub run-Delivers :
      (options : Options) (a : Answers) (s : p.State) (i : ℕ) (e : Engine) (es : List Event)
      → Good s
      → Delivers p i (get_elem? e.venues i) (run p draw es (start_pipeline p draw options a s i e))
  run-Delivers options a s i e es good =
      let v =
        run-Inv p laws draw i (get_elem? e.venues i) es _
          (start-Inv p laws draw options a s i e good) in
      record {
        applied = v.applied;
        waiting = v.waiting;
        sent = v.sent;
        ring = v.ring;
        bounded = v.bounded;
        venue = v.venue;
      }

  take_batch-BooksPass :
      (i : ℕ) (s : Pipeline p.State) (waiting : List (List FeedUpdate))
      → s.ring ≡ map (batch_of i) waiting
      → All (All Ingested) waiting
      → BooksPass s.engine.venues
      → BooksPass (take_batch s.ring s).engine.venues
  take_batch-BooksPass i s [] e c h =
      subst (λ bs. BooksPass (take_batch bs s).engine.venues) (sym e) h
  take_batch-BooksPass i s (us ∷ waiting) e c h =
      subst (λ bs. BooksPass (take_batch bs s).engine.venues) (sym e)
        (apply-BooksPass s.engine i us c.0 h)

  if-BooksPass :
      (b : Bool) (x y : Pipeline p.State)
      → BooksPass x.engine.venues
      → BooksPass y.engine.venues
      → BooksPass (if b then x else y).engine.venues
  if-BooksPass true x y h k = h
  if-BooksPass false x y h k = k

  step-BooksPass :
      (i : ℕ) (before : Option Venue) (e : Event) (s : Pipeline p.State)
      → Inv p laws draw i before s
      → Sane e
      → BooksPass s.engine.venues
      → BooksPass (step p draw e s).engine.venues
  unfolding step
  step-BooksPass i before (feeds event a) s v sane h = h
  step-BooksPass i before takes s v sane h = take_batch-BooksPass i s v.waiting v.ring v.ingested h
  step-BooksPass i before (takes_other j us) s v sane h =
      if-BooksPass (j == s.venue_index) s (record s { engine = apply s.engine j us }) h
        (apply-BooksPass s.engine j us sane h)
  step-BooksPass i before (publishes states now wall) s v sane h =
      subst BooksPass (sym (unfold publish_book in finish_publish-venues s now wall _ _)) h

  run-BooksPass_go :
      (i : ℕ) (before : Option Venue) (es : List Event) (s : Pipeline p.State)
      → Inv p laws draw i before s
      → All Sane es
      → BooksPass s.engine.venues
      → BooksPass (run p draw es s).engine.venues
  unfolding run
  run-BooksPass_go i before [] s v sane h = h
  run-BooksPass_go i before (e ∷ es) s v sane h =
      run-BooksPass_go i before es (step p draw e s) (step-Inv p laws draw i before e s v) sane.1
        (step-BooksPass i before e s v sane.0 h)

  -- If the levels of the other venues passed ingestion and the books of the engine pass the check,
  -- they pass it after any events from Start on, whatever the venue sends: the levels of a frame
  -- reach the engine only if they passed ingestion.
  pub run-BooksPass :
      (options : Options) (a : Answers) (s : p.State) (i : ℕ) (e : Engine) (es : List Event)
      → Good s
      → All Sane es
      → BooksPass e.venues
      → BooksPass (run p draw es (start_pipeline p draw options a s i e)).engine.venues
  run-BooksPass options a s i e es good sane h =
      run-BooksPass_go i (get_elem? e.venues i) es _ (start-Inv p laws draw options a s i e good)
        sane h
