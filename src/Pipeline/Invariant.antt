-- ===== src/Pipeline/Invariant.antt =====
-- What every step of the pipeline keeps.
use mathlib.Core.List.{append-nil, append_assoc}
use home_assignment.Common.{
  ℕ, ◌≤◌, ◌≡◌, refl, sym, ap, subst, ◌∙◌, Bool, true, false, not, List, [], ◌∷◌, ◌++◌, map, Option,
  none, some, if◌then◌else◌, leb, ◌==◌, arith,
}
use home_assignment.Common.Lists.{All, All-append, length, length-append, get_elem?, drop}
use home_assignment.Venues.{FeedUpdate}
use home_assignment.Engine.{Venue, Engine, ConsolidatedBook, apply, publish_book}
use home_assignment.Engine.Books.{Ingested}
use home_assignment.Engine.Loop.{FeedBatch}
use home_assignment.Runner.{Protocol, Options, Answers}
use home_assignment.Pipeline.{
  start_pipeline, Pipeline, ring_capacity, batches, batch_of, take_batch, keep_engine, Event, feeds,
  takes, takes_other, publishes, step, run,
}
use home_assignment.Pipeline.Laws.{FeedLaws}
use home_assignment.Pipeline.Sending.{allowed}
use home_assignment.Pipeline.Handlers.{step-Pushing, start-Pushing}
use home_assignment.Pipeline.Carrying.{
  map_batches, map_updates, map_batches-snoc, map_batches-nil, get_elem?-update_venue,
  get_elem?-update_venue_other, drop-append, finish_publish-venues, length-map_batch,
  map_batch-append, none_waits,
}

module _ (p : Protocol) {Good : p.State → Type 0} (laws : FeedLaws p Good) (draw : ℕ → ℕ → ℕ)
    (i : ℕ) (before : Option Venue) where
  -- The runner's batches are those applied and those that wait, all of levels that passed
  -- ingestion.
  pub record Inv (s : Pipeline p.State) : Type 0 where
    pub index : s.venue_index ≡ i
    pub good : Good s.runner.protocol
    pub applied : List (List FeedUpdate)
    pub waiting : List (List FeedUpdate)
    pub sent : batches s.runner.log ≡ applied ++ waiting
    pub ring : s.ring ≡ map (batch_of i) waiting
    pub bounded : length waiting ≤ ring_capacity
    pub ingested : All (All Ingested) waiting
    pub venue : get_elem? s.engine.venues i ≡ map_batches applied before

  -- What the handler pushed fits.
  pub room_bound :
      (ring : List FeedBatch) (waiting more : List (List FeedUpdate))
      → ring ≡ map (batch_of i) waiting
      → length waiting ≤ ring_capacity
      → length more ≤ allowed (not (leb ring_capacity (length ring)))
      → length (waiting ++ more) ≤ ring_capacity
  room_bound ring waiting more e h k =
      let same = ap length e ∙ length-map_batch i waiting in
      ground (arith, same, h, k, length-append waiting more)

  if-Inv :
      (b : Bool) (x y : Pipeline p.State) → Inv x → (b ≡ false → Inv y) → Inv (if b then x else y)
  if-Inv true x y h k = h
  if-Inv false x y h k = k refl

  take_batch-Inv :
      (s : Pipeline p.State) (applied waiting : List (List FeedUpdate))
      → s.venue_index ≡ i
      → Good s.runner.protocol
      → batches s.runner.log ≡ applied ++ waiting
      → s.ring ≡ map (batch_of i) waiting
      → length waiting ≤ ring_capacity
      → All (All Ingested) waiting
      → get_elem? s.engine.venues i ≡ map_batches applied before
      → Inv (take_batch s.ring s)
  take_batch-Inv s applied [] index good sent ring few ingested venue =
      subst (λ bs. Inv (take_batch bs s)) (sym ring)
        (record {
          index = index;
          good = good;
          applied = applied;
          waiting = [];
          sent = sent;
          ring = ring;
          bounded = few;
          ingested = tt;
          venue = venue;
        })
  take_batch-Inv s applied (us ∷ waiting) index good sent ring few ingested venue =
      subst (λ bs. Inv (take_batch bs s)) (sym ring)
        (record {
          index = index;
          good = good;
          applied = applied ++ us ∷ [];
          waiting = waiting;
          sent = sent ∙ sym (append_assoc applied (us ∷ []) waiting);
          ring = refl;
          bounded = omega (arith, few);
          ingested = ingested.1;
          venue =
              unfold apply in
              (get_elem?-update_venue i us s.engine.venues
                ∙ ap (map_updates us) venue
                ∙ map_batches-snoc applied us before);
        })

  other-Inv :
      (s : Pipeline p.State) (j : ℕ) (us : List FeedUpdate)
      → Inv s
      → j == s.venue_index ≡ false
      → Inv (record s { engine = apply s.engine j us })
  other-Inv s j us v h = record {
    index = v.index;
    good = v.good;
    applied = v.applied;
    waiting = v.waiting;
    sent = v.sent;
    ring = v.ring;
    bounded = v.bounded;
    ingested = v.ingested;
    venue =
        unfold apply in
        (get_elem?-update_venue_other j i us s.engine.venues (subst (λ k. j == k ≡ false) v.index h)
          ∙ v.venue);
  }

  keep_engine-Inv :
      (s : Pipeline p.State) (r : Option (ConsolidatedBook × Engine))
      → Inv s
      → (keep_engine r s).engine.venues ≡ s.engine.venues
      → Inv (keep_engine r s)
  keep_engine-Inv s none v same = v
  keep_engine-Inv s (some (book, e)) v same = record {
    index = v.index;
    good = v.good;
    applied = v.applied;
    waiting = v.waiting;
    sent = v.sent;
    ring = v.ring;
    bounded = v.bounded;
    ingested = v.ingested;
    venue = ap (λ vs. get_elem? vs i) same ∙ v.venue;
  }

  pub step-Inv : (e : Event) (s : Pipeline p.State) → Inv s → Inv (step p draw e s)
  unfolding step
  step-Inv (feeds event a) s v =
      let answers = record a { room = not (leb ring_capacity (length s.ring)) } in
      let (good, (more, sent, few, ingested)) =
        step-Pushing p laws draw (batches s.runner.log) event answers s.runner
          (v.good, ([], sym (append-nil (batches s.runner.log)), omega arith, tt)) in
      record {
        index = v.index;
        good = good;
        applied = v.applied;
        waiting = v.waiting ++ more;
        sent = sent ∙ ap (λ bs. bs ++ more) v.sent ∙ append_assoc v.applied v.waiting more;
        ring =
            ap
              (λ bs.
                s.ring ++ map (batch_of s.venue_index) (drop (length (batches s.runner.log)) bs))
              sent
            ∙ ap (λ bs. s.ring ++ map (batch_of s.venue_index) bs)
                (drop-append (batches s.runner.log) more)
            ∙ ap (λ k. s.ring ++ map (batch_of k) more) v.index
            ∙ ap (λ bs. bs ++ map (batch_of i) more) v.ring
            ∙ sym (map_batch-append i v.waiting more);
        bounded = room_bound s.ring v.waiting more v.ring v.bounded few;
        ingested = All-append (All Ingested) v.waiting more v.ingested ingested;
        venue = v.venue;
      }
  step-Inv takes s v =
      take_batch-Inv s v.applied v.waiting v.index v.good v.sent v.ring v.bounded v.ingested v.venue
  step-Inv (takes_other j us) s v =
      if-Inv (j == s.venue_index) s (record s { engine = apply s.engine j us }) v
        (other-Inv s j us v)
  step-Inv (publishes states now wall) s v =
      keep_engine-Inv s (publish_book s.engine states now wall) v
        (unfold publish_book in finish_publish-venues s now wall _ _)

  pub run-Inv : (es : List Event) (s : Pipeline p.State) → Inv s → Inv (run p draw es s)
  unfolding run
  run-Inv [] s v = v
  run-Inv (e ∷ es) s v = run-Inv es (step p draw e s) (step-Inv e s v)

module _ (p : Protocol) {Good : p.State → Type 0} (laws : FeedLaws p Good) (draw : ℕ → ℕ → ℕ) where
  pub start-Inv :
      (options : Options) (a : Answers) (s : p.State) (i : ℕ) (e : Engine)
      → Good s
      → Inv p laws draw i (get_elem? e.venues i) (start_pipeline p draw options a s i e)
  start-Inv options a s i e good =
      let (kept, (more, sent, few, ingested)) =
        start-Pushing p laws draw [] options a s good refl in
      record {
        index = refl;
        good = kept;
        applied = [];
        waiting = more;
        sent = sent;
        ring = none_waits i more few;
        bounded = omega (arith, few);
        ingested = ingested;
        venue = map_batches-nil (get_elem? e.venues i);
      }
