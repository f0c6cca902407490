-- ===== src/Examples/Pipelines.antt =====
-- The Bybit runner, its ring and an engine with two venues.
use home_assignment.Common.{true, List, [], ◌∷◌, ◌≡◌, refl}
use home_assignment.Common.Lists.{length, get_elem?}
use home_assignment.Common.Text.{codes}
use home_assignment.Common.Int.{pos, ◌-ℤ◌, ◌*ℤ◌, ◌/ℤ◌}
use home_assignment.Book.{apply_feed_update}
use home_assignment.Fixed.{offset_by_bps_outward}
use home_assignment.Ladder.{merge_side}
use home_assignment.Runner.{opened, frame_comes, start}
use home_assignment.Engine.Books.{BooksPass}
use home_assignment.Pipeline.{Event, start_pipeline, feeds, takes, takes_other, publishes, run}
use home_assignment.Pipeline.Feeds.Bybit.{bybit_protocol-FeedLaws}
use home_assignment.Pipeline.Delivery.{Delivers, run-Delivers, run-BooksPass}
use home_assignment.Examples.Runners.{json, bybit, options, fresh, answers, draw}
use home_assignment.Examples.Feeds.{methods}
use home_assignment.Examples.Publishing.{engine, engine-BooksPass, update, update-Ingested, states}

-- Two snapshots; the engine takes the first of them.
abbrev traffic : List Event
traffic =
    feeds opened (answers true)
    ∷ feeds (frame_comes []) (answers true)
    ∷ takes_other 0 (update ∷ [])
    ∷ feeds (frame_comes []) (answers true)
    ∷ takes
    ∷ publishes states (pos 10000) (pos 77)
    ∷ []

run-Delivers_example :
    Delivers bybit 1
      (get_elem? engine.venues 1)
      (run bybit draw traffic (start_pipeline bybit draw options (answers true) fresh 1 engine))
run-Delivers_example =
    run-Delivers bybit (bybit_protocol-FeedLaws json (codes "t")) draw options (answers true) fresh
      1 engine traffic tt

run-BooksPass_example :
    let s = start_pipeline bybit draw options (answers true) fresh 1 engine in
    BooksPass (run bybit draw traffic s).engine.venues
run-BooksPass_example =
    run-BooksPass bybit (bybit_protocol-FeedLaws json (codes "t")) draw options (answers true) fresh
      1 engine traffic tt (tt, (tt, ((update-Ingested, tt), (tt, (tt, (tt, tt)))))) engine-BooksPass

-- One of the two batches waits.
traffic-run :
    let s = start_pipeline bybit draw options (answers true) fresh 1 engine in
    length (run bybit draw traffic s).ring ≡ 1
unfolding methods run merge_side start ◌-ℤ◌ apply_feed_update ◌*ℤ◌ offset_by_bps_outward ◌/ℤ◌
traffic-run = refl
