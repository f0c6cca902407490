-- ===== src/Examples/Publishing.antt =====
-- An engine with two venues, one of them fresh, and a slot.
use home_assignment.Common.{ℕ, ◌*◌, false, List, [], ◌∷◌, ◌≡◌, refl, none, some}
use home_assignment.Common.Text.{codes}
use home_assignment.Common.Int.{pos, leb_ℤ, ltb_ℤ, eq_ℤ}
use home_assignment.Fixed.{scale}
use home_assignment.Book.{Level, invariant}
use home_assignment.Venues.{FeedUpdate}
use home_assignment.Slot.{publishes, takes, stops, Event, run, fresh}
use home_assignment.Slot.Delivery.{Accounted, run-Accounted}
use home_assignment.Engine.{
  Engine, Venue, VenueState, live, syncing, ConsolidatedBook, publish_book,
}
use home_assignment.Engine.Books.{BooksPass, Ingested}
use home_assignment.Engine.Publishing.{Publishes, publish_book-Publishes}
use home_assignment.Engine.Loop.{FeedBatch, run_round}
use home_assignment.Engine.Progress.{Advances, run_round-Advances}

-- A slow reader: it misses the value 2, and gets 3 after the slot was stopped.
abbrev slow_reader : List (Event ℕ)
slow_reader = publishes 1 ∷ takes ∷ publishes 2 ∷ publishes 3 ∷ stops ∷ publishes 4 ∷ takes ∷ []

run-Accounted_example : Accounted (run fresh slow_reader)
run-Accounted_example = run-Accounted slow_reader

slow_reader-run : (run fresh slow_reader).delivered ≡ 3 ∷ 1 ∷ []
unfolding run fresh
slow_reader-run = refl

abbrev at : ℕ → ℕ → Level
at px qty = record { px = pos (px * scale); qty = pos (qty * scale) }

abbrev binance : Venue
binance = record {
  name = codes "binance";
  book = record { bids = at 100 2 ∷ at 99 1 ∷ []; asks = at 101 4 ∷ [] };
  last_recv_ns = pos 9000;
  last_exchange_ns = pos 8000;
}

abbrev okx : Venue
okx = record {
  name = codes "okx";
  book = record { bids = at 100 5 ∷ []; asks = at 102 1 ∷ [] };
  last_recv_ns = pos 9000;
  last_exchange_ns = pos 0;
}

abbrev pub engine : Engine
engine = record {
  config = record {
    instrument = codes "BTCUSDT";
    max_publish_bps = pos 500;
    max_publish_levels = 8192;
    staleness_ns = pos 5000;
  };
  venues = binance ∷ okx ∷ [];
  newest_recv_ns = pos 9000;
  published = 6;
  latest = none;
  subscribers = [];
  latencies = record { samples = pos 0 ∷ pos 0 ∷ []; cursor = 0; largest = pos 0; count = 0 };
}

-- A bid more, and the ask taken away.
abbrev pub update : FeedUpdate
update = record {
  is_snapshot = false;
  bids = at 98 3 ∷ [];
  asks = at 101 0 ∷ [];
  exchange_ts_ns = pos 0;
  recv_ts_ns = pos 9500;
}

abbrev pub states : List VenueState
states = live ∷ syncing ∷ []

abbrev rings : List (List FeedBatch)
rings = (record { venue_index = 0; updates = update ∷ [] } ∷ []) ∷ [] ∷ []

methods : Unit {0}
unfolding leb_ℤ ltb_ℤ eq_ℤ invariant
methods = tt

pub engine-BooksPass : BooksPass engine.venues
unfolding methods
engine-BooksPass = ((refl, refl), ((refl, refl), tt))

pub update-Ingested : Ingested update
unfolding methods
update-Ingested = (((refl, refl), tt), ((refl, refl), tt))

publish_book-Publishes_example :
    (r : ConsolidatedBook × Engine) × (publish_book engine states (pos 10000) (pos 77) ≡ some r)
    × Publishes engine states (pos 10000) r
publish_book-Publishes_example =
    publish_book-Publishes engine states (pos 10000) (pos 77) engine-BooksPass

run_round-Advances_example :
    (r : Engine × List (List FeedBatch)) × (run_round engine rings states (pos 10000) (pos 77) false
      ≡ some r)
    × Advances engine rings false r
run_round-Advances_example =
    run_round-Advances engine rings states (pos 10000) (pos 77) false
      (((update-Ingested, tt), tt), (tt, tt)) engine-BooksPass
