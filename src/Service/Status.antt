-- ===== src/Service/Status.antt =====
-- src/aggregator/service.cc: GetVenueStatus. What it reads of a runner is the feed's statistics; the
-- clock is read twice.
use home_assignment.Common.{
  ◌≡◌, ◌≤◌, ◌+◌, refl, ap, ap₂, ◌∙◌, arith, ℕ, List, [], ◌∷◌, map, Option, none, some,
}
use home_assignment.Common.Lists.{length}
use home_assignment.Common.Int.{ℤ, pos, ◌-ℤ◌}
use home_assignment.Book.{Level, best_px}
use home_assignment.Engine.Books.{BooksPass}
use home_assignment.Engine.Publishing.{publish_book-Publishes}
use home_assignment.Engine.{
  Venue, VenueState, publish_book, clock_of, pair_with, ConsolidatedBook, VenueClockInfo, Engine,
}
use home_assignment.Engine.Latency.{LatencySummary, latency}
use home_assignment.Runner.{VenueRunner}

-- What a VenueFeed gives the handler: the names, and the runner's statistics.
pub record VenueStats : Type 0 where
  pub name : List ℕ
  pub venue_symbol : List ℕ
  pub state : VenueState
  pub messages : ℕ
  pub resyncs : ℕ
  pub sequence_gaps : ℕ
  pub ring_overflows : ℕ
  pub last_recv_ts_ns : ℤ
  pub last_exchange_ts_ns : ℤ

unfoldable pub stats_of : {S : Type 0} → List ℕ → List ℕ → VenueRunner S → VenueStats
stats_of name venue_symbol r = record {
  name = name;
  venue_symbol = venue_symbol;
  state = r.state;
  messages = r.messages;
  resyncs = r.resyncs;
  sequence_gaps = r.sequence_gaps;
  ring_overflows = r.ring_overflows;
  last_recv_ts_ns = r.last_recv_ts_ns;
  last_exchange_ts_ns = r.last_exchange_ts_ns;
}

pub record VenueStatus : Type 0 where
  pub venue : List ℕ
  pub venue_symbol : List ℕ
  pub state : VenueState
  pub last_recv_ts_ns : ℤ
  pub last_exchange_ts_ns : ℤ
  pub messages : ℕ
  pub resyncs : ℕ
  pub sequence_gaps : ℕ
  pub ring_overflows : ℕ
  pub bid_levels : ℕ
  pub ask_levels : ℕ
  pub best_bid : ℤ
  pub best_ask : ℤ

pub record LatencyStats : Type 0 where
  pub p50_ns : ℤ
  pub p99_ns : ℤ
  pub max_ns : ℤ
  pub count : ℕ

pub record GetVenueStatusResponse : Type 0 where
  pub venues : List VenueStatus
  pub published_snapshots : ℕ
  pub aggregation_latency : LatencyStats
  pub server_ts_ns : ℤ
  pub uptime_ns : ℤ

-- The first loop.
unfoldable pub venue_status : VenueStats → VenueStatus
venue_status stats = record {
  venue = stats.name;
  venue_symbol = stats.venue_symbol;
  state = stats.state;
  last_recv_ts_ns = stats.last_recv_ts_ns;
  last_exchange_ts_ns = stats.last_exchange_ts_ns;
  messages = stats.messages;
  resyncs = stats.resyncs;
  sequence_gaps = stats.sequence_gaps;
  ring_overflows = stats.ring_overflows;
  bid_levels = 0;
  ask_levels = 0;
  best_bid = pos 0;
  best_ask = pos 0;
}

unfoldable pub with_clock : VenueStatus → VenueClockInfo → VenueStatus
with_clock status clock = record status {
  bid_levels = clock.bid_levels;
  ask_levels = clock.ask_levels;
  best_bid = clock.best_bid;
  best_ask = clock.best_ask;
}

-- The second loop, over as many venues as there are clocks.
unfoldable pub with_clocks : List VenueStatus → List VenueClockInfo → List VenueStatus
unfolding with_clock
with_clocks [] clocks = []
with_clocks (status ∷ statuses) [] = status ∷ statuses
with_clocks (status ∷ statuses) (clock ∷ clocks) =
    with_clock status clock ∷ with_clocks statuses clocks

abbrev pub with_latest : List VenueStatus → Option ConsolidatedBook → List VenueStatus
with_latest statuses none = statuses
with_latest statuses (some book) = with_clocks statuses book.clocks

unfoldable pub latency_stats : LatencySummary → LatencyStats
latency_stats summary = record {
  p50_ns = summary.p50;
  p99_ns = summary.p99;
  max_ns = summary.max;
  count = summary.count;
}

-- `now` and `later` are the two readings of the clock, `started` the one at Start.
unfoldable pub get_venue_status : Engine → List VenueStats → ℤ → ℤ → ℤ → GetVenueStatusResponse
unfolding venue_status with_clocks latency latency_stats
get_venue_status e feeds started now later = record {
  venues = with_latest (map venue_status feeds) e.latest;
  published_snapshots = e.published;
  aggregation_latency = latency_stats (latency e.latencies);
  server_ts_ns = now;
  uptime_ns = later -ℤ started;
}

-- The best price of one side of a venue's book, 0 if it is empty.
abbrev pub touch_px : List Level → ℤ
touch_px [] = pos 0
touch_px (l ∷ ls) = l.px

-- A row: the statistics of a feed, and the depth and the best prices of two sides.
abbrev pub row_of : VenueStats → List Level → List Level → VenueStatus
row_of stats bids asks = record {
  venue = stats.name;
  venue_symbol = stats.venue_symbol;
  state = stats.state;
  last_recv_ts_ns = stats.last_recv_ts_ns;
  last_exchange_ts_ns = stats.last_exchange_ts_ns;
  messages = stats.messages;
  resyncs = stats.resyncs;
  sequence_gaps = stats.sequence_gaps;
  ring_overflows = stats.ring_overflows;
  bid_levels = length bids;
  ask_levels = length asks;
  best_bid = touch_px bids;
  best_ask = touch_px asks;
}

-- Feed and venue of the same place make a row; a feed past the last venue has no levels.
abbrev pub rows : List VenueStats → List Venue → List VenueStatus
rows [] vs = []
rows (stats ∷ feeds) [] = row_of stats [] [] ∷ rows feeds []
rows (stats ∷ feeds) (v ∷ vs) = row_of stats v.book.bids v.book.asks ∷ rows feeds vs

best_px-touch_px : (ls : List Level) → best_px ls ≡ touch_px ls
unfolding best_px
best_px-touch_px [] = refl
best_px-touch_px (l ∷ ls) = refl

with_clock-row_of :
    (stats : VenueStats) (v : Venue)
    → with_clock (venue_status stats) (clock_of v) ≡ row_of stats v.book.bids v.book.asks
unfolding with_clock venue_status clock_of
with_clock-row_of stats v = rw (best_px-touch_px v.book.bids, best_px-touch_px v.book.asks) refl

no_clocks : (feeds : List VenueStats) → map venue_status feeds ≡ rows feeds []
unfolding venue_status
no_clocks [] = refl
no_clocks (stats ∷ feeds) = ap (λ rest. row_of stats [] [] ∷ rest) (no_clocks feeds)

with_clocks-rows :
    (feeds : List VenueStats) (vs : List Venue)
    → with_clocks (map venue_status feeds) (map clock_of vs) ≡ rows feeds vs
unfolding with_clocks
with_clocks-rows [] vs = refl
with_clocks-rows (stats ∷ feeds) [] = no_clocks (stats ∷ feeds)
with_clocks-rows (stats ∷ feeds) (v ∷ vs) =
    ap₂ ◌∷◌ (with_clock-row_of stats v) (with_clocks-rows feeds vs)

paired :
    (vs : List Venue) (states : List VenueState)
    → length vs ≤ length states
    → map (λ p. clock_of p.0) (pair_with vs states) ≡ map clock_of vs
paired [] states h = refl
paired (v ∷ vs) [] h = absurd (omega (arith, h))
paired (v ∷ vs) (s ∷ states) h =
    ap (λ rest. clock_of v ∷ rest) (paired vs states (omega (arith, h)))

-- After a publish of an engine whose books pass the check, with a state for each venue, the status
-- has for each feed a row of its statistics and of the depth and the best prices, bids and asks
-- apart, of the venue's own book. It counts that publish, and gives the time of the first reading of
-- the clock and the time since the start at the second.
pub get_venue_status-rows :
    (e : Engine) (states : List VenueState) (now wall : ℤ) (feeds : List VenueStats)
    (started read later : ℤ)
    → BooksPass e.venues
    → length e.venues ≤ length states
    → (r : ConsolidatedBook × Engine) × (publish_book e states now wall ≡ some r)
      × ((get_venue_status r.1 feeds started read later).venues ≡ rows feeds e.venues)
      × ((get_venue_status r.1 feeds started read later).published_snapshots ≡ e.published + 1)
      × ((get_venue_status r.1 feeds started read later).server_ts_ns ≡ read)
      × ((get_venue_status r.1 feeds started read later).uptime_ns ≡ later -ℤ started)
unfolding get_venue_status
get_venue_status-rows e states now wall feeds started read later h long =
    let (r, is, p) = publish_book-Publishes e states now wall h in
    (
      r,
      is,
      ap (with_latest (map venue_status feeds)) p.latest
          ∙ ap (with_clocks (map venue_status feeds)) (p.clocks ∙ paired e.venues states long)
          ∙ with_clocks-rows feeds e.venues,
      p.counted ∙ p.sequence,
      refl,
      refl,
    )
