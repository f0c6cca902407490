-- ===== src/Engine.antt =====
-- src/aggregator/engine.h and src/aggregator/engine.cc: the venue books, the merge of those that are
-- live and fresh, and what is published. The three vectors indexed by venue are one list of venues.
-- The clocks' values are arguments, and a mutex is held for the whole of each call that takes it.
-- Slots are named by numbers, as the source names them by pointers.
pub mod Books
pub mod Publishing
pub mod Latency
pub mod Loop
pub mod Percentiles
pub mod Progress
pub mod Samples
pub mod Touch
pub use home_assignment.Runner.{VenueState, disconnected, connecting, syncing, live, stale, is_live}
use home_assignment.Common.{
  ℕ, zero, suc, ◌+◌, ◌-◌, ◌*◌, ◌/◌, ◌%◌, Bool, true, false, not, ◌&&◌, List, [], ◌∷◌, ◌++◌, map,
  Option, none, some, if◌then◌else◌, ltb, ◌==◌,
}
use home_assignment.Common.Lists.{length}
use home_assignment.Common.Int.{ℤ, pos, ◌-ℤ◌, ◌*ℤ◌, ltb_ℤ, leb_ℤ, eq_ℤ}
use home_assignment.Fixed.{scale}
use home_assignment.Book.{Level, VenueBook, FeedUpdateLevels, apply_feed_update, best_px, best_qty}
use home_assignment.Ladder.{MergedLevel, MergeLimits, merge_side}
use home_assignment.Venues.{FeedUpdate}
use home_assignment.Slot.{Slot, empty_slot, publish, stop}

-- A connection's state, as VenueStats carries it.
pub record Venue : Type 0 where
  pub name : List ℕ
  pub book : VenueBook
  pub last_recv_ns : ℤ
  pub last_exchange_ns : ℤ

pub record VenueTouch : Type 0 where
  pub venue : List ℕ
  pub qty : ℤ

pub record VenueClockInfo : Type 0 where
  pub name : List ℕ
  pub last_recv_ts_ns : ℤ
  pub last_exchange_ts_ns : ℤ
  pub bid_levels : ℕ
  pub ask_levels : ℕ
  pub best_bid : ℤ
  pub best_ask : ℤ

pub record ConsolidatedBook : Type 0 where
  pub sequence : ℕ
  pub publish_ts_ns : ℤ
  pub ingest_recv_ts_ns : ℤ
  pub instrument : List ℕ
  pub contributing : List (List ℕ)
  pub stale : List (List ℕ)
  pub clocks : List VenueClockInfo
  pub bids : List MergedLevel
  pub asks : List MergedLevel
  pub bid_touch : List VenueTouch
  pub ask_touch : List VenueTouch
  pub bids_truncated : Bool
  pub asks_truncated : Bool

pub record EngineConfig : Type 0 where
  pub instrument : List ℕ
  pub max_publish_bps : ℤ
  pub max_publish_levels : ℕ
  pub staleness_ns : ℤ

pub record Latencies : Type 0 where
  pub samples : List ℤ
  pub cursor : ℕ
  pub largest : ℤ
  pub count : ℕ

pub record Engine : Type 0 where
  pub config : EngineConfig
  pub venues : List Venue
  pub newest_recv_ns : ℤ
  pub published : ℕ
  pub latest : Option ConsolidatedBook
  pub subscribers : List (ℕ × Slot ConsolidatedBook)
  pub latencies : Latencies

abbrev max_ℤ : ℤ → ℤ → ℤ
max_ℤ a b = if ltb_ℤ a b then b else a

abbrev pub levels_of : FeedUpdate → FeedUpdateLevels
levels_of u = record { is_snapshot = u.is_snapshot; bids = u.bids; asks = u.asks }

-- One round of the loop in Apply, on the venue that the batch names.
unfoldable pub apply_update : Venue → FeedUpdate → Venue
apply_update v u = record v {
  book = apply_feed_update v.book (levels_of u);
  last_recv_ns = u.recv_ts_ns;
  last_exchange_ns =
      if not (eq_ℤ u.exchange_ts_ns (pos 0)) then u.exchange_ts_ns else v.last_exchange_ns;
}

unfoldable pub apply_updates : Venue → List FeedUpdate → Venue
unfolding apply_update
apply_updates v [] = v
apply_updates v (u ∷ us) = apply_updates (apply_update v u) us

unfoldable pub newest_of : ℤ → List FeedUpdate → ℤ
newest_of newest [] = newest
newest_of newest (u ∷ us) = newest_of (max_ℤ newest u.recv_ts_ns) us

-- The venue at an index; an index past the end, which no runner has, changes nothing.
unfoldable pub update_venue : ℕ → List FeedUpdate → List Venue → List Venue
unfolding apply_updates
update_venue i us [] = []
update_venue zero us (v ∷ vs) = apply_updates v us ∷ vs
update_venue (suc i) us (v ∷ vs) = v ∷ update_venue i us vs

-- The batch's venue and its updates.
unfoldable pub apply : Engine → ℕ → List FeedUpdate → Engine
unfolding update_venue newest_of
apply e venue_index updates = record e {
  venues = update_venue venue_index updates e.venues;
  newest_recv_ns = newest_of e.newest_recv_ns updates;
}

-- Whether a venue's book becomes an input of the merge.
unfoldable pub contributes : ℤ → ℤ → Venue × VenueState → Bool
contributes staleness now (v, state) =
    is_live state && (not (eq_ℤ v.last_recv_ns (pos 0)) && ltb_ℤ (now -ℤ v.last_recv_ns) staleness)

unfoldable pub clock_of : Venue → VenueClockInfo
unfolding best_px
clock_of v = record {
  name = v.name;
  last_recv_ts_ns = v.last_recv_ns;
  last_exchange_ts_ns = v.last_exchange_ns;
  bid_levels = length v.book.bids;
  ask_levels = length v.book.asks;
  best_bid = best_px v.book.bids;
  best_ask = best_px v.book.asks;
}

-- What SelectContributingVenues fills: the venues that become inputs, the names of the others, and
-- a clock for each.
pub record Selection : Type 0 where
  pub inputs : List Venue
  pub stale : List (List ℕ)
  pub clocks : List VenueClockInfo

unfoldable pub select : ℤ → ℤ → List (Venue × VenueState) → Selection
unfolding contributes clock_of
select staleness now [] = record { inputs = []; stale = []; clocks = [] }
select staleness now ((v, state) ∷ vs) =
    let rest = select staleness now vs in
    if contributes staleness now (v, state)
    then record { inputs = v ∷ rest.inputs; stale = rest.stale; clocks = clock_of v ∷ rest.clocks }
    else record {
      inputs = rest.inputs;
      stale = v.name ∷ rest.stale;
      clocks = clock_of v ∷ rest.clocks;
    }

abbrev pub first_px : List MergedLevel → ℤ
first_px [] = pos 0
first_px (l ∷ ls) = l.px

-- The loop over the inputs that notes who is at the touch, for one side of the books.
unfoldable pub touch_of : (VenueBook → List Level) → ℤ → List Venue → List VenueTouch
unfolding best_px best_qty
touch_of side best [] = []
touch_of side best (v ∷ vs) =
    if not (eq_ℤ best (pos 0)) && eq_ℤ (best_px (side v.book)) best
    then record { venue = v.name; qty = best_qty (side v.book) } ∷ touch_of side best vs
    else touch_of side best vs

unfoldable pub set_sample : List ℤ → ℕ → ℤ → List ℤ
set_sample [] i x = []
set_sample (y ∷ ys) zero x = x ∷ ys
set_sample (y ∷ ys) (suc i) x = y ∷ set_sample ys i x

unfoldable pub record_latency : Latencies → ℤ → Latencies
unfolding set_sample
record_latency l nanos = record {
  samples = set_sample l.samples l.cursor nanos;
  cursor = (l.cursor + 1) % length l.samples;
  largest = max_ℤ l.largest nanos;
  count = l.count + 1;
}

abbrev pub bids_of : VenueBook → List Level
bids_of book = book.bids

abbrev pub asks_of : VenueBook → List Level
asks_of book = book.asks

abbrev pub limits_of : EngineConfig → MergeLimits
limits_of config = record {
  notional_target = pos 0;
  max_bps_from_touch = config.max_publish_bps *ℤ pos scale;
  max_levels = config.max_publish_levels;
}

-- The book of one publish, from the two merges.
unfoldable pub assemble :
    Engine → ℤ → Selection → List MergedLevel × Bool → List MergedLevel × Bool → ConsolidatedBook
unfolding touch_of
assemble e wall chosen (bids, bids_truncated) (asks, asks_truncated) = record {
  sequence = e.published + 1;
  publish_ts_ns = wall;
  ingest_recv_ts_ns = e.newest_recv_ns;
  instrument = e.config.instrument;
  contributing = map (λ v. v.name) chosen.inputs;
  stale = chosen.stale;
  clocks = chosen.clocks;
  bids = bids;
  asks = asks;
  bid_touch = touch_of bids_of (first_px bids) chosen.inputs;
  ask_touch = touch_of asks_of (first_px asks) chosen.inputs;
  bids_truncated = bids_truncated;
  asks_truncated = asks_truncated;
}

unfoldable pub publish_all :
    ConsolidatedBook → List (ℕ × Slot ConsolidatedBook) → List (ℕ × Slot ConsolidatedBook)
unfolding publish
publish_all book [] = []
publish_all book ((id, slot) ∷ slots) = (id, (publish slot book).0) ∷ publish_all book slots

-- The end of Publish: the latency, the latest book, and the subscribers' slots.
unfoldable pub hand_out : Engine → ℤ → ConsolidatedBook → Engine
unfolding record_latency publish_all
hand_out e now book = record e {
  published = e.published + 1;
  latest = some book;
  subscribers = publish_all book e.subscribers;
  latencies =
      if not (eq_ℤ e.newest_recv_ns (pos 0))
      then record_latency e.latencies (now -ℤ e.newest_recv_ns)
      else e.latencies;
}

abbrev pub pair_with : {A B : Type 0} → List A → List B → List (A × B)
pair_with [] ys = []
pair_with (x ∷ xs) [] = []
pair_with (x ∷ xs) (y ∷ ys) = (x, y) ∷ pair_with xs ys

abbrev pub both {ℓ} : {A : Type ℓ} → Option A → Option A → Option (A × A)
both none y = none
both (some x) none = none
both (some x) (some y) = some (x, y)

-- Both ladders over the chosen venues; `none` stands for a merge out of fuel.
unfoldable pub merge_both :
    EngineConfig → Selection → Option ((List MergedLevel × Bool) × (List MergedLevel × Bool))
merge_both config chosen =
    both (merge_side true (limits_of config) (map (λ v. v.book.bids) chosen.inputs))
      (merge_side false (limits_of config) (map (λ v. v.book.asks) chosen.inputs))

abbrev pub finish_publish :
    Engine
    → ℤ
    → ℤ
    → Selection
    → Option ((List MergedLevel × Bool) × (List MergedLevel × Bool))
    → Option (ConsolidatedBook × Engine)
finish_publish e now wall chosen none = none
finish_publish e now wall chosen (some (bids, asks)) =
    let book = assemble e wall chosen bids asks in some (book, hand_out e now book)

-- Publish, with the states of the connections as they are read, and both clocks.
unfoldable pub publish_book : Engine → List VenueState → ℤ → ℤ → Option (ConsolidatedBook × Engine)
unfolding select merge_both assemble hand_out
publish_book e states now wall =
    let chosen = select e.config.staleness_ns now (pair_with e.venues states) in
    finish_publish e now wall chosen (merge_both e.config chosen)

unfoldable pub add_subscriber : Engine → ℕ → Engine
unfolding empty_slot
add_subscriber e id = record e { subscribers = e.subscribers ++ (id, empty_slot) ∷ [] }

unfoldable pub drop_slot : ℕ → List (ℕ × Slot ConsolidatedBook) → List (ℕ × Slot ConsolidatedBook)
drop_slot id [] = []
drop_slot id ((i, slot) ∷ slots) =
    if i == id then drop_slot id slots else (i, slot) ∷ drop_slot id slots

unfoldable pub stopped_slots : ℕ → List (ℕ × Slot ConsolidatedBook) → List (Slot ConsolidatedBook)
unfolding stop
stopped_slots id [] = []
stopped_slots id ((i, slot) ∷ slots) =
    if i == id then stop slot ∷ stopped_slots id slots else stopped_slots id slots

-- The slot is stopped for its reader, and no longer a subscriber's.
unfoldable pub remove_subscriber : Engine → ℕ → Engine × List (Slot ConsolidatedBook)
unfolding drop_slot stopped_slots
remove_subscriber e id =
    (record e { subscribers = drop_slot id e.subscribers }, stopped_slots id e.subscribers)

-- Stop, once the engine's thread is done: every slot is stopped, and the list is cleared.
unfoldable pub stop_subscribers : Engine → Engine × List (Slot ConsolidatedBook)
unfolding stop
stop_subscribers e = (record e { subscribers = [] }, map (λ s. stop s.1) e.subscribers)
