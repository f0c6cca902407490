-- ===== src/Service/Messages.antt =====
-- src/aggregator/service.cc: the messages that the services fill, as records with the fields of
-- src/proto/md/v1, and the bodies of the three streams and of GetVenueStatus. The field of a message
-- that is not set has its zero. What the status handler reads of the runners is an argument.
use home_assignment.Common.{ℕ, Bool, true, false, List, [], ◌∷◌, map}
use home_assignment.Common.Int.{ℤ, pos}
use home_assignment.Fixed.{scale}
use home_assignment.Ladder.{MergedLevel}
use home_assignment.Analytics.{
  TouchInfo, BandConfig, SideBands, LadderView, compute_touch, compute_side_bands,
}
use home_assignment.Engine.{ConsolidatedBook, VenueTouch}
use home_assignment.Service.{
  make_view, volume_bands, price_bands, Normalised, accepted, refused, Refusal,
}

pub record VenueClock : Type 0 where
  pub venue : List ℕ
  pub last_recv_ts_ns : ℤ
  pub last_exchange_ts_ns : ℤ

pub record SnapshotMeta : Type 0 where
  pub instrument : List ℕ
  pub sequence : ℕ
  pub publish_ts_ns : ℤ
  pub ingest_recv_ts_ns : ℤ
  pub contributing_venues : List (List ℕ)
  pub stale_venues : List (List ℕ)
  pub venue_clocks : List VenueClock
  pub price_scale : ℕ
  pub qty_scale : ℕ
  pub bid_ladder_truncated : Bool
  pub ask_ladder_truncated : Bool

unfoldable pub fill_meta : ConsolidatedBook → SnapshotMeta
fill_meta book = record {
  instrument = book.instrument;
  sequence = book.sequence;
  publish_ts_ns = book.publish_ts_ns;
  ingest_recv_ts_ns = book.ingest_recv_ts_ns;
  contributing_venues = book.contributing;
  stale_venues = book.stale;
  venue_clocks =
      map
        (λ clock. record {
          venue = clock.name;
          last_recv_ts_ns = clock.last_recv_ts_ns;
          last_exchange_ts_ns = clock.last_exchange_ts_ns;
        })
        book.clocks;
  price_scale = scale;
  qty_scale = scale;
  bid_ladder_truncated = book.bids_truncated;
  ask_ladder_truncated = book.asks_truncated;
}

pub record Touch : Type 0 where
  pub has_bid : Bool
  pub has_ask : Bool
  pub best_bid : ℤ
  pub best_ask : ℤ
  pub mid_price : ℤ
  pub spread : ℤ
  pub spread_bps : ℤ
  pub crossed : Bool

unfoldable pub fill_touch : TouchInfo → Touch
fill_touch touch = record {
  has_bid = touch.has_bid;
  has_ask = touch.has_ask;
  best_bid = touch.best_bid;
  best_ask = touch.best_ask;
  mid_price = touch.mid;
  spread = touch.spread;
  spread_bps = touch.spread_bps;
  crossed = touch.crossed;
}

pub record VenueQty : Type 0 where
  pub venue : List ℕ
  pub qty : ℤ

pub record Quote : Type 0 where
  pub price : ℤ
  pub qty : ℤ
  pub venues : List VenueQty

unfoldable pub fill_quote : List MergedLevel → List VenueTouch → Quote
fill_quote [] touch = record { price = pos 0; qty = pos 0; venues = [] }
fill_quote (level ∷ side) touch = record {
  price = level.px;
  qty = level.qty;
  venues =
      map (λ contribution. record { venue = contribution.venue; qty = contribution.qty }) touch;
}

pub record VolumeBand : Type 0 where
  pub notional_target : ℤ
  pub vwap_price : ℤ
  pub worst_price : ℤ
  pub filled_qty : ℤ
  pub filled_notional : ℤ
  pub fully_filled : Bool
  pub levels_consumed : ℕ
  pub open_ended : Bool

unfoldable pub fill_volume_bands : SideBands → List VolumeBand
fill_volume_bands bands =
    map
      (λ band. record {
        notional_target = band.target;
        vwap_price = band.vwap_price;
        worst_price = band.worst;
        filled_qty = band.filled_qty;
        filled_notional = band.filled_notional;
        fully_filled = band.fully_filled;
        levels_consumed = band.levels_consumed;
        open_ended = band.open_ended;
      })
      bands.volume

pub record PriceBand : Type 0 where
  pub offset_bps : ℤ
  pub bound_price : ℤ
  pub qty : ℤ
  pub notional : ℤ
  pub vwap_price : ℤ
  pub levels : ℕ
  pub open_ended : Bool
  pub depth_limited : Bool

unfoldable pub fill_price_bands : SideBands → List PriceBand
fill_price_bands bands =
    map
      (λ band. record {
        offset_bps = band.offset_bps;
        bound_price = band.bound;
        qty = band.qty;
        notional = band.notional;
        vwap_price = band.vwap_price;
        levels = band.levels;
        open_ended = band.open_ended;
        depth_limited = band.depth_limited;
      })
      bands.price

-- What BeginUpdate fills, and the two views that it hands back.
pub record Begun : Type 0 where
  pub meta : SnapshotMeta
  pub touch : Touch
  pub bids : LadderView
  pub asks : LadderView

unfoldable pub begin_update : ConsolidatedBook → Begun
unfolding fill_meta fill_touch make_view compute_touch
begin_update book =
    let bids = make_view book true in
    let asks = make_view book false in
    record {
      meta = fill_meta book;
      touch = fill_touch (compute_touch bids asks);
      bids = bids;
      asks = asks;
    }

-- BboUpdate, VolumeBandsUpdate and PriceBandsUpdate: what stands on each side differs.
pub record Update (A : Type 0) : Type 0 where
  pub meta : SnapshotMeta
  pub touch : Touch
  pub bid : A
  pub ask : A

unfoldable pub bbo_update : ConsolidatedBook → Update Quote
unfolding begin_update fill_quote
bbo_update book =
    let begun = begin_update book in
    record {
      meta = begun.meta;
      touch = begun.touch;
      bid = fill_quote book.bids book.bid_touch;
      ask = fill_quote book.asks book.ask_touch;
    }

unfoldable pub volume_bands_update : BandConfig → ConsolidatedBook → Update (List VolumeBand)
unfolding begin_update fill_volume_bands compute_side_bands
volume_bands_update config book =
    let begun = begin_update book in
    record {
      meta = begun.meta;
      touch = begun.touch;
      bid = fill_volume_bands (compute_side_bands begun.bids config);
      ask = fill_volume_bands (compute_side_bands begun.asks config);
    }

unfoldable pub price_bands_update : BandConfig → ConsolidatedBook → Update (List PriceBand)
unfolding begin_update fill_price_bands compute_side_bands
price_bands_update config book =
    let begun = begin_update book in
    record {
      meta = begun.meta;
      touch = begun.touch;
      bid = fill_price_bands (compute_side_bands begun.bids config);
      ask = fill_price_bands (compute_side_bands begun.asks config);
    }

-- The two streams of bands: the refusal of the request, or what each book becomes.
pub data Stream (A : Type 0) : Type 0 where
  invalid : Refusal → Stream A
  emits : (ConsolidatedBook → A) → Stream A

abbrev pub volume_stream_of : Normalised → Stream (Update (List VolumeBand))
volume_stream_of (refused refusal) = invalid refusal
volume_stream_of (accepted notionals) =
    emits (volume_bands_update (record { notionals = notionals; offsets_bps = [] }))

unfoldable pub volume_bands_stream : List ℤ → Stream (Update (List VolumeBand))
unfolding volume_bands volume_bands_update
volume_bands_stream requested = volume_stream_of (volume_bands requested)

abbrev pub price_stream_of : Normalised → Stream (Update (List PriceBand))
price_stream_of (refused refusal) = invalid refusal
price_stream_of (accepted offsets) =
    emits (price_bands_update (record { notionals = []; offsets_bps = offsets }))

unfoldable pub price_bands_stream : List ℤ → Stream (Update (List PriceBand))
unfolding price_bands price_bands_update
price_bands_stream requested = price_stream_of (price_bands requested)
