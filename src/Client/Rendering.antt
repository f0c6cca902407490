-- ===== src/Client/Rendering.antt =====
-- src/clients/common.h, bbo_main.cc, volume_bands_main.cc, price_bands_main.cc and status_main.cc:
-- the texts that a client prints. absl::StrFormat, the wall clock's format, and Millions and Bps, which
-- print a double, are what a `Printing` gives.
pub mod Names
use home_assignment.Common.{
  ℕ, ◌/◌, Bool, true, false, not, List, [], ◌∷◌, ◌++◌, if◌then◌else◌, ◌==◌,
}
use home_assignment.Common.Int.{ℤ, pos, ◌/ℤ◌, ltb_ℤ}
use home_assignment.Common.Text.{codes}
use home_assignment.Fixed.{format_fixed, to_string}
use home_assignment.Runner.{VenueState}
use home_assignment.Service.Messages.{
  SnapshotMeta, Touch, VenueQty, Quote, VolumeBand, PriceBand, Update,
}
use home_assignment.Service.Status.{VenueStatus, GetVenueStatusResponse}

-- An argument of StrFormat.
pub data Arg : Type 0 where
  text : List ℕ → Arg
  count : ℕ → Arg
  amount : ℤ → Arg

pub record Printing : Type 0 where
  pub str_format : List ℕ → List Arg → List ℕ
  pub format_wall : ℤ → List ℕ
  pub millions : ℤ → List ℕ
  pub bps : ℤ → List ℕ
  pub state_name : VenueState → List ℕ

abbrev pub fmt_px : ℤ → List ℕ
fmt_px value = format_fixed value 2

abbrev pub fmt_qty : ℤ → List ℕ
fmt_qty value = format_fixed value 8

abbrev pub bps_label : ℤ → List ℕ
bps_label value = format_fixed value 0

unfoldable pub venue_breakdown : List VenueQty → List ℕ
venue_breakdown [] = []
venue_breakdown (v ∷ vs) = v.venue ++ codes ":" ++ fmt_qty v.qty ++ codes " " ++ venue_breakdown vs

-- Each name with a comma behind it.
unfoldable pub with_commas : List (List ℕ) → List ℕ
with_commas [] = []
with_commas (name ∷ names) = name ++ codes "," ++ with_commas names

-- `if (line.back() == ',') line.pop_back()`.
unfoldable pub drop_comma : List ℕ → List ℕ
drop_comma [] = []
drop_comma (c ∷ []) = if c == b',' then [] else c ∷ []
drop_comma (c ∷ d ∷ cs) = c ∷ drop_comma (d ∷ cs)

abbrev pub stale_part : List (List ℕ) → List ℕ
stale_part [] = []
stale_part (name ∷ names) = codes " stale=" ++ drop_comma (with_commas (name ∷ names))

module _ (print : Printing) where
  open print use {str_format, format_wall, millions, bps, state_name}

  abbrev pub line : List ℕ → List Arg → List ℕ
  line format args = str_format format args ++ codes "\n"

  -- The header up to the names of the venues.
  unfoldable pub header_start : SnapshotMeta → Touch → List ℕ
  unfolding drop_comma with_commas
  header_start meta touch =
      codes "seq="
      ++ to_string 20 meta.sequence []
      ++ codes " "
      ++ format_wall meta.publish_ts_ns
      ++ (if touch.crossed then codes " CROSSED" else [])
      ++ stale_part meta.stale_venues
      ++ codes " venues="

  unfoldable pub header : SnapshotMeta → Touch → List ℕ
  unfolding header_start drop_comma with_commas
  header meta touch = drop_comma (header_start meta touch ++ with_commas meta.contributing_venues)

  unfoldable pub render_quote : List ℕ → Quote → List ℕ
  unfolding venue_breakdown
  render_quote label quote = line (codes "      %s %14s x %14s   %s") (
      text label
      ∷ text (fmt_px quote.price)
      ∷ text (fmt_qty quote.qty)
      ∷ text (venue_breakdown quote.venues)
      ∷ [])

  unfoldable pub render_bbo : Update Quote → List ℕ
  unfolding header render_quote
  render_bbo update =
      line (codes "[bbo] %s") (text (header update.meta update.touch) ∷ [])
      ++ render_quote (codes "bid") update.bid
      ++ render_quote (codes "ask") update.ask
      ++ line (codes "      spread %s (%s bps)  mid %s") (
          text (fmt_px update.touch.spread)
          ∷ text (bps update.touch.spread_bps)
          ∷ text (fmt_px update.touch.mid_price)
          ∷ [])

  -- The largest target, and the largest offset, of the bands that are not open-ended.
  unfoldable pub largest_target : ℤ → List VolumeBand → ℤ
  largest_target largest [] = largest
  largest_target largest (band ∷ bands) =
      largest_target
        (if not band.open_ended
          then (if ltb_ℤ largest band.notional_target then band.notional_target else largest)
          else largest)
        bands

  unfoldable pub render_volume_band : List ℕ → ℤ → VolumeBand → List ℕ
  render_volume_band label largest band =
      line (codes "      %s %s  vwap %14s  worst %14s  qty %14s  filled %s  levels %d") (
        text label
        ∷ text (
            if band.open_ended
            then millions largest ++ codes "+"
            else millions band.notional_target ++ codes " ")
        ∷ text (fmt_px band.vwap_price)
        ∷ text (fmt_px band.worst_price)
        ∷ text (fmt_qty band.filled_qty)
        ∷ text (millions band.filled_notional)
        ∷ count band.levels_consumed
        ∷ [])

  abbrev pub render_all : {A : Type 0} → (A → List ℕ) → List A → List ℕ
  render_all render [] = []
  render_all render (x ∷ xs) = render x ++ render_all render xs

  unfoldable pub render_volume_side : List ℕ → List VolumeBand → List ℕ
  unfolding largest_target render_volume_band
  render_volume_side label bands =
      render_all (render_volume_band label (largest_target (pos 0) bands)) bands

  unfoldable pub render_volume : Update (List VolumeBand) → List ℕ
  unfolding header render_volume_side
  render_volume update =
      line (codes "[vol] %s") (text (header update.meta update.touch) ∷ [])
      ++ render_volume_side (codes "BID") update.bid
      ++ render_volume_side (codes "ASK") update.ask

  unfoldable pub largest_offset : ℤ → List PriceBand → ℤ
  largest_offset largest [] = largest
  largest_offset largest (band ∷ bands) =
      largest_offset
        (if not band.open_ended
          then (if ltb_ℤ largest band.offset_bps then band.offset_bps else largest)
          else largest)
        bands

  unfoldable pub render_price_band : List ℕ → ℤ → PriceBand → List ℕ
  render_price_band label largest band =
      line (codes "      %s %9s  bound %14s  qty %14s  notional %s  vwap %14s  levels %5d%s") (
        text label
        ∷ text (
            if band.open_ended
            then bps_label largest ++ codes "bps+"
            else bps_label band.offset_bps ++ codes "bps ")
        ∷ text (fmt_px band.bound_price)
        ∷ text (fmt_qty band.qty)
        ∷ text (millions band.notional)
        ∷ text (fmt_px band.vwap_price)
        ∷ count band.levels
        ∷ text (if band.depth_limited then codes "  [depth-limited]" else [])
        ∷ [])

  unfoldable pub render_price_side : List ℕ → List PriceBand → List ℕ
  unfolding largest_offset render_price_band
  render_price_side label bands =
      render_all (render_price_band label (largest_offset (pos 0) bands)) bands

  unfoldable pub render_price : Update (List PriceBand) → List ℕ
  unfolding header render_price_side
  render_price update =
      line (codes "[px ] %s") (text (header update.meta update.touch) ∷ [])
      ++ render_price_side (codes "BID") update.bid
      ++ render_price_side (codes "ASK") update.ask

  unfoldable pub render_status_row : VenueStatus → List ℕ
  render_status_row v =
      line
        (codes
          "  %-8s %-22s %-12s msgs=%-8d resync=%-4d gaps=%-4d overflow=%-4d bids=%-5d asks=%-5d  %s / %s")
        (text v.venue
          ∷ text v.venue_symbol
          ∷ text (state_name v.state)
          ∷ count v.messages
          ∷ count v.resyncs
          ∷ count v.sequence_gaps
          ∷ count v.ring_overflows
          ∷ count v.bid_levels
          ∷ count v.ask_levels
          ∷ text (fmt_px v.best_bid)
          ∷ text (fmt_px v.best_ask)
          ∷ [])

  unfoldable pub render_status : GetVenueStatusResponse → List ℕ
  unfolding render_status_row
  render_status response =
      line (codes "published=%d  latency p50=%dus p99=%dus max=%dus  uptime=%ds") (
        count response.published_snapshots
        ∷ amount (response.aggregation_latency.p50_ns /ℤ pos 1000)
        ∷ amount (response.aggregation_latency.p99_ns /ℤ pos 1000)
        ∷ amount (response.aggregation_latency.max_ns /ℤ pos 1000)
        ∷ amount (response.uptime_ns /ℤ pos 1_000_000_000)
        ∷ [])
      ++ render_all render_status_row response.venues
