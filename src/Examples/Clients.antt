-- ===== src/Examples/Clients.antt =====
-- A client that prints two of three messages, and a header with two venues.
use home_assignment.Common.{
  ℕ, true, false, not, ◌&&◌, List, [], ◌∷◌, ◌++◌, ◌≡◌, refl, if◌then◌else◌, leb, ◌==◌,
}
use home_assignment.Common.Lists.{All, length}
use home_assignment.Common.Int.{pos}
use home_assignment.Common.Text.{codes}
use home_assignment.Fixed.{to_string}
use home_assignment.Flags.Clients.{ClientOptions, split_csv}
use home_assignment.Service.Messages.{SnapshotMeta, Touch}
use home_assignment.Client.{Output, stream_loop}
use home_assignment.Client.Loop.{joined, shown, after_text, stream_loop-shown}
use home_assignment.Client.Rendering.{Printing, header}
use home_assignment.Client.Rendering.Names.{IsName, list_text, stale_text, header-split_csv}

abbrev options : ClientOptions
options = record {
  server = codes "localhost:50051";
  instrument = [];
  min_interval_micros = 0;
  json = false;
  out_file = codes "log";
  max_updates = pos 2;
}

abbrev out : Output
out = record { printed = []; is_open = true; file = codes "old " }

abbrev messages : List ℕ
messages = 1 ∷ 2 ∷ 3 ∷ []

abbrev as_text : ℕ → List ℕ
as_text n = n ∷ []

stream_loop-shown_example :
    ((stream_loop options as_text as_text out messages false).0.output
      ≡ after_text out
          (joined (λ n. if options.json then as_text n else as_text n) (shown 2 messages)))
    × ((stream_loop options as_text as_text out messages false).0.cancelled
        ≡ not (2 == 0) && leb 2 (length messages))
    × ((stream_loop options as_text as_text out messages false).1
        ≡ (if not false && 2 == 0 then 1 else 0))
stream_loop-shown_example = stream_loop-shown options 2 as_text as_text out messages false refl

abbrev print : Printing
print = record {
  str_format = λ format args. format;
  format_wall = λ ts. codes "now";
  millions = λ amount. [];
  bps = λ amount. [];
  state_name = λ state. [];
}

abbrev meta : SnapshotMeta
meta = record {
  instrument = codes "BTCUSDT";
  sequence = 7;
  publish_ts_ns = pos 1;
  ingest_recv_ts_ns = pos 1;
  contributing_venues = codes "okx" ∷ codes "bybit" ∷ [];
  stale_venues = codes "binance" ∷ [];
  venue_clocks = [];
  price_scale = 1;
  qty_scale = 1;
  bid_ladder_truncated = false;
  ask_ladder_truncated = false;
}

abbrev touch : Touch
touch = record {
  has_bid = true;
  has_ask = true;
  best_bid = pos 3;
  best_ask = pos 2;
  mid_price = pos 2;
  spread = pos 1;
  spread_bps = pos 1;
  crossed = true;
}

abbrev both_IsName : All IsName meta.contributing_venues
both_IsName = ((refl, (refl, (refl, tt))), ((refl, (refl, (refl, (refl, (refl, tt))))), tt))

abbrev binance_IsName : All IsName meta.stale_venues
binance_IsName = ((refl, (refl, (refl, (refl, (refl, (refl, (refl, tt))))))), tt)

header-split_csv_example :
    (header print meta touch
      ≡ codes "seq="
        ++ to_string 20 7 []
        ++ codes " "
        ++ print.format_wall (pos 1)
        ++ codes " CROSSED"
        ++ stale_text (codes "binance" ∷ [])
        ++ codes " venues="
        ++ list_text (codes "okx" ∷ codes "bybit" ∷ []))
    × (split_csv (list_text (codes "okx" ∷ codes "bybit" ∷ [])) ≡ codes "okx" ∷ codes "bybit" ∷ [])
    × (split_csv (list_text (codes "binance" ∷ [])) ≡ codes "binance" ∷ [])
header-split_csv_example = header-split_csv print meta touch both_IsName binance_IsName
