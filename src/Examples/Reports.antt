-- ===== src/Examples/Reports.antt =====
-- What the services say of a publish, and the summary of a few latencies.
use home_assignment.Common.{◌+◌, arith, List, [], ◌∷◌, ◌≡◌, some}
use home_assignment.Common.Lists.{take}
use home_assignment.Common.Int.{◌-ℤ◌, ℤ, pos}
use home_assignment.Common.Sort.{sort}
use home_assignment.Common.Text.{codes}
use home_assignment.Engine.{Engine, ConsolidatedBook, live, syncing, publish_book}
use home_assignment.Engine.Latency.{latency, record_all}
use home_assignment.Engine.Percentiles.{Reports, latency-Reports}
use home_assignment.Service.Messages.{bbo_update}
use home_assignment.Service.Quotes.{IsAttributed, bbo_update-IsAttributed}
use home_assignment.Service.Status.{VenueStats, rows, get_venue_status, get_venue_status-rows}
use home_assignment.Examples.Publishing.{engine, engine-BooksPass, states}

-- Five calls and three samples: the ring has gone round.
abbrev calls : List ℤ
calls = pos 5 ∷ pos 9 ∷ pos 2 ∷ pos 40 ∷ pos 7 ∷ []

latency-Reports_example : Reports calls (sort (take 3 calls)) (latency (record_all 3 calls))
latency-Reports_example =
    latency-Reports 3 (pos 5) (pos 9 ∷ pos 2 ∷ pos 40 ∷ pos 7 ∷ []) (omega arith)

bbo_update-IsAttributed_example :
    (r : ConsolidatedBook × Engine) × (publish_book engine states (pos 10000) (pos 77) ≡ some r)
    × IsAttributed (bbo_update r.0)
bbo_update-IsAttributed_example =
    bbo_update-IsAttributed engine states (pos 10000) (pos 77) engine-BooksPass

abbrev feeds : List VenueStats
feeds =
    record {
      name = codes "binance";
      venue_symbol = codes "BTCUSDT";
      state = live;
      messages = 12;
      resyncs = 1;
      sequence_gaps = 0;
      ring_overflows = 0;
      last_recv_ts_ns = pos 9000;
      last_exchange_ts_ns = pos 8000;
    }
    ∷ record {
      name = codes "okx";
      venue_symbol = codes "BTC-USDT";
      state = syncing;
      messages = 3;
      resyncs = 0;
      sequence_gaps = 0;
      ring_overflows = 0;
      last_recv_ts_ns = pos 9000;
      last_exchange_ts_ns = pos 0;
    }
    ∷ []

get_venue_status-rows_example :
    (r : ConsolidatedBook × Engine) × (publish_book engine states (pos 10000) (pos 77) ≡ some r)
    × ((get_venue_status r.1 feeds (pos 1) (pos 2) (pos 3)).venues ≡ rows feeds engine.venues)
    × ((get_venue_status r.1 feeds (pos 1) (pos 2) (pos 3)).published_snapshots
        ≡ engine.published + 1)
    × ((get_venue_status r.1 feeds (pos 1) (pos 2) (pos 3)).server_ts_ns ≡ pos 2)
    × ((get_venue_status r.1 feeds (pos 1) (pos 2) (pos 3)).uptime_ns ≡ pos 3 -ℤ pos 1)
get_venue_status-rows_example =
    get_venue_status-rows engine states (pos 10000) (pos 77) feeds (pos 1) (pos 2) (pos 3)
      engine-BooksPass (omega arith)
