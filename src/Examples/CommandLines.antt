-- ===== src/Examples/CommandLines.antt =====
-- Command lines.
use home_assignment.Common.{ℕ, ◌≤◌, true, List, [], ◌∷◌, map, ◌≡◌, refl, Option, none, some}
use home_assignment.Common.Int.{pos, ◌≤ℤ◌, ltb_ℤ, neg_ℤ}
use home_assignment.Common.Text.{codes, text_eq}
use home_assignment.Flags.{
  not_between, unexpected_argument, got, fails, Values, parse_args, get, get_int, get_int_between,
  or_fallback,
}
use home_assignment.Flags.Parsing.{print_flag, last_value, parse_args-get}
use home_assignment.Flags.Clients.{
  ClientOptions, parse_client_options, split_csv, parse_client_options-get_int,
}
use home_assignment.Startup.{VenueConfig, binance, okx}

abbrev flags : List (List ℕ × Option (List ℕ))
flags =
    (codes "venues", some (codes "okx,,binance"))
    ∷ (codes "json", none)
    ∷ (codes "max-updates", some (codes "9"))
    ∷ (codes "max-updates", some (codes "8"))
    ∷ []

abbrev values : Values
values =
    (codes "json", codes "true")
    ∷ (codes "max-updates", codes "8")
    ∷ (codes "venues", codes "okx,,binance")
    ∷ []

reads : parse_args (map print_flag flags) [] ≡ got values
unfolding parse_args text_eq
reads = refl

two_arguments :
    parse_args (codes "--max-updates" ∷ codes "5" ∷ []) [] ≡ fails (unexpected_argument (codes "5"))
unfolding parse_args
two_arguments = refl

negative :
    get_int_between ((codes "n", codes "-1") ∷ []) (codes "n") (pos 0) (pos 0) (pos 9)
    ≡ fails (not_between (codes "n") (pos 0) (pos 9) (neg_ℤ (pos 1)))
unfolding get_int_between text_eq neg_ℤ ltb_ℤ
negative = refl

split : split_csv (codes "a,,b") ≡ codes "a" ∷ codes "b" ∷ []
unfolding split_csv
split = refl

parse_args-get_example :
    (m : Values) × (parse_args (map print_flag flags) [] ≡ got m)
    × ((key fallback : List ℕ)
        → get m key fallback ≡ or_fallback fallback (last_value key none flags))
parse_args-get_example = parse_args-get flags (
  (refl, (refl, (refl, (refl, (refl, (refl, tt)))))),
  (
    (refl, (refl, (refl, (refl, tt)))),
    (
      (refl, (refl, (refl, (refl, (refl, (refl, (refl, (refl, (refl, (refl, (refl, tt))))))))))),
      (
        (refl, (refl, (refl, (refl, (refl, (refl, (refl, (refl, (refl, (refl, (refl, tt))))))))))),
        tt,
      ),
    ),
  ),
)

abbrev options : ClientOptions
options = record {
  server = codes "localhost:50051";
  instrument = [];
  min_interval_micros = 0;
  json = true;
  out_file = [];
  max_updates = pos 8;
}

options_read : parse_client_options values ≡ got options
unfolding parse_client_options text_eq ltb_ℤ neg_ℤ
options_read = refl

parse_client_options-get_int_example :
    (get_int values (codes "min-interval-us") (pos 0) ≡ got (pos 0))
    × (0 ≤ 60_000_000)
    × (get_int values (codes "max-updates") (pos 0) ≡ got (pos 8))
    × (pos 0 ≤ℤ pos 8)
    × (pos 8 ≤ℤ pos 1_000_000)
parse_client_options-get_int_example = parse_client_options-get_int values options options_read

abbrev two_venues : List VenueConfig
two_venues =
    binance (codes "BTCUSDT") (pos 5000) (codes "wss://stream.binance.com:9443/ws")
      (codes "https://api.binance.com/api/v3/depth")
    ∷ okx (codes "BTC-USDT") (codes "wss://ws.okx.com:8443/ws/v5/public")
    ∷ []
