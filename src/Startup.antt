-- ===== src/Startup.antt =====
-- src/aggregator/main.cc: BuildVenues, which chooses the venues that the command line names. The ring
-- and the runner that each venue gets are left out: the result is the list of the protocols'
-- configurations, with the defaults of src/venues/binance.h, okx.h and bybit.h.
pub mod Selection
use home_assignment.Common.{
  ℕ, ◌+◌, Bool, true, false, List, [], ◌∷◌, ◌++◌, Option, none, some, if◌then◌else◌, ◌==◌, leb,
}
use home_assignment.Common.Int.{ℤ, pos}
use home_assignment.Common.Lists.{length}
use home_assignment.Common.Text.{codes, text_eq}
use home_assignment.Flags.{
  unknown_venue, too_many_venues, no_venues, Checked, got, fails, and_then, Values, is_known, get,
  get_int_between,
}
use home_assignment.Flags.Clients.{push_item}

pub data VenueConfig : Type 0 where
  binance : List ℕ → ℤ → List ℕ → List ℕ → VenueConfig
  okx bybit : List ℕ → List ℕ → VenueConfig

abbrev pub max_venues : ℕ
max_venues = 3

-- The names that std::getline cuts out between the commas, but for the empty ones.
unfoldable pub names_from : List ℕ → List ℕ → List (List ℕ)
names_from name [] = push_item name []
names_from name (c ∷ cs) =
    let same = names_from (name ++ c ∷ []) cs in
    if c == b',' then push_item name (names_from [] cs) else same

unfoldable pub requested_of : Values → List (List ℕ)
unfolding get names_from
requested_of values = names_from [] (get values (codes "venues") (codes "binance,okx,bybit"))

abbrev pub known_venues : List (List ℕ)
known_venues = codes "binance" ∷ codes "okx" ∷ codes "bybit" ∷ []

-- The first name that is not known.
unfoldable pub unknown_of : List (List ℕ) → Option (List ℕ)
unfolding is_known
unknown_of [] = none
unknown_of (name ∷ names) = if is_known name known_venues then unknown_of names else some name

unfoldable pub add_venue : VenueConfig → List VenueConfig → Checked (List VenueConfig)
add_venue venue venues =
    if leb max_venues (length venues)
    then fails (too_many_venues (length venues + 1))
    else got (venues ++ venue ∷ [])

module _ (values : Values) (instrument : List ℕ) (requested : List (List ℕ)) where
  abbrev pub with_limit : List VenueConfig → ℤ → Checked (List VenueConfig)
  with_limit venues limit =
      add_venue
        (binance instrument limit
          (get values (codes "binance-ws") (codes "wss://stream.binance.com:9443/ws"))
          (get values (codes "binance-rest") (codes "https://api.binance.com/api/v3/depth")))
        venues

  abbrev pub snapshot_limit : Checked ℤ
  snapshot_limit = get_int_between values (codes "snapshot-limit") (pos 5000) (pos 1) (pos 5000)

  unfoldable pub add_binance : List VenueConfig → Checked (List VenueConfig)
  unfolding is_known get get_int_between add_venue
  add_binance venues =
      if is_known (codes "binance") requested
      then and_then snapshot_limit (with_limit venues)
      else got venues

  -- OKX writes the instrument with a dash.
  unfoldable pub add_okx : List VenueConfig → Checked (List VenueConfig)
  unfolding is_known get add_venue
  add_okx venues =
      if is_known (codes "okx") requested
      then add_venue
          (okx
            (get values (codes "okx-symbol")
              (if text_eq instrument (codes "BTCUSDT") then codes "BTC-USDT" else instrument))
            (get values (codes "okx-ws") (codes "wss://ws.okx.com:8443/ws/v5/public")))
          venues
      else got venues

  unfoldable pub add_bybit : List VenueConfig → Checked (List VenueConfig)
  unfolding is_known get add_venue
  add_bybit venues =
      if is_known (codes "bybit") requested
      then add_venue
          (bybit instrument
            (get values (codes "bybit-ws") (codes "wss://stream.bybit.com/v5/public/spot")))
          venues
      else got venues

  abbrev pub at_least_one : List VenueConfig → Checked (List VenueConfig)
  at_least_one [] = fails no_venues
  at_least_one (venue ∷ venues) = got (venue ∷ venues)

  abbrev pub then_bybit : List VenueConfig → Checked (List VenueConfig)
  then_bybit venues = and_then (add_bybit venues) at_least_one

  abbrev pub then_okx : List VenueConfig → Checked (List VenueConfig)
  then_okx venues = and_then (add_okx venues) then_bybit

  abbrev pub add_all : Option (List ℕ) → Checked (List VenueConfig)
  add_all none = and_then (add_binance []) then_okx
  add_all (some name) = fails (unknown_venue name)

unfoldable pub build_venues : Values → List ℕ → Checked (List VenueConfig)
unfolding requested_of unknown_of add_binance add_okx add_bybit
build_venues values instrument =
    let requested = requested_of values in
    add_all values instrument requested (unknown_of requested)
