-- ===== src/Startup/Selection.antt =====
-- src/aggregator/main.cc: the venues that BuildVenues chooses.
use home_assignment.Common.{ℕ, List, [], ◌∷◌, if◌then◌else◌}
use home_assignment.Common.Text.{codes}
use home_assignment.Flags.{is_known}
use home_assignment.Startup.{VenueConfig, binance, okx, bybit}

abbrev pub name_of : VenueConfig → List ℕ
name_of (binance symbol limit stream rest) = codes "binance"
name_of (okx symbol stream) = codes "okx"
name_of (bybit symbol stream) = codes "bybit"

-- A name, where it is requested.
abbrev pub if_requested : List ℕ → List (List ℕ) → List (List ℕ)
if_requested name requested = if is_known name requested then name ∷ [] else []
