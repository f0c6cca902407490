-- ===== src/Runner/Protocols.antt =====
-- src/venues/venue.h: the three venues' protocols as the runner uses them. The texts that ask for a
-- subscription are those of OkxProtocol and BybitProtocol; the channel, the symbol and the topic are
-- arguments, the topic as Bybit's Topic builds it.
use home_assignment.Common.{ℕ, true, false, List, [], ◌∷◌, ◌++◌}
use home_assignment.Common.Text.{codes}
use home_assignment.Json.{Json}
use home_assignment.Venues.{ok, stop}
use home_assignment.Venues.Binance
use home_assignment.Venues.Binance.{Config, PendingEvent}
use home_assignment.Venues.Okx
use home_assignment.Venues.Bybit
use home_assignment.Runner.{Protocol}

abbrev pub binance_protocol : Json → Config → Protocol
binance_protocol json config = record {
  State = Binance.State;
  reset = Binance.reset;
  on_frame = Binance.on_frame json config;
  on_rest_snapshot = Binance.on_rest_snapshot json config;
  synced = λ s. s.synced;
  needs_rest_snapshot = true;
  subscribe_frames = [];
  keepalive_frame = [];
  keepalive_interval = 0;
}

abbrev pub okx_protocol : Json → List ℕ → List ℕ → Protocol
okx_protocol json channel symbol = record {
  State = Okx.State;
  reset = Okx.reset;
  on_frame = Okx.on_frame json symbol;
  on_rest_snapshot = λ s body recv. stop ok s;
  synced = λ s. s.synced;
  needs_rest_snapshot = false;
  subscribe_frames =
      (codes "{\"op\":\"subscribe\",\"args\":[{\"channel\":\""
        ++ channel
        ++ codes "\",\"instId\":\""
        ++ symbol
        ++ codes "\"}]}")
      ∷ [];
  keepalive_frame = codes "ping";
  keepalive_interval = 20;
}

abbrev pub bybit_protocol : Json → List ℕ → Protocol
bybit_protocol json topic = record {
  State = Bybit.State;
  reset = Bybit.reset;
  on_frame = Bybit.on_frame json topic;
  on_rest_snapshot = λ s body recv. stop ok s;
  synced = λ s. s.synced;
  needs_rest_snapshot = false;
  subscribe_frames = (codes "{\"op\":\"subscribe\",\"args\":[\"" ++ topic ++ codes "\"]}") ∷ [];
  keepalive_frame = codes "{\"op\":\"ping\"}";
  keepalive_interval = 20;
}
