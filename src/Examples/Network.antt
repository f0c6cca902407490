-- ===== src/Examples/Network.antt =====
-- Addresses, and a connection's life.
use home_assignment.Common.{true, List, [], ◌∷◌, ◌++◌, ◌≡◌, refl, none, some, inl}
use home_assignment.Common.Text.{codes, text_eq}
use home_assignment.WsClient.{
  stream_truncated, sends, closes, Event, resolved, connected, secured, upgraded, wrote, has_read,
  calls, open_url, run, new_connection,
}
use home_assignment.WsClient.Safety.{IsOrderly, told, written, queued, rest_of}
use home_assignment.WsClient.Runs.{run-IsOrderly, run-in_order}
use home_assignment.Url.{wss, parse_url}
use home_assignment.Url.Print.{Address, print_url, url_of, parse_url-print_url}

-- wss://[::1]/ws/v5
abbrev local : Address
local = record {
  scheme = wss;
  bracketed = true;
  host = codes "::1";
  port = none;
  target = some (codes "ws/v5");
}

no_host : parse_url (codes "https://:443/") ≡ none
unfolding parse_url
no_host = refl

parse_url-print_url_example : parse_url (print_url local) ≡ some (url_of local)
parse_url-print_url_example =
    parse_url-print_url local (inl refl) ((refl, (refl, (refl, tt))), (refl, (refl, (refl, tt)))) tt

-- The owner subscribes when the connection opens, and sends again while the write is under way.
abbrev working : List Event
working =
    resolved none
    ∷ connected none none
    ∷ secured none
    ∷ upgraded none (sends (1 ∷ []) ∷ [])
    ∷ calls (sends (2 ∷ []))
    ∷ has_read none (7 ∷ []) []
    ∷ wrote none
    ∷ []

-- It closes while a write is under way, and the peer hangs up.
abbrev life : List Event
life = working ++ calls closes ∷ wrote none ∷ has_read (some stream_truncated) [] [] ∷ []

working-written :
    written (run working (open_url (codes "wss://h/") new_connection)).log
    ≡ (1 ∷ []) ∷ (2 ∷ []) ∷ []
unfolding run open_url new_connection parse_url text_eq
working-written = refl

still_open : told (run working (open_url (codes "wss://h/") new_connection)).log ≡ 0
unfolding run open_url new_connection parse_url text_eq
still_open = refl

run-IsOrderly_example : IsOrderly (run life (open_url (codes "wss://h/") new_connection)).log
run-IsOrderly_example = run-IsOrderly (codes "wss://h/") life

run-in_order_example :
    written (run working (open_url (codes "wss://h/") new_connection)).log
      ++ rest_of
          (run working (open_url (codes "wss://h/") new_connection)).writing
          (run working (open_url (codes "wss://h/") new_connection)).write_queue
    ≡ queued (run working (open_url (codes "wss://h/") new_connection)).log
run-in_order_example = run-in_order (codes "wss://h/") working still_open
