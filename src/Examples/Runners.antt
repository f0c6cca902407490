-- ===== src/Examples/Runners.antt =====
-- A runner of the Bybit protocol, over the documents of the feeds.
use home_assignment.Common.{ℕ, Bool, true, false, List, [], ◌∷◌, ◌≡◌, refl, ◌||◌}
use home_assignment.Common.Int.{pos}
use home_assignment.Common.Text.{codes}
use home_assignment.Json.{Json}
use home_assignment.Venues.Bybit
use home_assignment.Runner.{
  is_live, Protocol, Options, Answers, Event, opened, frame_comes, closed, run, start,
}
use home_assignment.Runner.Protocols.{bybit_protocol}
use home_assignment.Runner.Laws.{bybit_protocol-ProtocolLaws}
use home_assignment.Runner.Safety.{is_down, IsSound}
use home_assignment.Runner.Runs.{run-IsSound, run-live, run-waits}
use home_assignment.Examples.Feeds.{Doc, str, int, obj, end, field, reads, levels_doc, methods}

abbrev snapshot_doc : Doc
snapshot_doc = obj (
    field (codes "topic") (str (codes "t")) (
      field (codes "type") (str (codes "snapshot")) (
        field (codes "data")
          (obj (
            field (codes "u") (int (pos 7))
              (field (codes "b") levels_doc (field (codes "a") levels_doc end))))
          end)))

abbrev pub json : Json
json = reads snapshot_doc

abbrev pub bybit : Protocol
bybit = bybit_protocol json (codes "t")

abbrev pub options : Options
options = record {
  reconnect_initial = 500;
  reconnect_max = 30_000;
  max_resyncs_per_minute = 6;
  silence_timeout = pos 30_000;
}

abbrev pub fresh : Bybit.State
fresh = record { last_update_id = pos 0; synced = false; fatal_reason = [] }

abbrev pub answers : Bool → Answers
answers room = record { now = pos 1; room = room; tells = false }

abbrev pub draw : ℕ → ℕ → ℕ
draw low high = high

-- A snapshot that the ring takes.
abbrev goes_live : List (Event × Answers)
goes_live = (opened, answers true) ∷ (frame_comes [], answers true) ∷ []

-- The ring refuses the next batch, and the connection ends.
abbrev goes_down : List (Event × Answers)
goes_down =
    (opened, answers true)
    ∷ (frame_comes [], answers true)
    ∷ (frame_comes [], answers false)
    ∷ (closed 1, answers true)
    ∷ []

is_live_now :
    is_live (run bybit draw goes_live (start bybit draw options (answers true) fresh)).state ≡ true
unfolding methods run start
is_live_now = refl

is_down_now :
    is_down (run bybit draw goes_down (start bybit draw options (answers true) fresh)).state ≡ true
unfolding methods run start Bybit.reset
is_down_now = refl

goes_on :
    (run bybit draw goes_down (start bybit draw options (answers true) fresh)).stopping
      || (run bybit draw goes_down (start bybit draw options (answers true) fresh)).failed
    ≡ false
unfolding methods run start Bybit.reset
goes_on = refl

run-IsSound_example :
    IsSound (run bybit draw goes_down (start bybit draw options (answers true) fresh)).log
run-IsSound_example =
    run-IsSound bybit draw (bybit_protocol-ProtocolLaws json (codes "t")) options (answers true)
      fresh goes_down

run-live_example :
    bybit.synced (run bybit draw goes_live (start bybit draw options (answers true) fresh)).protocol
    ≡ true
run-live_example =
    run-live bybit draw (bybit_protocol-ProtocolLaws json (codes "t")) options (answers true) fresh
      goes_live is_live_now

run-waits_example :
    (run bybit draw goes_down (start bybit draw options (answers true) fresh)).reconnect_waits
    ≡ true
run-waits_example =
    run-waits bybit draw (bybit_protocol-ProtocolLaws json (codes "t")) options (answers true) fresh
      goes_down is_down_now goes_on
