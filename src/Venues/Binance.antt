-- ===== src/Venues/Binance.antt =====
-- src/venues/binance.h and src/venues/binance.cc: a REST snapshot amended by the diff stream.
pub mod Sequence
pub mod Staging
use home_assignment.Common.{
  ℕ, Bool, true, false, not, ◌&&◌, List, [], ◌∷◌, ◌++◌, Option, none, some, if◌then◌else◌, leb,
}
use home_assignment.Common.Lists.{length}
use home_assignment.Common.Text.{codes, text_eq}
use home_assignment.Common.Int.{ℤ, pos, ◌+ℤ◌, leb_ℤ, eq_ℤ}
use home_assignment.Book.{Level}
use home_assignment.Json.{Json, get_string, get_i64, parse_level_array, ◌>>=◌}
use home_assignment.Venues.{
  FeedUpdate, FrameVerdict, ok, needs_resync, parse_error, Outcome, stop, ms_to_ns, is_other,
}

pub record PendingEvent : Type 0 where
  pub first_id : ℤ
  pub final_id : ℤ
  pub exchange_ts_ns : ℤ
  pub bids : List Level
  pub asks : List Level

pub record Config : Type 0 where
  pub symbol : List ℕ
  pub max_buffered_events : ℕ

pub record State : Type 0 where
  pub buffered : List PendingEvent
  pub last_update_id : ℤ
  pub synced : Bool

unfoldable pub reset : State → State
reset s = record { buffered = []; last_update_id = pos 0; synced = false }

-- The update that a diff event turns into.
unfoldable pub update_of : ℤ → PendingEvent → FeedUpdate
update_of recv event = record {
  is_snapshot = false;
  bids = event.bids;
  asks = event.asks;
  exchange_ts_ns = event.exchange_ts_ns;
  recv_ts_ns = recv;
}

-- OnFrame behind the parsing: hold the event, or check that it continues the stream.
unfoldable pub on_event : Config → State → ℤ → PendingEvent → Outcome State
unfolding update_of
on_event config s recv event =
    if not s.synced
    then (if leb config.max_buffered_events (length s.buffered)
        then stop needs_resync (record s { buffered = [] })
        else stop ok (record s { buffered = s.buffered ++ event ∷ [] }))
    else if not (eq_ℤ event.first_id (s.last_update_id +ℤ pos 1))
    then stop needs_resync s
    else record {
      verdict = ok;
      state = record s { last_update_id = event.final_id };
      out = update_of recv event ∷ [];
    }

-- Events that the snapshot already reflects.
unfoldable pub drop_old : ℤ → List PendingEvent → List PendingEvent
drop_old id [] = []
drop_old id (e ∷ es) = if leb_ℤ e.final_id id then drop_old id es else e ∷ es

-- U <= id + 1 <= u for the first event that is left, if there is one.
unfoldable pub straddles : ℤ → List PendingEvent → Bool
straddles id [] = true
straddles id (e ∷ es) = leb_ℤ e.first_id (id +ℤ pos 1) && leb_ℤ (id +ℤ pos 1) e.final_id

abbrev pub staged : FeedUpdate → Option (List FeedUpdate × ℤ) → Option (List FeedUpdate × ℤ)
staged update none = none
staged update (some (updates, applied)) = some (update ∷ updates, applied)

-- The loop over the buffer: the updates staged and the last id, or `none` at a gap.
unfoldable pub replay : Bool → ℤ → ℤ → List PendingEvent → Option (List FeedUpdate × ℤ)
unfolding update_of
replay first applied recv [] = some ([], applied)
replay first applied recv (e ∷ es) =
    let rest = staged (update_of recv e) (replay false e.final_id recv es) in
    if not first && not (eq_ℤ e.first_id (applied +ℤ pos 1)) then none else rest

abbrev pub give_up : State → Outcome State
give_up s = stop needs_resync (record s { buffered = [] })

abbrev pub replayed : State → FeedUpdate → Option (List FeedUpdate × ℤ) → Outcome State
replayed s snapshot none = give_up s
replayed s snapshot (some (updates, applied)) = record {
  verdict = ok;
  state = record { buffered = []; last_update_id = applied; synced = true };
  out = snapshot ∷ updates;
}

-- OnRestSnapshot behind the parsing. On failure the dropped events are gone as well.
unfoldable pub reconcile : State → ℤ → ℤ → FeedUpdate → Outcome State
unfolding drop_old straddles replay
reconcile s id recv snapshot =
    let left = drop_old id s.buffered in
    if straddles id left then replayed s snapshot (replay true id recv left) else give_up s

module _ (json : Json) (config : Config) where
  open json use {Element, parse, at_key}

  -- The five fields of a diff event; only its time may be missing.
  unfoldable pub parse_depth_event : Element → Option PendingEvent
  parse_depth_event root = do
    first ← get_i64 json (at_key root (codes "U"))
    final ← get_i64 json (at_key root (codes "u"))
    bids ← parse_level_array json (at_key root (codes "b"))
    asks ← parse_level_array json (at_key root (codes "a"))
    some (record {
      first_id = first;
      final_id = final;
      exchange_ts_ns = ms_to_ns (get_i64 json (at_key root (codes "E")));
      bids = bids;
      asks = asks;
    })

  abbrev pub parsed_event : State → ℤ → Option PendingEvent → Outcome State
  parsed_event s recv none = stop parse_error s
  parsed_event s recv (some event) = on_event config s recv event

  abbrev pub typed_frame : State → ℤ → Element → Option (List ℕ) → Outcome State
  typed_frame s recv root none = stop ok s
  typed_frame s recv root (some event_type) =
      if not (text_eq event_type (codes "depthUpdate"))
      then stop ok s
      else if is_other (get_string json (at_key root (codes "s"))) config.symbol
      then stop ok s
      else parsed_event s recv (parse_depth_event root)

  abbrev pub parsed_frame : State → ℤ → Option Element → Outcome State
  parsed_frame s recv none = stop parse_error s
  parsed_frame s recv (some root) =
      typed_frame s recv root (get_string json (at_key root (codes "e")))

  unfoldable pub on_frame : State → List ℕ → ℤ → Outcome State
  unfolding parse_depth_event on_event
  on_frame s frame recv = parsed_frame s recv (parse frame)

  -- The id, and the snapshot as an update.
  unfoldable pub parse_snapshot : ℤ → List ℕ → Option (ℤ × FeedUpdate)
  parse_snapshot recv body = do
    root ← parse body
    id ← get_i64 json (at_key root (codes "lastUpdateId"))
    bids ← parse_level_array json (at_key root (codes "bids"))
    asks ← parse_level_array json (at_key root (codes "asks"))
    some (
      id,
      record {
        is_snapshot = true;
        bids = bids;
        asks = asks;
        exchange_ts_ns = pos 0;
        recv_ts_ns = recv;
      },
    )

  abbrev pub parsed_snapshot : State → ℤ → Option (ℤ × FeedUpdate) → Outcome State
  parsed_snapshot s recv none = stop parse_error s
  parsed_snapshot s recv (some (id, snapshot)) = reconcile s id recv snapshot

  unfoldable pub on_rest_snapshot : State → List ℕ → ℤ → Outcome State
  unfolding parse_snapshot reconcile
  on_rest_snapshot s body recv = parsed_snapshot s recv (parse_snapshot recv body)
