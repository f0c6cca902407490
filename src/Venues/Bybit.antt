-- ===== src/Venues/Bybit.antt =====
-- src/venues/bybit.h and src/venues/bybit.cc: a snapshot over the socket, then deltas numbered by
-- one. A snapshot in the middle of the stream replaces the book and restarts the numbering.
pub mod Sequence
use home_assignment.Common.{
  ℕ, Bool, true, false, not, ◌&&◌, ◌||◌, List, [], ◌∷◌, Option, none, some, if◌then◌else◌,
}
use home_assignment.Common.Text.{codes, text_eq}
use home_assignment.Common.Int.{ℤ, pos, ◌+ℤ◌, eq_ℤ}
use home_assignment.Json.{Json, get_string, get_i64, parse_level_array, ◌>>=◌}
use home_assignment.Venues.{
  FeedUpdate, FrameVerdict, ok, needs_resync, parse_error, fatal, Outcome, stop, ms_to_ns,
}

pub record State : Type 0 where
  pub last_update_id : ℤ
  pub synced : Bool
  pub fatal_reason : List ℕ

unfoldable pub reset : State → State
reset s = record s { last_update_id = pos 0; synced = false }

-- The sequence check and the result, once the whole frame is read.
unfoldable pub on_update : State → ℤ → Option FeedUpdate → Bool → Outcome State
on_update s id update is_snapshot =
    if not is_snapshot && (not s.synced || not (eq_ℤ id (s.last_update_id +ℤ pos 1)))
    then stop needs_resync s
    else elim update [
      | none ↦ stop parse_error s
      | some u ↦ record {
        verdict = ok;
        state = record s { last_update_id = id; synced = is_snapshot || s.synced };
        out = u ∷ [];
      }
    ]

module _ (json : Json) (topic : List ℕ) where
  open json use {Element, parse, at_key, bool_of}

  unfoldable pub update_of : Bool → ℤ → Element → Element → Option FeedUpdate
  update_of is_snapshot recv root body = do
    bids ← parse_level_array json (at_key body (codes "b"))
    asks ← parse_level_array json (at_key body (codes "a"))
    some (record {
      is_snapshot = is_snapshot;
      bids = bids;
      asks = asks;
      exchange_ts_ns = ms_to_ns (get_i64 json (at_key root (codes "ts")));
      recv_ts_ns = recv;
    })

  abbrev pub numbered_frame : State → ℤ → Bool → Element → Element → Option ℤ → Outcome State
  numbered_frame s recv is_snapshot root body none = stop parse_error s
  numbered_frame s recv is_snapshot root body (some id) =
      on_update s id (update_of is_snapshot recv root body) is_snapshot

  abbrev pub body_frame : State → ℤ → Bool → Element → Option Element → Outcome State
  body_frame s recv is_snapshot root none = stop parse_error s
  body_frame s recv is_snapshot root (some body) =
      numbered_frame s recv is_snapshot root body (get_i64 json (at_key body (codes "u")))

  abbrev pub typed_frame : State → ℤ → Element → Option (List ℕ) → Outcome State
  typed_frame s recv root none = stop parse_error s
  typed_frame s recv root (some kind) =
      let is_snapshot = text_eq kind (codes "snapshot") in
      if not is_snapshot && not (text_eq kind (codes "delta"))
      then stop ok s
      else body_frame s recv is_snapshot root (at_key root (codes "data"))

  abbrev pub reason_or_default : Option (List ℕ) → List ℕ
  reason_or_default none = codes "bybit rejected the subscription"
  reason_or_default (some message) = message

  -- A frame with no topic acknowledges; `success` that is false is a rejected subscription.
  abbrev pub acknowledgement : State → Element → Option Bool → Outcome State
  acknowledgement s root none = stop ok s
  acknowledgement s root (some true) = stop ok s
  acknowledgement s root (some false) = stop fatal (record s {
    fatal_reason = reason_or_default (get_string json (at_key root (codes "ret_msg")));
  })

  abbrev pub topic_frame : State → ℤ → Element → Option (List ℕ) → Outcome State
  topic_frame s recv root none = acknowledgement s root (at_key root (codes "success") >>= bool_of)
  topic_frame s recv root (some name) =
      if not (text_eq name topic)
      then stop ok s
      else typed_frame s recv root (get_string json (at_key root (codes "type")))

  abbrev pub parsed_frame : State → ℤ → Option Element → Outcome State
  parsed_frame s recv none = stop parse_error s
  parsed_frame s recv (some root) =
      topic_frame s recv root (get_string json (at_key root (codes "topic")))

  unfoldable pub on_frame : State → List ℕ → ℤ → Outcome State
  unfolding update_of on_update
  on_frame s frame recv = parsed_frame s recv (parse frame)
