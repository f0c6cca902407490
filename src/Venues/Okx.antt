-- ===== src/Venues/Okx.antt =====
-- src/venues/okx.h and src/venues/okx.cc: a snapshot over the socket, then updates that name the
-- sequence number before them. A rejected subscription's message is kept as `fatal_reason`.
pub mod Sequence
pub mod Staging
use home_assignment.Common.{
  ℕ, Bool, true, false, not, ◌&&◌, ◌||◌, List, [], ◌∷◌, Option, none, some, if◌then◌else◌,
}
use home_assignment.Common.Text.{codes, text_eq}
use home_assignment.Common.Int.{ℤ, pos, eq_ℤ}
use home_assignment.Book.{Level}
use home_assignment.Json.{Json, get_string, get_i64, parse_level_array, ◌>>=◌}
use home_assignment.Venues.{
  FeedUpdate, FrameVerdict, ok, needs_resync, parse_error, fatal, Outcome, stop, ms_to_ns, is_other,
}

pub record State : Type 0 where
  pub last_seq_id : ℤ
  pub has_seq : Bool
  pub synced : Bool
  pub fatal_reason : List ℕ

unfoldable pub reset : State → State
reset s = record s { last_seq_id = pos 0; has_seq = false; synced = false }

-- Where the loop over a frame's entries stands: it stopped with a verdict, or it has staged
-- updates and the sequence number of the next frame.
pub data Batch : Type 0 where
  failed : FrameVerdict → Batch
  staged : List FeedUpdate → ℤ → Bool → Batch

abbrev pub with_update : FeedUpdate → Batch → Batch
with_update update (failed verdict) = failed verdict
with_update update (staged updates seq has) = staged (update ∷ updates) seq has

-- What the sequence numbers of an entry call for.
pub data Check : Type 0 where
  refuse : FrameVerdict → Check
  unchanged : Check
  take : ℤ → Check

-- For an update the previous number must be there and be the one expected, before a repeated
-- number is passed over.
unfoldable pub check_prev : Bool → ℤ → Bool → ℤ → Option ℤ → Check
check_prev synced next has seq none = refuse parse_error
check_prev synced next has seq (some prev) =
    if not synced || not has
    then refuse needs_resync
    else if not (eq_ℤ prev next)
    then refuse needs_resync
    else if eq_ℤ prev seq
    then unchanged
    else take seq

module _ (json : Json) (symbol : List ℕ) where
  open json use {Element, parse, at_key, array_of}

  -- The update of one entry; `none` is a parse error.
  unfoldable pub update_of : Bool → ℤ → Element → Option FeedUpdate
  update_of is_snapshot recv entry = do
    bids ← parse_level_array json (at_key entry (codes "bids"))
    asks ← parse_level_array json (at_key entry (codes "asks"))
    some (record {
      is_snapshot = is_snapshot;
      bids = bids;
      asks = asks;
      exchange_ts_ns = ms_to_ns (get_i64 json (at_key entry (codes "ts")));
      recv_ts_ns = recv;
    })

  unfoldable pub check_seq : Bool → Bool → ℤ → Bool → Element → Option ℤ → Check
  unfolding check_prev
  check_seq is_snapshot synced next has entry none = refuse parse_error
  check_seq is_snapshot synced next has entry (some seq) =
      if is_snapshot
      then take seq
      else check_prev synced next has seq (get_i64 json (at_key entry (codes "prevSeqId")))

  abbrev pub parsed_entry : Option FeedUpdate → Batch → Batch
  parsed_entry none rest = failed parse_error
  parsed_entry (some update) rest = with_update update rest

  -- What is done with an entry, with the rest of the loop for each case.
  abbrev pub after_check : Check → Option FeedUpdate → Batch → (ℤ → Batch) → Batch
  after_check (refuse verdict) update skip next = failed verdict
  after_check unchanged update skip next = skip
  after_check (take seq) update skip next = parsed_entry update (next seq)

  -- The loop over the entries of `data`.
  unfoldable pub entry_loop : Bool → Bool → ℤ → ℤ → Bool → List Element → Batch
  unfolding check_seq update_of
  entry_loop is_snapshot synced recv next has [] = staged [] next has
  entry_loop is_snapshot synced recv next has (entry ∷ entries) =
      let seq = get_i64 json (at_key entry (codes "seqId")) in
      after_check (check_seq is_snapshot synced next has entry seq)
        (update_of is_snapshot recv entry) (entry_loop is_snapshot synced recv next has entries)
        (λ seq. entry_loop is_snapshot synced recv seq true entries)

  unfoldable pub commit : State → Bool → Batch → Outcome State
  commit s is_snapshot (failed verdict) = stop verdict s
  commit s is_snapshot (staged updates seq has) = record {
    verdict = ok;
    state = record s { last_seq_id = seq; has_seq = has; synced = is_snapshot || s.synced };
    out = updates;
  }

  abbrev pub data_frame : State → ℤ → Bool → Option (List Element) → Outcome State
  data_frame s recv is_snapshot none = stop parse_error s
  data_frame s recv is_snapshot (some entries) =
      commit s is_snapshot (entry_loop is_snapshot s.synced recv s.last_seq_id s.has_seq entries)

  -- A frame with an action, once its kind is known.
  abbrev pub action_frame : State → ℤ → Element → Option (List ℕ) → Outcome State
  action_frame s recv root none = stop ok s
  action_frame s recv root (some action) =
      let is_snapshot = text_eq action (codes "snapshot") in
      let instrument =
        get_string json (at_key root (codes "arg") >>= λ arg. at_key arg (codes "instId")) in
      if not is_snapshot && not (text_eq action (codes "update"))
      then stop ok s
      else if is_other instrument symbol
      then stop ok s
      else data_frame s recv is_snapshot (at_key root (codes "data") >>= array_of)

  abbrev pub reason_or_default : Option (List ℕ) → List ℕ
  reason_or_default none = codes "okx rejected the subscription"
  reason_or_default (some message) = message

  abbrev pub event_frame : State → Element → List ℕ → Outcome State
  event_frame s root event =
      if not (text_eq event (codes "error"))
      then stop ok s
      else stop fatal (record s {
        fatal_reason = reason_or_default (get_string json (at_key root (codes "msg")));
      })

  abbrev pub root_frame : State → ℤ → Element → Option (List ℕ) → Outcome State
  root_frame s recv root none =
      action_frame s recv root (get_string json (at_key root (codes "action")))
  root_frame s recv root (some event) = event_frame s root event

  abbrev pub parsed_frame : State → ℤ → Option Element → Outcome State
  parsed_frame s recv none = stop parse_error s
  parsed_frame s recv (some root) =
      root_frame s recv root (get_string json (at_key root (codes "event")))

  unfoldable pub on_frame : State → List ℕ → ℤ → Outcome State
  unfolding entry_loop commit
  on_frame s frame recv =
      if text_eq frame (codes "pong") then stop ok s else parsed_frame s recv (parse frame)
