-- ===== src/Service.antt =====
-- src/aggregator/service.cc: what the streaming services check and which books a stream sends. A
-- request's message, and what WaitNextFor and the clock give, are arguments.
pub mod Messages
pub mod Quotes
pub mod Requests
pub mod Status
pub mod Stream
use home_assignment.Common.{
  ℕ, ◌*◌, Bool, true, false, not, ◌&&◌, List, [], ◌∷◌, ◌++◌, Option, none, some, if◌then◌else◌, ltb,
  leb,
}
use home_assignment.Common.Lists.{length}
use home_assignment.Common.Int.{ℤ, pos, ◌-ℤ◌, ltb_ℤ, leb_ℤ, eq_ℤ}
use home_assignment.Common.Sort.{sort}
use home_assignment.Common.Text.{text_eq}
use home_assignment.Engine.{ConsolidatedBook}
use home_assignment.Fixed.{scale}
use home_assignment.Analytics.{LadderView}

abbrev pub max_bands_per_request : ℕ
max_bands_per_request = 32

-- The reasons for INVALID_ARGUMENT, each with the value that its message names.
pub data Refusal : Type 0 where
  too_many : ℕ → Refusal
  not_positive : ℤ → Refusal
  duplicate : ℤ → Refusal

pub data Normalised : Type 0 where
  accepted : List ℤ → Normalised
  refused : Refusal → Normalised

-- The loop that looks for a value that is not positive.
unfoldable pub find_not_positive : List ℤ → Option ℤ
find_not_positive [] = none
find_not_positive (value ∷ values) =
    if leb_ℤ value (pos 0) then some value else find_not_positive values

-- `std::adjacent_find`.
unfoldable pub adjacent_find : List ℤ → Option ℤ
adjacent_find [] = none
adjacent_find (x ∷ []) = none
adjacent_find (x ∷ y ∷ ys) = if eq_ℤ x y then some x else adjacent_find (y ∷ ys)

abbrev pub refuse_duplicate : List ℤ → Option ℤ → Normalised
refuse_duplicate sorted none = accepted sorted
refuse_duplicate sorted (some value) = refused (duplicate value)

abbrev pub refuse_not_positive : List ℤ → Option ℤ → Normalised
refuse_not_positive requested none =
    refuse_duplicate (sort requested) (adjacent_find (sort requested))
refuse_not_positive requested (some value) = refused (not_positive value)

unfoldable pub normalise_bands : List ℤ → List ℤ → Normalised
unfolding sort find_not_positive adjacent_find
normalise_bands [] defaults = accepted defaults
normalise_bands (value ∷ values) defaults =
    let requested = value ∷ values in
    if ltb max_bands_per_request (length requested)
    then refused (too_many (length requested))
    else refuse_not_positive requested (find_not_positive requested)

-- Whether the subscription names another instrument than the server's.
unfoldable pub check_instrument : List ℕ → List ℕ → Bool
check_instrument instrument [] = true
check_instrument instrument (c ∷ cs) = text_eq (c ∷ cs) instrument

-- What a stream has sent, the newest first, each with the clock when it was sent.
pub record Sending : Type 0 where
  pub last_sequence : ℕ
  pub last_sent : Option ℤ
  pub sent : List (ConsolidatedBook × ℤ)

-- One wait: the book, if one came, whether the slot is stopped, the clock behind the wait, and
-- whether the write succeeds.
pub record Wait : Type 0 where
  pub book : Option ConsolidatedBook
  pub stopped : Bool
  pub now : ℤ
  pub writes : Bool

-- Whether the book comes too soon after the last one that was sent.
unfoldable pub too_soon : ℤ → Option ℤ → ℤ → Bool
too_soon min_interval none now = false
too_soon min_interval (some last) now = ltb_ℤ (now -ℤ last) min_interval

abbrev pub send : Sending → ConsolidatedBook → ℤ → Sending
send s book now = record s { sent = (book, now) ∷ s.sent }

-- The state before the loop; `none` means that the first write failed.
unfoldable pub begin_stream : Option ConsolidatedBook → ℤ → Bool → Option Sending
begin_stream none now writes = some (record { last_sequence = 0; last_sent = none; sent = [] })
begin_stream (some initial) now true =
    some (record {
      last_sequence = initial.sequence;
      last_sent = some now;
      sent = (initial, now) ∷ [];
    })
begin_stream (some initial) now false = none

-- What is done with a book: the state, and whether the loop goes on. A failed write sends nothing.
unfoldable pub on_book : ℤ → Sending → ConsolidatedBook → ℤ → Bool → Sending × Bool
unfolding too_soon
on_book min_interval s book now writes =
    let noted = record s { last_sequence = book.sequence } in
    let limited = ltb_ℤ (pos 0) min_interval in
    let stamped = if limited then record noted { last_sent = some now } else noted in
    if leb book.sequence s.last_sequence
    then (s, true)
    else if limited && too_soon min_interval s.last_sent now
    then (noted, true)
    else if writes
    then (send stamped book now, true)
    else (stamped, false)

-- A wait that ran out of time changes nothing.
abbrev pub on_wait : ℤ → Sending → Wait → Option ConsolidatedBook → Sending × Bool
on_wait min_interval s w none = (s, true)
on_wait min_interval s w (some book) = on_book min_interval s book w.now w.writes

-- The loop, on the waits until the call is cancelled.
unfoldable pub stream_loop : ℤ → Sending → List Wait → Sending
unfolding on_book
stream_loop min_interval s [] = s
stream_loop min_interval s (w ∷ ws) =
    let (after, going) = on_wait min_interval s w w.book in
    let rest = stream_loop min_interval after ws in
    if w.stopped then s else if going then rest else after

abbrev pub after_begin : ℤ → List Wait → Option Sending → List (ConsolidatedBook × ℤ)
after_begin min_interval waits none = []
after_begin min_interval waits (some s) = (stream_loop min_interval s waits).sent

-- RunStream on a subscription for the server's instrument: what was sent, the newest first.
unfoldable pub run_stream :
    ℤ → Option ConsolidatedBook → ℤ → Bool → List Wait → List (ConsolidatedBook × ℤ)
unfolding begin_stream stream_loop
run_stream min_interval latest now writes waits =
    after_begin min_interval waits (begin_stream latest now writes)

abbrev pub default_notional_bands : List ℤ
default_notional_bands =
    pos (1000000 * scale)
    ∷ pos (5000000 * scale)
    ∷ pos (10000000 * scale)
    ∷ pos (25000000 * scale)
    ∷ pos (50000000 * scale)
    ∷ []

abbrev pub default_bps_offsets : List ℤ
default_bps_offsets =
    pos (50 * scale)
    ∷ pos (100 * scale)
    ∷ pos (200 * scale)
    ∷ pos (500 * scale)
    ∷ pos (1000 * scale)
    ∷ []

-- MakeVolumeConfig and MakePriceConfig.
unfoldable pub volume_bands : List ℤ → Normalised
unfolding normalise_bands
volume_bands requested = normalise_bands requested default_notional_bands

unfoldable pub price_bands : List ℤ → Normalised
unfolding normalise_bands
price_bands requested = normalise_bands requested default_bps_offsets

unfoldable pub make_view : ConsolidatedBook → Bool → LadderView
make_view book bids = record { levels = if bids then book.bids else book.asks; descending = bids }
