-- ===== src/Venues.antt =====
-- src/venues/venue.h: what a venue protocol takes and returns. A protocol is a state and functions
-- on it; `out` is the list of the updates that a call appends. The staging vector of a protocol is
-- cleared before each use, so it is a local value here. Names and URLs
-- are left out; the texts for subscribing and keeping alive stand in Runner/Protocols.
pub mod Binance
pub mod Okx
pub mod Bybit
use home_assignment.Common.{
  ℕ, Bool, true, false, not, List, [], ◌≡◌, ◌≢◌, refl, if◌then◌else◌, Option, none, some,
}
use home_assignment.Common.Text.{text_eq}
use home_assignment.Common.Int.{ℤ, pos, ◌*ℤ◌}
use home_assignment.Book.{Level}

pub record FeedUpdate : Type 0 where
  pub is_snapshot : Bool
  pub bids : List Level
  pub asks : List Level
  pub exchange_ts_ns : ℤ
  pub recv_ts_ns : ℤ

pub data FrameVerdict : Type 0 where
  ok needs_resync parse_error fatal : FrameVerdict

-- The result of a call: the verdict, the protocol's new state, and the updates appended.
pub record Outcome {ℓ} (S : Type ℓ) : Type ℓ where
  pub verdict : FrameVerdict
  pub state : S
  pub out : List FeedUpdate

abbrev pub stop {ℓ} : {S : Type ℓ} → FrameVerdict → S → Outcome S
stop verdict s = record { verdict = verdict; state = s; out = [] }

-- A time in milliseconds that a venue may have sent, in nanoseconds.
abbrev pub ms_to_ns : Option ℤ → ℤ
ms_to_ns none = pos 0
ms_to_ns (some ms) = ms *ℤ pos 1_000_000

-- A text that is there and differs.
abbrev pub is_other : Option (List ℕ) → List ℕ → Bool
is_other none wanted = false
is_other (some text) wanted = not (text_eq text wanted)

-- A failed call appends no update, as the runner relies on.
abbrev pub Staged {ℓ} : {S : Type ℓ} → Outcome S → Type 0
Staged o = o.verdict ≢ ok → o.out ≡ []

pub Staged-stop {ℓ} : {S : Type ℓ} (v : FrameVerdict) (s : S) → Staged (stop v s)
Staged-stop v s h = refl

pub Staged-if {ℓ} :
    {S : Type ℓ} (b : Bool) (m n : Outcome S) → Staged m → Staged n → Staged (if b then m else n)
Staged-if true m n h k = h
Staged-if false m n h k = k
