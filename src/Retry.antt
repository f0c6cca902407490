-- ===== src/Retry.antt =====
-- src/core/retry.h: the wait before a reconnect, and the limit on snapshot requests. Times and
-- durations are integers of one unit; the random draw is an argument.
pub mod Backoff
pub mod Budget
use home_assignment.Common.{
  ℕ, ◌+◌, ◌*◌, ◌/◌, Bool, true, false, List, [], ◌∷◌, ◌++◌, if◌then◌else◌, ltb, leb,
}
use home_assignment.Common.Lists.{length}
use home_assignment.Common.Int.{ℤ, ◌-ℤ◌, ltb_ℤ}

pub record ExponentialBackoff : Type 0 where
  pub initial : ℕ
  pub max : ℕ
  pub current : ℕ

unfoldable pub new_backoff : ℕ → ℕ → ExponentialBackoff
new_backoff initial max = record { initial = initial; max = max; current = initial }

abbrev min : ℕ → ℕ → ℕ
min a b = if ltb b a then b else a

-- The wait; `draw low high` is what the uniform distribution gives.
unfoldable pub next : (ℕ → ℕ → ℕ) → ExponentialBackoff → ExponentialBackoff × ℕ
next draw b =
    let window = b.current in
    (record b { current = min b.max (b.current * 2) }, draw (window / 2) window)

unfoldable pub reset : ExponentialBackoff → ExponentialBackoff
reset b = record b { current = b.initial }

-- The times of the events that are still counted, the oldest first.
pub record RateBudget : Type 0 where
  pub max_events : ℕ
  pub window : ℤ
  pub events : List ℤ

unfoldable pub new_budget : ℕ → ℤ → RateBudget
new_budget max_events window = record { max_events = max_events; window = window; events = [] }

-- `while (!events_.empty() && now - events_.front() > window_) events_.pop_front();`
unfoldable pub drop_expired : ℤ → ℤ → List ℤ → List ℤ
drop_expired window now [] = []
drop_expired window now (front ∷ events) =
    if ltb_ℤ window (now -ℤ front) then drop_expired window now events else front ∷ events

unfoldable pub try_consume : ℤ → RateBudget → RateBudget × Bool
unfolding drop_expired
try_consume now b =
    let events = drop_expired b.window now b.events in
    if leb b.max_events (length events)
    then (record b { events = events }, false)
    else (record b { events = events ++ now ∷ [] }, true)
