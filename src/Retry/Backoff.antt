-- ===== src/Retry/Backoff.antt =====
-- The windows of the backoff after any number of failures.
use home_assignment.Common.{
  ℕ, suc, ◌*◌, ◌/◌, ◌^◌, ◌≤◌, List, [], ◌∷◌, ◌≡◌, arith, if◌then◌else◌, ltb,
}
use home_assignment.Retry.{ExponentialBackoff, new_backoff, next, reset}

-- What happens to a connection: it fails and waits, or it works.
pub data Attempt : Type 0 where
  fails healthy : Attempt

unfoldable pub run : (ℕ → ℕ → ℕ) → ExponentialBackoff → List Attempt → ExponentialBackoff
unfolding next reset
run draw b [] = b
run draw b (fails ∷ rest) = run draw (next draw b).0 rest
run draw b (healthy ∷ rest) = run draw (reset b) rest

-- The failures since the connection last worked, on top of those before.
unfoldable pub failures : ℕ → List Attempt → ℕ
failures n [] = n
failures n (fails ∷ rest) = failures (suc n) rest
failures n (healthy ∷ rest) = failures 0 rest

-- The window of the n-th attempt: it doubles up to the largest one.
abbrev pub window_of : ℕ → ℕ → ℕ → ℕ
window_of initial max n = if ltb (initial * 2 ^ n) max then initial * 2 ^ n else max

double : (initial n : ℕ) → initial * 2 ^ suc n ≡ initial * 2 ^ n * 2
double initial n = grind arith

module _ (draw : ℕ → ℕ → ℕ) where
  run-window :
      (b : ExponentialBackoff) (n : ℕ) (attempts : List Attempt)
      → b.initial ≤ b.max
      → b.current ≡ window_of b.initial b.max n
      → (run draw b attempts).current ≡ window_of b.initial b.max (failures n attempts)
  unfolding run failures next reset
  run-window b n [] le h = h
  run-window b n (fails ∷ rest) le h =
      run-window (next draw b).0 (suc n) rest le (ground (arith, double b.initial n, h))
  run-window b n (healthy ∷ rest) le h = run-window (reset b) 0 rest le (ground arith)

-- After any failures and successes the window is the first one, doubled for each failure since the
-- connection last worked, and the largest one from where it would be larger; and a wait that the
-- draw puts between half the window and the window is at most the largest one.
pub run-window_of :
    (draw : ℕ → ℕ → ℕ) (initial max : ℕ) (attempts : List Attempt)
    → ((low high : ℕ) → low ≤ high → (low ≤ draw low high) × (draw low high ≤ high))
    → initial ≤ max
    → let b = run draw (new_backoff initial max) attempts in
      (b.current ≡ window_of initial max (failures 0 attempts))
      × (b.current / 2 ≤ (next draw b).1)
      × ((next draw b).1 ≤ max)
unfolding new_backoff next
run-window_of draw initial max attempts uniform le =
    let b = run draw (new_backoff initial max) attempts in
    let is = run-window draw (new_backoff initial max) 0 attempts le (ground arith) in
    (
      is,
      (uniform (b.current / 2) b.current (omega arith)).0,
      ground (arith, is, uniform (b.current / 2) b.current (omega arith)),
    )
