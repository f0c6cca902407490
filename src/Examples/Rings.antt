-- ===== src/Examples/Rings.antt =====
-- A small ring, and the limits on retries.
use home_assignment.Common.{
  ℕ, ◌≤◌, ◌<◌, ◌/◌, ◌+◌, ◌^◌, List, [], ◌∷◌, ◌++◌, ◌≡◌, ◌⊎◌, refl, some, arith,
}
use home_assignment.Common.Lists.{length, take}
use home_assignment.Common.Int.{ℤ, pos}
use home_assignment.Ring
use home_assignment.Ring.{
  Event, pushes, producer_moves, pops, consumer_moves, run, start, round_up_pow2,
}
use home_assignment.Ring.Capacity.{round_up_pow2-returns}
use home_assignment.Ring.Interleaving.{run-is_queue}
use home_assignment.Ring.Sequential.{Call, put, get, queue_run, ring_run, ring_run-refines}
use home_assignment.Retry.{next, new_backoff, new_budget}
use home_assignment.Retry.Backoff
use home_assignment.Retry.Backoff.{Attempt, fails, healthy, failures, window_of, run-window_of}
use home_assignment.Retry.Budget.{IsLimited, grants, reference, grants-IsLimited-reference}

-- The indices take turns of four; the third pop finds the ring empty.
abbrev calls : List (Call ℕ)
calls = put 1 ∷ put 2 ∷ get ∷ put 3 ∷ get ∷ get ∷ get ∷ []

sequential : (ring_run (start 4) calls).popped ≡ 1 ∷ 2 ∷ 3 ∷ []
unfolding ring_run start Ring.push Ring.pop
sequential = refl

-- A pop that has seen an empty ring, while the push goes on.
abbrev interleaved : List (Event ℕ)
interleaved =
    pushes 7
    ∷ pops
    ∷ producer_moves
    ∷ consumer_moves
    ∷ producer_moves
    ∷ producer_moves
    ∷ pops
    ∷ consumer_moves
    ∷ consumer_moves
    ∷ pushes 8
    ∷ consumer_moves
    ∷ []

interleaved-popped : (run (start (2 ^ 2)) interleaved).popped ≡ 7 ∷ []
unfolding run start
interleaved-popped = refl

round_up_pow2-returns_example :
    (n : ℕ) × (round_up_pow2 64 1 1000 ≡ some (2 ^ n))
    × (n ≤ 63)
    × (1000 ≤ 2 ^ n)
    × ((n ≡ 0) ⊎ (2 ^ n < 2000))
round_up_pow2-returns_example = round_up_pow2-returns 1000 (omega arith)

run-is_queue_example :
    ((run (start (2 ^ 2)) interleaved).popped
      ≡ take
          (length (run (start (2 ^ 2)) interleaved).popped)
          (run (start (2 ^ 2)) interleaved).pushed)
    × (length (run (start (2 ^ 2)) interleaved).popped
        ≤ length (run (start (2 ^ 2)) interleaved).pushed)
    × (length (run (start (2 ^ 2)) interleaved).pushed
        ≤ length (run (start (2 ^ 2)) interleaved).popped + 2 ^ 2)
run-is_queue_example = run-is_queue 2 interleaved (omega arith)

ring_run-refines_example :
    ((ring_run (start (2 ^ 2)) calls).popped
      ≡ (queue_run (2 ^ 2) (record { waiting = []; taken = [] }) calls).taken)
    × ((ring_run (start (2 ^ 2)) calls).pushed
        ≡ (queue_run (2 ^ 2) (record { waiting = []; taken = [] }) calls).taken
          ++ (queue_run (2 ^ 2) (record { waiting = []; taken = [] }) calls).waiting)
ring_run-refines_example = ring_run-refines 2 calls (omega arith)

abbrev attempts : List Attempt
attempts = fails ∷ fails ∷ healthy ∷ fails ∷ fails ∷ fails ∷ []

-- A draw at the lower end.
abbrev lowest : ℕ → ℕ → ℕ
lowest low high = low

run-window_of_example :
    ((Backoff.run lowest (new_backoff 500 30000) attempts).current
      ≡ window_of 500 30000 (failures 0 attempts))
    × ((Backoff.run lowest (new_backoff 500 30000) attempts).current / 2
        ≤ (next lowest (Backoff.run lowest (new_backoff 500 30000) attempts)).1)
    × ((next lowest (Backoff.run lowest (new_backoff 500 30000) attempts)).1 ≤ 30000)
run-window_of_example =
    run-window_of lowest 500 30000 attempts (λ low high le. (omega arith, le)) (omega arith)

-- Two in ten units of time.
abbrev times : List ℤ
times = pos 1 ∷ pos 2 ∷ pos 3 ∷ pos 12 ∷ pos 13 ∷ []

grants-IsLimited-reference_example :
    (grants (new_budget 2 (pos 10)) [] times ≡ reference 2 (pos 10) [] times)
    × IsLimited 2 (pos 10) (grants (new_budget 2 (pos 10)) [] times)
grants-IsLimited-reference_example =
    grants-IsLimited-reference 2 (pos 10) (pos 0) times
      (omega arith, (omega arith, (omega arith, (omega arith, (omega arith, tt)))))
