-- ===== src/Examples/Streams.antt =====
-- Requests and a throttled stream.
use home_assignment.Common.{ℕ, ◌≤◌, ◌*◌, true, false, List, [], ◌∷◌, map, ◌≡◌, refl, some, arith}
use home_assignment.Common.Lists.{length}
use home_assignment.Common.Int.{ℤ, pos, ◌≤ℤ◌, ◌-ℤ◌, leb_ℤ, ltb_ℤ, eq_ℤ}
use home_assignment.Fixed.{scale}
use home_assignment.Analytics.Drain.{Ascending}
use home_assignment.Engine.{ConsolidatedBook}
use home_assignment.Service.{
  Wait, accepted, refused, duplicate, normalise_bands, max_bands_per_request, volume_bands,
  default_notional_bands, run_stream,
}
use home_assignment.Service.Requests.{IsBands, IsAnswer, normalise_bands-IsBands}
use home_assignment.Service.Stream.{IsPaced, run_stream-IsPaced}

methods : Unit {0}
unfolding leb_ℤ ltb_ℤ eq_ℤ ◌-ℤ◌ normalise_bands volume_bands run_stream
methods = tt

sorted_request :
    normalise_bands (pos 7 ∷ pos 3 ∷ []) default_notional_bands ≡ accepted (pos 3 ∷ pos 7 ∷ [])
unfolding methods
sorted_request = refl

repeated_request : normalise_bands (pos 7 ∷ pos 7 ∷ []) [] ≡ refused (duplicate (pos 7))
unfolding methods
repeated_request = refl

normalise_bands-IsBands_example :
    ((requested out : List ℤ)
      → normalise_bands requested default_notional_bands ≡ accepted out
      → IsBands out × Ascending ◌≤ℤ◌ out × IsAnswer requested default_notional_bands out)
    × (normalise_bands [] default_notional_bands ≡ accepted default_notional_bands)
    × ((x : ℤ) (xs : List ℤ)
        → IsBands (x ∷ xs)
        → length (x ∷ xs) ≤ max_bands_per_request
        → normalise_bands (x ∷ xs) default_notional_bands ≡ accepted (x ∷ xs))
normalise_bands-IsBands_example = normalise_bands-IsBands default_notional_bands (omega arith)

abbrev numbered : ℕ → ConsolidatedBook
numbered n = record {
  sequence = n;
  publish_ts_ns = pos 0;
  ingest_recv_ts_ns = pos 0;
  instrument = [];
  contributing = [];
  stale = [];
  clocks = [];
  bids = record { px = pos (100 * scale); qty = pos (2 * scale) } ∷ [];
  asks = [];
  bid_touch = [];
  ask_touch = [];
  bids_truncated = false;
  asks_truncated = false;
}

abbrev wait : ℕ → ℕ → Wait
wait n now = record { book = some (numbered n); stopped = false; now = pos now; writes = true }

-- The same book again, one too soon, and one late enough.
abbrev waits : List Wait
waits = wait 5 10 ∷ wait 6 50 ∷ wait 7 120 ∷ []

sent_sequences :
    map (λ x. x.0.sequence) (run_stream (pos 100) (some (numbered 5)) (pos 0) true waits)
    ≡ 7 ∷ 5 ∷ []
unfolding methods
sent_sequences = refl

run_stream-IsPaced_example :
    IsPaced (pos 100) (run_stream (pos 100) (some (numbered 5)) (pos 0) true waits)
run_stream-IsPaced_example = run_stream-IsPaced (pos 100) (some (numbered 5)) (pos 0) true waits
