-- ===== src/Engine/Latency.antt =====
-- src/aggregator/engine.h and engine.cc: `Latency`, the summary of the samples that RecordLatency
-- keeps, of which there are kLatencySamples, and RecordLatency from the start on.
use home_assignment.Common.{ℕ, ◌-◌, ◌*◌, ◌/◌, List, [], ◌∷◌, if◌then◌else◌, leb, ◌==◌}
use home_assignment.Common.Lists.{length, take, replicate, get_or}
use home_assignment.Common.Int.{ℤ, pos}
use home_assignment.Common.Sort.{sort}
use home_assignment.Engine.{Latencies, record_latency}

abbrev pub latency_samples : ℕ
latency_samples = 4096

pub record LatencySummary : Type 0 where
  pub p50 : ℤ
  pub p99 : ℤ
  pub max : ℤ
  pub count : ℕ

abbrev pub smaller : ℕ → ℕ → ℕ
smaller m n = if leb m n then m else n

-- The constructor's samples, for some number of them.
unfoldable pub new_latencies : ℕ → Latencies
new_latencies samples = record {
  samples = replicate samples (pos 0);
  cursor = 0;
  largest = pos 0;
  count = 0;
}

-- The two ranks in a list of some length.
abbrev pub p50_rank : ℕ → ℕ
p50_rank filled = filled / 2

abbrev pub p99_rank : ℕ → ℕ
p99_rank filled = smaller (filled - 1) (filled * 99 / 100)

unfoldable pub latency : Latencies → LatencySummary
unfolding sort
latency l =
    let filled = smaller l.count (length l.samples) in
    let sorted = sort (take filled l.samples) in
    if l.count == 0
    then record { p50 = pos 0; p99 = pos 0; max = l.largest; count = l.count }
    else record {
      p50 = get_or sorted (p50_rank filled) (pos 0);
      p99 = get_or sorted (p99_rank filled) (pos 0);
      max = l.largest;
      count = l.count;
    }

-- The calls of RecordLatency so far, the newest first.
unfoldable pub record_all : ℕ → List ℤ → Latencies
unfolding new_latencies record_latency
record_all samples [] = new_latencies samples
record_all samples (nanos ∷ earlier) = record_latency (record_all samples earlier) nanos
