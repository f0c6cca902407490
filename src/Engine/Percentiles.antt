-- ===== src/Engine/Percentiles.antt =====
-- What the latency summary reports: ranks among the newest samples, whatever the order in which the
-- ring of samples holds them.
use mathlib.Core.List.{append-nil}
use home_assignment.Common.{
  ℕ, zero, suc, ◌*◌, ◌-◌, ◌/◌, ◌≤◌, ◌<◌, ◌≡◌, refl, sym, ap, ◌∙◌, false, List, [], ◌∷◌, Bool-cases,
  inl, inr, arith, leb, ◌==◌, ap₂, subst,
}
use home_assignment.Common.Lists.{All, All-mono, length, length-append, get_or, take, length-take}
use home_assignment.Common.Int.{ℤ, pos, ◌≤ℤ◌, ltb_ℤ, ltb_ℤ→lt, ltb_ℤ→ge}
use home_assignment.Common.Sort.{
  sort, reverse, sort-reverse, sort-reverse_after, sort-Sorted, length-sort, sort-All,
  Sorted-get_or,
}
use home_assignment.Engine.{Latencies}
use home_assignment.Engine.Latency.{
  LatencySummary, latency, record_all, smaller, p50_rank, p99_rank,
}
use home_assignment.Engine.Samples.{
  largest_of, length-reverse, Ring, Window, record_all-Ring, take-all, take-append,
}

-- The samples that are sorted, and how many they are.
abbrev filled : Latencies → ℕ
filled l = smaller l.count (length l.samples)

smaller-left : (m n : ℕ) → m ≤ n → smaller m n ≡ m
smaller-left m n h = ground (arith, h)

smaller-right : (m n : ℕ) → n ≤ m → smaller m n ≡ n
smaller-right m n h = ground (arith, h)

-- As many as the newest calls, and with the same sorted list.
filled-window :
    (samples : ℕ) (ns : List ℤ) (l : Latencies)
    → Ring samples ns l
    → (filled l ≡ length (take samples ns))
      × (sort (take (filled l) l.samples) ≡ sort (take samples ns))
filled-window samples ns l r = go r.window
  where
    long : length l.samples ≡ samples
    long = ap length r.held ∙ length-append r.newer r.older ∙ r.size

    go :
        Window samples ns r.newer r.older
        → (filled l ≡ length (take samples ns))
          × (sort (take (filled l) l.samples) ≡ sort (take samples ns))
    go (inl (few, e)) =
        let all = take-all samples ns (omega (arith, few)) in
        let n : filled l ≡ length ns =
          smaller-left l.count (length l.samples) (omega (arith, r.count, few, long)) ∙ r.count in
        let n' : filled l ≡ length r.newer = n ∙ ap length (sym e) ∙ length-reverse r.newer in
        (
          n ∙ ap length (sym all),
          ap₂ (λ k xs. sort (take k xs)) n' r.held
              ∙ ap sort (take-append r.newer r.older ∙ sym (append-nil r.newer))
              ∙ sym (sort-reverse r.newer [])
              ∙ ap sort (append-nil (reverse r.newer) ∙ e ∙ sym all),
        )
    go (inr (many, e)) =
        let n : filled l ≡ samples =
          smaller-right l.count (length l.samples) (omega (arith, r.count, many, long)) ∙ long in
        (
          n ∙ sym (length-take samples ns many),
          ap sort (take-all (filled l) l.samples (omega (arith, n, long)) ∙ r.held)
              ∙ sym (sort-reverse r.newer r.older)
              ∙ sym (sort-reverse_after (reverse r.newer) r.older)
              ∙ ap sort (sym e),
        )

All-take {κ} : (P : ℤ → Type κ) (n : ℕ) (xs : List ℤ) → All P xs → All P (take n xs)
All-take P zero xs h = tt
All-take P (suc n) [] h = tt
All-take P (suc n) (x ∷ xs) h = (h.0, All-take P n xs h.1)

All-get_or {κ} :
    (P : ℤ → Type κ) (xs : List ℤ) (i : ℕ) (d : ℤ) → All P xs → i < length xs → P (get_or xs i d)
All-get_or P [] i d h k = absurd (omega (arith, k))
All-get_or P (x ∷ xs) zero d h k = h.0
All-get_or P (x ∷ xs) (suc i) d h k = All-get_or P xs i d h.1 (omega (arith, k))

largest_of-head : (x : ℤ) (xs : List ℤ) → x ≤ℤ largest_of (x ∷ xs)
unfolding ltb_ℤ
largest_of-head x xs = ground arith

largest_of-rest : (x : ℤ) (xs : List ℤ) → largest_of xs ≤ℤ largest_of (x ∷ xs)
unfolding ltb_ℤ
largest_of-rest x xs = ground arith

largest_of-All : (xs : List ℤ) → All (λ y. y ≤ℤ largest_of xs) xs
largest_of-All [] = tt
largest_of-All (x ∷ xs) = (
  largest_of-head x xs,
  All-mono (λ y. y ≤ℤ largest_of xs) (λ y. y ≤ℤ largest_of (x ∷ xs)) xs
      (λ y le. omega (arith, le, largest_of-rest x xs)) (largest_of-All xs),
)

-- A value that none of the list is below.
has_least : (xs : List ℤ) → (a : ℤ) × All (λ y. a ≤ℤ y) xs
has_least [] = (pos 0, tt)
has_least (x ∷ xs) =
    let (a, below) = has_least xs in
    elim (Bool-cases (ltb_ℤ a x)) [
      | inl lt ↦ (a, (omega (arith, ltb_ℤ→lt a x lt), below))
      | inr ge ↦ (
        x,
        (
          omega arith,
          All-mono (λ y. a ≤ℤ y) (λ y. x ≤ℤ y) xs (λ y le. omega (arith, le, ltb_ℤ→ge a x ge))
              below,
        ),
      )
    ]

-- The ranks are in range, and in order.
ranks : (n : ℕ) → 0 < n → (p50_rank n ≤ p99_rank n) × (p99_rank n < n)
ranks n h = elim (Bool-cases (leb (n - 1) (n * 99 / 100))) [
  | inl le ↦ rw (le) (omega (arith, h), omega (arith, h))
  | inr gt ↦ rw (gt) (omega (arith, h), omega (arith, h))
]

-- A summary of the calls, against the newest of them in order.
pub record Reports (ns window : List ℤ) (s : LatencySummary) : Type 0 where
  pub count : s.count ≡ length ns
  pub max : s.max ≡ largest_of ns
  pub p50 : s.p50 ≡ get_or window (p50_rank (length window)) (pos 0)
  pub p99 : s.p99 ≡ get_or window (p99_rank (length window)) (pos 0)
  pub rising : s.p50 ≤ℤ s.p99
  pub bounded : s.p99 ≤ℤ s.max

-- The summary of a sorted list.
abbrev summary_of : List ℤ → ℕ → ℤ → ℕ → LatencySummary
summary_of sorted n largest count = record {
  p50 = get_or sorted (p50_rank n) (pos 0);
  p99 = get_or sorted (p99_rank n) (pos 0);
  max = largest;
  count = count;
}

latency-summary_of :
    (l : Latencies)
    → l.count == 0 ≡ false
    → latency l ≡ summary_of (sort (take (filled l) l.samples)) (filled l) l.largest l.count
unfolding latency
latency-summary_of l h = rw (h) refl

take-some : (samples : ℕ) (x : ℤ) (xs : List ℤ) → 0 < samples → 0 < length (take samples (x ∷ xs))
take-some zero x xs h = absurd (omega (arith, h))
take-some (suc n) x xs h = omega arith

summary_of-Reports :
    (samples : ℕ) (x : ℤ) (earlier : List ℤ)
    → 0 < samples
    → let window = sort (take samples (x ∷ earlier)) in
      Reports
        (x ∷ earlier)
        window
        (summary_of window (length window) (largest_of (x ∷ earlier)) (suc (length earlier)))
summary_of-Reports samples x earlier h =
    let ns = x ∷ earlier in
    let window = sort (take samples ns) in
    let some_left : 0 < length window =
      omega (arith, length-sort (take samples ns), take-some samples x earlier h) in
    let (le, lt) = ranks (length window) some_left in
    let (a, below) = has_least (take samples ns) in
    record {
      count = refl;
      max = refl;
      p50 = refl;
      p99 = refl;
      rising = Sorted-get_or a (pos 0) window _ _ (sort-Sorted a (take samples ns) below) le lt;
      bounded =
          All-get_or (λ y. y ≤ℤ largest_of ns) window _ (pos 0)
            (sort-All (λ y. y ≤ℤ largest_of ns) (take samples ns)
              (All-take (λ y. y ≤ℤ largest_of ns) samples ns (largest_of-All ns)))
            lt;
    }

-- After any calls of RecordLatency, of which there is at least one, the summary counts them all, has
-- the largest of them (or 0), and its percentiles are the elements at their ranks of the newest
-- calls, sorted, as many as there are samples; the percentiles rise up to the largest.
pub latency-Reports :
    (samples : ℕ) (x : ℤ) (earlier : List ℤ)
    → 0 < samples
    → Reports
        (x ∷ earlier)
        (sort (take samples (x ∷ earlier)))
        (latency (record_all samples (x ∷ earlier)))
latency-Reports samples x earlier h =
    let ns = x ∷ earlier in
    let l = record_all samples ns in
    let window = sort (take samples ns) in
    let r = record_all-Ring samples ns h in
    let (size, same) = filled-window samples ns l r in
    let counted : l.count == 0 ≡ false = ground (arith, r.count) in
    let n : filled l ≡ length window = size ∙ sym (length-sort (take samples ns)) in
    let e : latency l ≡ summary_of window (length window) (largest_of ns) (suc (length earlier)) =
      latency-summary_of l counted
      ∙ ap₂ (λ xs k. summary_of xs k l.largest l.count) same n
      ∙ ap₂ (λ m c. summary_of window (length window) m c) r.largest r.count in
    subst (Reports ns window) (sym e) (summary_of-Reports samples x earlier h)
