-- ===== src/Ring/Interleaving.antt =====
-- For every interleaving of the two threads, the ring is a queue.
use home_assignment.Common.{
  ℕ, ◌+◌, ◌-◌, ◌*◌, ◌^◌, ◌≤◌, ◌≡◌, refl, ap, sym, ◌∙◌, arith, none, List, [], ◌∷◌,
}
use home_assignment.Common.Lists.{length, take, length-replicate, length-take}
use home_assignment.Ring.Capacity.{pow_add, pow-le_of_le}
use home_assignment.Ring.{
  System, Event, pushes, producer_moves, pops, consumer_moves, step, run, start,
}
use home_assignment.Ring.Holding.{Holds}
use home_assignment.Ring.Threads.{
  begin_pop-Holds, begin_push-Holds, move_consumer-Holds, move_producer-Holds,
}

-- The counters of a state.
abbrev pub Held : {A : Type 0} → ℕ → ℕ → System A → Type 0
Held n c s = (h : ℕ) × (t : ℕ) × Holds n c s h t

module _ {A : Type 0} (n c : ℕ) (turns : n * c ≡ 2 ^ 64) (small : n ≤ 2 ^ 63) where
  step-Held : (s : System A) (e : Event A) → Held n c s → Held n c (step s e)
  unfolding step
  step-Held s (pushes a) (h, t, v) =
      (h, t, begin_push-Holds n c turns small s h t v s.producer v.producer a)
  step-Held s producer_moves (h, t, v) =
      let (h', v') = move_producer-Holds n c turns small s h t v s.producer v.producer in
      (h', t, v')
  step-Held s pops (h, t, v) = (h, t, begin_pop-Holds n c turns small s h t v s.consumer)
  step-Held s consumer_moves (h, t, v) =
      let (t', v') = move_consumer-Holds n c turns small s h t v s.consumer v.consumer in
      (h, t', v')

  pub run-Held : (s : System A) (es : List (Event A)) → Held n c s → Held n c (run s es)
  unfolding run
  run-Held s [] v = v
  run-Held s (e ∷ es) v = run-Held (step s e) es (step-Held s e v)

  pub start-Held : Held n c (start {A = A} n)
  unfolding start
  start-Held = (
    0,
    0,
    record {
      capacity = refl;
      size = length-replicate n none;
      head = refl;
      tail = refl;
      order = omega arith;
      room = omega arith;
      accepted = refl;
      delivered = refl;
      stored = λ i lo hi. absurd (omega (arith, hi));
      producer = tt;
      consumer = tt;
    },
  )

-- On a ring whose capacity is a power of two up to 2 ^ 63, whatever the order in which the steps of
-- the two threads come, and however often the indices wrap around: what Pop has delivered is what
-- Push accepted first, in its order, with nothing lost, repeated or made up; and no more than the
-- capacity waits.
pub run-is_queue :
    {A : Type 0} (k : ℕ) (es : List (Event A))
    → k ≤ 63
    → let s = run (start (2 ^ k)) es in
      (s.popped ≡ take (length s.popped) s.pushed)
      × (length s.popped ≤ length s.pushed)
      × (length s.pushed ≤ length s.popped + 2 ^ k)
run-is_queue k es le =
    let e : k + (64 - k) ≡ 64 = omega (arith, le) in
    let turns : 2 ^ k * 2 ^ (64 - k) ≡ 2 ^ 64 = sym (pow_add k (64 - k)) ∙ ap (λ j. 2 ^ j) e in
    let (h, t, v) =
      run-Held (2 ^ k) (2 ^ (64 - k)) turns (pow-le_of_le k 63 le) (start (2 ^ k)) es
        (start-Held (2 ^ k) (2 ^ (64 - k)) turns (pow-le_of_le k 63 le)) in
    let s = run (start (2 ^ k)) es in
    let many : length s.popped ≡ t =
      ap length v.delivered ∙ length-take t s.pushed (omega (arith, v.accepted, v.order)) in
    (
      v.delivered ∙ ap (λ j. take j s.pushed) (sym many),
      omega (arith, many, v.accepted, v.order),
      omega (arith, many, v.accepted, v.room),
    )
