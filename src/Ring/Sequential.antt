-- ===== src/Ring/Sequential.antt =====
-- With whole calls, one after the other, the ring is the bounded queue: Push refuses only a full
-- one, and Pop only an empty one.
use mathlib.Core.List.{append_assoc}
use home_assignment.Common.{
  ℕ, ◌+◌, ◌-◌, ◌*◌, ◌%◌, ◌^◌, ◌≤◌, ◌<◌, ◌≡◌, refl, ap, sym, subst, ◌∙◌, arith, none, some, false,
  List, [], ◌∷◌, ◌++◌, Bool-cases, inl, inr, if◌then◌else◌, leb, ◌==◌,
}
use home_assignment.Common.Lists.{length, get_or, get_elem?, set, length-append, length-take}
use home_assignment.Ring.{
  SpscRing, new_ring, Producer, Consumer, System, pushes, producer_moves, pops, consumer_moves,
  used, step, run, start, push, pop, delivered, move_producer, move_consumer,
}
use home_assignment.Ring.Capacity.{pow_add, pow-le_of_le}
use home_assignment.Ring.Holding.{Holds, used-counters, same_place}
use home_assignment.Ring.Interleaving.{Held, run-Held, start-Held}

-- A call of the producer or of the consumer.
pub data Call (A : Type 0) : Type 0 where
  put : A → Call A
  get : Call A

-- A queue of bounded length, with what was taken from it, the oldest first.
pub record Queue (A : Type 0) : Type 0 where
  pub waiting : List A
  pub taken : List A

module _ {A : Type 0} where
  abbrev take_first : List A → Queue A → Queue A
  take_first [] q = q
  take_first (x ∷ rest) q = record { waiting = rest; taken = q.taken ++ x ∷ [] }

  unfoldable pub queue_run : ℕ → Queue A → List (Call A) → Queue A
  queue_run limit q [] = q
  queue_run limit q (put a ∷ calls) =
      queue_run limit
        (if leb limit (length q.waiting) then q else record q { waiting = q.waiting ++ a ∷ [] })
        calls
  queue_run limit q (get ∷ calls) = queue_run limit (take_first q.waiting q) calls

  unfoldable pub ring_run : System A → List (Call A) → System A
  ring_run s [] = s
  ring_run s (put a ∷ calls) = ring_run (push s a) calls
  ring_run s (get ∷ calls) = ring_run (pop s) calls

  -- No call is under way.
  abbrev quiet : SpscRing A → List A → List A → System A
  quiet r pushed popped = record {
    ring = r;
    producer = Producer.resting;
    consumer = Consumer.resting;
    pushed = pushed;
    popped = popped;
  }

  abbrev after_push : SpscRing A → A → SpscRing A
  after_push r a = record r {
    slots = set r.slots (r.head % r.capacity) (some a);
    head = (r.head + 1) % 2 ^ 64;
  }

  push-quiet :
      (r : SpscRing A) (pushed popped : List A) (a : A)
      → push (quiet r pushed popped) a ≡ (
          if leb r.capacity (used r.head r.tail)
          then quiet r pushed popped
          else quiet (after_push r a) (pushed ++ a ∷ []) popped)
  unfolding push run step move_producer
  push-quiet r pushed popped a = elim (Bool-cases (leb r.capacity (used r.head r.tail))) [
    | inl full ↦ rw full refl
    | inr open_ ↦ rw open_ refl
  ]

  pop-quiet :
      (r : SpscRing A) (pushed popped : List A)
      → pop (quiet r pushed popped) ≡ (
          if r.tail == r.head
          then quiet r pushed popped
          else quiet
              (record r { tail = (r.tail + 1) % 2 ^ 64 })
              pushed
              (delivered (get_or r.slots (r.tail % r.capacity) none) popped))
  unfolding pop run step move_consumer
  pop-quiet r pushed popped = elim (Bool-cases (r.tail == r.head)) [
    | inl empty ↦ rw empty refl
    | inr more ↦ rw more refl
  ]

  get_elem?-append :
      (xs : List A) (y : A) (ys : List A) → get_elem? (xs ++ y ∷ ys) (length xs) ≡ some y
  get_elem?-append [] y ys = refl
  get_elem?-append (x ∷ xs) y ys = get_elem?-append xs y ys

module _ {A : Type 0} (n c : ℕ) (turns : n * c ≡ 2 ^ 64) (small : n ≤ 2 ^ 63) (r : SpscRing A)
    (pushed popped waiting : List A) (e : pushed ≡ popped ++ waiting) where
  length-popped : (h t : ℕ) → Holds n c (quiet r pushed popped) h t → length popped ≡ t
  length-popped h t v =
      ap length v.delivered ∙ length-take t pushed (omega (arith, v.accepted, v.order))

  length-waiting : (h t : ℕ) → Holds n c (quiet r pushed popped) h t → t + length waiting ≡ h
  length-waiting h t v =
      omega (arith, length-popped h t v, v.accepted, ap length e, length-append popped waiting)

  full-waiting :
      Held n c (quiet r pushed popped)
      → leb r.capacity (used r.head r.tail) ≡ leb n (length waiting)
  full-waiting (h, t, v) =
      let count : used r.head r.tail ≡ length waiting =
        rw (v.head, v.tail)
          (used-counters n h t small v.order v.room ∙ omega (arith, length-waiting h t v)) in
      rw (v.capacity, count) refl

  empty-waiting : Held n c (quiet r pushed popped) → (r.tail == r.head) ≡ (length waiting == 0)
  empty-waiting (h, t, v) =
      ground (arith, v.head, v.tail, v.order, v.room, length-waiting h t v, small)

  first-waiting :
      (x : A) (rest : List A)
      → waiting ≡ x ∷ rest
      → Held n c (quiet r pushed popped)
      → get_or r.slots (r.tail % r.capacity) none ≡ some x
  first-waiting x rest is (h, t, v) =
      let here : r.tail % r.capacity ≡ t % n = rw (v.tail, v.capacity) (same_place n c t turns) in
      let lt : t < h = omega (arith, length-waiting h t v, ap length is) in
      let found : get_elem? pushed t ≡ some x =
        rw (e, is, ← length-popped h t v) (get_elem?-append popped x rest) in
      rw here (v.stored t (omega arith) lt ∙ found)

module _ {A : Type 0} (n c : ℕ) (turns : n * c ≡ 2 ^ 64) (small : n ≤ 2 ^ 63) (s : System A) where
  push-Held : (a : A) → Held n c s → Held n c (push s a)
  unfolding push
  push-Held a v =
      run-Held n c turns small s (pushes a ∷ producer_moves ∷ producer_moves ∷ producer_moves ∷ [])
        v

  pop-Held : Held n c s → Held n c (pop s)
  unfolding pop
  pop-Held v =
      run-Held n c turns small s (pops ∷ consumer_moves ∷ consumer_moves ∷ consumer_moves ∷ []) v

module _ {A : Type 0} (n c : ℕ) (turns : n * c ≡ 2 ^ 64) (small : n ≤ 2 ^ 63) where
  ring_run-queue_run :
      (r : SpscRing A) (pushed popped waiting : List A) (calls : List (Call A))
      → pushed ≡ popped ++ waiting
      → Held n c (quiet r pushed popped)
      → let q = queue_run n (record { waiting = waiting; taken = popped }) calls in
        let s = ring_run (quiet r pushed popped) calls in
        (s.popped ≡ q.taken) × (s.pushed ≡ q.taken ++ q.waiting)
  unfolding ring_run queue_run
  ring_run-queue_run r pushed popped waiting [] e v = (refl, e)
  ring_run-queue_run r pushed popped waiting (put a ∷ calls) e v =
      let test = full-waiting n c turns small r pushed popped waiting e v in
      let pushes_ = push-quiet r pushed popped a in
      elim (Bool-cases (leb n (length waiting))) [
        | inl full ↦
            let same : push (quiet r pushed popped) a ≡ quiet r pushed popped =
              pushes_ ∙ rw (test, full) refl in
            rw (same, full, ring_run, queue_run)
              (ring_run-queue_run r pushed popped waiting calls e v)
        | inr open_ ↦
            let more : push (quiet r pushed popped) a
                ≡ quiet (after_push r a) (pushed ++ a ∷ []) popped =
              pushes_ ∙ rw (test, open_) refl in
            let held =
              subst (Held n c) more (push-Held n c turns small (quiet r pushed popped) a v) in
            rw (more, open_, ring_run, queue_run)
              (ring_run-queue_run (after_push r a) (pushed ++ a ∷ []) popped (waiting ++ a ∷ [])
                calls (ap (λ xs. xs ++ a ∷ []) e ∙ append_assoc popped waiting (a ∷ [])) held)
      ]
  ring_run-queue_run r pushed popped [] (get ∷ calls) e v =
      let none_left = empty-waiting n c turns small r pushed popped [] e v in
      let same : pop (quiet r pushed popped) ≡ quiet r pushed popped =
        pop-quiet r pushed popped ∙ rw none_left refl in
      rw (same, ring_run, queue_run) (ring_run-queue_run r pushed popped [] calls e v)
  ring_run-queue_run r pushed popped (x ∷ rest) (get ∷ calls) e v =
      let some_left : (r.tail == r.head) ≡ false =
        ground (arith, empty-waiting n c turns small r pushed popped (x ∷ rest) e v) in
      let first = first-waiting n c turns small r pushed popped (x ∷ rest) e x rest refl v in
      let r' = record r { tail = (r.tail + 1) % 2 ^ 64 } in
      let next : pop (quiet r pushed popped) ≡ quiet r' pushed (popped ++ x ∷ []) =
        pop-quiet r pushed popped ∙ rw (some_left, first) refl in
      let held = subst (Held n c) next (pop-Held n c turns small (quiet r pushed popped) v) in
      rw (next, ring_run, queue_run)
        (ring_run-queue_run r' pushed (popped ++ x ∷ []) rest calls
          (e ∙ sym (append_assoc popped (x ∷ []) rest)) held)

-- A ring whose capacity is a power of two up to 2 ^ 63 serves any run of whole calls as the queue
-- of that length does: a push is refused exactly when the queue is full, a pop takes the oldest
-- value that waits, and only an empty queue gives none.
pub ring_run-refines :
    {A : Type 0} (k : ℕ) (calls : List (Call A))
    → k ≤ 63
    → let q = queue_run (2 ^ k) (record { waiting = []; taken = [] }) calls in
      let s = ring_run (start (2 ^ k)) calls in
      (s.popped ≡ q.taken) × (s.pushed ≡ q.taken ++ q.waiting)
unfolding start
ring_run-refines k calls le =
    let e : k + (64 - k) ≡ 64 = omega (arith, le) in
    let turns : 2 ^ k * 2 ^ (64 - k) ≡ 2 ^ 64 = sym (pow_add k (64 - k)) ∙ ap (λ j. 2 ^ j) e in
    let small = pow-le_of_le k 63 le in
    ring_run-queue_run (2 ^ k) (2 ^ (64 - k)) turns small (new_ring (2 ^ k)) [] [] [] calls refl
      (start-Held (2 ^ k) (2 ^ (64 - k)) turns small)
