-- ===== src/Ring.antt =====
-- src/core/spsc_ring.h: the queue from one venue's thread to the engine. Indices are size_t values,
-- reduced modulo 2 ^ 64; `mask_` is the capacity, a power of two, less one, so a conjunction with
-- it is the remainder by the capacity. A slot that was never written holds `none`. Each atomic
-- load and store is a step of its own; a release store is seen with all that its thread wrote
-- before it, so a step reads what the steps before it wrote.
pub mod Capacity
pub mod Holding
pub mod Threads
pub mod Interleaving
pub mod Sequential
use home_assignment.Common.{
  ℕ, zero, suc, ◌+◌, ◌-◌, ◌*◌, ◌%◌, ◌^◌, Bool, true, false, List, [], ◌∷◌, ◌++◌, Option, none, some,
  if◌then◌else◌, ltb, leb, ◌==◌,
}
use home_assignment.Common.Lists.{get_or, set, replicate}

-- `while (p < v) p <<= 1;`, with fuel; `none` means that it ran out.
unfoldable pub round_up_pow2 : ℕ → ℕ → ℕ → Option ℕ
round_up_pow2 zero p v = none
round_up_pow2 (suc fuel) p v =
    let rest = round_up_pow2 fuel (p * 2 % 2 ^ 64) v in if ltb p v then rest else some p

pub record SpscRing {ℓ} (A : Type ℓ) : Type ℓ where
  pub capacity : ℕ
  pub slots : List (Option A)
  pub head : ℕ
  pub tail : ℕ

-- Where the producer's call of Push stands: it has loaded both indices, it has passed the check, or
-- it has written the slot.
pub data Producer {ℓ} (A : Type ℓ) : Type ℓ where
  resting : Producer A
  loaded : A → ℕ → ℕ → Producer A
  admitted : A → ℕ → Producer A
  written : A → ℕ → Producer A

-- Where the consumer's call of Pop stands.
pub data Consumer {ℓ} (A : Type ℓ) : Type ℓ where
  resting : Consumer A
  loaded : ℕ → ℕ → Consumer A
  admitted : ℕ → Consumer A
  moved : Option A → ℕ → Consumer A

-- The ring, its two users, and what Push has accepted and Pop has delivered, the oldest first.
pub record System {ℓ} (A : Type ℓ) : Type ℓ where
  pub ring : SpscRing A
  pub producer : Producer A
  pub consumer : Consumer A
  pub pushed : List A
  pub popped : List A

pub data Event {ℓ} (A : Type ℓ) : Type ℓ where
  pushes : A → Event A
  producer_moves : Event A
  pops : Event A
  consumer_moves : Event A

-- `head - tail`.
abbrev pub used : ℕ → ℕ → ℕ
used head tail = (head + 2 ^ 64 - tail) % 2 ^ 64

module _ {ℓ} {A : Type ℓ} where
  unfoldable pub new_ring : ℕ → SpscRing A
  new_ring capacity = record {
    capacity = capacity;
    slots = replicate capacity none;
    head = 0;
    tail = 0;
  }

  abbrev store_slot : SpscRing A → ℕ → A → SpscRing A
  store_slot r i a = record r { slots = set r.slots (i % r.capacity) (some a) }

  -- The next step of Push.
  unfoldable pub move_producer : Producer A → System A → System A
  move_producer Producer.resting s = s
  move_producer (Producer.loaded a head tail) s = record s {
    producer =
        if leb s.ring.capacity (used head tail) then Producer.resting else Producer.admitted a head;
  }
  move_producer (Producer.admitted a head) s = record s {
    ring = store_slot s.ring head a;
    producer = Producer.written a head;
  }
  move_producer (Producer.written a head) s = record s {
    ring = record (s.ring) { head = (head + 1) % 2 ^ 64 };
    producer = Producer.resting;
    pushed = s.pushed ++ a ∷ [];
  }

  abbrev pub delivered : Option A → List A → List A
  delivered none popped = popped
  delivered (some a) popped = popped ++ a ∷ []

  -- The next step of Pop.
  unfoldable pub move_consumer : Consumer A → System A → System A
  move_consumer Consumer.resting s = s
  move_consumer (Consumer.loaded tail head) s = record s {
    consumer = if tail == head then Consumer.resting else Consumer.admitted tail;
  }
  move_consumer (Consumer.admitted tail) s = record s {
    consumer = Consumer.moved (get_or s.ring.slots (tail % s.ring.capacity) none) tail;
  }
  move_consumer (Consumer.moved out tail) s = record s {
    ring = record (s.ring) { tail = (tail + 1) % 2 ^ 64 };
    consumer = Consumer.resting;
    popped = delivered out s.popped;
  }

  -- A thread that is in a call does not begin another.
  abbrev pub begin_push : Producer A → A → System A → System A
  begin_push Producer.resting a s = record s {
    producer = Producer.loaded a s.ring.head s.ring.tail;
  }
  begin_push _ a s = s

  abbrev pub begin_pop : Consumer A → System A → System A
  begin_pop Consumer.resting s = record s { consumer = Consumer.loaded s.ring.tail s.ring.head }
  begin_pop _ s = s

  unfoldable pub step : System A → Event A → System A
  unfolding move_producer move_consumer
  step s (pushes a) = begin_push s.producer a s
  step s producer_moves = move_producer s.producer s
  step s pops = begin_pop s.consumer s
  step s consumer_moves = move_consumer s.consumer s

  unfoldable pub run : System A → List (Event A) → System A
  unfolding step
  run s [] = s
  run s (e ∷ es) = run (step s e) es

  unfoldable pub start : ℕ → System A
  unfolding new_ring
  start capacity = record {
    ring = new_ring capacity;
    producer = Producer.resting;
    consumer = Consumer.resting;
    pushed = [];
    popped = [];
  }

  -- Push and Pop with no step of the other thread between theirs.
  unfoldable pub push : System A → A → System A
  unfolding run
  push s a = run s (pushes a ∷ producer_moves ∷ producer_moves ∷ producer_moves ∷ [])

  unfoldable pub pop : System A → System A
  unfolding run
  pop s = run s (pops ∷ consumer_moves ∷ consumer_moves ∷ consumer_moves ∷ [])
