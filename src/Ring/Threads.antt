-- ===== src/Ring/Threads.antt =====
-- Each step of a thread keeps what holds of the ring.
use native.Mathlib.Nat.{mod-lt}
use home_assignment.Common.{
  ℕ, suc, ◌+◌, ◌-◌, ◌*◌, ◌%◌, ◌^◌, ◌≤◌, ◌<◌, ◌≡◌, ap, sym, ◌∙◌, arith, Option, none, some, [], ◌∷◌,
  ◌++◌, Bool-cases, inl, inr, if◌then◌else◌, ltb, leb, ltb→lt, ◌==◌,
}
use home_assignment.Common.Lists.{
  get_or, get_elem?, take, length-set, length-append, get_or-set_self, get_or-set_ne,
  get_elem?-snoc_lt, get_elem?-snoc_end, get_elem?-none, take-snoc, take-suc,
}
use home_assignment.Ring.{
  Producer, Consumer, System, used, move_producer, move_consumer, begin_push, begin_pop, delivered,
}
use home_assignment.Ring.Holding.{
  ConsumerFits, Holds, ProducerFits, places_differ, positive, same_place, used-counters,
}

module _ {A : Type 0} (n c : ℕ) (turns : n * c ≡ 2 ^ 64) (small : n ≤ 2 ^ 63) (s : System A)
    (h t : ℕ) (v : Holds n c s h t) where
  ConsumerFits-push :
      (k : Consumer A) (a : A)
      → ConsumerFits h t s.pushed k
      → ConsumerFits (suc h) t (s.pushed ++ a ∷ []) k
  ConsumerFits-push Consumer.resting a f = tt
  ConsumerFits-push (Consumer.loaded tail head) a (seen, e, e', lo, hi) =
      (seen, e, e', lo, omega (arith, hi))
  ConsumerFits-push (Consumer.admitted tail) a (e, lt) = (e, omega (arith, lt))
  ConsumerFits-push (Consumer.moved out tail) a (e, lt, is) =
      (e, omega (arith, lt), get_elem?-snoc_lt s.pushed a t (omega (arith, v.accepted, lt)) ∙ is)

  ProducerFits-pop :
      (p : Producer A) → ProducerFits n h t s.ring.slots p → ProducerFits n h (suc t) s.ring.slots p
  ProducerFits-pop Producer.resting f = tt
  ProducerFits-pop (Producer.loaded a head tail) (seen, e, e', le, room) =
      (seen, e, e', omega (arith, le), room)
  ProducerFits-pop (Producer.admitted a head) (e, lt) = (e, omega (arith, lt))
  ProducerFits-pop (Producer.written a head) (e, lt, is) = (e, omega (arith, lt), is)

  place : (index counter : ℕ) → index ≡ counter % 2 ^ 64 → index % s.ring.capacity ≡ counter % n
  place index counter e = rw (e, v.capacity) (same_place n c counter turns)

  place_in : (i : ℕ) → i % n < n
  place_in i = mod-lt i (positive n c turns)

  check_fits :
      (a : A) (head tail seen : ℕ)
      → head ≡ h % 2 ^ 64
      → tail ≡ seen % 2 ^ 64
      → seen ≤ t
      → h ≤ seen + n
      → ProducerFits n h t s.ring.slots (
          if leb s.ring.capacity (used head tail)
          then Producer.resting
          else Producer.admitted a head)
  check_fits a head tail seen e e' le room =
      let count : used head tail ≡ h - seen =
        rw (e, e') (used-counters n h seen small (omega (arith, le, v.order)) room) in
      elim (Bool-cases (leb s.ring.capacity (used head tail))) [
        | inl full ↦ rw full tt
        | inr open_ ↦ rw open_ (e, ground (arith, open_, count, v.capacity, le))
      ]

  stored_snoc :
      (a : A)
      → get_or s.ring.slots (h % n) none ≡ some a
      → (i : ℕ) → t ≤ i
      → i < suc h
      → get_or s.ring.slots (i % n) none ≡ get_elem? (s.pushed ++ a ∷ []) i
  stored_snoc a is i lo hi = elim (Bool-cases (ltb i h)) [
    | inl below ↦
        let lt : i < h = ltb→lt i h below in
        v.stored i lo lt ∙ sym (get_elem?-snoc_lt s.pushed a i (omega (arith, v.accepted, lt)))
    | inr end ↦
        let e : i ≡ h = ground (arith, end) in
        ap (λ j. get_or s.ring.slots (j % n) none) e
        ∙ is
        ∙ sym (get_elem?-snoc_end s.pushed a i (omega (arith, v.accepted, e)))
  ]

  pub move_producer-Holds :
      (p : Producer A)
      → ProducerFits n h t s.ring.slots p
      → (h' : ℕ) × Holds n c (move_producer p s) h' t
  unfolding move_producer
  move_producer-Holds Producer.resting f = (h, v)
  move_producer-Holds (Producer.loaded a head tail) (seen, e, e', le, room) = (
    h,
    record {
      capacity = v.capacity;
      size = v.size;
      head = v.head;
      tail = v.tail;
      order = v.order;
      room = v.room;
      accepted = v.accepted;
      delivered = v.delivered;
      stored = v.stored;
      producer = check_fits a head tail seen e e' le room;
      consumer = v.consumer;
    },
  )
  move_producer-Holds (Producer.admitted a head) (e, lt) = (
    h,
    record {
      capacity = v.capacity;
      size = length-set s.ring.slots _ (some a) ∙ v.size;
      head = v.head;
      tail = v.tail;
      order = v.order;
      room = v.room;
      accepted = v.accepted;
      delivered = v.delivered;
      stored = λ i lo hi.
          rw (place head h e) (
            get_or-set_ne s.ring.slots (h % n) (i % n) (some a) none
              (λ eq. places_differ n i h hi (omega arith) (sym eq)))
          ∙ v.stored i lo hi;
      producer = (
        e,
        lt,
        rw (place head h e) (
            get_or-set_self s.ring.slots (h % n) (some a) none (omega (arith, place_in h, v.size))),
      );
      consumer = v.consumer;
    },
  )
  move_producer-Holds (Producer.written a head) (e, lt, is) = (
    suc h,
    record {
      capacity = v.capacity;
      size = v.size;
      head = omega (arith, e);
      tail = v.tail;
      order = omega (arith, v.order);
      room = omega (arith, lt);
      accepted = omega (arith, length-append s.pushed (a ∷ []), v.accepted);
      delivered = v.delivered ∙ sym (take-snoc t s.pushed a (omega (arith, v.order, v.accepted)));
      stored = stored_snoc a is;
      producer = tt;
      consumer = ConsumerFits-push s.consumer a v.consumer;
    },
  )

  delivered_take :
      (out : Option A)
      → t < h
      → get_elem? s.pushed t ≡ out
      → delivered out s.popped ≡ take (suc t) s.pushed
  delivered_take none lt is = absurd (omega (arith, get_elem?-none s.pushed t is, v.accepted, lt))
  delivered_take (some a) lt is =
      ap (λ xs. xs ++ a ∷ []) v.delivered ∙ sym (take-suc t s.pushed a is)

  empty_fits :
      (tail head seen : ℕ)
      → tail ≡ t % 2 ^ 64
      → head ≡ seen % 2 ^ 64
      → t ≤ seen
      → seen ≤ h
      → ConsumerFits h t s.pushed
          (if tail == head then Consumer.resting else Consumer.admitted tail)
  empty_fits tail head seen e e' lo hi = elim (Bool-cases (tail == head)) [
    | inl same ↦ rw same tt
    | inr differ ↦ rw differ (e, ground (arith, differ, e, e', lo, hi))
  ]

  pub move_consumer-Holds :
      (k : Consumer A) → ConsumerFits h t s.pushed k → (t' : ℕ) × Holds n c (move_consumer k s) h t'
  unfolding move_consumer
  move_consumer-Holds Consumer.resting f = (t, v)
  move_consumer-Holds (Consumer.loaded tail head) (seen, e, e', lo, hi) = (
    t,
    record {
      capacity = v.capacity;
      size = v.size;
      head = v.head;
      tail = v.tail;
      order = v.order;
      room = v.room;
      accepted = v.accepted;
      delivered = v.delivered;
      stored = v.stored;
      producer = v.producer;
      consumer = empty_fits tail head seen e e' lo hi;
    },
  )
  move_consumer-Holds (Consumer.admitted tail) (e, lt) = (
    t,
    record {
      capacity = v.capacity;
      size = v.size;
      head = v.head;
      tail = v.tail;
      order = v.order;
      room = v.room;
      accepted = v.accepted;
      delivered = v.delivered;
      stored = v.stored;
      producer = v.producer;
      consumer = (e, lt, rw (place tail t e) (sym (v.stored t (omega arith) lt)));
    },
  )
  move_consumer-Holds (Consumer.moved out tail) (e, lt, is) = (
    suc t,
    record {
      capacity = v.capacity;
      size = v.size;
      head = v.head;
      tail = omega (arith, e);
      order = omega (arith, lt);
      room = omega (arith, v.room);
      accepted = v.accepted;
      delivered = delivered_take out lt is;
      stored = λ i lo hi. v.stored i (omega arith) hi;
      producer = ProducerFits-pop s.producer v.producer;
      consumer = tt;
    },
  )

  pub begin_push-Holds :
      (p : Producer A)
      → ProducerFits n h t s.ring.slots p
      → (a : A) → Holds n c (begin_push p a s) h t
  begin_push-Holds Producer.resting f a = record {
    capacity = v.capacity;
    size = v.size;
    head = v.head;
    tail = v.tail;
    order = v.order;
    room = v.room;
    accepted = v.accepted;
    delivered = v.delivered;
    stored = v.stored;
    producer = (t, v.head, v.tail, omega arith, v.room);
    consumer = v.consumer;
  }
  begin_push-Holds (Producer.loaded b head tail) f a = v
  begin_push-Holds (Producer.admitted b head) f a = v
  begin_push-Holds (Producer.written b head) f a = v

  pub begin_pop-Holds : (k : Consumer A) → Holds n c (begin_pop k s) h t
  begin_pop-Holds Consumer.resting = record {
    capacity = v.capacity;
    size = v.size;
    head = v.head;
    tail = v.tail;
    order = v.order;
    room = v.room;
    accepted = v.accepted;
    delivered = v.delivered;
    stored = v.stored;
    producer = v.producer;
    consumer = (h, v.tail, v.head, v.order, omega arith);
  }
  begin_pop-Holds (Consumer.loaded tail head) = v
  begin_pop-Holds (Consumer.admitted tail) = v
  begin_pop-Holds (Consumer.moved out tail) = v
