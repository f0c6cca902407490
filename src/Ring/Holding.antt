-- ===== src/Ring/Holding.antt =====
-- What holds of the ring between any two steps, and the places of its indices.
use native.Mathlib.Nat.{mod-add-div, add-mul-mod_self_left, mul_assoc, mul-le-mul_left}
use home_assignment.Common.{
  ℕ, zero, suc, ◌+◌, ◌-◌, ◌*◌, ◌/◌, ◌%◌, ◌^◌, ◌≤◌, ◌<◌, ◌≡◌, ◌≢◌, ap, sym, ◌∙◌, arith, Option, none,
  some, List, Bool-cases, inl, inr, leb, leb→le,
}
use home_assignment.Common.Lists.{length, get_or, get_elem?, take}
use home_assignment.Ring.{Producer, Consumer, System, used}

-- Two numbers less than a turn apart lie at different places.
pub places_differ : (n i h : ℕ) → i < h → h < i + n → i % n ≢ h % n
places_differ n i h lt near e = elim (Bool-cases (leb (h / n) (i / n))) [
  | inl le ↦
      let m : n * (h / n) ≤ n * (i / n) = mul-le-mul_left n (leb→le (h / n) (i / n) le) in
      omega (arith, mod-add-div i n, mod-add-div h n, e)
  | inr gt ↦
      let up : i / n + 1 ≤ h / n = ground (arith, gt) in
      let m : n * (i / n + 1) ≤ n * (h / n) = mul-le-mul_left n up in
      let turn : n * (i / n + 1) ≡ n * (i / n) + n = grind arith in
      omega (arith, mod-add-div i n, mod-add-div h n, e, turn)
]

-- A size_t index and the counter behind it lie at the same place.
pub same_place : (n c h : ℕ) → n * c ≡ 2 ^ 64 → (h % 2 ^ 64) % n ≡ h % n
same_place n c h e =
    let whole : h % 2 ^ 64 + n * (c * (h / 2 ^ 64)) ≡ h =
      rw (← mul_assoc n c (h / 2 ^ 64), e) (mod-add-div h (2 ^ 64)) in
    sym (add-mul-mod_self_left (h % 2 ^ 64) n (c * (h / 2 ^ 64))) ∙ ap (λ x. x % n) whole

module _ {A : Type 0} where
  -- Where a call of Push stands, with what its loads tell of the counters.
  abbrev pub ProducerFits : ℕ → ℕ → ℕ → List (Option A) → Producer A → Type 0
  ProducerFits n h t slots Producer.resting = Unit
  ProducerFits n h t slots (Producer.loaded a head tail) =
      (seen : ℕ) × (head ≡ h % 2 ^ 64) × (tail ≡ seen % 2 ^ 64) × (seen ≤ t) × (h ≤ seen + n)
  ProducerFits n h t slots (Producer.admitted a head) = (head ≡ h % 2 ^ 64) × (h < t + n)
  ProducerFits n h t slots (Producer.written a head) =
      (head ≡ h % 2 ^ 64) × (h < t + n) × (get_or slots (h % n) none ≡ some a)

  -- Where a call of Pop stands.
  abbrev pub ConsumerFits : ℕ → ℕ → List A → Consumer A → Type 0
  ConsumerFits h t pushed Consumer.resting = Unit
  ConsumerFits h t pushed (Consumer.loaded tail head) =
      (seen : ℕ) × (tail ≡ t % 2 ^ 64) × (head ≡ seen % 2 ^ 64) × (t ≤ seen) × (seen ≤ h)
  ConsumerFits h t pushed (Consumer.admitted tail) = (tail ≡ t % 2 ^ 64) × (t < h)
  ConsumerFits h t pushed (Consumer.moved out tail) =
      (tail ≡ t % 2 ^ 64) × (t < h) × (get_elem? pushed t ≡ out)

  -- The counters behind the indices are the numbers of values accepted and delivered; the slots from
  -- one to the other hold the values that wait.
  pub record Holds (n c : ℕ) (s : System A) (h t : ℕ) : Type 0 where
    pub capacity : s.ring.capacity ≡ n
    pub size : length s.ring.slots ≡ n
    pub head : s.ring.head ≡ h % 2 ^ 64
    pub tail : s.ring.tail ≡ t % 2 ^ 64
    pub order : t ≤ h
    pub room : h ≤ t + n
    pub accepted : length s.pushed ≡ h
    pub delivered : s.popped ≡ take t s.pushed
    pub stored : (i : ℕ) → t ≤ i → i < h → get_or s.ring.slots (i % n) none ≡ get_elem? s.pushed i
    pub producer : ProducerFits n h t s.ring.slots s.producer
    pub consumer : ConsumerFits h t s.pushed s.consumer

pub positive : (n c : ℕ) → n * c ≡ 2 ^ 64 → 0 < n
positive zero c e = absurd (omega (arith, e))
positive (suc n) c e = omega arith

-- What the wrapped subtraction of Push gives.
pub used-counters :
    (n h seen : ℕ)
    → n ≤ 2 ^ 63
    → seen ≤ h
    → h ≤ seen + n
    → used (h % 2 ^ 64) (seen % 2 ^ 64) ≡ h - seen
used-counters n h seen small le room = omega arith

-- Counters that are less than 2 ^ 64 apart are equal if their indices are.
pub same_counter :
    (h seen : ℕ) → seen ≤ h → h < seen + 2 ^ 64 → seen % 2 ^ 64 ≡ h % 2 ^ 64 → seen ≡ h
same_counter h seen le near e = omega arith
