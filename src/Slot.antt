-- ===== src/Slot.antt =====
-- src/core/conflating_slot.h: a mailbox that keeps only the newest value. Each method holds the
-- mutex, so the calls of the publisher and the one reader come in some order, each as one step; a
-- wait that is woken, or runs out of time, is the step `take`.
pub mod Delivery
use home_assignment.Common.{ℕ, suc, Bool, true, false, List, [], ◌∷◌, Option, none, some}

pub record Slot {ℓ} (A : Type ℓ) : Type ℓ where
  pub pending : Option A
  pub stopped : Bool
  pub conflated : ℕ

module _ {ℓ} {A : Type ℓ} where
  unfoldable pub empty_slot : Slot A
  empty_slot = record { pending = none; stopped = false; conflated = 0 }

  abbrev count_lost : Option A → ℕ → ℕ
  count_lost none n = n
  count_lost (some a) n = suc n

  abbrev publish_to : Slot A → A → Bool → Slot A × Bool
  publish_to s value true = (s, false)
  publish_to s value false =
      (record s { pending = some value; conflated = count_lost s.pending s.conflated }, true)

  -- False if the slot is stopped.
  unfoldable pub publish : Slot A → A → Slot A × Bool
  publish s value = publish_to s value s.stopped

  -- WaitNext and WaitNextFor, once the wait is over: the value taken, or a null pointer.
  unfoldable pub take : Slot A → Slot A × Option A
  take s = (record s { pending = none }, s.pending)

  unfoldable pub stop : Slot A → Slot A
  stop s = record s { stopped = true }

-- What happens to a slot.
pub data Event {ℓ} (A : Type ℓ) : Type ℓ where
  publishes : A → Event A
  takes : Event A
  stops : Event A

-- A slot with what its publisher and its reader have seen so far, the newest first.
pub record Seen {ℓ} (A : Type ℓ) : Type ℓ where
  pub slot : Slot A
  pub accepted : List A
  pub delivered : List A

module _ {ℓ} {A : Type ℓ} where
  abbrev pub note_accepted : Seen A → A → Slot A × Bool → Seen A
  note_accepted s a (slot, true) = record s { slot = slot; accepted = a ∷ s.accepted }
  note_accepted s a (slot, false) = record s { slot = slot }

  abbrev pub note_delivered : Seen A → Slot A × Option A → Seen A
  note_delivered s (slot, none) = record s { slot = slot }
  note_delivered s (slot, some a) = record s { slot = slot; delivered = a ∷ s.delivered }

  unfoldable pub step : Seen A → Event A → Seen A
  unfolding publish take stop
  step s (publishes a) = note_accepted s a (publish s.slot a)
  step s takes = note_delivered s (take s.slot)
  step s stops = record s { slot = stop s.slot }

  unfoldable pub run : Seen A → List (Event A) → Seen A
  unfolding step
  run s [] = s
  run s (e ∷ es) = run (step s e) es

  unfoldable pub fresh : Seen A
  unfolding empty_slot
  fresh = record { slot = empty_slot; accepted = []; delivered = [] }
