-- ===== src/Slot/Delivery.antt =====
-- What a reader of a slot sees, for every order of calls.
use home_assignment.Common.{
  ℕ, ◌+◌, Bool, true, false, List, [], ◌∷◌, ◌≡◌, refl, ◌⊎◌, inl, inr, arith, Option, none, some,
}
use home_assignment.Common.Lists.{length}
use home_assignment.Slot.{Event, publishes, takes, stops, Seen, step, run, fresh}

module _ {ℓ} {A : Type ℓ} where
  -- The first list is the second with some elements left out.
  pub data Skips : List A → List A → Type ℓ where
    done : Skips [] []
    keep : (a : A) {xs ys : List A} → Skips xs ys → Skips (a ∷ xs) (a ∷ ys)
    skip : (a : A) {xs ys : List A} → Skips xs ys → Skips xs (a ∷ ys)

  abbrev with_pending : Option A → List A → List A
  with_pending none xs = xs
  with_pending (some a) xs = a ∷ xs

  -- The pending value is the newest one accepted, the reader's values come in the order of
  -- publishing, and every value accepted is delivered, pending or counted as lost.
  pub record Accounted (s : Seen A) : Type ℓ where
    pub in_order : Skips (with_pending s.slot.pending s.delivered) s.accepted
    pub newest :
        (s.slot.pending ≡ none)
        ⊎ ((a : A) × (rest : List A) × (s.slot.pending ≡ some a) × (s.accepted ≡ a ∷ rest))
    pub counted :
        length (with_pending s.slot.pending s.delivered) + s.slot.conflated ≡ length s.accepted

  Skips-tail : (b : A) (xs ys : List A) → Skips (b ∷ xs) ys → Skips xs ys
  Skips-tail b xs _ (keep _ h) = skip b h
  Skips-tail b xs _ (skip a {ys = ys} h) = skip a (Skips-tail b xs ys h)

  abbrev parts : Option A → Bool → ℕ → List A → List A → Seen A
  parts p stopped lost accepted delivered = record {
    slot = record { pending = p; stopped = stopped; conflated = lost };
    accepted = accepted;
    delivered = delivered;
  }

  step-parts :
      (p : Option A) (stopped : Bool) (lost : ℕ) (accepted delivered : List A) (e : Event A)
      → Accounted (parts p stopped lost accepted delivered)
      → Accounted (step (parts p stopped lost accepted delivered) e)
  unfolding step
  step-parts p true lost acc del (publishes a) h = h
  step-parts none false lost acc del (publishes a) h = record {
    in_order = keep a h.in_order;
    newest = inr (a, acc, refl, refl);
    counted = omega (arith, h.counted);
  }
  step-parts (some b) false lost acc del (publishes a) h = record {
    in_order = keep a (Skips-tail b del acc h.in_order);
    newest = inr (a, acc, refl, refl);
    counted = omega (arith, h.counted);
  }
  step-parts none stopped lost acc del takes h = h
  step-parts (some b) stopped lost acc del takes h = record {
    in_order = h.in_order;
    newest = inl refl;
    counted = h.counted;
  }
  step-parts p stopped lost acc del stops h = record {
    in_order = h.in_order;
    newest = h.newest;
    counted = h.counted;
  }

  run-step : (s : Seen A) (es : List (Event A)) → Accounted s → Accounted (run s es)
  unfolding run
  run-step s [] h = h
  run-step s (e ∷ es) h =
      run-step (step s e) es
        (step-parts s.slot.pending s.slot.stopped s.slot.conflated s.accepted s.delivered e h)

  -- After any order of publishing, taking and stopping: the reader has the values in the order in
  -- which they were accepted, with some left out; a pending value is the newest one accepted; and
  -- the values delivered, pending and counted as conflated are together those accepted.
  pub run-Accounted : (es : List (Event A)) → Accounted (run fresh es)
  unfolding fresh
  run-Accounted es =
      run-step fresh es (record { in_order = done; newest = inl refl; counted = refl })
