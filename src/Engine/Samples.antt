-- ===== src/Engine/Samples.antt =====
-- src/aggregator/engine.cc, RecordLatency: the samples are the newest calls, in a ring whose cursor
-- is at the oldest.
use native.Mathlib.Nat.{mod-eq_of_lt, mod_self}
use mathlib.Core.List.{append-nil, append_assoc}
use home_assignment.Common.{
  ℕ, zero, suc, ◌+◌, ◌%◌, ◌≤◌, ◌<◌, ◌≡◌, ◌⊎◌, refl, sym, ap, ◌∙◌, List, [], ◌∷◌, ◌++◌, inl, inr,
  arith, if◌then◌else◌, ap₂, subst,
}
use home_assignment.Common.Lists.{
  length, length-append, length-replicate, get_or, take, drop, replicate,
}
use home_assignment.Common.Int.{ℤ, pos, ltb_ℤ}
use home_assignment.Common.Sort.{reverse}
use home_assignment.Engine.{Latencies, record_latency, set_sample}
use home_assignment.Engine.Latency.{record_all, new_latencies}

-- The largest of the values, and of 0.
abbrev pub largest_of : List ℤ → ℤ
largest_of [] = pos 0
largest_of (x ∷ xs) = if ltb_ℤ (largest_of xs) x then x else largest_of xs

reverse-snoc : (xs : List ℤ) (x : ℤ) → reverse (xs ++ x ∷ []) ≡ x ∷ reverse xs
reverse-snoc [] x = refl
reverse-snoc (y ∷ xs) x = ap (λ zs. zs ++ y ∷ []) (reverse-snoc xs x)

pub length-reverse : (xs : List ℤ) → length (reverse xs) ≡ length xs
length-reverse [] = refl
length-reverse (x ∷ xs) = omega (arith, length-append (reverse xs) (x ∷ []), length-reverse xs)

set_sample-append :
    (newer older : List ℤ) (o x : ℤ)
    → set_sample (newer ++ o ∷ older) (length newer) x ≡ newer ++ x ∷ older
unfolding set_sample
set_sample-append [] older o x = refl
set_sample-append (y ∷ newer) older o x = ap (λ zs. y ∷ zs) (set_sample-append newer older o x)

pub take-all : (n : ℕ) (xs : List ℤ) → length xs ≤ n → take n xs ≡ xs
take-all zero [] h = refl
take-all zero (x ∷ xs) h = absurd (omega (arith, h))
take-all (suc n) [] h = refl
take-all (suc n) (x ∷ xs) h = ap (λ ys. x ∷ ys) (take-all n xs (omega (arith, h)))

pub take-append : (xs ys : List ℤ) → take (length xs) (xs ++ ys) ≡ xs
take-append [] ys = refl
take-append (x ∷ xs) ys = ap (λ zs. x ∷ zs) (take-append xs ys)

-- Without its last element, a prefix is the shorter prefix.
take-init :
    (n : ℕ) (xs ys : List ℤ) (o : ℤ)
    → length ys ≡ n
    → take (suc n) xs ≡ ys ++ o ∷ []
    → take n xs ≡ ys
take-init zero xs [] o h e = refl
take-init zero xs (y ∷ ys) o h e = absurd (omega (arith, h))
take-init (suc n) [] [] o h e = absurd (omega (arith, h))
take-init (suc n) [] (y ∷ ys) o h e = absurd (cc e)
take-init (suc n) (x ∷ xs) [] o h e = absurd (omega (arith, h))
take-init (suc n) (x ∷ xs) (y ∷ ys) o h e =
    ap₂ ◌∷◌ (ap (λ zs. get_or zs 0 (pos 0)) e)
      (take-init n xs ys o (omega (arith, h)) (ap (drop 1) e))

-- The calls so far, the newest first, against the samples: behind the cursor the newer ones, from it
-- on the older ones, or those that are not written yet.
abbrev pub Window : ℕ → List ℤ → List ℤ → List ℤ → Type 0
Window samples ns newer older =
    ((length ns < samples) × (reverse newer ≡ ns))
    ⊎ ((samples ≤ length ns) × (take samples ns ≡ reverse newer ++ reverse older))

pub record Ring (samples : ℕ) (ns : List ℤ) (l : Latencies) : Type 0 where
  pub count : l.count ≡ length ns
  pub largest : l.largest ≡ largest_of ns
  pub newer : List ℤ
  pub older : List ℤ
  pub held : l.samples ≡ newer ++ older
  pub cursor : l.cursor ≡ length newer
  pub size : length newer + length older ≡ samples
  pub room : length newer < samples
  pub window : Window samples ns newer older

-- The oldest sample is the next one that is replaced.
module _ (samples : ℕ) (ns : List ℤ) (x : ℤ) (newer : List ℤ) (o : ℤ) (older : List ℤ)
    (size : length newer + suc (length older) ≡ samples) where
  -- The window slides by one.
  slides :
      take samples ns ≡ reverse newer ++ reverse (o ∷ older)
      → take samples (x ∷ ns) ≡ x ∷ reverse newer ++ reverse older
  slides e =
      let n = length newer + length older in
      let s : samples ≡ suc n = omega (arith, size) in
      let kept = reverse newer ++ reverse older in
      let long : length kept ≡ n = omega (
        arith,
        length-append (reverse newer) (reverse older),
        length-reverse newer,
        length-reverse older,
      ) in
      let before : take (suc n) ns ≡ kept ++ o ∷ [] =
        subst (λ k. take k ns ≡ reverse newer ++ reverse (o ∷ older)) s e
        ∙ sym (append_assoc (reverse newer) (reverse older) (o ∷ [])) in
      subst (λ k. take k (x ∷ ns) ≡ x ∷ kept) (sym s)
        (ap (λ ys. x ∷ ys) (take-init n ns kept o long before))

  Window-next :
      suc (length newer) < samples
      → Window samples ns newer (o ∷ older)
      → Window samples (x ∷ ns) (newer ++ x ∷ []) older
  Window-next room (inl (few, e)) = inl (
    omega (arith, room, length-reverse newer, ap length e),
    reverse-snoc newer x ∙ ap (λ ys. x ∷ ys) e,
  )
  Window-next room (inr (many, e)) =
      inr (
        omega (arith, many),
        slides e ∙ ap (λ ys. ys ++ reverse older) (sym (reverse-snoc newer x)),
      )

-- The last place is written, and the cursor is back at 0.
Window-wrap :
    (samples : ℕ) (ns : List ℤ) (x : ℤ) (newer : List ℤ) (o : ℤ)
    → length newer + 1 ≡ samples
    → Window samples ns newer (o ∷ [])
    → Window samples (x ∷ ns) [] (newer ++ x ∷ [])
Window-wrap samples ns x newer o size (inl (few, e)) =
    let long : length ns + 1 ≡ samples = omega (arith, size, length-reverse newer, ap length e) in
    inr (
      omega (arith, long),
      take-all samples (x ∷ ns) (omega (arith, long))
          ∙ ap (λ ys. x ∷ ys) (sym e)
          ∙ sym (reverse-snoc newer x),
    )
Window-wrap samples ns x newer o size (inr (many, e)) = inr (
  omega (arith, many),
  slides samples ns x newer o [] size e
      ∙ append-nil (x ∷ reverse newer)
      ∙ sym (reverse-snoc newer x),
)

record_latency-Ring :
    (samples : ℕ) (ns : List ℤ) (l : Latencies) (x : ℤ)
    → Ring samples ns l
    → Ring samples (x ∷ ns) (record_latency l x)
unfolding record_latency
record_latency-Ring samples ns l x r = go r.older r.held r.size r.window
  where
    at :
        (older : List ℤ) (o : ℤ)
        → l.samples ≡ r.newer ++ o ∷ older
        → set_sample l.samples l.cursor x ≡ r.newer ++ x ∷ older
    at older o held =
        ap₂ (λ s c. set_sample s c x) held r.cursor ∙ set_sample-append r.newer older o x

    moved :
        (older : List ℤ)
        → l.samples ≡ r.newer ++ older
        → length r.newer + length older ≡ samples
        → (l.cursor + 1) % length l.samples ≡ (length r.newer + 1) % samples
    moved older held size =
        ap₂ (λ c n. (c + 1) % n) r.cursor (ap length held ∙ length-append r.newer older ∙ size)

    count' : l.count + 1 ≡ suc (length ns)
    count' = omega (arith, r.count)

    go :
        (older : List ℤ)
        → l.samples ≡ r.newer ++ older
        → length r.newer + length older ≡ samples
        → Window samples ns r.newer older
        → Ring samples (x ∷ ns) (record_latency l x)
    go [] held size w = absurd (omega (arith, size, r.room))
    go (o ∷ []) held size w =
        let size' : length r.newer + 1 ≡ samples = omega (arith, size) in
        record {
          count = count';
          largest = ap (λ m. if ltb_ℤ m x then x else m) r.largest;
          newer = [];
          older = r.newer ++ x ∷ [];
          held = at [] o held;
          cursor = moved (o ∷ []) held size ∙ ap (λ k. k % samples) size' ∙ mod_self samples;
          size = omega (arith, length-append r.newer (x ∷ []), size');
          room = omega (arith, size');
          window = Window-wrap samples ns x r.newer o size' w;
        }
    go (o ∷ p ∷ older) held size w =
        let room' : suc (length r.newer) < samples = omega (arith, size) in
        let long = length-append r.newer (x ∷ []) in
        record {
          count = count';
          largest = ap (λ m. if ltb_ℤ m x then x else m) r.largest;
          newer = r.newer ++ x ∷ [];
          older = p ∷ older;
          held = at (p ∷ older) o held ∙ sym (append_assoc r.newer (x ∷ []) (p ∷ older));
          cursor = moved (o ∷ p ∷ older) held size ∙ mod-eq_of_lt (omega (arith, room')) ∙ sym long;
          size = omega (arith, long, size);
          room = omega (arith, long, room');
          window = Window-next samples ns x r.newer o (p ∷ older) size room' w;
        }

new_latencies-Ring : (samples : ℕ) → 0 < samples → Ring samples [] (new_latencies samples)
unfolding new_latencies
new_latencies-Ring samples h = record {
  count = refl;
  largest = refl;
  newer = [];
  older = replicate samples (pos 0);
  held = refl;
  cursor = refl;
  size = omega (arith, length-replicate samples (pos 0));
  room = h;
  window = inl (h, refl);
}

pub record_all-Ring :
    (samples : ℕ) (ns : List ℤ) → 0 < samples → Ring samples ns (record_all samples ns)
unfolding record_all
record_all-Ring samples [] h = new_latencies-Ring samples h
record_all-Ring samples (x ∷ ns) h =
    record_latency-Ring samples ns (record_all samples ns) x (record_all-Ring samples ns h)
