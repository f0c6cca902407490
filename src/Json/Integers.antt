-- ===== src/Json/Integers.antt =====
-- The digits that GetI64 reads from a text.
use home_assignment.Common.{
  ℕ, ◌+◌, ◌-◌, ◌*◌, ◌/◌, ◌≤◌, Bool, true, false, ◌&&◌, List, [], ◌∷◌, ◌≡◌, refl, ◌∙◌, arith, none,
  some, if◌then◌else◌, ltb, leb, Bool-cases, inl, inr,
}
use home_assignment.Common.Int.{neg_ℤ}
use home_assignment.Fixed.{int64_max, smallest, is_digit}
use home_assignment.Json.{i64_loop, signed}

-- The digits, read on from a value.
unfoldable pub decimal : ℕ → List ℕ → ℕ
decimal acc [] = acc
decimal acc (c ∷ cs) = decimal (acc * 10 + (c - b'0')) cs

unfoldable pub all_digits : List ℕ → Bool
all_digits [] = true
all_digits (c ∷ cs) = is_digit c && all_digits cs

-- The largest magnitude that int64_t has on each side.
abbrev pub magnitude_limit : Bool → ℕ
magnitude_limit true = int64_max + 1
magnitude_limit false = int64_max

acc-le-decimal : (acc : ℕ) (cs : List ℕ) → acc ≤ decimal acc cs
unfolding decimal
acc-le-decimal acc [] = omega arith
acc-le-decimal acc (c ∷ cs) = omega (arith, acc-le-decimal (acc * 10 + (c - b'0')) cs)

signed-smallest : (n : ℕ) → n ≡ int64_max + 1 → signed true n ≡ smallest
unfolding neg_ℤ
signed-smallest n e = ground arith

-- Past the guard nothing fits but the last digit of INT64_MIN.
overflow_end :
    (negative : Bool) (acc c : ℕ)
    → is_digit c ≡ true
    → ltb ((int64_max - (c - b'0')) / 10) acc ≡ true
    → i64_loop negative acc (c ∷ []) ≡ (
        if leb (acc * 10 + (c - b'0')) (magnitude_limit negative)
        then some (signed negative (acc * 10 + (c - b'0')))
        else none)
unfolding i64_loop
overflow_end false acc c h k = ground arith
overflow_end true acc c h k = ground (arith, signed-smallest (acc * 10 + (c - b'0')))

overflow_more :
    (negative : Bool) (acc c d : ℕ) (cs : List ℕ)
    → is_digit c ≡ true
    → ltb ((int64_max - (c - b'0')) / 10) acc ≡ true
    → (i64_loop negative acc (c ∷ d ∷ cs) ≡ none)
      × (leb (decimal acc (c ∷ d ∷ cs)) (magnitude_limit negative) ≡ false)
unfolding i64_loop decimal
overflow_more false acc c d cs h k =
    let m = acc-le-decimal ((acc * 10 + (c - b'0')) * 10 + (d - b'0')) cs in
    (ground arith, ground arith)
overflow_more true acc c d cs h k =
    let m = acc-le-decimal ((acc * 10 + (c - b'0')) * 10 + (d - b'0')) cs in
    (ground arith, ground arith)

-- From an empty text on, the loop gives the value of the digits exactly when it fits int64_t.
pub i64_loop-decimal :
    (negative : Bool) (acc : ℕ) (cs : List ℕ)
    → acc ≤ int64_max
    → i64_loop negative acc cs ≡ (
        if all_digits cs && leb (decimal acc cs) (magnitude_limit negative)
        then some (signed negative (decimal acc cs))
        else none)
unfolding i64_loop decimal all_digits
i64_loop-decimal true acc [] h = ground arith
i64_loop-decimal false acc [] h = ground arith
i64_loop-decimal negative acc (c ∷ cs) h = elim (Bool-cases (is_digit c)) [
  | inr other ↦ rw other
  | inl digit ↦ elim (Bool-cases (ltb ((int64_max - (c - b'0')) / 10) acc)) [
    | inl over ↦ past cs digit over
    | inr under ↦
        let next = i64_loop-decimal negative (acc * 10 + (c - b'0')) cs (ground arith) in
        rw (digit, under) next
  ]
]
  where
    past :
        (cs : List ℕ)
        → is_digit c ≡ true
        → ltb ((int64_max - (c - b'0')) / 10) acc ≡ true
        → i64_loop negative acc (c ∷ cs) ≡ (
            if all_digits (c ∷ cs) && leb (decimal acc (c ∷ cs)) (magnitude_limit negative)
            then some (signed negative (decimal acc (c ∷ cs)))
            else none)
    past [] digit over = overflow_end negative acc c digit over ∙ rw digit refl
    past (d ∷ ds) digit over =
        let (stops, big) = overflow_more negative acc c d ds digit over in ground arith
