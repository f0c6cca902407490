-- ===== src/Json/Numbers.antt =====
-- What GetI64 reads from an element of a document.
use home_assignment.Common.{
  ℕ, Bool, true, false, ◌&&◌, List, [], ◌∷◌, ◌≡◌, refl, arith, Option, none, some, if◌then◌else◌,
  leb, ◌==◌, Bool-cases, inl, inr,
}
use home_assignment.Common.Int.{ℤ, pos, neg_ℤ}
use home_assignment.Json.{Json, i64_of_text, get_i64, or_else, ◌>>=◌}
use home_assignment.Json.Integers.{decimal, all_digits, magnitude_limit, i64_loop-decimal}

-- The value of a non-empty text of digits whose magnitude is within the limit of its sign.
abbrev pub digits_value : Bool → List ℕ → Option ℤ
digits_value negative [] = none
digits_value negative (c ∷ cs) =
    let value = decimal 0 (c ∷ cs) in
    if all_digits (c ∷ cs) && leb value (magnitude_limit negative)
    then some (if negative then neg_ℤ (pos value) else pos value)
    else none

-- A text of an optional `-` and digits.
abbrev pub decimal_text : List ℕ → Option ℤ
decimal_text [] = none
decimal_text (c ∷ cs) = if c == b'-' then digits_value true cs else digits_value false (c ∷ cs)

i64_of_text-decimal_text : (text : List ℕ) → i64_of_text text ≡ decimal_text text
unfolding i64_of_text
i64_of_text-decimal_text [] = refl
i64_of_text-decimal_text (c ∷ []) = elim (Bool-cases (c == b'-')) [
  | inl minus ↦ rw minus refl
  | inr other ↦ rw other (i64_loop-decimal false 0 (c ∷ []) (omega arith))
]
i64_of_text-decimal_text (c ∷ d ∷ cs) = elim (Bool-cases (c == b'-')) [
  | inl minus ↦ rw minus (i64_loop-decimal true 0 (d ∷ cs) (omega arith))
  | inr other ↦ rw other (i64_loop-decimal false 0 (c ∷ d ∷ cs) (omega arith))
]

module _ (json : Json) where
  open json use {Element, string_of, int64_of}

  -- An integer of the document as it is, or else the integer that its text is.
  abbrev pub number_of : Option ℤ → Option (List ℕ) → Option ℤ
  number_of (some n) text = some n
  number_of none none = none
  number_of none (some text) = decimal_text text

  abbrev pub number_in : Option Element → Option ℤ
  number_in none = none
  number_in (some element) = number_of (int64_of element) (string_of element)

  by_number :
      (number : Option ℤ) (text : Option (List ℕ))
      → or_else number (text >>= i64_of_text) ≡ number_of number text
  by_number (some n) text = refl
  by_number none none = refl
  by_number none (some text) = i64_of_text-decimal_text text

  -- GetI64 gives an integer of the document as it is. From a text it gives the integer that the
  -- text stands for exactly if it is an optional `-` and at least one digit, and nothing else, and
  -- the value fits int64_t, INT64_MIN included. Otherwise it refuses.
  pub get_i64-number_in : (value : Option Element) → get_i64 json value ≡ number_in value
  unfolding get_i64
  get_i64-number_in none = refl
  get_i64-number_in (some element) = by_number (int64_of element) (string_of element)
