-- ===== src/Json.antt =====
-- src/net/json.h: reading fixed-point amounts, levels, texts and integers from a parsed document.
-- simdjson is not part of the repository: its documents and accessors are the parameter `Json`.
pub mod Integers
pub mod Levels
pub mod Numbers
use home_assignment.Common.{
  ℕ, zero, suc, ◌+◌, ◌-◌, ◌*◌, ◌/◌, ◌%◌, Bool, true, false, not, ◌&&◌, ◌||◌, List, [], ◌∷◌, Option,
  none, some, if◌then◌else◌, ltb, ◌==◌,
}
use home_assignment.Common.Int.{ℤ, pos, neg_ℤ, ltb_ℤ, leb_ℤ}
use home_assignment.Fixed.{int64_max, smallest, is_digit, parse_fixed}
use home_assignment.Book.{Level}

-- A parsed element and its accessors; `none` is an error code.
pub record Json : Type 1 where
  pub Element : Type 0
  pub parse : List ℕ → Option Element
  pub at_key : Element → List ℕ → Option Element
  pub string_of : Element → Option (List ℕ)
  pub int64_of : Element → Option ℤ
  pub bool_of : Element → Option Bool
  pub array_of : Element → Option (List Element)

abbrev at_end : List ℕ → Bool
at_end [] = true
at_end (c ∷ cs) = false

abbrev pub signed : Bool → ℕ → ℤ
signed negative n = if negative then neg_ℤ (pos n) else pos n

-- The loop of GetI64 over the digits of a text.
unfoldable pub i64_loop : Bool → ℕ → List ℕ → Option ℤ
i64_loop negative parsed [] = some (signed negative parsed)
i64_loop negative parsed (c ∷ cs) =
    let digit = c - b'0' in
    let next = i64_loop negative (parsed * 10 + digit) cs in
    if not (is_digit c)
    then none
    else if ltb ((int64_max - digit) / 10) parsed
    then (if negative && at_end cs && parsed == int64_max / 10 && digit == 8 && int64_max % 10 == 7
        then some smallest
        else none)
    else next

-- An optional `-`, which may not stand alone, and the digits.
unfoldable pub i64_of_text : List ℕ → Option ℤ
unfolding i64_loop
i64_of_text [] = none
i64_of_text (c ∷ []) = if c == b'-' then none else i64_loop false 0 (c ∷ [])
i64_of_text (c ∷ d ∷ cs) =
    if c == b'-' then i64_loop true 0 (d ∷ cs) else i64_loop false 0 (c ∷ d ∷ cs)

-- `Option` chains.
infixl 5 ◌>>=◌
abbrev pub ◌>>=◌ {ℓ κ} : {A : Type ℓ} {B : Type κ} → Option A → (A → Option B) → Option B
none >>= f = none
some a >>= f = f a

abbrev pub or_else {ℓ} : {A : Type ℓ} → Option A → Option A → Option A
or_else none other = other
or_else (some a) other = some a

module _ (json : Json) where
  open json use {Element, string_of, int64_of, array_of}

  unfoldable pub get_string : Option Element → Option (List ℕ)
  get_string value = value >>= string_of

  unfoldable pub get_fixed : Option Element → Option ℤ
  get_fixed value = do element ← value; text ← string_of element; parse_fixed text

  unfoldable pub get_i64 : Option Element → Option ℤ
  unfolding i64_of_text
  get_i64 value = do element ← value; or_else (int64_of element) (string_of element >>= i64_of_text)

  -- The fields of one entry: the first two must be amounts, the others are ignored.
  unfoldable pub level_of : List Element → Option Level
  unfolding get_fixed
  level_of [] = none
  level_of (first ∷ []) = none
  level_of (first ∷ second ∷ others) = do
    px ← get_fixed (some first)
    qty ← get_fixed (some second)
    if leb_ℤ px (pos 0) || ltb_ℤ qty (pos 0) then none else some (record { px = px; qty = qty })

  unfoldable pub parse_entries : List Element → Option (List Level)
  unfolding level_of
  parse_entries [] = some []
  parse_entries (entry ∷ entries) = do
    pair ← array_of entry
    level ← level_of pair
    levels ← parse_entries entries
    some (level ∷ levels)

  unfoldable pub parse_level_array : Option Element → Option (List Level)
  unfolding parse_entries
  parse_level_array value = do element ← value; entries ← array_of element; parse_entries entries
