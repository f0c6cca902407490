-- ===== src/Flags.antt =====
-- src/common/flags.h: the command line, and what src/clients/common.h and src/aggregator/main.cc read
-- from it. A failure, which ends the program with exit code 2, is a value with what its message names.
pub mod Parsing
pub mod Clients
use home_assignment.Common.{
  ℕ, ◌+◌, ◌-◌, ◌*◌, ◌^◌, Bool, true, false, not, ◌&&◌, ◌||◌, List, [], ◌∷◌, ◌++◌, Option, none,
  some, if◌then◌else◌, ◌==◌, ltb,
}
use home_assignment.Common.Int.{ℤ, pos, neg_ℤ, ltb_ℤ}
use home_assignment.Common.Text.{codes, text_eq}
use home_assignment.Fixed.{is_digit}
use home_assignment.Url.{strip_prefix, cut_at}

pub data Failure : Type 0 where
  unexpected_argument : List ℕ → Failure
  unknown_flag : List ℕ → Failure
  not_an_integer : List ℕ → List ℕ → Failure
  not_between : List ℕ → ℤ → ℤ → ℤ → Failure
  not_a_boolean : List ℕ → List ℕ → Failure
  unknown_venue : List ℕ → Failure
  too_many_venues : ℕ → Failure
  no_venues : Failure

pub data Checked {ℓ} (A : Type ℓ) : Type ℓ where
  got : A → Checked A
  fails : Failure → Checked A

abbrev pub and_then {ℓ} : {A : Type ℓ} → {B : Type ℓ} → Checked A → (A → Checked B) → Checked B
and_then (got a) f = f a
and_then (fails failure) f = fails failure

-- A std::map<std::string, std::string>: the entries in the order of the keys.
abbrev pub Values : Type 0
Values = List (List ℕ × List ℕ)

-- The order of the keys.
unfoldable pub text_less : List ℕ → List ℕ → Bool
text_less xs [] = false
text_less [] (y ∷ ys) = true
text_less (x ∷ xs) (y ∷ ys) = let rest = text_less xs ys in if x == y then rest else ltb x y

-- `values_[key] = value`.
unfoldable pub assign : List ℕ → List ℕ → Values → Values
unfolding text_less
assign key value [] = (key, value) ∷ []
assign key value ((k, v) ∷ entries) =
    let rest = (k, v) ∷ assign key value entries in
    if text_eq k key
    then (key, value) ∷ entries
    else if text_less key k
    then (key, value) ∷ (k, v) ∷ entries
    else rest

unfoldable pub lookup : List ℕ → Values → Option (List ℕ)
lookup key [] = none
lookup key ((k, v) ∷ entries) = if text_eq k key then some v else lookup key entries

-- Key and value of a flag, from its text up to `=` and from there on.
abbrev pub assign_flag : List ℕ × List ℕ → Values → Values
assign_flag (key, []) values = assign key (codes "true") values
assign_flag (key, equals ∷ value) values = assign key value values

-- The constructor's loop over the arguments behind the program's name.
unfoldable pub parse_args : List (List ℕ) → Values → Checked Values
unfolding strip_prefix cut_at assign
parse_args [] values = got values
parse_args (argument ∷ arguments) values = elim (strip_prefix (codes "--") argument) [
  | none ↦ fails (unexpected_argument argument)
  | some flag ↦ parse_args arguments (assign_flag (cut_at b'=' flag) values)
]

unfoldable pub is_known : List ℕ → List (List ℕ) → Bool
is_known key [] = false
is_known key (candidate ∷ known) = text_eq key candidate || is_known key known

unfoldable pub require_known : List (List ℕ) → Values → Checked Values
unfolding is_known
require_known known [] = got []
require_known known ((key, value) ∷ entries) =
    if is_known key known
    then and_then (require_known known entries) (λ rest. got ((key, value) ∷ rest))
    else fails (unknown_flag key)

abbrev pub or_fallback : List ℕ → Option (List ℕ) → List ℕ
or_fallback fallback none = fallback
or_fallback fallback (some value) = value

unfoldable pub get : Values → List ℕ → List ℕ → List ℕ
unfolding lookup
get values key fallback = or_fallback fallback (lookup key values)

-- std::from_chars for int, where it must read the whole text: an optional minus sign and at least
-- one digit, of a number that an int can hold.
abbrev pub digits_from : ℕ → List ℕ → Option ℕ
digits_from n [] = some n
digits_from n (c ∷ cs) = if is_digit c then digits_from (n * 10 + (c - b'0')) cs else none

abbrev pub digits : List ℕ → Option ℕ
digits [] = none
digits (c ∷ cs) = digits_from 0 (c ∷ cs)

abbrev pub if_int : ℤ → Option ℤ
if_int n = if ltb_ℤ n (neg_ℤ (pos (2 ^ 31))) || ltb_ℤ (pos (2 ^ 31 - 1)) n then none else some n

abbrev pub signed : Bool → Option ℕ → Option ℤ
signed negative none = none
signed negative (some n) = if_int (if negative then neg_ℤ (pos n) else pos n)

unfoldable pub from_chars : List ℕ → Option ℤ
from_chars [] = none
from_chars (c ∷ cs) = if c == b'-' then signed true (digits cs) else signed false (digits (c ∷ cs))

abbrev pub int_or_fail : List ℕ → List ℕ → Option ℤ → Checked ℤ
int_or_fail key text none = fails (not_an_integer key text)
int_or_fail key text (some n) = got n

abbrev pub get_int_of : List ℕ → ℤ → Option (List ℕ) → Checked ℤ
get_int_of key fallback none = got fallback
get_int_of key fallback (some text) = int_or_fail key text (from_chars text)

-- GetInt without a range.
unfoldable pub get_int : Values → List ℕ → ℤ → Checked ℤ
unfolding lookup from_chars
get_int values key fallback = get_int_of key fallback (lookup key values)

abbrev pub check_range : List ℕ → ℤ → ℤ → ℤ → Checked ℤ
check_range key minimum maximum value =
    if ltb_ℤ value minimum || ltb_ℤ maximum value
    then fails (not_between key minimum maximum value)
    else got value

-- GetInt with a range, which the fallback is checked against as well.
unfoldable pub get_int_between : Values → List ℕ → ℤ → ℤ → ℤ → Checked ℤ
unfolding get_int
get_int_between values key fallback minimum maximum =
    and_then (get_int values key fallback) (check_range key minimum maximum)

abbrev pub bool_of : List ℕ → List ℕ → Checked Bool
bool_of key text =
    if text_eq text (codes "true") || text_eq text (codes "1") || text_eq text (codes "yes")
    then got true
    else if text_eq text (codes "false") || text_eq text (codes "0") || text_eq text (codes "no")
    then got false
    else fails (not_a_boolean key text)

abbrev pub get_bool_of : List ℕ → Bool → Option (List ℕ) → Checked Bool
get_bool_of key fallback none = got fallback
get_bool_of key fallback (some text) = bool_of key text

unfoldable pub get_bool : Values → List ℕ → Bool → Checked Bool
unfolding lookup
get_bool values key fallback = get_bool_of key fallback (lookup key values)
