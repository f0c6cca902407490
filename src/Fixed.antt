-- ===== src/Fixed.antt =====
-- src/core/fixed.h and src/core/fixed.cc: fixed-point amounts with eight decimals. `Px`, `Qty`,
-- `Notional` and `Wide` are integers; NarrowSaturating is the release build's, which saturates
-- where the debug build asserts. A text is the list of its bytes.
pub mod Bounds
pub mod Printing
pub mod RoundTrip
use home_assignment.Common.{
  ℕ, zero, suc, ◌+◌, ◌-◌, ◌*◌, ◌/◌, ◌%◌, ◌^◌, Bool, true, false, ◌&&◌, ◌||◌, List, [], ◌∷◌, ◌++◌,
  Option, none, some, if◌then◌else◌, ltb, leb, ◌==◌,
}
use home_assignment.Common.Lists.{get_or, take}
use home_assignment.Common.Int.{ℤ, pos, negsuc, ◌+ℤ◌, ◌-ℤ◌, ◌*ℤ◌, ◌/ℤ◌, ltb_ℤ, leb_ℤ, neg_ℤ}

-- `kScale` and `kScaleDigits`.
abbrev pub scale : ℕ
scale = 100_000_000

abbrev pub scale_digits : ℕ
scale_digits = 8

abbrev pub int64_max : ℕ
int64_max = 9223372036854775807

abbrev pub max_integer_part : ℕ
max_integer_part = int64_max / scale

-- INT64_MAX and INT64_MIN.
abbrev pub largest : ℤ
largest = pos int64_max

abbrev pub smallest : ℤ
smallest = negsuc int64_max

unfoldable pub narrow_saturating : ℤ → ℤ
narrow_saturating v = if ltb_ℤ largest v then largest else if ltb_ℤ v smallest then smallest else v

unfoldable pub notional_wide : ℤ → ℤ → ℤ
notional_wide px qty = px *ℤ qty /ℤ pos scale

unfoldable pub notional_e8 : ℤ → ℤ → ℤ
unfolding notional_wide narrow_saturating
notional_e8 px qty = narrow_saturating (notional_wide px qty)

unfoldable pub qty_for_notional : ℤ → ℤ → ℤ
unfolding narrow_saturating
qty_for_notional notional px =
    if leb_ℤ px (pos 0) || leb_ℤ notional (pos 0)
    then pos 0
    else narrow_saturating (notional *ℤ pos scale /ℤ px)

unfoldable pub vwap : ℤ → ℤ → ℤ
unfolding narrow_saturating
vwap notional qty =
    if leb_ℤ qty (pos 0) then pos 0 else narrow_saturating (notional *ℤ pos scale /ℤ qty)

unfoldable pub bps_e8 : ℤ → ℤ → ℤ
unfolding narrow_saturating
bps_e8 delta reference =
    if leb_ℤ reference (pos 0)
    then pos 0
    else narrow_saturating (delta *ℤ pos 10000 *ℤ pos scale /ℤ reference)

abbrev pub bps_scale : ℕ
bps_scale = 1_000_000_000_000

-- The distance of the bound, rounded up.
unfoldable pub outward_delta : ℤ → ℤ → ℤ
outward_delta reference offset = (reference *ℤ offset +ℤ pos bps_scale -ℤ pos 1) /ℤ pos bps_scale

unfoldable pub offset_by_bps_outward : ℤ → ℤ → Bool → ℤ
unfolding narrow_saturating outward_delta
offset_by_bps_outward reference offset downward =
    if leb_ℤ reference (pos 0) || leb_ℤ offset (pos 0)
    then reference
    else narrow_saturating (
        if downward
        then reference -ℤ outward_delta reference offset
        else reference +ℤ outward_delta reference offset)

abbrev pub is_digit : ℕ → Bool
is_digit c = leb b'0' c && leb c b'9'

-- Where a loop over digits stopped.
pub record Scan : Type 0 where
  pub value : ℕ
  pub digits : ℕ
  pub saw_digit : Bool
  pub rest : List ℕ

-- The loop over the integer part; `none` where it returns false.
pub integer_loop : ℕ → Bool → List ℕ → Option Scan
integer_loop acc saw [] = some (record { value = acc; digits = 0; saw_digit = saw; rest = [] })
integer_loop acc saw (c ∷ cs) =
    let next = integer_loop (acc * 10 + (c - b'0')) true cs in
    if is_digit c
    then (if ltb (max_integer_part / 10) acc || ltb max_integer_part (acc * 10 + (c - b'0'))
        then none
        else next)
    else some (record { value = acc; digits = 0; saw_digit = saw; rest = c ∷ cs })

-- The loop over the fraction, which drops the digits past the eighth.
pub fraction_loop : ℕ → ℕ → Bool → List ℕ → Scan
fraction_loop acc digits saw [] = record {
  value = acc;
  digits = digits;
  saw_digit = saw;
  rest = [];
}
fraction_loop acc digits saw (c ∷ cs) =
    let kept = fraction_loop (acc * 10 + (c - b'0')) (digits + 1) true cs in
    let dropped = fraction_loop acc digits true cs in
    if is_digit c
    then (if ltb digits scale_digits then kept else dropped)
    else record { value = acc; digits = digits; saw_digit = saw; rest = c ∷ cs }

-- The point, if there is one, and the fraction.
pub scan_fraction : Bool → List ℕ → Scan
unfolding fraction_loop
scan_fraction saw [] = record { value = 0; digits = 0; saw_digit = saw; rest = [] }
scan_fraction saw (c ∷ cs) =
    if c == b'.'
    then fraction_loop 0 0 saw cs
    else record { value = 0; digits = 0; saw_digit = saw; rest = c ∷ cs }

-- `while (digits < kScaleDigits)`, with the rounds left.
pub pad : ℕ → ℕ → ℕ
pad zero fraction = fraction
pad (suc left) fraction = pad left (fraction * 10)

abbrev at_end : List ℕ → Bool
at_end [] = true
at_end (c ∷ cs) = false

-- The checks and the result, once both parts are read.
pub assemble : Bool → ℕ → Scan → Option ℤ
unfolding pad
assemble negative integer_part scan =
    let fraction = pad (scale_digits - scan.digits) scan.value in
    let value = integer_part * scale + fraction in
    if at_end scan.rest && scan.saw_digit
    then (if ltb ((int64_max - fraction) / scale) integer_part
        then none
        else some (if negative then neg_ℤ (pos value) else pos value))
    else none

abbrev pub after_integer : Bool → Option Scan → Option ℤ
after_integer negative none = none
after_integer negative (some scan) =
    assemble negative scan.value (scan_fraction scan.saw_digit scan.rest)

pub parse_unsigned : Bool → List ℕ → Option ℤ
unfolding integer_loop scan_fraction assemble
parse_unsigned negative s = after_integer negative (integer_loop 0 false s)

unfoldable pub parse_fixed : List ℕ → Option ℤ
unfolding parse_unsigned
parse_fixed [] = none
parse_fixed (c ∷ cs) =
    if c == b'+' || c == b'-' then parse_unsigned (c == b'-') cs else parse_unsigned false (c ∷ cs)

-- `static_cast<std::uint64_t>(v)`.
abbrev as_uint64 : ℤ → ℕ
as_uint64 (pos n) = n % 2 ^ 64
as_uint64 (negsuc n) = 2 ^ 64 - 1 - n % 2 ^ 64

-- `~static_cast<std::uint64_t>(v) + 1` for a negative value.
pub magnitude : ℤ → ℕ
magnitude v = if ltb_ℤ v (pos 0) then (2 ^ 64 - 1 - as_uint64 v + 1) % 2 ^ 64 else as_uint64 v

-- The digits of the fraction, the last first.
pub frac_digits : ℕ → ℕ → List ℕ → List ℕ
frac_digits zero fraction out = out
frac_digits (suc i) fraction out = frac_digits i (fraction / 10) ((b'0' + fraction % 10) ∷ out)

-- `while (keep > min_decimals && frac_digits[keep - 1] == '0') --keep;`
pub trim : ℕ → ℕ → List ℕ → ℕ
trim min_decimals zero digits = 0
trim min_decimals (suc k) digits =
    if ltb min_decimals (suc k) && get_or digits k 0 == b'0'
    then trim min_decimals k digits
    else suc k

-- `std::to_string`, with fuel for as many digits as there are.
pub to_string : ℕ → ℕ → List ℕ → List ℕ
to_string zero n out = out
to_string (suc fuel) n out =
    let more = to_string fuel (n / 10) ((b'0' + n % 10) ∷ out) in
    if n / 10 == 0 then (b'0' + n % 10) ∷ out else more

abbrev pub with_fraction : ℕ → List ℕ → List ℕ
with_fraction zero digits = []
with_fraction (suc k) digits = b'.' ∷ take (suc k) digits

unfoldable pub format_fixed : ℤ → ℕ → List ℕ
unfolding magnitude frac_digits trim to_string
format_fixed v min_decimals =
    let digits = frac_digits scale_digits (magnitude v % scale) [] in
    let body =
      to_string 20 (magnitude v / scale)
        (with_fraction (trim min_decimals scale_digits digits) digits) in
    if ltb_ℤ v (pos 0) then b'-' ∷ body else body
