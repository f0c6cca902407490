-- ===== src/Fixed/RoundTrip.antt =====
-- src/core/fixed.cc: ParseFixed reads what FormatFixed prints.
use mathlib.Core.List.{append-nil, append_assoc}
use home_assignment.Common.{
  ℕ, zero, suc, ◌+◌, ◌-◌, ◌*◌, ◌/◌, ◌%◌, ◌≤◌, ◌<◌, ◌≡◌, refl, sym, ap, ap₂, ◌∙◌, Bool, true, false,
  ◌&&◌, ◌||◌, List, [], ◌∷◌, ◌++◌, some, if◌then◌else◌, ltb, leb, ◌==◌, arith,
}
use home_assignment.Common.Lists.{length, get_or, take, replicate, length-take}
use home_assignment.Common.Int.{ℤ, pos, negsuc, neg_ℤ, ltb_ℤ, ◌≤ℤ◌, ◌<ℤ◌}
use home_assignment.Fixed.{
  Scan, is_digit, integer_loop, fraction_loop, scan_fraction, pad, assemble, parse_unsigned,
  parse_fixed, magnitude, frac_digits, trim, to_string, with_fraction, format_fixed, int64_max,
  largest, smallest, scale, scale_digits, after_integer,
}
use home_assignment.Fixed.Printing.{
  AllDigits, Fits, Under, integer_loop-to_string, to_string-head, decimal-append,
  decimal-frac_digits, frac_digits-AllDigits, length-frac_digits, pad-decimal,
}
use home_assignment.Json.Integers.{decimal}

abbrev read : ℕ → ℕ → List ℕ → Scan
read value digits rest = record { value = value; digits = digits; saw_digit = true; rest = rest }

fraction_loop-digits :
    (acc d : ℕ) (ds : List ℕ)
    → AllDigits ds
    → d + length ds ≤ scale_digits
    → fraction_loop acc d true ds ≡ read (decimal acc ds) (d + length ds) []
unfolding fraction_loop decimal
fraction_loop-digits acc d [] h k = ap (λ n. read acc n []) (omega arith)
fraction_loop-digits acc d (c ∷ ds) h k =
    let fits : ltb d scale_digits ≡ true = ground (arith, k) in
    rw (h.0, fits)
      (fraction_loop-digits (acc * 10 + (c - b'0')) (d + 1) ds h.1 (omega (arith, k))
        ∙ ap (λ n. read (decimal (acc * 10 + (c - b'0')) ds) n []) (omega arith))

take-AllDigits : (n : ℕ) (ds : List ℕ) → AllDigits ds → AllDigits (take n ds)
take-AllDigits zero ds h = tt
take-AllDigits (suc n) [] h = tt
take-AllDigits (suc n) (d ∷ ds) h = (h.0, take-AllDigits n ds h.1)

take-length : (ds : List ℕ) → take (length ds) ds ≡ ds
take-length [] = refl
take-length (d ∷ ds) = ap (λ xs. d ∷ xs) (take-length ds)

take-last :
    (n : ℕ) (ds : List ℕ) → n < length ds → take (suc n) ds ≡ take n ds ++ get_or ds n 0 ∷ []
take-last n [] h = absurd (omega (arith, h))
take-last zero (d ∷ ds) h = refl
take-last (suc n) (d ∷ ds) h = ap (λ xs. d ∷ xs) (take-last n ds (omega (arith, h)))

replicate-last : (n c : ℕ) → replicate n c ++ c ∷ [] ≡ replicate (suc n) c
replicate-last zero c = refl
replicate-last (suc n) c = ap (λ xs. c ∷ xs) (replicate-last n c)

-- What is trimmed away are zeros.
abbrev Trims : ℕ → List ℕ → ℕ → Type 0
Trims k ds t = (t ≤ k) × (take k ds ≡ take t ds ++ replicate (k - t) b'0')

if-Trims :
    (k : ℕ) (ds : List ℕ) (b : Bool) (x y : ℕ)
    → (b ≡ true → Trims k ds x)
    → (b ≡ false → Trims k ds y)
    → Trims k ds (if b then x else y)
if-Trims k ds true x y h h' = h refl
if-Trims k ds false x y h h' = h' refl

Trims-same : (k t : ℕ) (ds : List ℕ) → t ≡ k → Trims k ds t
Trims-same k t ds e =
    let nothing : 0 ≡ k - t = omega (arith, e) in
    (
      omega (arith, e),
      ap (λ n. take n ds) (sym e)
          ∙ sym (append-nil (take t ds))
          ∙ ap (λ n. take t ds ++ replicate n b'0') nothing,
    )

Trims-next :
    (k t : ℕ) (ds : List ℕ)
    → k < length ds
    → get_or ds k 0 ≡ b'0'
    → Trims k ds t
    → Trims (suc k) ds t
Trims-next k t ds h zero_digit (le, e) =
    let more : suc (k - t) ≡ suc k - t = omega (arith, le) in
    (
      omega (arith, le),
      take-last k ds h
          ∙ ap₂ (λ xs c. xs ++ c ∷ []) e zero_digit
          ∙ append_assoc (take t ds) (replicate (k - t) b'0') (b'0' ∷ [])
          ∙ ap (λ xs. take t ds ++ xs) (replicate-last (k - t) b'0')
          ∙ ap (λ n. take t ds ++ replicate n b'0') more,
    )

trim-Trims :
    (min_decimals k : ℕ) (ds : List ℕ) → k ≤ length ds → Trims k ds (trim min_decimals k ds)
unfolding trim
trim-Trims min_decimals zero ds h = Trims-same 0 0 ds refl
trim-Trims min_decimals (suc k) ds h =
    if-Trims (suc k) ds (ltb min_decimals (suc k) && get_or ds k 0 == b'0') (trim min_decimals k ds)
      (suc k)
      (λ drops.
        Trims-next k (trim min_decimals k ds) ds (omega (arith, h)) (ground (arith, drops))
          (trim-Trims min_decimals k ds (omega (arith, h))))
      (λ keeps. Trims-same (suc k) (suc k) ds refl)

-- The fraction that is printed, after its point or with none, is read.
scan_fraction-digits :
    (t : ℕ) (ds : List ℕ)
    → AllDigits ds
    → length ds ≡ scale_digits
    → t ≤ scale_digits
    → scan_fraction true (with_fraction t ds) ≡ read (decimal 0 (take t ds)) t []
unfolding scan_fraction
scan_fraction-digits zero ds h long k = unfold decimal in refl
scan_fraction-digits (suc t) ds h long k =
    let size : length (take (suc t) ds) ≡ suc t = length-take (suc t) ds (omega (arith, long, k)) in
    fraction_loop-digits 0 0 (take (suc t) ds) (take-AllDigits (suc t) ds h)
      (omega (arith, size, k))
    ∙ ap (λ n. read (decimal 0 (take (suc t) ds)) n []) (omega (arith, size))

-- The padding puts back the zeros that were trimmed.
pad-digits :
    (t : ℕ) (ds : List ℕ)
    → length ds ≡ scale_digits
    → Trims scale_digits ds t
    → pad (scale_digits - t) (decimal 0 (take t ds)) ≡ decimal 0 ds
pad-digits t ds long (le, e) =
    pad-decimal (scale_digits - t) (decimal 0 (take t ds))
    ∙ sym (decimal-append 0 (take t ds) (replicate (scale_digits - t) b'0'))
    ∙ ap (decimal 0) (sym e ∙ ap (λ n. take n ds) (sym long) ∙ take-length ds)

-- The value of a sign and a magnitude.
abbrev valued : Bool → ℕ → ℤ
valued negative n = if negative then neg_ℤ (pos n) else pos n

assemble-read :
    (negative : Bool) (whole value digits fraction : ℕ)
    → pad (scale_digits - digits) value ≡ fraction
    → whole * scale + fraction ≤ int64_max
    → assemble negative whole (read value digits [])
      ≡ some (valued negative (whole * scale + fraction))
unfolding assemble
assemble-read negative whole value digits fraction e h =
    let fits : ltb ((int64_max - fraction) / scale) whole ≡ false = ground (arith, h) in
    rw (e, fits) refl

integer_loop-fraction :
    (whole t : ℕ) (ds : List ℕ)
    → integer_loop whole true (with_fraction t ds) ≡ some (read whole 0 (with_fraction t ds))
unfolding integer_loop
integer_loop-fraction whole zero ds = refl
integer_loop-fraction whole (suc t) ds = refl

digits_of : ℕ → List ℕ
digits_of m = frac_digits scale_digits (m % scale) []

body_of : ℕ → ℕ → List ℕ
body_of min_decimals m =
    to_string 20 (m / scale)
      (with_fraction (trim min_decimals scale_digits (digits_of m)) (digits_of m))

whole-Fits : (m : ℕ) → m ≤ int64_max → Fits 19 (m / scale)
whole-Fits m h = omega (arith, h)

fraction-Under : (m : ℕ) → Under scale_digits (m % scale)
fraction-Under m = omega arith

parse_unsigned-body_of :
    (negative : Bool) (min_decimals m : ℕ)
    → m ≤ int64_max
    → parse_unsigned negative (body_of min_decimals m) ≡ some (valued negative m)
unfolding parse_unsigned body_of digits_of
parse_unsigned-body_of negative min_decimals m h =
    let ds = digits_of m in
    let t = trim min_decimals scale_digits ds in
    let long : length ds ≡ scale_digits = length-frac_digits scale_digits (m % scale) [] in
    let trims = trim-Trims min_decimals scale_digits ds (omega (arith, long)) in
    let fraction : decimal 0 ds ≡ m % scale =
      decimal-frac_digits scale_digits (m % scale) [] (fraction-Under m)
      ∙ (unfold decimal in refl) in
    let whole : m / scale * scale + m % scale ≡ m = omega arith in
    ap (after_integer negative) (
      integer_loop-to_string 19 (m / scale) false (with_fraction t ds) (omega (arith, h))
        (whole-Fits m h)
      ∙ integer_loop-fraction (m / scale) t ds)
    ∙ ap (assemble negative (m / scale)) (
        scan_fraction-digits t ds (frac_digits-AllDigits scale_digits (m % scale) [] tt) long
          trims.0)
    ∙ assemble-read negative (m / scale) (decimal 0 (take t ds)) t (m % scale)
        (pad-digits t ds long trims ∙ fraction) (omega (arith, whole, h))
    ∙ ap (λ n. some (valued negative n)) whole

-- A text that starts with a digit has no sign.
parse_fixed-unsigned :
    (c : ℕ) (cs : List ℕ) → is_digit c ≡ true → parse_fixed (c ∷ cs) ≡ parse_unsigned false (c ∷ cs)
unfolding parse_fixed
parse_fixed-unsigned c cs h =
    let no_sign : c == b'+' || c == b'-' ≡ false = ground (arith, h) in rw (no_sign) refl

parse_fixed-body_of :
    (min_decimals m : ℕ) → m ≤ int64_max → parse_fixed (body_of min_decimals m) ≡ some (pos m)
unfolding body_of
parse_fixed-body_of min_decimals m h =
    let (c, rest, e, d) = to_string-head 19 (m / scale) _ in
    ap parse_fixed e
    ∙ parse_fixed-unsigned c rest d
    ∙ ap (parse_unsigned false) (sym e)
    ∙ parse_unsigned-body_of false min_decimals m h

abbrev with_sign : Bool → List ℕ → List ℕ
with_sign negative body = if negative then b'-' ∷ body else body

format_fixed-body_of :
    (v : ℤ) (min_decimals : ℕ)
    → format_fixed v min_decimals ≡ with_sign (ltb_ℤ v (pos 0)) (body_of min_decimals (magnitude v))
unfolding format_fixed body_of digits_of
format_fixed-body_of v min_decimals = refl

magnitude-pos : (n : ℕ) → n ≤ int64_max → magnitude (pos n) ≡ n
unfolding magnitude ltb_ℤ
magnitude-pos n h = ground (arith, h)

magnitude-negsuc : (n : ℕ) → n < int64_max → magnitude (negsuc n) ≡ suc n
unfolding magnitude ltb_ℤ
magnitude-negsuc n h = ground (arith, h)

parse_fixed-negative :
    (min_decimals m : ℕ)
    → m ≤ int64_max
    → parse_fixed (b'-' ∷ body_of min_decimals m) ≡ some (valued true m)
unfolding parse_fixed
parse_fixed-negative min_decimals m h = parse_unsigned-body_of true min_decimals m h

neg_ℤ-suc : (n : ℕ) → neg_ℤ (pos (suc n)) ≡ negsuc n
unfolding neg_ℤ
neg_ℤ-suc n =
    let below : leb (suc n) 0 ≡ false = ground arith in rw (below) (ap negsuc (omega arith))

-- Every amount of 64 bits but the least, printed with any number of decimals, is parsed back as
-- itself.
pub parse_fixed-format_fixed :
    (v : ℤ) (min_decimals : ℕ)
    → smallest <ℤ v
    → v ≤ℤ largest
    → parse_fixed (format_fixed v min_decimals) ≡ some v
parse_fixed-format_fixed (pos n) min_decimals low high =
    let h : n ≤ int64_max = omega (arith, high) in
    let sign : ltb_ℤ (pos n) (pos 0) ≡ false = unfold ltb_ℤ in ground arith in
    ap parse_fixed (
      format_fixed-body_of (pos n) min_decimals
      ∙ ap₂ (λ b m. with_sign b (body_of min_decimals m)) sign (magnitude-pos n h))
    ∙ parse_fixed-body_of min_decimals n h
parse_fixed-format_fixed (negsuc n) min_decimals low high =
    let h : n < int64_max = omega (arith, low) in
    let sign : ltb_ℤ (negsuc n) (pos 0) ≡ true = unfold ltb_ℤ in ground arith in
    ap parse_fixed (
      format_fixed-body_of (negsuc n) min_decimals
      ∙ ap₂ (λ b m. with_sign b (body_of min_decimals m)) sign (magnitude-negsuc n h))
    ∙ parse_fixed-negative min_decimals (suc n) (omega (arith, h))
    ∙ ap some (neg_ℤ-suc n)
