-- ===== src/Fixed/Printing.antt =====
-- src/core/fixed.cc: the digits that FormatFixed prints, as ParseFixed reads them.
use home_assignment.Common.{
  ℕ, zero, suc, ◌+◌, ◌-◌, ◌*◌, ◌/◌, ◌%◌, ◌≤◌, ◌<◌, ◌≡◌, refl, sym, ap, ◌∙◌, Bool, true, false, List,
  [], ◌∷◌, ◌++◌, Bool-cases, inl, inr, ltb, ◌==◌, arith,
}
use home_assignment.Common.Lists.{All, length, replicate}
use home_assignment.Fixed.{is_digit, integer_loop, pad, frac_digits, to_string, max_integer_part}
use home_assignment.Json.Integers.{decimal}

abbrev pub AllDigits : List ℕ → Type 0
AllDigits = All (λ c. is_digit c ≡ true)

-- A number with at most one digit more than the count.
abbrev pub Fits : ℕ → ℕ → Type 0
Fits zero n = n < 10
Fits (suc f) n = Fits f (n / 10)

-- A number with at most as many digits as the count.
abbrev pub Under : ℕ → ℕ → Type 0
Under zero n = n ≡ 0
Under (suc i) n = Under i (n / 10)

pub is_digit-digit : (n : ℕ) → is_digit (b'0' + n % 10) ≡ true
is_digit-digit n = ground arith

-- One round of the loop over the integer part.
integer_take :
    (acc c v : ℕ) (saw : Bool) (out : List ℕ)
    → is_digit c ≡ true
    → ltb (max_integer_part / 10) acc ≡ false
    → acc * 10 + (c - b'0') ≡ v
    → ltb max_integer_part v ≡ false
    → integer_loop acc saw (c ∷ out) ≡ integer_loop v true out
unfolding integer_loop
integer_take acc c v saw out d small e fits = rw (d, e, small, fits) refl

integer_step :
    (n : ℕ) (saw : Bool) (out : List ℕ)
    → n ≤ max_integer_part
    → integer_loop (n / 10) saw ((b'0' + n % 10) ∷ out) ≡ integer_loop n true out
integer_step n saw out h =
    integer_take (n / 10) (b'0' + n % 10) n saw out (is_digit-digit n) (ground (arith, h))
      (omega arith) (ground (arith, h))

to_string-last :
    (f n : ℕ) (out : List ℕ) → n / 10 == 0 ≡ true → to_string (suc f) n out ≡ (b'0' + n % 10) ∷ out
unfolding to_string
to_string-last f n out h = rw (h) refl

to_string-more :
    (f n : ℕ) (out : List ℕ)
    → n / 10 == 0 ≡ false
    → to_string (suc f) n out ≡ to_string f (n / 10) ((b'0' + n % 10) ∷ out)
unfolding to_string
to_string-more f n out h = rw (h) refl

last_digit :
    (f n : ℕ) (saw : Bool) (out : List ℕ)
    → n ≤ max_integer_part
    → n / 10 == 0 ≡ true
    → integer_loop 0 saw (to_string (suc f) n out) ≡ integer_loop n true out
last_digit f n saw out h e =
    let none_left : 0 ≡ n / 10 = ground (arith, e) in
    ap (integer_loop 0 saw) (to_string-last f n out e)
    ∙ ap (λ z. integer_loop z saw ((b'0' + n % 10) ∷ out)) none_left
    ∙ integer_step n saw out h

-- The digits of a number are read as the number.
pub integer_loop-to_string :
    (f n : ℕ) (saw : Bool) (out : List ℕ)
    → n ≤ max_integer_part
    → Fits f n
    → integer_loop 0 saw (to_string (suc f) n out) ≡ integer_loop n true out
integer_loop-to_string zero n saw out h k = last_digit zero n saw out h (ground (arith, k))
integer_loop-to_string (suc f) n saw out h k = elim (Bool-cases (n / 10 == 0)) [
  | inl last ↦ last_digit (suc f) n saw out h last
  | inr more ↦
      ap (integer_loop 0 saw) (to_string-more (suc f) n out more)
      ∙ integer_loop-to_string f (n / 10) saw ((b'0' + n % 10) ∷ out) (omega (arith, h)) k
      ∙ integer_step n true out h
]

-- The first byte of a number is a digit.
pub to_string-head :
    (f n : ℕ) (out : List ℕ)
    → (c : ℕ) × (rest : List ℕ) × (to_string (suc f) n out ≡ c ∷ rest) × (is_digit c ≡ true)
unfolding to_string
to_string-head zero n out = elim (Bool-cases (n / 10 == 0)) [
  | inl last ↦ (b'0' + n % 10, out, to_string-last zero n out last, is_digit-digit n)
  | inr more ↦ (b'0' + n % 10, out, to_string-more zero n out more, is_digit-digit n)
]
to_string-head (suc f) n out = elim (Bool-cases (n / 10 == 0)) [
  | inl last ↦ (b'0' + n % 10, out, to_string-last (suc f) n out last, is_digit-digit n)
  | inr more ↦
      let (c, rest, e, d) = to_string-head f (n / 10) ((b'0' + n % 10) ∷ out) in
      (c, rest, to_string-more (suc f) n out more ∙ e, d)
]

pub decimal-append :
    (acc : ℕ) (xs ys : List ℕ) → decimal acc (xs ++ ys) ≡ decimal (decimal acc xs) ys
unfolding decimal
decimal-append acc [] ys = refl
decimal-append acc (x ∷ xs) ys = decimal-append (acc * 10 + (x - b'0')) xs ys

pub decimal-frac_digits :
    (i f : ℕ) (out : List ℕ) → Under i f → decimal 0 (frac_digits i f out) ≡ decimal f out
unfolding decimal frac_digits
decimal-frac_digits zero f out h = ap (λ z. decimal z out) (sym h)
decimal-frac_digits (suc i) f out h =
    decimal-frac_digits i (f / 10) ((b'0' + f % 10) ∷ out) h ∙ ap (λ z. decimal z out) (omega arith)

pub frac_digits-AllDigits :
    (i f : ℕ) (out : List ℕ) → AllDigits out → AllDigits (frac_digits i f out)
unfolding frac_digits
frac_digits-AllDigits zero f out h = h
frac_digits-AllDigits (suc i) f out h =
    frac_digits-AllDigits i (f / 10) ((b'0' + f % 10) ∷ out) (is_digit-digit f, h)

pub length-frac_digits : (i f : ℕ) (out : List ℕ) → length (frac_digits i f out) ≡ i + length out
unfolding frac_digits
length-frac_digits zero f out = omega arith
length-frac_digits (suc i) f out =
    omega (arith, length-frac_digits i (f / 10) ((b'0' + f % 10) ∷ out))

-- The zeros that `pad` stands for.
pub pad-decimal : (n acc : ℕ) → pad n acc ≡ decimal acc (replicate n b'0')
unfolding pad decimal
pad-decimal zero acc = refl
pad-decimal (suc n) acc = ap (pad n) (omega arith) ∙ pad-decimal n (acc * 10 + 0)
