-- ===== src/Flags/Parsing.antt =====
-- src/common/flags.h: a command line is read back as it was written.
use home_assignment.Common.{
  ℕ, ◌≡◌, refl, ap, ◌∙◌, Bool, true, false, List, [], ◌∷◌, ◌++◌, Option, none, some, if◌then◌else◌,
  Bool-cases, inl, inr, map,
}
use home_assignment.Common.Text.{codes, text_eq, text_eq→eq}
use home_assignment.Url.{strip_prefix, cut_at}
use home_assignment.Url.Print.{Without, cut_at-none, cut_at-some}
use home_assignment.Flags.{
  got, Values, text_less, assign, lookup, assign_flag, parse_args, get, or_fallback,
}

-- A flag as it is written: `--key=value`, or `--key` alone.
abbrev pub body_of : List ℕ × Option (List ℕ) → List ℕ
body_of (key, none) = key
body_of (key, some value) = key ++ b'=' ∷ value

abbrev pub print_flag : List ℕ × Option (List ℕ) → List ℕ
print_flag flag = codes "--" ++ body_of flag

abbrev pub value_of : Option (List ℕ) → List ℕ
value_of none = codes "true"
value_of (some value) = value

-- The value of the last flag with the key, or else the one before all flags.
abbrev pub last_value : List ℕ → Option (List ℕ) → List (List ℕ × Option (List ℕ)) → Option (List ℕ)
last_value key before [] = before
last_value key before ((k, v) ∷ flags) =
    last_value key (if text_eq k key then some (value_of v) else before) flags

abbrev pub AreKeys : List (List ℕ × Option (List ℕ)) → Type 0
AreKeys [] = Unit
AreKeys ((key, value) ∷ flags) = Without b'=' key × AreKeys flags

text_eq_swap : (a b c : List ℕ) → text_eq a b ≡ true → text_eq a c ≡ text_eq b c
text_eq_swap a b c h = ap (λ t. text_eq t c) (text_eq→eq a b h)

-- What a key looks up in a map whose first entry is known.
lookup-first :
    (k key value : List ℕ) (values : Values)
    → lookup k ((key, value) ∷ values) ≡ (if text_eq key k then some value else lookup k values)
unfolding lookup
lookup-first k key value values = refl

if-swap :
    (a b : Bool) (x y z : Option (List ℕ))
    → (a ≡ true → b ≡ false)
    → (if a then x else (if b then y else z)) ≡ (if b then y else (if a then x else z))
if-swap true true x y z h = absurd (cc (h refl))
if-swap true false x y z h = refl
if-swap false b x y z h = refl

lookup-assign :
    (k key value : List ℕ) (values : Values)
    → lookup k (assign key value values) ≡ (if text_eq key k then some value else lookup k values)
unfolding lookup assign
lookup-assign k key value [] = refl
lookup-assign k key value ((k', v) ∷ values) = elim (Bool-cases (text_eq k' key)) [
  | inl same ↦ rw (same, text_eq_swap k' key k same) (replaced (text_eq key k))
  | inr other ↦ elim (Bool-cases (text_less key k')) [
    | inl less ↦ rw (other, less) refl
    | inr more ↦
        rw (other, more, lookup-assign k key value values)
          (if-swap (text_eq k' k) (text_eq key k) _ _ _ (differ other))
  ]
]
  where
    replaced :
        (b : Bool)
        → (if b then some value else lookup k values)
          ≡ (if b then some value else (if b then some v else lookup k values))
    replaced true = refl
    replaced false = refl

    differ : text_eq k' key ≡ false → text_eq k' k ≡ true → text_eq key k ≡ false
    differ other same = elim (Bool-cases (text_eq key k)) [
      | inl e ↦ absurd (cc (other, text_eq→eq key k e))
      | inr e ↦ e
    ]

assign_flag-body_of :
    (key : List ℕ) (value : Option (List ℕ)) (values : Values)
    → Without b'=' key
    → assign_flag (cut_at b'=' (body_of (key, value))) values ≡ assign key (value_of value) values
assign_flag-body_of key none values w = rw (cut_at-none b'=' key w) refl
assign_flag-body_of key (some value) values w = rw (cut_at-some b'=' key value w) refl

parse_args-print_flag :
    (key : List ℕ) (value : Option (List ℕ)) (arguments : List (List ℕ)) (values : Values)
    → Without b'=' key
    → parse_args (print_flag (key, value) ∷ arguments) values
      ≡ parse_args arguments (assign key (value_of value) values)
unfolding parse_args strip_prefix
parse_args-print_flag key value arguments values w =
    ap (parse_args arguments) (assign_flag-body_of key value values w)

parses :
    (flags : List (List ℕ × Option (List ℕ))) (values : Values)
    → AreKeys flags
    → (m : Values) × (parse_args (map print_flag flags) values ≡ got m)
      × ((key : List ℕ) → lookup key m ≡ last_value key (lookup key values) flags)
unfolding parse_args
parses [] values w = (values, refl, λ key. refl)
parses ((k, v) ∷ flags) values w =
    let (m, e, last) = parses flags (assign k (value_of v) values) w.1 in
    (
      m,
      parse_args-print_flag k v (map print_flag flags) values w.0 ∙ e,
      λ key. last key ∙ ap (λ o. last_value key o flags) (lookup-assign key k (value_of v) values),
    )

-- A command line of flags `--key=value` and `--key`, with no `=` in a key, is accepted, and for every
-- key Get gives the value of the last flag with it, `true` for the short form, or the fallback if
-- there is none.
pub parse_args-get :
    (flags : List (List ℕ × Option (List ℕ)))
    → AreKeys flags
    → (m : Values) × (parse_args (map print_flag flags) [] ≡ got m)
      × ((key fallback : List ℕ)
          → get m key fallback ≡ or_fallback fallback (last_value key none flags))
unfolding get lookup
parse_args-get flags w =
    let (m, e, last) = parses flags [] w in
    (m, e, λ key fallback. ap (or_fallback fallback) (last key))
