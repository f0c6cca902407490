-- ===== src/Examples/Amounts.antt =====
-- Fixed-point amounts and integers in texts.
use home_assignment.Common.{
  ℕ, Bool, true, false, List, [], ◌∷◌, ◌≡◌, refl, Option, none, some, ◌&&◌, leb, if◌then◌else◌,
  arith, ◌*◌,
}
use home_assignment.Common.Int.{ℤ, pos, negsuc, ◌≤ℤ◌}
use home_assignment.Common.Text.{codes}
use home_assignment.Fixed.{parse_fixed, format_fixed}
use home_assignment.Fixed.RoundTrip.{parse_fixed-format_fixed}
use home_assignment.Json.{i64_of_text}

methods : Unit {0}
unfolding parse_fixed format_fixed i64_of_text
methods = tt

parsed : parse_fixed (codes "-68123.456789019") ≡ some (negsuc 6812345678900)
unfolding methods home_assignment.Common.Int.neg_ℤ
parsed = refl

parse_fixed-format_fixed_example :
    parse_fixed (format_fixed (negsuc 1_234_500_000) 2) ≡ some (negsuc 1_234_500_000)
parse_fixed-format_fixed_example =
    parse_fixed-format_fixed (negsuc 1_234_500_000) 2 (omega arith) (omega arith)
