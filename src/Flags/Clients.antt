-- ===== src/Flags/Clients.antt =====
-- src/clients/common.h: the options that every publisher reads from the command line.
use home_assignment.Common.{
  ℕ, ◌-◌, ◌^◌, ◌%◌, ◌≤◌, ◌≡◌, refl, sym, ap, ◌∙◌, subst, Bool, true, false, not, ◌||◌, List, [],
  ◌∷◌, ◌++◌, if◌then◌else◌, ◌==◌, arith,
}
use home_assignment.Common.Int.{ℤ, pos, negsuc, ◌≤ℤ◌, ltb_ℤ, ltb_ℤ→ge}
use home_assignment.Common.Text.{codes}
use home_assignment.Flags.{
  Failure, Checked, got, fails, and_then, Values, get, get_int, check_range, get_int_between,
  get_bool, require_known,
}

pub record ClientOptions : Type 0 where
  pub server : List ℕ
  pub instrument : List ℕ
  pub min_interval_micros : ℕ
  pub json : Bool
  pub out_file : List ℕ
  pub max_updates : ℤ

abbrev client_flags : List (List ℕ)
client_flags =
    codes "server"
    ∷ codes "instrument"
    ∷ codes "min-interval-us"
    ∷ codes "json"
    ∷ codes "max-updates"
    ∷ codes "quiet"
    ∷ codes "out-file"
    ∷ []

unfoldable pub require_known_client_flags : List (List ℕ) → Values → Checked Values
unfolding require_known
require_known_client_flags extra values = require_known (client_flags ++ extra) values

-- The cast to uint32_t.
abbrev pub to_uint32 : ℤ → ℕ
to_uint32 (pos n) = n % 2 ^ 32
to_uint32 (negsuc n) = 2 ^ 32 - 1 - n % 2 ^ 32

-- The options, once the checked flags are read one after the other.
abbrev with_updates : Values → ℤ → Bool → ℤ → Checked ClientOptions
with_updates values interval json updates = got (record {
  server = get values (codes "server") (codes "localhost:50051");
  instrument = get values (codes "instrument") [];
  min_interval_micros = to_uint32 interval;
  json = json;
  out_file = get values (codes "out-file") [];
  max_updates = updates;
})

abbrev updates_of : Values → Checked ℤ
updates_of values = get_int_between values (codes "max-updates") (pos 0) (pos 0) (pos 1_000_000)

abbrev interval_of : Values → Checked ℤ
interval_of values =
    get_int_between values (codes "min-interval-us") (pos 0) (pos 0) (pos 60_000_000)

abbrev with_json : Values → ℤ → Bool → Checked ClientOptions
with_json values interval json = and_then (updates_of values) (with_updates values interval json)

abbrev with_interval : Values → ℤ → Checked ClientOptions
with_interval values interval =
    and_then (get_bool values (codes "json") false) (with_json values interval)

unfoldable pub parse_client_options : Values → Checked ClientOptions
unfolding get get_int_between get_bool
parse_client_options values = and_then (interval_of values) (with_interval values)

-- The item so far, which is kept unless it is empty.
abbrev pub push_item : List ℕ → List (List ℕ) → List (List ℕ)
push_item [] items = items
push_item (c ∷ cs) items = (c ∷ cs) ∷ items

abbrev pub split_loop : List ℕ → List ℕ → List (List ℕ)
split_loop item [] = []
split_loop item (c ∷ cs) =
    let same = split_loop (item ++ c ∷ []) cs in
    if not (c == b',') then same else push_item item (split_loop [] cs)

unfoldable pub split_csv : List ℕ → List (List ℕ)
split_csv text = split_loop [] (text ++ b',' ∷ [])

pub and_then-got :
    {A : Type 0} {B : Type 0} (x : Checked A) (f : A → Checked B) (b : B)
    → and_then x f ≡ got b
    → (a : A) × (x ≡ got a) × (f a ≡ got b)
and_then-got (got a) f b h = (a, refl, h)
and_then-got (fails failure) f b h = absurd (cc h)

if-got :
    (b c : Bool) (e : Failure) (v w : ℤ)
    → (if b || c then fails e else got v) ≡ got w
    → (b ≡ false) × (c ≡ false) × (v ≡ w)
if-got true c e v w h = absurd (cc h)
if-got false true e v w h = absurd (cc h)
if-got false false e v w h = (refl, refl, cc h)

-- GetInt with a range gives what it gives without one, and that is in the range.
pub get_int_between-get_int :
    (values : Values) (key : List ℕ) (fallback minimum maximum v : ℤ)
    → get_int_between values key fallback minimum maximum ≡ got v
    → (get_int values key fallback ≡ got v) × (minimum ≤ℤ v) × (v ≤ℤ maximum)
unfolding get_int_between
get_int_between-get_int values key fallback minimum maximum v h =
    let (a, e, checked) =
      and_then-got (get_int values key fallback) (check_range key minimum maximum) v h in
    let (low, high, same) = if-got (ltb_ℤ a minimum) (ltb_ℤ maximum a) _ a v checked in
    (
      e ∙ ap got same,
      subst (λ t. minimum ≤ℤ t) same (ltb_ℤ→ge a minimum low),
      subst (λ t. t ≤ℤ maximum) same (ltb_ℤ→ge maximum a high),
    )

to_uint32-pos :
    (z : ℤ)
    → pos 0 ≤ℤ z
    → z ≤ℤ pos 60_000_000
    → (pos (to_uint32 z) ≡ z) × (to_uint32 z ≤ 60_000_000)
to_uint32-pos (pos n) low high =
    let small : n % 2 ^ 32 ≡ n = omega (arith, high) in (ap pos small, omega (arith, small, high))
to_uint32-pos (negsuc n) low high = absurd (omega (arith, low))

-- Options that are accepted have the interval and the number of updates that the flags give, or 0
-- where they give none: the cast of the interval changes nothing, and neither is above its limit.
pub parse_client_options-get_int :
    (values : Values) (o : ClientOptions)
    → parse_client_options values ≡ got o
    → (get_int values (codes "min-interval-us") (pos 0) ≡ got (pos o.min_interval_micros))
      × (o.min_interval_micros ≤ 60_000_000)
      × (get_int values (codes "max-updates") (pos 0) ≡ got o.max_updates)
      × (pos 0 ≤ℤ o.max_updates)
      × (o.max_updates ≤ℤ pos 1_000_000)
unfolding parse_client_options
parse_client_options-get_int values o h =
    let (interval, e, h) = and_then-got (interval_of values) (with_interval values) o h in
    let (json, f, h) =
      and_then-got (get_bool values (codes "json") false) (with_json values interval) o h in
    let (updates, g, h) =
      and_then-got (updates_of values) (with_updates values interval json) o h in
    let (e, low, high) =
      get_int_between-get_int values (codes "min-interval-us") (pos 0) (pos 0) (pos 60_000_000)
        interval e in
    let (g, least, most) =
      get_int_between-get_int values (codes "max-updates") (pos 0) (pos 0) (pos 1_000_000) updates
        g in
    let (same, small) = to_uint32-pos interval low high in
    let micros : to_uint32 interval ≡ o.min_interval_micros = ap micros_in h in
    let given : updates ≡ o.max_updates = ap updates_in h in
    (
      e ∙ ap got (sym same ∙ ap pos micros),
      subst (λ n. n ≤ 60_000_000) micros small,
      g ∙ ap got given,
      subst (λ t. pos 0 ≤ℤ t) given least,
      subst (λ t. t ≤ℤ pos 1_000_000) given most,
    )
  where
    micros_in : Checked ClientOptions → ℕ
    micros_in (got o) = o.min_interval_micros
    micros_in (fails failure) = 0

    updates_in : Checked ClientOptions → ℤ
    updates_in (got o) = o.max_updates
    updates_in (fails failure) = pos 0
