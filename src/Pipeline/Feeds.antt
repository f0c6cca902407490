-- ===== src/Pipeline/Feeds.antt =====
-- src/venues/binance.cc, okx.cc and bybit.cc: the updates that a protocol hands on are of levels that
-- passed ingestion, which fills the pipeline's interface.
pub mod Binance
pub mod Bybit
pub mod Okx
use home_assignment.Common.{
  ℕ, Bool, true, false, not, ◌&&◌, ◌||◌, List, [], ◌∷◌, ◌++◌, ◌≡◌, refl, Option, none, some,
  if◌then◌else◌, leb,
}
use home_assignment.Common.Int.{ℤ, pos, ◌+ℤ◌, eq_ℤ, leb_ℤ}
use home_assignment.Common.Lists.{All, All-append, length}
use home_assignment.Common.Text.{codes, text_eq}
use home_assignment.Book.Invariant.{IsChange}
use home_assignment.Json.{Json, get_string, get_i64, parse_level_array, ◌>>=◌}
use home_assignment.Json.Levels.{parse_level_array-IsChange}
use home_assignment.Venues.{FeedUpdate, FrameVerdict, parse_error, Outcome, is_other}
use home_assignment.Engine.Books.{Ingested}

-- The value, if there is one.
abbrev pub Whenever {ℓ κ} : {A : Type ℓ} → (A → Type κ) → Option A → Type κ
Whenever P none = Unit
Whenever P (some a) = P a

pub Whenever-and_then {ℓ κ μ} :
    {A : Type ℓ} {B : Type κ} (P : B → Type μ) (m : Option A) (f : A → Option B)
    → ((a : A) → m ≡ some a → Whenever P (f a))
    → Whenever P (m >>= f)
Whenever-and_then P none f h = tt
Whenever-and_then P (some a) f h = h a refl

-- The state keeps a predicate, and the updates passed ingestion.
abbrev pub Fits : {S : Type 0} → (S → Type 0) → Outcome S → Type 0
Fits Good o = Good o.state × All Ingested o.out

pub Fits-if :
    {S : Type 0} (Good : S → Type 0) (b : Bool) (x y : Outcome S)
    → Fits Good x
    → Fits Good y
    → Fits Good (if b then x else y)
Fits-if Good true x y h k = h
Fits-if Good false x y h k = k

pub if-All {ℓ κ} :
    {A : Type ℓ} (P : A → Type κ) (b : Bool) (xs ys : List A)
    → All P xs
    → All P ys
    → All P (if b then xs else ys)
if-All P true xs ys h k = h
if-All P false xs ys h k = k

-- What a protocol keeps that stores no levels.
abbrev pub Any : {S : Type 0} → S → Type 0
Any s = Unit
