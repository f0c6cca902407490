-- ===== src/Json/Levels.antt =====
-- What ParseLevelArray lets into the books.
use home_assignment.Common.{refl, subst, List, [], ◌∷◌, ◌≡◌, arith, Option, none, some}
use home_assignment.Common.Lists.{All}
use home_assignment.Book.{Level}
use home_assignment.Book.Invariant.{IsChange}
use home_assignment.Json.{Json, level_of, parse_entries, parse_level_array, ◌>>=◌}

-- Inversion of a successful chain.
pub >>=-eq-some {ℓ κ} :
    {A : Type ℓ} {B : Type κ} (m : Option A) (f : A → Option B) {b : B}
    → (m >>= f) ≡ some b
    → (a : A) × (m ≡ some a) × (f a ≡ some b)
>>=-eq-some none f e = cc
>>=-eq-some (some a) f e = (a, refl, e)

module _ (json : Json) where
  open json use {Element, array_of}

  level_of-IsChange :
      (fields : List Element) (l : Level) → level_of json fields ≡ some l → IsChange l
  unfolding level_of
  level_of-IsChange [] l e = cc
  level_of-IsChange (first ∷ []) l e = cc
  level_of-IsChange (first ∷ second ∷ others) l e = ground arith

  parse_entries-IsChange :
      (entries : List Element) (ls : List Level)
      → parse_entries json entries ≡ some ls
      → All IsChange ls
  unfolding parse_entries
  parse_entries-IsChange [] ls e = let same : [] ≡ ls = cc in subst (All IsChange) same tt
  parse_entries-IsChange (entry ∷ entries) ls e =
      let (pair, _, e1) = >>=-eq-some (array_of entry) _ e in
      let (l, is_level, e2) = >>=-eq-some (level_of json pair) _ e1 in
      let (rest, is_rest, e3) = >>=-eq-some (parse_entries json entries) _ e2 in
      let same : l ∷ rest ≡ ls = cc in
      subst (All IsChange) same
        (level_of-IsChange pair l is_level, parse_entries-IsChange entries rest is_rest)

  -- Whatever document a venue sends, the levels that are accepted have a price above 0 and a
  -- quantity of at least 0.
  pub parse_level_array-IsChange :
      (value : Option Element) (ls : List Level)
      → parse_level_array json value ≡ some ls
      → All IsChange ls
  unfolding parse_level_array
  parse_level_array-IsChange value ls e =
      let (element, _, e1) = >>=-eq-some value _ e in
      let (entries, _, e2) = >>=-eq-some (array_of element) _ e1 in
      parse_entries-IsChange entries ls e2
