-- ===== src/Pipeline/Carrying.antt =====
-- What the steps of the pipeline do to a list of batches and to the venue at an index.
use home_assignment.Common.{
  ℕ, zero, suc, ◌≤◌, ◌≡◌, refl, sym, ap, Bool, false, List, [], ◌∷◌, ◌++◌, map, Option, none, some,
  ◌==◌, arith,
}
use home_assignment.Common.Lists.{length, get_elem?, drop}
use home_assignment.Common.Int.{ℤ}
use home_assignment.Venues.{FeedUpdate}
use home_assignment.Engine.{Venue, Selection, apply_updates, update_venue, finish_publish, hand_out}
use home_assignment.Ladder.{MergedLevel}
use home_assignment.Pipeline.{Pipeline, batch_of, keep_engine}

-- The batches applied one after the other.
abbrev pub apply_batches : List (List FeedUpdate) → Venue → Venue
apply_batches [] v = v
apply_batches (us ∷ uss) v = apply_batches uss (apply_updates v us)

-- The same of a venue that may not be there.
abbrev pub map_batches : List (List FeedUpdate) → Option Venue → Option Venue
map_batches uss none = none
map_batches uss (some v) = some (apply_batches uss v)

pub apply_batches-snoc :
    (uss : List (List FeedUpdate)) (us : List FeedUpdate) (v : Venue)
    → apply_batches (uss ++ us ∷ []) v ≡ apply_updates (apply_batches uss v) us
apply_batches-snoc [] us v = refl
apply_batches-snoc (x ∷ uss) us v = apply_batches-snoc uss us (apply_updates v x)

abbrev pub map_updates : List FeedUpdate → Option Venue → Option Venue
map_updates us none = none
map_updates us (some v) = some (apply_updates v us)

pub get_elem?-update_venue :
    (i : ℕ) (us : List FeedUpdate) (vs : List Venue)
    → get_elem? (update_venue i us vs) i ≡ map_updates us (get_elem? vs i)
unfolding update_venue
get_elem?-update_venue i us [] = refl
get_elem?-update_venue zero us (v ∷ vs) = refl
get_elem?-update_venue (suc i) us (v ∷ vs) = get_elem?-update_venue i us vs

pub get_elem?-update_venue_other :
    (i j : ℕ) (us : List FeedUpdate) (vs : List Venue)
    → i == j ≡ false
    → get_elem? (update_venue i us vs) j ≡ get_elem? vs j
unfolding update_venue
get_elem?-update_venue_other i j us [] h = refl
get_elem?-update_venue_other zero zero us (v ∷ vs) h = absurd (cc h)
get_elem?-update_venue_other zero (suc j) us (v ∷ vs) h = refl
get_elem?-update_venue_other (suc i) zero us (v ∷ vs) h = refl
get_elem?-update_venue_other (suc i) (suc j) us (v ∷ vs) h =
    get_elem?-update_venue_other i j us vs (ground (arith, h))

pub drop-append : {A : Type 0} (xs ys : List A) → drop (length xs) (xs ++ ys) ≡ ys
drop-append [] ys = refl
drop-append (x ∷ xs) ys = drop-append xs ys

pub map_batches-snoc :
    (uss : List (List FeedUpdate)) (us : List FeedUpdate) (v : Option Venue)
    → map_updates us (map_batches uss v) ≡ map_batches (uss ++ us ∷ []) v
map_batches-snoc uss us none = refl
map_batches-snoc uss us (some v) = ap some (sym (apply_batches-snoc uss us v))

pub map_batches-nil : (v : Option Venue) → v ≡ map_batches [] v
map_batches-nil none = refl
map_batches-nil (some v) = refl

pub none_waits : (i : ℕ) (uss : List (List FeedUpdate)) → length uss ≤ 0 → [] ≡ map (batch_of i) uss
none_waits i [] h = refl
none_waits i (us ∷ uss) h = absurd (omega (arith, h))

pub finish_publish-venues :
    {S : Type 0} (s : Pipeline S) (now wall : ℤ) (chosen : Selection)
    (merged : Option ((List MergedLevel × Bool) × (List MergedLevel × Bool)))
    → (keep_engine (finish_publish s.engine now wall chosen merged) s).engine.venues
      ≡ s.engine.venues
unfolding hand_out
finish_publish-venues s now wall chosen none = refl
finish_publish-venues s now wall chosen (some (bids, asks)) = refl

pub length-map_batch :
    (i : ℕ) (uss : List (List FeedUpdate)) → length (map (batch_of i) uss) ≡ length uss
length-map_batch i [] = refl
length-map_batch i (us ∷ uss) = ap suc (length-map_batch i uss)

pub map_batch-append :
    (i : ℕ) (uss vss : List (List FeedUpdate))
    → map (batch_of i) (uss ++ vss) ≡ map (batch_of i) uss ++ map (batch_of i) vss
map_batch-append i [] vss = refl
map_batch-append i (us ∷ uss) vss = ap (λ bs. batch_of i us ∷ bs) (map_batch-append i uss vss)
