-- ===== src/Engine/Books.antt =====
-- The venue books of the engine keep the check `Invariant` under every batch.
use home_assignment.Common.{ℕ, zero, suc, List, [], ◌∷◌}
use home_assignment.Common.Lists.{All}
use home_assignment.Book.Invariant.{IsChange, BothSides, apply_feed_update-invariant}
use home_assignment.Venues.{FeedUpdate}
use home_assignment.Engine.{
  Venue, Engine, levels_of, apply_update, apply_updates, update_venue, apply,
}

-- Every venue's book passes the check on both sides.
abbrev pub BooksPass : List Venue → Type 0
BooksPass = All (λ v. BothSides v.book)

-- The levels of an update passed ingestion.
abbrev pub Ingested : FeedUpdate → Type 0
Ingested u = All IsChange u.bids × All IsChange u.asks

apply_updates-BothSides :
    (v : Venue) (us : List FeedUpdate)
    → All Ingested us
    → BothSides v.book
    → BothSides (apply_updates v us).book
unfolding apply_updates apply_update
apply_updates-BothSides v [] c h = h
apply_updates-BothSides v (u ∷ us) c h =
    apply_updates-BothSides (apply_update v u) us c.1
      (apply_feed_update-invariant v.book (levels_of u) c.0.0 c.0.1 h)

update_venue-BooksPass :
    (i : ℕ) (us : List FeedUpdate) (vs : List Venue)
    → All Ingested us
    → BooksPass vs
    → BooksPass (update_venue i us vs)
unfolding update_venue
update_venue-BooksPass i us [] c h = tt
update_venue-BooksPass zero us (v ∷ vs) c h = (apply_updates-BothSides v us c h.0, h.1)
update_venue-BooksPass (suc i) us (v ∷ vs) c h = (h.0, update_venue-BooksPass i us vs c h.1)

-- A batch of updates that passed ingestion keeps the check of every venue's book, whichever venue
-- it names.
pub apply-BooksPass :
    (e : Engine) (venue_index : ℕ) (updates : List FeedUpdate)
    → All Ingested updates
    → BooksPass e.venues
    → BooksPass (apply e venue_index updates).venues
unfolding apply
apply-BooksPass e i us c h = update_venue-BooksPass i us e.venues c h
