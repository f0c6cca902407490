-- ===== src/Service/Quotes.antt =====
-- What the best-bid-and-offer stream and the status say of a published book.
use home_assignment.Common.{
  Bool, true, false, List, [], ◌∷◌, map, ◌≡◌, refl, sym, ap, ◌∙◌, some, not, ◌||◌, Bool-cases, inl,
  inr,
}
use home_assignment.Common.Lists.{All}
use home_assignment.Common.Int.{ℤ, pos, ◌+ℤ◌, eq_ℤ}
use home_assignment.Book.Invariant.{invariant-Ordered}
use home_assignment.Ladder.{MergedLevel}
use home_assignment.Analytics.{LadderView, compute_touch, view_best_px}
use home_assignment.Engine.{
  Venue, VenueTouch, VenueState, Engine, ConsolidatedBook, publish_book, contributes, bids_of,
  asks_of,
}
use home_assignment.Engine.Books.{BooksPass}
use home_assignment.Engine.Publishing.{
  Publishes, publish_book-Publishes, fresh_venues, keep_if-BooksPass,
}
use home_assignment.Engine.Touch.{IsSide, sum_qty, touch_of-first, first_qty_of}
use home_assignment.Service.{make_view}
use home_assignment.Service.Messages.{
  Quote, VenueQty, Update, bbo_update, fill_quote, begin_update, fill_touch,
}

abbrev pub sum_venues : List VenueQty → ℤ
sum_venues [] = pos 0
sum_venues (v ∷ vs) = v.qty +ℤ sum_venues vs

sum_venues-touch :
    (ts : List VenueTouch)
    → sum_venues (map (λ t. record { venue = t.venue; qty = t.qty }) ts) ≡ sum_qty ts
sum_venues-touch [] = refl
sum_venues-touch (t ∷ ts) = ap (λ s. t.qty +ℤ s) (sum_venues-touch ts)

-- A message for a book: on each side the venues' quantities add up to the quantity shown, at the
-- price that the touch has.
pub record IsAttributed (u : Update Quote) : Type 0 where
  pub bid_sum : sum_venues u.bid.venues ≡ u.bid.qty
  pub ask_sum : sum_venues u.ask.venues ≡ u.ask.qty
  pub bid_price : u.bid.price ≡ u.touch.best_bid
  pub ask_price : u.ask.price ≡ u.touch.best_ask

fill_quote-sum :
    (side : List MergedLevel) (touch : List VenueTouch)
    → sum_qty touch ≡ first_qty_of side
    → sum_venues (fill_quote side touch).venues ≡ (fill_quote side touch).qty
unfolding fill_quote
fill_quote-sum [] touch h = refl
fill_quote-sum (l ∷ ls) touch h = sum_venues-touch touch ∙ h

fill_quote-price :
    (side : List MergedLevel) (touch : List VenueTouch) (descending : Bool)
    → (fill_quote side touch).price
      ≡ view_best_px (record { levels = side; descending = descending })
unfolding fill_quote view_best_px
fill_quote-price [] touch descending = refl
fill_quote-price (l ∷ ls) touch descending = refl

compute_touch-best :
    (bids asks : LadderView)
    → ((compute_touch bids asks).best_bid ≡ view_best_px bids)
      × ((compute_touch bids asks).best_ask ≡ view_best_px asks)
unfolding compute_touch
compute_touch-best bids asks =
    elim (Bool-cases (
      not (not (eq_ℤ (view_best_px bids) (pos 0)))
      || not (not (eq_ℤ (view_best_px asks) (pos 0))))) [
        | inl one_sided ↦ rw (one_sided) (refl, refl)
        | inr two_sided ↦ rw (two_sided) (refl, refl)
      ]

sides-IsSide :
    (vs : List Venue)
    → BooksPass vs
    → All (λ v. IsSide true v.book.bids) vs × All (λ v. IsSide false v.book.asks) vs
sides-IsSide [] h = (tt, tt)
sides-IsSide (v ∷ vs) h =
    let rest = sides-IsSide vs h.1 in
    (
      ((invariant-Ordered true v.book.bids).0 h.0.0, rest.0),
      ((invariant-Ordered false v.book.asks).0 h.0.1, rest.1),
    )

module _ (e : Engine) (states : List VenueState) (now : ℤ) (r : ConsolidatedBook × Engine)
    (h : BooksPass e.venues) (p : Publishes e states now r) where
  passes : BooksPass (fresh_venues e states now)
  passes = keep_if-BooksPass (contributes e.config.staleness_ns now) e.venues states h

  bid_total : sum_qty r.0.bid_touch ≡ first_qty_of r.0.bids
  bid_total =
      ap sum_qty p.bid_touch
      ∙ touch_of-first true bids_of (fresh_venues e states now) r.0.bids r.0.bids_truncated
          (sides-IsSide (fresh_venues e states now) passes).0 p.bids

  ask_total : sum_qty r.0.ask_touch ≡ first_qty_of r.0.asks
  ask_total =
      ap sum_qty p.ask_touch
      ∙ touch_of-first false asks_of (fresh_venues e states now) r.0.asks r.0.asks_truncated
          (sides-IsSide (fresh_venues e states now) passes).1 p.asks

  message_attributes : IsAttributed (bbo_update r.0)
  unfolding bbo_update begin_update fill_touch make_view
  message_attributes = record {
    bid_sum = fill_quote-sum r.0.bids r.0.bid_touch bid_total;
    ask_sum = fill_quote-sum r.0.asks r.0.ask_touch ask_total;
    bid_price =
        fill_quote-price r.0.bids r.0.bid_touch true
        ∙ sym (compute_touch-best (make_view r.0 true) (make_view r.0 false)).0;
    ask_price =
        fill_quote-price r.0.asks r.0.ask_touch false
        ∙ sym (compute_touch-best (make_view r.0 true) (make_view r.0 false)).1;
  }

-- When every venue's book passes the check, a publish returns a book for which the message of the
-- stream attributes the quantity at each touch to the venues without remainder, at the touch's
-- prices.
pub bbo_update-IsAttributed :
    (e : Engine) (states : List VenueState) (now wall : ℤ)
    → BooksPass e.venues
    → (r : ConsolidatedBook × Engine) × (publish_book e states now wall ≡ some r)
      × IsAttributed (bbo_update r.0)
bbo_update-IsAttributed e states now wall h =
    let (r, is, p) = publish_book-Publishes e states now wall h in
    (r, is, message_attributes e states now r h p)
