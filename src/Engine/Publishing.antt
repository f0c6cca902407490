-- ===== src/Engine/Publishing.antt =====
-- What one publish makes of the venues, and what a run of the engine keeps.
use home_assignment.Common.{
  ◌+◌, Bool, true, false, List, [], ◌∷◌, map, ◌≡◌, refl, ap, ap₂, ◌∙◌, not, some, Bool-cases, inl,
  inr, if◌then◌else◌, arith,
}
use home_assignment.Common.Lists.{All, All-mono}
use home_assignment.Common.Int.{ℤ, pos, ◌-ℤ◌, ◌<ℤ◌, eq_ℤ, ltb_ℤ→lt, lt→ltb_ℤ}
use home_assignment.Book.Order.{Ordered}
use home_assignment.Book.Invariant.{invariant-Ordered}
use home_assignment.Ladder.{MergedLevel, merge_side}
use home_assignment.Ladder.Total.{Merges, merge_side-Merges}
use home_assignment.Engine.{
  Venue, VenueState, live, disconnected, connecting, syncing, stale, is_live, Engine, EngineConfig,
  Selection, ConsolidatedBook, contributes, select, merge_both, limits_of, assemble, hand_out,
  publish_book, both, finish_publish, pair_with, clock_of, touch_of, bids_of, asks_of, first_px,
}
use home_assignment.Engine.Books.{BooksPass}

-- The elements that pass a test.
unfoldable pub keep_if {ℓ} : {A : Type ℓ} → (A → Bool) → List A → List A
keep_if test [] = []
keep_if test (x ∷ xs) = let rest = keep_if test xs in if test x then x ∷ rest else rest

-- The venues that are live and fresh.
abbrev pub fresh_venues : Engine → List VenueState → ℤ → List Venue
fresh_venues e states now =
    map (λ p. p.0) (keep_if (contributes e.config.staleness_ns now) (pair_with e.venues states))

-- The venues that are not.
abbrev pub other_venues : Engine → List VenueState → ℤ → List Venue
other_venues e states now =
    map (λ p. p.0)
      (keep_if (λ p. not (contributes e.config.staleness_ns now p)) (pair_with e.venues states))

-- The connection is live, and some data of it came less than the staleness limit ago.
abbrev pub IsFresh : ℤ → ℤ → Venue × VenueState → Type 0
IsFresh staleness now (v, state) =
    (state ≡ live) × (eq_ℤ v.last_recv_ns (pos 0) ≡ false) × (now -ℤ v.last_recv_ns <ℤ staleness)

is_live-live : (s : VenueState) → is_live s ≡ true → s ≡ live
is_live-live live h = refl
is_live-live disconnected h = cc
is_live-live connecting h = cc
is_live-live syncing h = cc
is_live-live stale h = cc

contributes-IsFresh :
    (staleness now : ℤ) (p : Venue × VenueState)
    → contributes staleness now p ≡ true
    → IsFresh staleness now p
unfolding contributes
contributes-IsFresh staleness now (v, s) h = (
  is_live-live s (ground arith),
  ground arith,
  ltb_ℤ→lt (now -ℤ v.last_recv_ns) staleness (ground arith),
)

IsFresh-contributes :
    (staleness now : ℤ) (p : Venue × VenueState)
    → IsFresh staleness now p
    → contributes staleness now p ≡ true
unfolding contributes
IsFresh-contributes staleness now (v, s) h = rw (h.0, h.1) (lt→ltb_ℤ _ _ h.2)

not-contributes :
    (staleness now : ℤ) (p : Venue × VenueState)
    → not (contributes staleness now p) ≡ true
    → ¬ IsFresh staleness now p
not-contributes staleness now p h fresh =
    let e = IsFresh-contributes staleness now p fresh in absurd (ground (arith, h, e))

keep_if-All {ℓ} :
    {A : Type ℓ} (test : A → Bool) (xs : List A) → All (λ x. test x ≡ true) (keep_if test xs)
unfolding keep_if
keep_if-All test [] = tt
keep_if-All test (x ∷ xs) = elim (Bool-cases (test x)) [
  | inl good ↦ rw (good, keep_if) (good, keep_if-All test xs)
  | inr bad ↦ rw (bad, keep_if) (keep_if-All test xs)
]

-- A published book against the engine that published it: the venues chosen are those that are live
-- and fresh, the ladders merge their books and no other, each venue is named on one side and has its
-- clock, the touch is that of the venues chosen, and the engine after it has the book as its latest
-- under the next sequence number.
pub record Publishes (e : Engine) (states : List VenueState) (now : ℤ)
    (r : ConsolidatedBook × Engine) : Type 0 where
  pub chosen :
      All
        (IsFresh e.config.staleness_ns now)
        (keep_if (contributes e.config.staleness_ns now) (pair_with e.venues states))
  pub left_out :
      All
        (λ p. ¬ IsFresh e.config.staleness_ns now p)
        (keep_if (λ p. not (contributes e.config.staleness_ns now p)) (pair_with e.venues states))
  pub bids :
      Merges true
        (map (λ v. v.book.bids) (fresh_venues e states now))
        (r.0.bids, r.0.bids_truncated)
  pub asks :
      Merges false
        (map (λ v. v.book.asks) (fresh_venues e states now))
        (r.0.asks, r.0.asks_truncated)
  pub contributing : r.0.contributing ≡ map (λ v. v.name) (fresh_venues e states now)
  pub stale : r.0.stale ≡ map (λ v. v.name) (other_venues e states now)
  pub clocks : r.0.clocks ≡ map (λ p. clock_of p.0) (pair_with e.venues states)
  pub bid_touch : r.0.bid_touch ≡ touch_of bids_of (first_px r.0.bids) (fresh_venues e states now)
  pub ask_touch : r.0.ask_touch ≡ touch_of asks_of (first_px r.0.asks) (fresh_venues e states now)
  pub sequence : r.0.sequence ≡ e.published + 1
  pub counted : r.1.published ≡ r.0.sequence
  pub latest : r.1.latest ≡ some r.0
  pub venues : r.1.venues ≡ e.venues

select-keep_if :
    (staleness now : ℤ) (vs : List (Venue × VenueState))
    → ((select staleness now vs).inputs ≡ map (λ p. p.0) (keep_if (contributes staleness now) vs))
      × ((select staleness now vs).stale
          ≡ map
              (λ v. v.name)
              (map (λ p. p.0) (keep_if (λ p. not (contributes staleness now p)) vs)))
unfolding select keep_if
select-keep_if staleness now [] = (refl, refl)
select-keep_if staleness now ((v, s) ∷ vs) =
    let (same_inputs, same_stale) = select-keep_if staleness now vs in
    elim (Bool-cases (contributes staleness now (v, s))) [
      | inl good ↦ rw (good, select, keep_if) (ap (λ xs. v ∷ xs) same_inputs, same_stale)
      | inr bad ↦ rw (bad, select, keep_if) (same_inputs, ap (λ xs. v.name ∷ xs) same_stale)
    ]

select-clocks :
    (staleness now : ℤ) (vs : List (Venue × VenueState))
    → (select staleness now vs).clocks ≡ map (λ p. clock_of p.0) vs
unfolding select
select-clocks staleness now [] = refl
select-clocks staleness now ((v, s) ∷ vs) = elim (Bool-cases (contributes staleness now (v, s))) [
  | inl good ↦ rw (good, select) (ap (λ cs. clock_of v ∷ cs) (select-clocks staleness now vs))
  | inr bad ↦ rw (bad, select) (ap (λ cs. clock_of v ∷ cs) (select-clocks staleness now vs))
]

pub keep_if-BooksPass :
    (test : Venue × VenueState → Bool) (vs : List Venue) (states : List VenueState)
    → BooksPass vs
    → BooksPass (map (λ p. p.0) (keep_if test (pair_with vs states)))
unfolding keep_if
keep_if-BooksPass test [] states h = tt
keep_if-BooksPass test (v ∷ vs) [] h = tt
keep_if-BooksPass test (v ∷ vs) (s ∷ states) h = elim (Bool-cases (test (v, s))) [
  | inl good ↦ rw (good, keep_if) (h.0, keep_if-BooksPass test vs states h.1)
  | inr bad ↦ rw (bad, keep_if) (keep_if-BooksPass test vs states h.1)
]

sides-Ordered :
    (vs : List Venue)
    → BooksPass vs
    → All (Ordered true) (map (λ v. v.book.bids) vs)
      × All (Ordered false) (map (λ v. v.book.asks) vs)
sides-Ordered [] h = (tt, tt)
sides-Ordered (v ∷ vs) h =
    let rest = sides-Ordered vs h.1 in
    (
      (((invariant-Ordered true v.book.bids).0 h.0.0).0, rest.0),
      (((invariant-Ordered false v.book.asks).0 h.0.1).0, rest.1),
    )

merge_both-some :
    (config : EngineConfig) (chosen : Selection) (vs : List Venue)
    (bids asks : List MergedLevel × Bool)
    → chosen.inputs ≡ vs
    → merge_side true (limits_of config) (map (λ v. v.book.bids) vs) ≡ some bids
    → merge_side false (limits_of config) (map (λ v. v.book.asks) vs) ≡ some asks
    → merge_both config chosen ≡ some (bids, asks)
unfolding merge_both
merge_both-some config chosen vs bids asks same b a =
    ap₂ both (ap (λ vs. merge_side true (limits_of config) (map (λ v. v.book.bids) vs)) same ∙ b)
      (ap (λ vs. merge_side false (limits_of config) (map (λ v. v.book.asks) vs)) same ∙ a)

-- When every venue's book passes the check, a publish returns, and the book is the merge of the
-- live and fresh venues' books alone, names every other venue as stale, and is the engine's latest
-- under the next sequence number.
pub publish_book-Publishes :
    (e : Engine) (states : List VenueState) (now wall : ℤ)
    → BooksPass e.venues
    → (r : ConsolidatedBook × Engine) × (publish_book e states now wall ≡ some r)
      × Publishes e states now r
unfolding publish_book assemble hand_out
publish_book-Publishes e states now wall h =
    let chosen = select e.config.staleness_ns now (pair_with e.venues states) in
    let (inputs, others) = select-keep_if e.config.staleness_ns now (pair_with e.venues states) in
    let kept = keep_if-BooksPass (contributes e.config.staleness_ns now) e.venues states h in
    let (bids_ordered, asks_ordered) = sides-Ordered (fresh_venues e states now) kept in
    let (bids, bids_eq, bids_merge) = merge_side-Merges true (limits_of e.config) _ bids_ordered in
    let (asks, asks_eq, asks_merge) = merge_side-Merges false (limits_of e.config) _ asks_ordered in
    let book = assemble e wall chosen bids asks in
    (
      (book, hand_out e now book),
      ap (finish_publish e now wall chosen)
          (merge_both-some e.config chosen _ bids asks inputs bids_eq asks_eq),
      record {
        chosen =
            All-mono (λ p. contributes e.config.staleness_ns now p ≡ true)
              (IsFresh e.config.staleness_ns now) _ (contributes-IsFresh e.config.staleness_ns now)
              (keep_if-All (contributes e.config.staleness_ns now) (pair_with e.venues states));
        left_out =
            All-mono (λ p. not (contributes e.config.staleness_ns now p) ≡ true)
              (λ p. ¬ IsFresh e.config.staleness_ns now p) _
              (not-contributes e.config.staleness_ns now)
              (keep_if-All (λ p. not (contributes e.config.staleness_ns now p))
                (pair_with e.venues states));
        bids = bids_merge;
        asks = asks_merge;
        contributing = ap (map (λ v. v.name)) inputs;
        stale = others;
        clocks = select-clocks e.config.staleness_ns now (pair_with e.venues states);
        bid_touch = ap (touch_of bids_of (first_px bids.0)) inputs;
        ask_touch = ap (touch_of asks_of (first_px asks.0)) inputs;
        sequence = refl;
        counted = refl;
        latest = refl;
        venues = refl;
      },
    )
