-- ===== src/Venues/Binance/Sequence.antt =====
-- The sequence rules of the Binance protocol against a plain description of an unbroken stream.
use home_assignment.Common.{
  ◌≤◌, Bool, true, false, ◌&&◌, List, [], ◌∷◌, ◌++◌, map, ap, ◌≡◌, refl, sym, arith, Option, none,
  some, if◌then◌else◌, Bool-cases, inl, inr,
}
use home_assignment.Common.Lists.{length, length-append}
use home_assignment.Common.Int.{ℤ, pos, ◌+ℤ◌, leb_ℤ, eq_ℤ, ◌≤ℤ◌, ◌<ℤ◌, leb_ℤ→le, leb_ℤ→gt}
use home_assignment.Venues.{FeedUpdate, ok, needs_resync, Outcome}
use home_assignment.Venues.Binance.{
  PendingEvent, Config, State, update_of, on_event, drop_old, straddles, replay, replayed,
  reconcile, give_up,
}

-- Each event begins where the one before it ended.
unfoldable pub follows : ℤ → List PendingEvent → Bool
follows n [] = true
follows n (e ∷ es) = eq_ℤ e.first_id (n +ℤ pos 1) && follows e.final_id es

unfoldable pub last_id : ℤ → List PendingEvent → ℤ
last_id n [] = n
last_id n (e ∷ es) = last_id e.final_id es

-- The first event spans the id behind the snapshot, and the others follow it.
unfoldable pub continues : ℤ → List PendingEvent → Bool
continues id [] = true
continues id (e ∷ es) =
    leb_ℤ e.first_id (id +ℤ pos 1) && leb_ℤ (id +ℤ pos 1) e.final_id && follows e.final_id es

replay-follows :
    (applied recv : ℤ) (es : List PendingEvent)
    → replay false applied recv es
      ≡ (if follows applied es then some (map (update_of recv) es, last_id applied es) else none)
unfolding replay follows last_id
replay-follows applied recv [] = refl
replay-follows applied recv (e ∷ es) = ground (arith, replay-follows e.final_id recv es)

-- The outcome of a reconciliation that succeeds with these events left.
abbrev seeded : ℤ → ℤ → FeedUpdate → List PendingEvent → Outcome State
seeded id recv snapshot left = record {
  verdict = ok;
  state = record { buffered = []; last_update_id = last_id id left; synced = true };
  out = snapshot ∷ map (update_of recv) left;
}

reconcile_left :
    (s : State) (id recv : ℤ) (snapshot : FeedUpdate) (left : List PendingEvent)
    → (if straddles id left then replayed s snapshot (replay true id recv left) else give_up s)
      ≡ (if continues id left then seeded id recv snapshot left else give_up s)
unfolding straddles continues replay last_id
reconcile_left s id recv snapshot [] = refl
reconcile_left s id recv snapshot (e ∷ es) = ground (arith, replay-follows e.final_id recv es)

-- The update that an event stands for, written out.
abbrev pub delta_of : ℤ → PendingEvent → FeedUpdate
delta_of recv e = record {
  is_snapshot = false;
  bids = e.bids;
  asks = e.asks;
  exchange_ts_ns = e.exchange_ts_ns;
  recv_ts_ns = recv;
}

abbrev pub deltas : ℤ → List PendingEvent → List FeedUpdate
deltas recv [] = []
deltas recv (e ∷ es) = delta_of recv e ∷ deltas recv es

map-update_of-deltas :
    (recv : ℤ) (es : List PendingEvent) → map (update_of recv) es ≡ deltas recv es
unfolding update_of
map-update_of-deltas recv [] = refl
map-update_of-deltas recv (e ∷ es) = ap (λ us. delta_of recv e ∷ us) (map-update_of-deltas recv es)

-- Events that end at the id or before it.
abbrev pub IsOld : ℤ → List PendingEvent → Type 0
IsOld id [] = Unit
IsOld id (e ∷ es) = (e.final_id ≤ℤ id) × IsOld id es

-- The first event, if there is one, ends behind the id.
abbrev pub StartsBehind : ℤ → List PendingEvent → Type 0
StartsBehind id [] = Unit
StartsBehind id (e ∷ es) = id <ℤ e.final_id

drop_old-split :
    (id : ℤ) (es : List PendingEvent)
    → (old : List PendingEvent) × (es ≡ old ++ drop_old id es)
      × IsOld id old
      × StartsBehind id (drop_old id es)
unfolding drop_old
drop_old-split id [] = ([], refl, tt, tt)
drop_old-split id (e ∷ es) = elim (Bool-cases (leb_ℤ e.final_id id)) [
  | inr behind ↦ rw behind ([], refl, tt, leb_ℤ→gt e.final_id id behind)
  | inl reflected ↦
      let h = drop_old-split id es in
      rw reflected (e ∷ h.0, ap (λ xs. e ∷ xs) h.1, (leb_ℤ→le e.final_id id reflected, h.2), h.3)
]

-- A REST snapshot splits the buffer into the events that end at its id or before, and those from
-- the first on that ends behind it. It is accepted exactly if the latter continue it without a
-- hole. Then the snapshot and those events go out in order, nothing is held any longer, and the
-- stream is synced at the last id. Otherwise a resync is asked for, nothing goes out, and the
-- buffer is emptied.
pub reconcile-continues :
    (s : State) (id recv : ℤ) (snapshot : FeedUpdate)
    → (old : List PendingEvent) × (left : List PendingEvent) × (s.buffered ≡ old ++ left)
      × IsOld id old
      × StartsBehind id left
      × (reconcile s id recv snapshot ≡ (
          if continues id left
          then record {
            verdict = ok;
            state = record { buffered = []; last_update_id = last_id id left; synced = true };
            out = snapshot ∷ deltas recv left;
          }
          else record {
            verdict = needs_resync;
            state = record { buffered = []; last_update_id = s.last_update_id; synced = s.synced };
            out = [];
          }))
unfolding reconcile
reconcile-continues s id recv snapshot =
    let left = drop_old id s.buffered in
    let h = drop_old-split id s.buffered in
    (
      h.0,
      left,
      h.1,
      h.2,
      h.3,
      rw (sym (map-update_of-deltas recv left)) (reconcile_left s id recv snapshot left),
    )

-- Events handed to the protocol in turn: the state and all updates, or `none` once an event is
-- not accepted.
abbrev then_feed :
    List FeedUpdate → Option (State × List FeedUpdate) → Option (State × List FeedUpdate)
then_feed out none = none
then_feed out (some (s, us)) = some (s, out ++ us)

unfoldable pub feed : Config → State → ℤ → List PendingEvent → Option (State × List FeedUpdate)
unfolding on_event
feed config s recv [] = some (s, [])
feed config s recv (e ∷ es) =
    let o = on_event config s recv e in
    let rest = then_feed o.out (feed config o.state recv es) in
    elim o.verdict [ ok ↦ rest | _ ↦ none ]

-- A synced protocol takes a run of events exactly if each begins where the one before it ended, and
-- then every event goes out as one update, in order.
pub feed-follows :
    (config : Config) (s : State) (recv : ℤ) (es : List PendingEvent)
    → s.synced ≡ true
    → feed config s recv es ≡ (
        if follows s.last_update_id es
        then some
            (record s { last_update_id = last_id s.last_update_id es }, map (update_of recv) es)
        else none)
unfolding feed follows last_id
feed-follows config s recv [] h = refl
feed-follows config s recv (e ∷ es) h =
    ground (arith, feed-follows config (record s { last_update_id = e.final_id }) recv es h)

-- Whatever arrives, no more events are held than the limit allows.
pub on_event-bounded :
    (config : Config) (s : State) (recv : ℤ) (e : PendingEvent)
    → length s.buffered ≤ config.max_buffered_events
    → length (on_event config s recv e).state.buffered ≤ config.max_buffered_events
unfolding on_event
on_event-bounded config s recv e h = ground (arith, length-append s.buffered (e ∷ []))
