-- ===== src/Examples/Feeds.antt =====
-- Frames of the three venues, over a document type of our own.
use home_assignment.Common.{
  ℕ, Bool, true, false, List, [], ◌∷◌, ◌++◌, map, ◌≡◌, ◌⊎◌, refl, Option, none, some, if◌then◌else◌,
}
use home_assignment.Common.Int.{ℤ, pos, ◌+ℤ◌, neg_ℤ, leb_ℤ, ltb_ℤ, eq_ℤ}
use home_assignment.Common.Text.{codes, text_eq}
use home_assignment.Book.{Level}
use home_assignment.Fixed.{parse_fixed}
use home_assignment.Json.{Json, parse_level_array, get_string, get_i64}
use home_assignment.Json.Numbers.{number_in, get_i64-number_in}
use home_assignment.Venues.{FeedUpdate, ok, needs_resync}
use home_assignment.Venues.Binance
use home_assignment.Venues.Binance.{PendingEvent}
use home_assignment.Venues.Binance.Sequence.{
  continues, follows, last_id, deltas, IsOld, StartsBehind, feed, reconcile-continues, feed-follows,
}
use home_assignment.Venues.Okx
use home_assignment.Venues.Okx.Sequence.{Linked, data_frame-Linked}
use home_assignment.Venues.Bybit
use home_assignment.Venues.Bybit.Sequence.{InSequence, on_frame-InSequence}

mutual
  pub data Doc : Type 0 where
    str : List ℕ → Doc
    int : ℤ → Doc
    bool : Bool → Doc
    arr : Docs → Doc
    obj : Fields → Doc

  pub data Docs : Type 0 where
    nil : Docs
    cons : Doc → Docs → Docs

  pub data Fields : Type 0 where
    end : Fields
    field : List ℕ → Doc → Fields → Fields

abbrev pub elements : Docs → List Doc
elements nil = []
elements (cons x xs) = x ∷ elements xs

abbrev pub find : List ℕ → Fields → Option Doc
find key end = none
find key (field k v fs) = if text_eq k key then some v else find key fs

abbrev pub key_of : Doc → List ℕ → Option Doc
key_of (obj fs) key = find key fs
key_of _ key = none

abbrev pub string_in : Doc → Option (List ℕ)
string_in (str s) = some s
string_in _ = none

abbrev pub int_in : Doc → Option ℤ
int_in (int n) = some n
int_in _ = none

abbrev pub bool_in : Doc → Option Bool
bool_in (bool b) = some b
bool_in _ = none

abbrev pub array_in : Doc → Option (List Doc)
array_in (arr xs) = some (elements xs)
array_in _ = none

-- A parser that reads every text as the one document.
abbrev pub reads : Doc → Json
reads doc = record {
  Element = Doc;
  parse = λ text. some doc;
  at_key = key_of;
  string_of = string_in;
  int64_of = int_in;
  bool_of = bool_in;
  array_of = array_in;
}

unfoldable pub methods : Unit {0}
unfolding parse_level_array parse_fixed get_string get_i64 text_eq leb_ℤ ltb_ℤ eq_ℤ neg_ℤ ◌+ℤ◌
    Binance.on_frame Binance.on_rest_snapshot Okx.on_frame Bybit.on_frame
methods = tt

abbrev pub level_doc : Doc
level_doc = arr (cons (str (codes "2.5")) (cons (str (codes "0.1")) nil))

abbrev pub levels_doc : Doc
levels_doc = arr (cons level_doc nil)

abbrev level_read : Level
level_read = record { px = pos 250000000; qty = pos 10000000 }

levels_read : parse_level_array (reads levels_doc) (some levels_doc) ≡ some (level_read ∷ [])
unfolding methods
levels_read = refl

abbrev event : ℕ → ℕ → PendingEvent
event first final = record {
  first_id = pos first;
  final_id = pos final;
  exchange_ts_ns = pos 0;
  bids = level_read ∷ [];
  asks = [];
}

abbrev buffering : Binance.State
buffering = record {
  buffered = event 1 5 ∷ event 6 9 ∷ event 10 12 ∷ [];
  last_update_id = pos 0;
  synced = false;
}

abbrev snapshot : FeedUpdate
snapshot = record {
  is_snapshot = true;
  bids = level_read ∷ [];
  asks = [];
  exchange_ts_ns = pos 0;
  recv_ts_ns = pos 77;
}

reconcile-continues_example :
    (old : List PendingEvent) × (left : List PendingEvent) × (buffering.buffered ≡ old ++ left)
    × IsOld (pos 7) old
    × StartsBehind (pos 7) left
    × (Binance.reconcile buffering (pos 7) (pos 77) snapshot ≡ (
        if continues (pos 7) left
        then record {
          verdict = ok;
          state = record { buffered = []; last_update_id = last_id (pos 7) left; synced = true };
          out = snapshot ∷ deltas (pos 77) left;
        }
        else record {
          verdict = needs_resync;
          state = record {
            buffered = [];
            last_update_id = buffering.last_update_id;
            synced = buffering.synced;
          };
          out = [];
        }))
reconcile-continues_example = reconcile-continues buffering (pos 7) (pos 77) snapshot

seeded_after :
    (Binance.reconcile buffering (pos 7) (pos 77) snapshot).state
    ≡ record { buffered = []; last_update_id = pos 12; synced = true }
unfolding methods
seeded_after = refl

abbrev binance_config : Binance.Config
binance_config = record { symbol = codes "BTCUSDT"; max_buffered_events = 3 }

abbrev live : Binance.State
live = record { buffered = []; last_update_id = pos 5; synced = true }

feed-follows_example : feed binance_config live (pos 77) (event 6 9 ∷ event 10 12 ∷ []) ≡ (
    if follows (pos 5) (event 6 9 ∷ event 10 12 ∷ [])
    then some (
      record live { last_update_id = last_id (pos 5) (event 6 9 ∷ event 10 12 ∷ []) },
      map (Binance.update_of (pos 77)) (event 6 9 ∷ event 10 12 ∷ []),
    )
    else none)
feed-follows_example = feed-follows binance_config live (pos 77) (event 6 9 ∷ event 10 12 ∷ []) refl

abbrev depth_doc : Doc
depth_doc = obj (
    field (codes "e") (str (codes "depthUpdate")) (
      field (codes "U") (int (pos 8)) (
        field (codes "u") (int (pos 9))
          (field (codes "b") levels_doc (field (codes "a") levels_doc end)))))

abbrev entry : ℕ → ℕ → Doc
entry prev seq = obj (
    field (codes "prevSeqId") (int (pos prev)) (
      field (codes "seqId") (int (pos seq))
        (field (codes "bids") levels_doc (field (codes "asks") levels_doc end))))

abbrev okx_frame : Doc
okx_frame = obj (
    field (codes "action") (str (codes "update"))
      (field (codes "data") (arr (cons (entry 4 4) (cons (entry 4 6) nil))) end))

abbrev okx_live : Okx.State
okx_live = record { last_seq_id = pos 4; has_seq = true; synced = true; fatal_reason = [] }

okx_moves_on :
    (Okx.on_frame (reads okx_frame) (codes "BTC-USDT") okx_live [] (pos 77)).state.last_seq_id
    ≡ pos 6
unfolding methods
okx_moves_on = refl

data_frame-Linked_example :
    let o =
      Okx.data_frame
        (reads okx_frame)
        (codes "BTC-USDT")
        okx_live
        (pos 77)
        false
        (some (entry 4 4 ∷ entry 4 6 ∷ [])) in
    ((o.out ≡ [])
      × (o.state ≡ okx_live)
      × ¬ (
          (last : ℤ) × (us : List FeedUpdate) × (true ≡ true)
          × (true ≡ true)
          × Linked
              (reads okx_frame)
              (codes "BTC-USDT")
              (pos 77)
              (pos 4)
              (entry 4 4 ∷ entry 4 6 ∷ [])
              last
              us))
    ⊎ ((o.verdict ≡ ok)
        × Linked
            (reads okx_frame)
            (codes "BTC-USDT")
            (pos 77)
            (pos 4)
            (entry 4 4 ∷ entry 4 6 ∷ [])
            o.state.last_seq_id
            o.out)
data_frame-Linked_example =
    data_frame-Linked (reads okx_frame) (codes "BTC-USDT") okx_live (pos 77)
      (entry 4 4 ∷ entry 4 6 ∷ [])

abbrev bybit_frame : Doc
bybit_frame = obj (
    field (codes "topic") (str (codes "orderbook.200.BTCUSDT")) (
      field (codes "type") (str (codes "delta")) (
        field (codes "data")
          (obj (
            field (codes "u") (int (pos 6))
              (field (codes "b") levels_doc (field (codes "a") levels_doc end))))
          end)))

abbrev bybit_live : Bybit.State
bybit_live = record { last_update_id = pos 5; synced = true; fatal_reason = [] }

on_frame-InSequence_example :
    let topic = codes "orderbook.200.BTCUSDT" in
    let o = Bybit.on_frame (reads bybit_frame) topic bybit_live [] (pos 77) in
    ((id : ℤ) × (u : FeedUpdate) × InSequence (reads bybit_frame) topic bybit_live [] (pos 77) id u
      × (o.verdict ≡ ok)
      × (o.out ≡ u ∷ [])
      × (o.state ≡ record bybit_live { last_update_id = id; synced = true }))
    ⊎ ((o.out ≡ [])
        × (o.state.last_update_id ≡ bybit_live.last_update_id)
        × (o.state.synced ≡ bybit_live.synced)
        × ¬ (
            (id : ℤ) × (u : FeedUpdate) × InSequence
              (reads bybit_frame)
              topic
              bybit_live
              []
              (pos 77)
              id
              u))
on_frame-InSequence_example =
    on_frame-InSequence (reads bybit_frame) (codes "orderbook.200.BTCUSDT") bybit_live [] (pos 77)

-- INT64_MIN as a text.
abbrev least : Doc
least = str (codes "-9223372036854775808")

get_i64-number_in_example :
    get_i64 (reads least) (some least) ≡ number_in (reads least) (some least)
get_i64-number_in_example = get_i64-number_in (reads least) (some least)

least_read : number_in (reads least) (some least) ≡ some (neg_ℤ (pos 9223372036854775808))
unfolding home_assignment.Json.Integers.all_digits home_assignment.Json.Integers.decimal
least_read = refl
