-- ===== src/Pipeline/Feeds/Binance.antt =====
-- src/venues/binance.cc: the updates handed on are of levels that passed ingestion.
use home_assignment.Common.{
  ℕ, Bool, true, false, not, ◌&&◌, List, [], ◌∷◌, Option, none, some, if◌then◌else◌, leb,
}
use home_assignment.Common.Int.{ℤ, pos, ◌+ℤ◌, eq_ℤ, leb_ℤ}
use home_assignment.Common.Lists.{All, All-append, length}
use home_assignment.Common.Text.{codes, text_eq}
use home_assignment.Book.Invariant.{IsChange}
use home_assignment.Json.{Json, get_string, get_i64, parse_level_array}
use home_assignment.Json.Levels.{parse_level_array-IsChange}
use home_assignment.Venues.{FeedUpdate, is_other}
use home_assignment.Venues.Binance
use home_assignment.Venues.Binance.{Config, PendingEvent}
use home_assignment.Engine.Books.{Ingested}
use home_assignment.Runner.Protocols.{binance_protocol}
use home_assignment.Pipeline.Laws.{FeedLaws}
use home_assignment.Pipeline.Feeds.{Whenever, Whenever-and_then, Fits, Fits-if, if-All}

module _ (json : Json) (config : Config) where
  open json use {Element, parse, at_key}

  -- The levels of an event that is held passed ingestion.
  abbrev pub EventIngested : PendingEvent → Type 0
  EventIngested e = All IsChange e.bids × All IsChange e.asks

  abbrev pub Buffered : Binance.State → Type 0
  Buffered s = All EventIngested s.buffered

  on_event-Fits :
      (s : Binance.State) (recv : ℤ) (e : PendingEvent)
      → EventIngested e
      → Buffered s
      → Fits Buffered (Binance.on_event config s recv e)
  unfolding Binance.on_event
  on_event-Fits s recv e h k =
      Fits-if Buffered (not s.synced) _ _
        (Fits-if Buffered (leb config.max_buffered_events (length s.buffered)) _ _ (tt, tt)
          (All-append EventIngested s.buffered (e ∷ []) k (h, tt), tt))
        (Fits-if Buffered (not (eq_ℤ e.first_id (s.last_update_id +ℤ pos 1))) _ _ (k, tt)
          (k, (h, tt)))

  parse_depth_event-EventIngested :
      (root : Element) → Whenever EventIngested (Binance.parse_depth_event json config root)
  unfolding Binance.parse_depth_event
  parse_depth_event-EventIngested root =
      Whenever-and_then EventIngested (get_i64 json (at_key root (codes "U"))) _ (λ first is_first.
        Whenever-and_then EventIngested (get_i64 json (at_key root (codes "u"))) _
          (λ final is_final.
            Whenever-and_then EventIngested (parse_level_array json (at_key root (codes "b"))) _
              (λ bids is_bids.
                Whenever-and_then EventIngested (parse_level_array json (at_key root (codes "a"))) _
                  (λ asks is_asks. (
                    parse_level_array-IsChange json _ bids is_bids,
                    parse_level_array-IsChange json _ asks is_asks,
                  )))))

  parsed_event-Fits :
      (s : Binance.State) (recv : ℤ) (e : Option PendingEvent)
      → Whenever EventIngested e
      → Buffered s
      → Fits Buffered (Binance.parsed_event json config s recv e)
  parsed_event-Fits s recv none h k = (k, tt)
  parsed_event-Fits s recv (some e) h k = on_event-Fits s recv e h k

  typed_frame-Fits :
      (s : Binance.State) (recv : ℤ) (root : Element) (kind : Option (List ℕ))
      → Buffered s
      → Fits Buffered (Binance.typed_frame json config s recv root kind)
  typed_frame-Fits s recv root none k = (k, tt)
  typed_frame-Fits s recv root (some kind) k =
      Fits-if Buffered (not (text_eq kind (codes "depthUpdate"))) _ _ (k, tt)
        (Fits-if Buffered (is_other (get_string json (at_key root (codes "s"))) config.symbol) _ _
          (k, tt)
          (parsed_event-Fits s recv (Binance.parse_depth_event json config root)
            (parse_depth_event-EventIngested root) k))

  parsed_frame-Fits :
      (s : Binance.State) (recv : ℤ) (root : Option Element)
      → Buffered s
      → Fits Buffered (Binance.parsed_frame json config s recv root)
  parsed_frame-Fits s recv none k = (k, tt)
  parsed_frame-Fits s recv (some root) k =
      typed_frame-Fits s recv root (get_string json (at_key root (codes "e"))) k

  drop_old-EventIngested :
      (id : ℤ) (es : List PendingEvent)
      → All EventIngested es
      → All EventIngested (Binance.drop_old id es)
  unfolding Binance.drop_old
  drop_old-EventIngested id [] h = tt
  drop_old-EventIngested id (e ∷ es) h =
      if-All EventIngested (leb_ℤ e.final_id id) _ _ (drop_old-EventIngested id es h.1) h

  -- The updates of a replay, if it comes to its end.
  abbrev Replays : Option (List FeedUpdate × ℤ) → Type 0
  Replays = Whenever (λ r. All Ingested r.0)

  if-Replays :
      (b : Bool) (x y : Option (List FeedUpdate × ℤ))
      → Replays x
      → Replays y
      → Replays (if b then x else y)
  if-Replays true x y h k = h
  if-Replays false x y h k = k

  staged-Replays :
      (u : FeedUpdate) (r : Option (List FeedUpdate × ℤ))
      → Ingested u
      → Replays r
      → Replays (Binance.staged u r)
  staged-Replays u none h k = tt
  staged-Replays u (some (us, id)) h k = (h, k)

  replay-Replays :
      (first : Bool) (applied recv : ℤ) (es : List PendingEvent)
      → All EventIngested es
      → Replays (Binance.replay first applied recv es)
  unfolding Binance.replay
  replay-Replays first applied recv [] h = tt
  replay-Replays first applied recv (e ∷ es) h =
      if-Replays (not first && not (eq_ℤ e.first_id (applied +ℤ pos 1))) none _ tt (
        staged-Replays (Binance.update_of recv e) _ h.0
          (replay-Replays false e.final_id recv es h.1))

  replayed-Fits :
      (s : Binance.State) (u : FeedUpdate) (r : Option (List FeedUpdate × ℤ))
      → Ingested u
      → Replays r
      → Fits Buffered (Binance.replayed s u r)
  replayed-Fits s u none h k = (tt, tt)
  replayed-Fits s u (some (us, id)) h k = (tt, (h, k))

  parsed_snapshot-Fits :
      (s : Binance.State) (recv : ℤ) (r : Option (ℤ × FeedUpdate))
      → Whenever (λ p. Ingested p.1) r
      → Buffered s
      → Fits Buffered (Binance.parsed_snapshot json config s recv r)
  unfolding Binance.reconcile
  parsed_snapshot-Fits s recv none h k = (k, tt)
  parsed_snapshot-Fits s recv (some (id, u)) h k =
      let left = Binance.drop_old id s.buffered in
      Fits-if Buffered (Binance.straddles id left) _ _
        (replayed-Fits s u (Binance.replay true id recv left) h
          (replay-Replays true id recv left (drop_old-EventIngested id s.buffered k)))
        (tt, tt)

  parse_snapshot-Ingested :
      (recv : ℤ) (body : List ℕ)
      → Whenever (λ p. Ingested p.1) (Binance.parse_snapshot json config recv body)
  unfolding Binance.parse_snapshot
  parse_snapshot-Ingested recv body =
      Whenever-and_then (λ p. Ingested p.1) (parse body) _
        (λ root is_root.
          Whenever-and_then (λ p. Ingested p.1) (get_i64 json (at_key root (codes "lastUpdateId")))
            _
            (λ id is_id.
              Whenever-and_then (λ p. Ingested p.1)
                (parse_level_array json (at_key root (codes "bids"))) _
                (λ bids is_bids.
                  Whenever-and_then (λ p. Ingested p.1)
                    (parse_level_array json (at_key root (codes "asks"))) _
                    (λ asks is_asks. (
                      parse_level_array-IsChange json _ bids is_bids,
                      parse_level_array-IsChange json _ asks is_asks,
                    )))))

  pub binance_protocol-FeedLaws : FeedLaws (binance_protocol json config) Buffered
  unfolding Binance.on_frame Binance.on_rest_snapshot Binance.reset
  binance_protocol-FeedLaws = record {
    reset-Good = λ s h. tt;
    on_frame-Good = λ s frame recv h. parsed_frame-Fits s recv (parse frame) h;
    on_rest_snapshot-Good = λ s body recv h.
        parsed_snapshot-Fits s recv (Binance.parse_snapshot json config recv body)
          (parse_snapshot-Ingested recv body) h;
  }
