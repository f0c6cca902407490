-- ===== src/Pipeline/Feeds/Bybit.antt =====
-- src/venues/bybit.cc: the updates handed on are of levels that passed ingestion.
use home_assignment.Common.{ℕ, Bool, true, false, not, ◌&&◌, ◌||◌, List, Option, none, some}
use home_assignment.Common.Int.{ℤ, pos, ◌+ℤ◌, eq_ℤ}
use home_assignment.Common.Text.{codes, text_eq}
use home_assignment.Json.{Json, get_string, get_i64, parse_level_array, ◌>>=◌}
use home_assignment.Json.Levels.{parse_level_array-IsChange}
use home_assignment.Venues.{FeedUpdate}
use home_assignment.Venues.Bybit
use home_assignment.Engine.Books.{Ingested}
use home_assignment.Runner.Protocols.{bybit_protocol}
use home_assignment.Pipeline.Laws.{FeedLaws}
use home_assignment.Pipeline.Feeds.{Whenever, Whenever-and_then, Fits, Fits-if, Any}

module _ (json : Json) (topic : List ℕ) where
  open json use {Element, parse, at_key, bool_of}

  update_of-Ingested :
      (is_snapshot : Bool) (recv : ℤ) (root body : Element)
      → Whenever Ingested (Bybit.update_of json topic is_snapshot recv root body)
  unfolding Bybit.update_of
  update_of-Ingested is_snapshot recv root body =
      Whenever-and_then Ingested (parse_level_array json (at_key body (codes "b"))) _
        (λ bids is_bids.
          Whenever-and_then Ingested (parse_level_array json (at_key body (codes "a"))) _
            (λ asks is_asks. (
              parse_level_array-IsChange json _ bids is_bids,
              parse_level_array-IsChange json _ asks is_asks,
            )))

  on_update-Fits :
      (s : Bybit.State) (id : ℤ) (u : Option FeedUpdate) (is_snapshot : Bool)
      → Whenever Ingested u
      → Fits Any (Bybit.on_update s id u is_snapshot)
  unfolding Bybit.on_update
  on_update-Fits s id none is_snapshot h =
      Fits-if Any (not is_snapshot && (not s.synced || not (eq_ℤ id (s.last_update_id +ℤ pos 1)))) _
        _ (tt, tt) (tt, tt)
  on_update-Fits s id (some u) is_snapshot h =
      Fits-if Any (not is_snapshot && (not s.synced || not (eq_ℤ id (s.last_update_id +ℤ pos 1)))) _
        _ (tt, tt) (tt, (h, tt))

  numbered_frame-Fits :
      (s : Bybit.State) (recv : ℤ) (is_snapshot : Bool) (root body : Element) (id : Option ℤ)
      → Fits Any (Bybit.numbered_frame json topic s recv is_snapshot root body id)
  numbered_frame-Fits s recv is_snapshot root body none = (tt, tt)
  numbered_frame-Fits s recv is_snapshot root body (some id) =
      on_update-Fits s id (Bybit.update_of json topic is_snapshot recv root body) is_snapshot
        (update_of-Ingested is_snapshot recv root body)

  body_frame-Fits :
      (s : Bybit.State) (recv : ℤ) (is_snapshot : Bool) (root : Element) (body : Option Element)
      → Fits Any (Bybit.body_frame json topic s recv is_snapshot root body)
  body_frame-Fits s recv is_snapshot root none = (tt, tt)
  body_frame-Fits s recv is_snapshot root (some body) =
      numbered_frame-Fits s recv is_snapshot root body (get_i64 json (at_key body (codes "u")))

  typed_frame-Fits_bybit :
      (s : Bybit.State) (recv : ℤ) (root : Element) (kind : Option (List ℕ))
      → Fits Any (Bybit.typed_frame json topic s recv root kind)
  typed_frame-Fits_bybit s recv root none = (tt, tt)
  typed_frame-Fits_bybit s recv root (some kind) =
      let is_snapshot = text_eq kind (codes "snapshot") in
      Fits-if Any (not is_snapshot && not (text_eq kind (codes "delta"))) _ _ (tt, tt)
        (body_frame-Fits s recv is_snapshot root (at_key root (codes "data")))

  acknowledgement-Fits :
      (s : Bybit.State) (root : Element) (success : Option Bool)
      → Fits Any (Bybit.acknowledgement json topic s root success)
  acknowledgement-Fits s root none = (tt, tt)
  acknowledgement-Fits s root (some true) = (tt, tt)
  acknowledgement-Fits s root (some false) = (tt, tt)

  topic_frame-Fits :
      (s : Bybit.State) (recv : ℤ) (root : Element) (name : Option (List ℕ))
      → Fits Any (Bybit.topic_frame json topic s recv root name)
  topic_frame-Fits s recv root none =
      acknowledgement-Fits s root (at_key root (codes "success") >>= bool_of)
  topic_frame-Fits s recv root (some name) =
      Fits-if Any (not (text_eq name topic)) _ _ (tt, tt)
        (typed_frame-Fits_bybit s recv root (get_string json (at_key root (codes "type"))))

  parsed_frame-Fits_bybit :
      (s : Bybit.State) (recv : ℤ) (root : Option Element)
      → Fits Any (Bybit.parsed_frame json topic s recv root)
  parsed_frame-Fits_bybit s recv none = (tt, tt)
  parsed_frame-Fits_bybit s recv (some root) =
      topic_frame-Fits s recv root (get_string json (at_key root (codes "topic")))

  pub bybit_protocol-FeedLaws : FeedLaws (bybit_protocol json topic) Any
  unfolding Bybit.on_frame
  bybit_protocol-FeedLaws = record {
    reset-Good = λ s h. tt;
    on_frame-Good = λ s frame recv h. parsed_frame-Fits_bybit s recv (parse frame);
    on_rest_snapshot-Good = λ s body recv h. (tt, tt);
  }
