-- ===== src/Runner/Laws.antt =====
-- src/venues/binance.cc, okx.cc and bybit.cc: no call of a protocol but Reset ends its
-- synchronisation, which fills the runner's interface.
use home_assignment.Common.{
  ℕ, Bool, true, false, not, ◌&&◌, ◌||◌, List, ◌≡◌, refl, Option, none, some, if◌then◌else◌, leb,
}
use home_assignment.Common.Int.{ℤ, pos, ◌+ℤ◌, eq_ℤ}
use home_assignment.Common.Lists.{length}
use home_assignment.Common.Text.{codes, text_eq}
use home_assignment.Json.{Json, get_string, get_i64, ◌>>=◌}
use home_assignment.Venues.{FeedUpdate, Outcome, is_other}
use home_assignment.Venues.Binance
use home_assignment.Venues.Binance.{Config, PendingEvent}
use home_assignment.Venues.Okx
use home_assignment.Venues.Bybit
use home_assignment.Runner.{ProtocolLaws}
use home_assignment.Runner.Protocols.{binance_protocol, okx_protocol, bybit_protocol}

-- A call leaves a synchronised protocol synchronised.
abbrev Keeps : {S : Type 0} → (S → Bool) → S → Outcome S → Type 0
Keeps synced s o = synced s ≡ true → synced o.state ≡ true

Keeps-if :
    {S : Type 0} (synced : S → Bool) (s : S) (b : Bool) (x y : Outcome S)
    → Keeps synced s x
    → Keeps synced s y
    → Keeps synced s (if b then x else y)
Keeps-if synced s true x y h k = h
Keeps-if synced s false x y h k = k

or-true : (b c : Bool) → c ≡ true → b || c ≡ true
or-true true c h = refl
or-true false c h = h

module _ (json : Json) (config : Config) where
  open json use {Element, parse, at_key}

  on_event-Keeps :
      (s : Binance.State) (recv : ℤ) (e : PendingEvent)
      → Keeps (λ t. t.synced) s (Binance.on_event config s recv e)
  unfolding Binance.on_event
  on_event-Keeps s recv e =
      Keeps-if (λ t. t.synced) s (not s.synced) _ _
        (Keeps-if (λ t. t.synced) s (leb config.max_buffered_events (length s.buffered)) _ _
          (λ h. h) (λ h. h))
        (Keeps-if (λ t. t.synced) s (not (eq_ℤ e.first_id (s.last_update_id +ℤ pos 1))) _ _ (λ h. h)
          (λ h. h))

  parsed_event-Keeps :
      (s : Binance.State) (recv : ℤ) (e : Option PendingEvent)
      → Keeps (λ t. t.synced) s (Binance.parsed_event json config s recv e)
  parsed_event-Keeps s recv none = λ h. h
  parsed_event-Keeps s recv (some e) = on_event-Keeps s recv e

  typed_frame-Keeps :
      (s : Binance.State) (recv : ℤ) (root : Element) (kind : Option (List ℕ))
      → Keeps (λ t. t.synced) s (Binance.typed_frame json config s recv root kind)
  typed_frame-Keeps s recv root none = λ h. h
  typed_frame-Keeps s recv root (some kind) =
      Keeps-if (λ t. t.synced) s (not (text_eq kind (codes "depthUpdate"))) _ _ (λ h. h)
        (Keeps-if (λ t. t.synced) s
          (is_other (get_string json (at_key root (codes "s"))) config.symbol) _ _ (λ h. h)
          (parsed_event-Keeps s recv (Binance.parse_depth_event json config root)))

  parsed_frame-Keeps :
      (s : Binance.State) (recv : ℤ) (root : Option Element)
      → Keeps (λ t. t.synced) s (Binance.parsed_frame json config s recv root)
  parsed_frame-Keeps s recv none = λ h. h
  parsed_frame-Keeps s recv (some root) =
      typed_frame-Keeps s recv root (get_string json (at_key root (codes "e")))

  replayed-Keeps :
      (s : Binance.State) (u : FeedUpdate) (r : Option (List FeedUpdate × ℤ))
      → Keeps (λ t. t.synced) s (Binance.replayed s u r)
  replayed-Keeps s u none = λ h. h
  replayed-Keeps s u (some (us, id)) = λ h. refl

  parsed_snapshot-Keeps :
      (s : Binance.State) (recv : ℤ) (p : Option (ℤ × FeedUpdate))
      → Keeps (λ t. t.synced) s (Binance.parsed_snapshot json config s recv p)
  unfolding Binance.reconcile
  parsed_snapshot-Keeps s recv none = λ h. h
  parsed_snapshot-Keeps s recv (some (id, u)) =
      Keeps-if (λ t. t.synced) s (Binance.straddles id (Binance.drop_old id s.buffered)) _ _
        (replayed-Keeps s u (Binance.replay true id recv (Binance.drop_old id s.buffered))) (λ h. h)

  pub binance_protocol-ProtocolLaws : ProtocolLaws (binance_protocol json config)
  unfolding Binance.on_frame Binance.on_rest_snapshot
  binance_protocol-ProtocolLaws = record {
    on_frame-synced = λ s frame recv v h. parsed_frame-Keeps s recv (parse frame) h;
    on_rest_snapshot-synced = λ s body recv v h.
        parsed_snapshot-Keeps s recv (Binance.parse_snapshot json config recv body) h;
  }

module _ (json : Json) (channel symbol : List ℕ) where
  open json use {Element, parse, at_key, array_of}

  commit-Keeps :
      (s : Okx.State) (is_snapshot : Bool) (b : Okx.Batch)
      → Keeps (λ t. t.synced) s (Okx.commit json symbol s is_snapshot b)
  unfolding Okx.commit
  commit-Keeps s is_snapshot (Okx.failed verdict) = λ h. h
  commit-Keeps s is_snapshot (Okx.staged updates seq has) = or-true is_snapshot s.synced

  data_frame-Keeps :
      (s : Okx.State) (recv : ℤ) (is_snapshot : Bool) (data' : Option (List Element))
      → Keeps (λ t. t.synced) s (Okx.data_frame json symbol s recv is_snapshot data')
  data_frame-Keeps s recv is_snapshot none = λ h. h
  data_frame-Keeps s recv is_snapshot (some entries) =
      commit-Keeps s is_snapshot
        (Okx.entry_loop json symbol is_snapshot s.synced recv s.last_seq_id s.has_seq entries)

  action_frame-Keeps :
      (s : Okx.State) (recv : ℤ) (root : Element) (action : Option (List ℕ))
      → Keeps (λ t. t.synced) s (Okx.action_frame json symbol s recv root action)
  action_frame-Keeps s recv root none = λ h. h
  action_frame-Keeps s recv root (some action) =
      let is_snapshot = text_eq action (codes "snapshot") in
      Keeps-if (λ t. t.synced) s (not is_snapshot && not (text_eq action (codes "update"))) _ _
        (λ h. h)
        (Keeps-if (λ t. t.synced) s
          (is_other
            (get_string json (at_key root (codes "arg") >>= λ arg. at_key arg (codes "instId")))
            symbol)
          _ _ (λ h. h)
          (data_frame-Keeps s recv is_snapshot (at_key root (codes "data") >>= array_of)))

  root_frame-Keeps :
      (s : Okx.State) (recv : ℤ) (root : Element) (event : Option (List ℕ))
      → Keeps (λ t. t.synced) s (Okx.root_frame json symbol s recv root event)
  root_frame-Keeps s recv root none =
      action_frame-Keeps s recv root (get_string json (at_key root (codes "action")))
  root_frame-Keeps s recv root (some event) =
      Keeps-if (λ t. t.synced) s (not (text_eq event (codes "error"))) _ _ (λ h. h) (λ h. h)

  parsed_frame-Keeps_okx :
      (s : Okx.State) (recv : ℤ) (root : Option Element)
      → Keeps (λ t. t.synced) s (Okx.parsed_frame json symbol s recv root)
  parsed_frame-Keeps_okx s recv none = λ h. h
  parsed_frame-Keeps_okx s recv (some root) =
      root_frame-Keeps s recv root (get_string json (at_key root (codes "event")))

  pub okx_protocol-ProtocolLaws : ProtocolLaws (okx_protocol json channel symbol)
  unfolding Okx.on_frame
  okx_protocol-ProtocolLaws = record {
    on_frame-synced = λ s frame recv v h.
        Keeps-if (λ t. t.synced) s (text_eq frame (codes "pong")) _ _ (λ k. k)
          (parsed_frame-Keeps_okx s recv (parse frame)) h;
    on_rest_snapshot-synced = λ s body recv v h. h;
  }

module _ (json : Json) (topic : List ℕ) where
  open json use {Element, parse, at_key, bool_of}

  on_update-Keeps :
      (s : Bybit.State) (id : ℤ) (u : Option FeedUpdate) (is_snapshot : Bool)
      → Keeps (λ t. t.synced) s (Bybit.on_update s id u is_snapshot)
  unfolding Bybit.on_update
  on_update-Keeps s id none is_snapshot =
      Keeps-if (λ t. t.synced) s
        (not is_snapshot && (not s.synced || not (eq_ℤ id (s.last_update_id +ℤ pos 1)))) _ _
        (λ h. h) (λ h. h)
  on_update-Keeps s id (some u) is_snapshot =
      Keeps-if (λ t. t.synced) s
        (not is_snapshot && (not s.synced || not (eq_ℤ id (s.last_update_id +ℤ pos 1)))) _ _
        (λ h. h) (or-true is_snapshot s.synced)

  numbered_frame-Keeps :
      (s : Bybit.State) (recv : ℤ) (is_snapshot : Bool) (root body : Element) (id : Option ℤ)
      → Keeps (λ t. t.synced) s (Bybit.numbered_frame json topic s recv is_snapshot root body id)
  numbered_frame-Keeps s recv is_snapshot root body none = λ h. h
  numbered_frame-Keeps s recv is_snapshot root body (some id) =
      on_update-Keeps s id (Bybit.update_of json topic is_snapshot recv root body) is_snapshot

  body_frame-Keeps :
      (s : Bybit.State) (recv : ℤ) (is_snapshot : Bool) (root : Element) (body : Option Element)
      → Keeps (λ t. t.synced) s (Bybit.body_frame json topic s recv is_snapshot root body)
  body_frame-Keeps s recv is_snapshot root none = λ h. h
  body_frame-Keeps s recv is_snapshot root (some body) =
      numbered_frame-Keeps s recv is_snapshot root body (get_i64 json (at_key body (codes "u")))

  kind_frame-Keeps :
      (s : Bybit.State) (recv : ℤ) (root : Element) (kind : Option (List ℕ))
      → Keeps (λ t. t.synced) s (Bybit.typed_frame json topic s recv root kind)
  kind_frame-Keeps s recv root none = λ h. h
  kind_frame-Keeps s recv root (some kind) =
      let is_snapshot = text_eq kind (codes "snapshot") in
      Keeps-if (λ t. t.synced) s (not is_snapshot && not (text_eq kind (codes "delta"))) _ _
        (λ h. h) (body_frame-Keeps s recv is_snapshot root (at_key root (codes "data")))

  acknowledgement-Keeps :
      (s : Bybit.State) (root : Element) (success : Option Bool)
      → Keeps (λ t. t.synced) s (Bybit.acknowledgement json topic s root success)
  acknowledgement-Keeps s root none = λ h. h
  acknowledgement-Keeps s root (some true) = λ h. h
  acknowledgement-Keeps s root (some false) = λ h. h

  topic_frame-Keeps :
      (s : Bybit.State) (recv : ℤ) (root : Element) (name : Option (List ℕ))
      → Keeps (λ t. t.synced) s (Bybit.topic_frame json topic s recv root name)
  topic_frame-Keeps s recv root none =
      acknowledgement-Keeps s root (at_key root (codes "success") >>= bool_of)
  topic_frame-Keeps s recv root (some name) =
      Keeps-if (λ t. t.synced) s (not (text_eq name topic)) _ _ (λ h. h)
        (kind_frame-Keeps s recv root (get_string json (at_key root (codes "type"))))

  parsed_frame-Keeps_bybit :
      (s : Bybit.State) (recv : ℤ) (root : Option Element)
      → Keeps (λ t. t.synced) s (Bybit.parsed_frame json topic s recv root)
  parsed_frame-Keeps_bybit s recv none = λ h. h
  parsed_frame-Keeps_bybit s recv (some root) =
      topic_frame-Keeps s recv root (get_string json (at_key root (codes "topic")))

  pub bybit_protocol-ProtocolLaws : ProtocolLaws (bybit_protocol json topic)
  unfolding Bybit.on_frame
  bybit_protocol-ProtocolLaws = record {
    on_frame-synced = λ s frame recv v h. parsed_frame-Keeps_bybit s recv (parse frame) h;
    on_rest_snapshot-synced = λ s body recv v h. h;
  }
