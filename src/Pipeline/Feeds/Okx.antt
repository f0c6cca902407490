-- ===== src/Pipeline/Feeds/Okx.antt =====
-- src/venues/okx.cc: the updates handed on are of levels that passed ingestion.
use home_assignment.Common.{ℕ, Bool, true, not, ◌&&◌, List, [], ◌∷◌, Option, none, some}
use home_assignment.Common.Int.{ℤ}
use home_assignment.Common.Lists.{All}
use home_assignment.Common.Text.{codes, text_eq}
use home_assignment.Json.{Json, get_string, parse_level_array, ◌>>=◌}
use home_assignment.Json.Levels.{parse_level_array-IsChange}
use home_assignment.Venues.{FeedUpdate, is_other}
use home_assignment.Venues.Okx
use home_assignment.Engine.Books.{Ingested}
use home_assignment.Runner.Protocols.{okx_protocol}
use home_assignment.Pipeline.Laws.{FeedLaws}
use home_assignment.Pipeline.Feeds.{Whenever, Whenever-and_then, Fits, Fits-if, Any}

module _ (json : Json) (channel symbol : List ℕ) where
  open json use {Element, parse, at_key, array_of}

  -- The updates that are staged.
  abbrev Held : Okx.Batch → Type 0
  Held (Okx.failed verdict) = Unit
  Held (Okx.staged updates seq has) = All Ingested updates

  update_of-Ingested_okx :
      (is_snapshot : Bool) (recv : ℤ) (entry : Element)
      → Whenever Ingested (Okx.update_of json symbol is_snapshot recv entry)
  unfolding Okx.update_of
  update_of-Ingested_okx is_snapshot recv entry =
      Whenever-and_then Ingested (parse_level_array json (at_key entry (codes "bids"))) _
        (λ bids is_bids.
          Whenever-and_then Ingested (parse_level_array json (at_key entry (codes "asks"))) _
            (λ asks is_asks. (
              parse_level_array-IsChange json _ bids is_bids,
              parse_level_array-IsChange json _ asks is_asks,
            )))

  parsed_entry-Held :
      (u : Option FeedUpdate) (rest : Okx.Batch)
      → Whenever Ingested u
      → Held rest
      → Held (Okx.parsed_entry json symbol u rest)
  parsed_entry-Held none rest h k = tt
  parsed_entry-Held (some u) (Okx.failed verdict) h k = tt
  parsed_entry-Held (some u) (Okx.staged us seq has) h k = (h, k)

  after_check-Held :
      (check : Okx.Check) (u : Option FeedUpdate) (skip : Okx.Batch) (next : ℤ → Okx.Batch)
      → Whenever Ingested u
      → Held skip
      → ((seq : ℤ) → Held (next seq))
      → Held (Okx.after_check json symbol check u skip next)
  after_check-Held (Okx.refuse verdict) u skip next h k l = tt
  after_check-Held Okx.unchanged u skip next h k l = k
  after_check-Held (Okx.take seq) u skip next h k l = parsed_entry-Held u (next seq) h (l seq)

  entry_loop-Held :
      (is_snapshot synced : Bool) (recv next : ℤ) (has : Bool) (entries : List Element)
      → Held (Okx.entry_loop json symbol is_snapshot synced recv next has entries)
  unfolding Okx.entry_loop
  entry_loop-Held is_snapshot synced recv next has [] = tt
  entry_loop-Held is_snapshot synced recv next has (entry ∷ entries) =
      after_check-Held _ _ _ _ (update_of-Ingested_okx is_snapshot recv entry)
        (entry_loop-Held is_snapshot synced recv next has entries)
        (λ seq. entry_loop-Held is_snapshot synced recv seq true entries)

  commit-Fits :
      (s : Okx.State) (is_snapshot : Bool) (b : Okx.Batch)
      → Held b
      → Fits Any (Okx.commit json symbol s is_snapshot b)
  unfolding Okx.commit
  commit-Fits s is_snapshot (Okx.failed verdict) h = (tt, tt)
  commit-Fits s is_snapshot (Okx.staged updates seq has) h = (tt, h)

  data_frame-Fits :
      (s : Okx.State) (recv : ℤ) (is_snapshot : Bool) (data' : Option (List Element))
      → Fits Any (Okx.data_frame json symbol s recv is_snapshot data')
  data_frame-Fits s recv is_snapshot none = (tt, tt)
  data_frame-Fits s recv is_snapshot (some entries) =
      commit-Fits s is_snapshot _
        (entry_loop-Held is_snapshot s.synced recv s.last_seq_id s.has_seq entries)

  action_frame-Fits :
      (s : Okx.State) (recv : ℤ) (root : Element) (action : Option (List ℕ))
      → Fits Any (Okx.action_frame json symbol s recv root action)
  action_frame-Fits s recv root none = (tt, tt)
  action_frame-Fits s recv root (some action) =
      let is_snapshot = text_eq action (codes "snapshot") in
      Fits-if Any (not is_snapshot && not (text_eq action (codes "update"))) _ _ (tt, tt)
        (Fits-if Any
          (is_other
            (get_string json (at_key root (codes "arg") >>= λ arg. at_key arg (codes "instId")))
            symbol)
          _ _ (tt, tt)
          (data_frame-Fits s recv is_snapshot (at_key root (codes "data") >>= array_of)))

  root_frame-Fits :
      (s : Okx.State) (recv : ℤ) (root : Element) (event : Option (List ℕ))
      → Fits Any (Okx.root_frame json symbol s recv root event)
  root_frame-Fits s recv root none =
      action_frame-Fits s recv root (get_string json (at_key root (codes "action")))
  root_frame-Fits s recv root (some event) =
      Fits-if Any (not (text_eq event (codes "error"))) _ _ (tt, tt) (tt, tt)

  parsed_frame-Fits_okx :
      (s : Okx.State) (recv : ℤ) (root : Option Element)
      → Fits Any (Okx.parsed_frame json symbol s recv root)
  parsed_frame-Fits_okx s recv none = (tt, tt)
  parsed_frame-Fits_okx s recv (some root) =
      root_frame-Fits s recv root (get_string json (at_key root (codes "event")))

  pub okx_protocol-FeedLaws : FeedLaws (okx_protocol json channel symbol) Any
  unfolding Okx.on_frame
  okx_protocol-FeedLaws = record {
    reset-Good = λ s h. tt;
    on_frame-Good = λ s frame recv h.
        Fits-if Any (text_eq frame (codes "pong")) _ _ (tt, tt)
          (parsed_frame-Fits_okx s recv (parse frame));
    on_rest_snapshot-Good = λ s body recv h. (tt, tt);
  }
