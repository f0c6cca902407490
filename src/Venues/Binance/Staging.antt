-- ===== src/Venues/Binance/Staging.antt =====
-- No update leaves the Binance protocol with a verdict other than ok.
use home_assignment.Common.{
  ℕ, true, not, List, refl, arith, Option, none, some, Bool-cases, inl, inr,
}
use home_assignment.Common.Int.{ℤ}
use home_assignment.Common.Text.{codes, text_eq}
use home_assignment.Json.{Json, get_string}
use home_assignment.Venues.{FeedUpdate, ok, parse_error, is_other, Staged, Staged-stop, Staged-if}
use home_assignment.Venues.Binance.{
  PendingEvent, Config, State, on_event, parse_depth_event, on_frame, parse_snapshot, reconcile,
  replay, replayed, on_rest_snapshot, drop_old, straddles, parsed_event, typed_frame, parsed_frame,
  parsed_snapshot,
}

on_event-Staged :
    (config : Config) (s : State) (recv : ℤ) (e : PendingEvent) → Staged (on_event config s recv e)
unfolding on_event
on_event-Staged config s recv e h = ground arith

replayed-Staged :
    (s : State) (u : FeedUpdate) (r : Option (List FeedUpdate × ℤ)) → Staged (replayed s u r)
replayed-Staged s u none h = refl
replayed-Staged s u (some (us, n)) h = absurd (h refl)

reconcile-Staged : (s : State) (id recv : ℤ) (u : FeedUpdate) → Staged (reconcile s id recv u)
unfolding reconcile
reconcile-Staged s id recv u = elim (Bool-cases (straddles id (drop_old id s.buffered))) [
  | inl fits ↦ rw fits (replayed-Staged s u (replay true id recv (drop_old id s.buffered)))
  | inr hole ↦ rw hole (λ h. refl)
]

module _ (json : Json) (config : Config) where
  open json use {Element, parse, at_key}

  parsed_event-Staged :
      (s : State) (recv : ℤ) (e : Option PendingEvent) → Staged (parsed_event json config s recv e)
  parsed_event-Staged s recv none = Staged-stop parse_error s
  parsed_event-Staged s recv (some e) = on_event-Staged config s recv e

  typed_frame-Staged :
      (s : State) (recv : ℤ) (root : Element) (kind : Option (List ℕ))
      → Staged (typed_frame json config s recv root kind)
  typed_frame-Staged s recv root none = Staged-stop ok s
  typed_frame-Staged s recv root (some kind) =
      Staged-if (not (text_eq kind (codes "depthUpdate"))) _ _ (Staged-stop ok s) (
        Staged-if (is_other (get_string json (at_key root (codes "s"))) config.symbol) _ _
          (Staged-stop ok s) (parsed_event-Staged s recv (parse_depth_event json config root)))

  parsed_frame-Staged :
      (s : State) (recv : ℤ) (root : Option Element) → Staged (parsed_frame json config s recv root)
  parsed_frame-Staged s recv none = Staged-stop parse_error s
  parsed_frame-Staged s recv (some root) =
      typed_frame-Staged s recv root (get_string json (at_key root (codes "e")))

  parsed_snapshot-Staged :
      (s : State) (recv : ℤ) (p : Option (ℤ × FeedUpdate))
      → Staged (parsed_snapshot json config s recv p)
  parsed_snapshot-Staged s recv none = Staged-stop parse_error s
  parsed_snapshot-Staged s recv (some (id, u)) = reconcile-Staged s id recv u

  -- A frame or a snapshot that is not accepted appends no update.
  pub protocol-Staged :
      (s : State) (text : List ℕ) (recv : ℤ)
      → Staged (on_frame json config s text recv)
        × Staged (on_rest_snapshot json config s text recv)
  unfolding on_frame on_rest_snapshot
  protocol-Staged s text recv = (
    parsed_frame-Staged s recv (parse text),
    parsed_snapshot-Staged s recv (parse_snapshot json config recv text),
  )
