-- ===== src/Venues/Okx/Staging.antt =====
-- What a refused frame of the OKX protocol appends.
use home_assignment.Common.{ℕ, Bool, not, ◌&&◌, List, refl, Option, none, some}
use home_assignment.Common.Int.{ℤ}
use home_assignment.Common.Text.{codes, text_eq}
use home_assignment.Json.{Json, get_string, ◌>>=◌}
use home_assignment.Venues.{ok, parse_error, is_other, Staged, Staged-stop, Staged-if}
use home_assignment.Venues.Okx.{
  State, Batch, failed, staged, commit, data_frame, action_frame, root_frame, parsed_frame,
  on_frame,
}

module _ (json : Json) (symbol : List ℕ) where
  open json use {Element, parse, at_key, array_of}

  commit-Staged :
      (s : State) (snapshot : Bool) (b : Batch) → Staged (commit json symbol s snapshot b)
  unfolding commit
  commit-Staged s snapshot (failed v) h = refl
  commit-Staged s snapshot (staged us last has) h = absurd (h refl)

  action_frame-Staged :
      (s : State) (recv : ℤ) (root : Element) (action : Option (List ℕ))
      → Staged (action_frame json symbol s recv root action)
  action_frame-Staged s recv root none = Staged-stop ok s
  action_frame-Staged s recv root (some action) =
      let is_snapshot = text_eq action (codes "snapshot") in
      Staged-if (not is_snapshot && not (text_eq action (codes "update"))) _ _ (Staged-stop ok s) (
        Staged-if
          (is_other
            (get_string json (at_key root (codes "arg") >>= λ arg. at_key arg (codes "instId")))
            symbol)
          _ _ (Staged-stop ok s) (by_entries is_snapshot (at_key root (codes "data") >>= array_of)))
    where
      by_entries :
          (is_snapshot : Bool) (entries : Option (List Element))
          → Staged (data_frame json symbol s recv is_snapshot entries)
      by_entries is_snapshot none = Staged-stop parse_error s
      by_entries is_snapshot (some entries) = commit-Staged s is_snapshot _

  root_frame-Staged :
      (s : State) (recv : ℤ) (root : Element) (event : Option (List ℕ))
      → Staged (root_frame json symbol s recv root event)
  root_frame-Staged s recv root none =
      action_frame-Staged s recv root (get_string json (at_key root (codes "action")))
  root_frame-Staged s recv root (some event) =
      Staged-if (not (text_eq event (codes "error"))) _ _ (Staged-stop ok s) (λ h. refl)

  -- A frame that is not accepted appends no update, also where its first entries were in order.
  pub on_frame-Staged :
      (s : State) (frame : List ℕ) (recv : ℤ) → Staged (on_frame json symbol s frame recv)
  unfolding on_frame
  on_frame-Staged s frame recv =
      Staged-if (text_eq frame (codes "pong")) _ _ (Staged-stop ok s) (parsed (parse frame))
    where
      parsed : (root : Option Element) → Staged (parsed_frame json symbol s recv root)
      parsed none = Staged-stop parse_error s
      parsed (some root) =
          root_frame-Staged s recv root (get_string json (at_key root (codes "event")))
