-- ===== src/Runner/Safety.antt =====
-- src/venues/runner.cc: what holds of a runner whatever the network does.
use home_assignment.Common.{
  ℕ, ◌+◌, ◌≡◌, refl, ◌∙◌, Bool, true, false, ◌||◌, List, [], ◌∷◌, if◌then◌else◌,
}
use home_assignment.Retry.{RateBudget}
use home_assignment.Venues.{FeedUpdate}
use home_assignment.Runner.{
  VenueState, disconnected, is_live, Protocol, Effect, opens, resets, fails_fatally, stops, pushes,
  refuses, schedules, VenueRunner, Answers, set_state, mark_healthy, arm_watchdog,
  schedule_reconnect, on_close, tell, close_connection, connect, opening, with_token,
  fetch_snapshot, resync, publish, live_if_synced,
}

abbrev pub is_down : VenueState → Bool
is_down disconnected = true
is_down _ = false

-- A fatal verdict, or Stop, is among the effects.
abbrev pub ended : List Effect → Bool
ended [] = false
ended (fails_fatally ∷ log) = true
ended (stops ∷ log) = true
ended (_ ∷ log) = ended log

-- No batch was refused since the protocol was last reset.
abbrev pub is_whole : List Effect → Bool
is_whole [] = true
is_whole (resets ∷ log) = true
is_whole (refuses batch ∷ log) = false
is_whole (_ ∷ log) = is_whole log

-- A connection is opened, and a reconnect scheduled, only before the end; a batch is pushed only
-- when none was refused since the last reset.
abbrev pub IsSound : List Effect → Type 0
IsSound [] = Unit
IsSound (opens generation ∷ log) = (ended log ≡ false) × IsSound log
IsSound (schedules wait ∷ log) = (ended log ≡ false) × IsSound log
IsSound (pushes batch ∷ log) = (is_whole log ≡ true) × IsSound log
IsSound (_ ∷ log) = IsSound log

pub record Facts (on down synced waits end stopping failed : Bool) : Type 0 where
  pub live_synced : on ≡ true → synced ≡ true
  pub down_waits : down ≡ true → end ≡ false → waits ≡ true
  pub end_known : end ≡ (stopping || failed)

module _ (p : Protocol) where
  abbrev pub FactsAt : VenueRunner p.State → Type 0
  FactsAt r =
      Facts (is_live r.state) (is_down r.state) (p.synced r.protocol) r.reconnect_waits
        (ended r.log) r.stopping r.failed

  -- What every handler keeps, and the part of it that holds while a handler runs.
  abbrev pub Inv : VenueRunner p.State → Type 0
  Inv r = FactsAt r × ((is_whole r.log ≡ true) × IsSound r.log)

  abbrev pub Base : VenueRunner p.State → Type 0
  Base r = (ended r.log ≡ (r.stopping || r.failed)) × (is_whole r.log ≡ true) × IsSound r.log

  pub if-Inv :
      (b : Bool) (x y : VenueRunner p.State)
      → (b ≡ true → Inv x)
      → (b ≡ false → Inv y)
      → Inv (if b then x else y)
  if-Inv true x y h k = h refl
  if-Inv false x y h k = k refl

  module _ (draw : ℕ → ℕ → ℕ) where
    -- A reconnect is scheduled, or the runner has ended.
    pub schedule_reconnect-Inv :
        (r : VenueRunner p.State)
        → (is_live r.state ≡ true → p.synced r.protocol ≡ true)
        → Base r
        → Inv (schedule_reconnect p draw r)
    unfolding schedule_reconnect
    schedule_reconnect-Inv r l (e, w, s) =
        if-Inv (r.stopping || r.failed) _ _
          (λ over. (
            record {
              live_synced = l;
              down_waits = λ d still. absurd (cc (e, over, still));
              end_known = e;
            },
            (w, s),
          ))
          (λ on. (
            record { live_synced = l; down_waits = λ d still. refl; end_known = e },
            (w, (e ∙ on, s)),
          ))

    pub on_close-Inv : (r : VenueRunner p.State) → Base r → Inv (on_close p draw r)
    unfolding on_close set_state
    on_close-Inv r (e, w, s) =
        if-Inv (r.stopping || r.failed) _ _
          (λ over. (
            record {
              live_synced = λ h. absurd (cc h);
              down_waits = λ d still. absurd (cc (e, over, still));
              end_known = e;
            },
            (w, s),
          ))
          (λ on.
            schedule_reconnect-Inv (record r { state = disconnected }) (λ h. absurd (cc h))
              (e, w, s))

    pub base : (r : VenueRunner p.State) → Inv r → Base r
    base r (f, (w, s)) = (f.end_known, w, s)

    tell-Inv : (a : Answers) (r : VenueRunner p.State) → Inv r → Inv (tell p draw a r)
    tell-Inv a r v = if-Inv a.tells _ _ (λ h. on_close-Inv r (base r v)) (λ h. v)

    pub close_connection-Inv :
        (a : Answers) (r : VenueRunner p.State) → Inv r → Inv (close_connection p draw a r)
    unfolding close_connection
    close_connection-Inv a r v = if-Inv r.connected _ _ (λ h. tell-Inv a _ v) (λ h. v)

    pub arm_watchdog-Inv : (r : VenueRunner p.State) → Inv r → Inv (arm_watchdog r)
    unfolding arm_watchdog
    arm_watchdog-Inv r v = if-Inv r.stopping _ _ (λ h. v) (λ h. v)

    pub connect-Inv :
        (a : Answers) (r : VenueRunner p.State)
        → (r.stopping || r.failed ≡ true → Inv r)
        → Base r
        → Inv (connect p draw a r)
    unfolding connect
    connect-Inv a r v (e, w, s) = if-Inv (r.stopping || r.failed) _ _ v (λ on. arm_watchdog-Inv _ (
        tell-Inv a (opening p draw r) (
          record {
            live_synced = λ h. absurd (cc h);
            down_waits = λ d. absurd (cc d);
            end_known = e;
          },
          (refl, (e ∙ on, s)),
        )))

    with_token-Inv :
        (token : RateBudget × Bool) (r : VenueRunner p.State)
        → Inv r
        → Inv (with_token p draw token r)
    with_token-Inv (budget, true) r v = v
    with_token-Inv (budget, false) r v = schedule_reconnect-Inv _ v.0.live_synced (base r v)

    pub fetch_snapshot-Inv :
        (a : Answers) (r : VenueRunner p.State) → Inv r → Inv (fetch_snapshot p draw a r)
    unfolding fetch_snapshot
    fetch_snapshot-Inv a r v = if-Inv r.stopping _ _ (λ h. v) (λ h. with_token-Inv _ r v)

    -- A resync needs nothing of the protocol or of the batches before it.
    pub resync-Inv :
        (a : Answers) (r : VenueRunner p.State)
        → ended r.log ≡ (r.stopping || r.failed)
        → IsSound r.log
        → Inv (resync p draw a r)
    unfolding resync
    resync-Inv a r e s =
        let f : Facts false false (p.synced (p.reset r.protocol)) r.reconnect_waits (ended r.log)
            r.stopping r.failed =
          record {
            live_synced = λ h. absurd (cc h);
            down_waits = λ d. absurd (cc d);
            end_known = e;
          } in
        if-Inv p.needs_rest_snapshot _ _ (λ h. fetch_snapshot-Inv a _ (f, (refl, s)))
          (λ h. close_connection-Inv a _ (f, (refl, s)))

    pub publish-Inv :
        (a : Answers) (out : List FeedUpdate) (r : VenueRunner p.State)
        → Inv r
        → Inv (publish p draw a out r)
    unfolding publish
    publish-Inv a [] r v = v
    publish-Inv a (u ∷ us) r (f, (w, s)) =
        if-Inv a.room _ _ (λ h. (f, (w, (w, s))))
          (λ h.
            resync-Inv a
              (record r { ring_overflows = r.ring_overflows + 1; log = refuses (u ∷ us) ∷ r.log })
              f.end_known s)

    pub live_if_synced-Inv : (r : VenueRunner p.State) → Inv r → Inv (live_if_synced p draw r)
    unfolding set_state mark_healthy
    live_if_synced-Inv r (f, (w, s)) =
        if-Inv (p.synced r.protocol) _ _
          (λ h. (
            record {
              live_synced = λ l. h;
              down_waits = λ d. absurd (cc d);
              end_known = f.end_known;
            },
            (w, s),
          ))
          (λ h. (f, (w, s)))
