-- ===== src/Runner/Runs.antt =====
-- src/venues/runner.cc: the handlers keep the invariant, so it holds of every run.
use home_assignment.Common.{
  ℕ, ◌+◌, ◌≡◌, refl, ◌∙◌, Bool, true, false, not, ◌||◌, List, [], ◌∷◌, ◌==◌, arith,
}
use home_assignment.Common.Int.{ℤ, pos, ◌-ℤ◌, eq_ℤ, leb_ℤ}
use home_assignment.Venues.{FeedUpdate, FrameVerdict, ok, needs_resync, parse_error, fatal}
use home_assignment.Runner.{
  syncing, stale, is_live, Protocol, ProtocolLaws, Options, VenueRunner, Answers, set_state,
  closed_by, send_all, on_open, after_snapshot, on_snapshot, note_exchange, frame_updates,
  after_frame, on_frame, on_watchdog, on_reconnect, stop, halt, Event, opened, frame_comes, closed,
  snapshot_comes, watchdog_ends, reconnect_ends, stop_called, stop_runs, step, run, new_runner,
  start,
}
use home_assignment.Runner.Safety.{
  is_down, IsSound, Inv, Base, if-Inv, base, on_close-Inv, close_connection-Inv, arm_watchdog-Inv,
  connect-Inv, fetch_snapshot-Inv, resync-Inv, publish-Inv, live_if_synced-Inv,
}

module _ (p : Protocol) (draw : ℕ → ℕ → ℕ) where
  send_all-Inv :
      (frames : List (List ℕ)) (r : VenueRunner p.State)
      → Inv p r
      → Inv p (send_all p draw frames r)
  send_all-Inv [] r v = v
  send_all-Inv (frame ∷ frames) r v = send_all-Inv frames _ v

  on_open-Inv : (a : Answers) (r : VenueRunner p.State) → Inv p r → Inv p (on_open p draw a r)
  unfolding on_open set_state
  on_open-Inv a r (f, ws) =
      let subscribed = send_all-Inv p.subscribe_frames (set_state syncing r) (
        record {
          live_synced = λ h. absurd (cc h);
          down_waits = λ d. absurd (cc d);
          end_known = f.end_known;
        },
        ws,
      ) in
      if-Inv p p.needs_rest_snapshot _ _ (λ h. fetch_snapshot-Inv p draw a _ subscribed)
        (λ h. subscribed)

  after_snapshot-Inv :
      (a : Answers) (verdict : FrameVerdict) (out : List FeedUpdate) (r : VenueRunner p.State)
      → (verdict ≡ ok → Inv p r)
      → Base p r
      → Inv p (after_snapshot p draw a verdict out r)
  after_snapshot-Inv a ok out r v b =
      live_if_synced-Inv p draw _ (publish-Inv p draw a out r (v refl))
  after_snapshot-Inv a needs_resync out r v (e, w, s) = resync-Inv p draw a r e s
  after_snapshot-Inv a parse_error out r v (e, w, s) = resync-Inv p draw a r e s
  after_snapshot-Inv a fatal out r v (e, w, s) = resync-Inv p draw a r e s

  note_exchange-Inv :
      (ts : ℤ) (r : VenueRunner p.State) → Inv p r → Inv p (note_exchange p draw ts r)
  note_exchange-Inv ts r v = if-Inv p (not (eq_ℤ ts (pos 0))) _ _ (λ h. v) (λ h. v)

  frame_updates-Inv :
      (a : Answers) (out : List FeedUpdate) (r : VenueRunner p.State)
      → Inv p r
      → Inv p (frame_updates p draw a out r)
  frame_updates-Inv a [] r v = v
  frame_updates-Inv a (u ∷ us) r v =
      live_if_synced-Inv p draw _ (publish-Inv p draw a (u ∷ us) _ (note_exchange-Inv _ r v))

  after_frame-Inv :
      (a : Answers) (verdict : FrameVerdict) (out : List FeedUpdate) (r : VenueRunner p.State)
      → (verdict ≡ ok → Inv p r)
      → Base p r
      → Inv p (after_frame p draw a verdict out r)
  after_frame-Inv a ok out r v b = frame_updates-Inv a out r (v refl)
  after_frame-Inv a needs_resync out r v (e, w, s) =
      resync-Inv p draw a (record r { sequence_gaps = r.sequence_gaps + 1 }) e s
  after_frame-Inv a parse_error out r v (e, w, s) =
      resync-Inv p draw a (record r { parse_errors = r.parse_errors + 1 }) e s
  after_frame-Inv a fatal out r v (e, w, s) = close_connection-Inv p draw a _ (
    record {
      live_synced = λ h. absurd (cc h);
      down_waits = λ d still. absurd (cc still);
      end_known = ground (arith);
    },
    (w, s),
  )

  on_watchdog-Inv :
      (a : Answers) (cancelled : Bool) (r : VenueRunner p.State)
      → Inv p r
      → Inv p (on_watchdog p draw a cancelled r)
  unfolding on_watchdog set_state
  on_watchdog-Inv a cancelled r (f, ws) =
      if-Inv p (cancelled || r.stopping || r.failed) _ _ (λ h. (f, ws))
        (λ h.
          if-Inv p (leb_ℤ r.silence_timeout (a.now -ℤ r.last_activity)) _ _
            (λ silent.
              close_connection-Inv p draw a (record r { watchdog_waits = false; state = stale })
                (
                  record {
                    live_synced = λ h. absurd (cc h);
                    down_waits = λ d. absurd (cc d);
                    end_known = f.end_known;
                  },
                  ws,
                ))
            (λ active. arm_watchdog-Inv p draw _ (f, ws)))

  -- The timer's wait is over, and unless the runner has ended the state is down no more.
  on_reconnect-Inv :
      (a : Answers) (r : VenueRunner p.State) → Inv p r → Inv p (on_reconnect p draw a r)
  unfolding on_reconnect
  on_reconnect-Inv a r (f, (w, s)) =
      if-Inv p (not r.reconnect_waits || r.stopping) _ _ (λ h. (f, (w, s)))
        (λ h.
          connect-Inv p draw a (record r { reconnect_waits = false })
            (λ over. (
              record {
                live_synced = f.live_synced;
                down_waits = λ d still. absurd (cc (f.end_known, over, still));
                end_known = f.end_known;
              },
              (w, s),
            ))
            (f.end_known, w, s))

  stop-Inv : (r : VenueRunner p.State) → Inv p r → Inv p (stop p draw r)
  unfolding stop
  stop-Inv r (f, ws) =
      if-Inv p r.stopping _ _ (λ h. (f, ws))
        (λ h. (
          record {
            live_synced = f.live_synced;
            down_waits = λ d still. absurd (cc still);
            end_known = refl;
          },
          ws,
        ))

  -- The handler that Stop posts runs after the end.
  halt-Inv :
      (a : Answers) (r : VenueRunner p.State)
      → r.stopping ≡ true
      → Inv p r
      → Inv p (halt p draw a r)
  unfolding halt
  halt-Inv a r stopped (f, ws) =
      close_connection-Inv p draw a (record r { reconnect_waits = false; watchdog_waits = false })
        (
          record {
            live_synced = f.live_synced;
            down_waits = λ d still. absurd (ground (arith, f.end_known, stopped, still));
            end_known = f.end_known;
          },
          ws,
        )

  module _ (laws : ProtocolLaws p) where
    on_snapshot-Inv :
        (a : Answers) (succeeded : Bool) (body : List ℕ) (r : VenueRunner p.State)
        → Inv p r
        → Inv p (on_snapshot p draw a succeeded body r)
    unfolding on_snapshot
    on_snapshot-Inv a succeeded body r (f, (w, s)) =
        if-Inv p r.stopping _ _ (λ h. (f, (w, s)))
          (λ h.
            if-Inv p (not succeeded) _ _ (λ h. on_close-Inv p draw r (f.end_known, w, s))
              (λ h.
                after_snapshot-Inv a _ _ _
                  (λ verdict. (
                    record {
                      live_synced = λ l.
                          laws.on_rest_snapshot-synced r.protocol body a.now verdict
                            (f.live_synced l);
                      down_waits = f.down_waits;
                      end_known = f.end_known;
                    },
                    (w, s),
                  ))
                  (f.end_known, w, s)))

    on_frame-Inv :
        (a : Answers) (frame : List ℕ) (r : VenueRunner p.State)
        → Inv p r
        → Inv p (on_frame p draw a frame r)
    unfolding on_frame
    on_frame-Inv a frame r (f, (w, s)) =
        after_frame-Inv a _ _ _
          (λ verdict. (
            record {
              live_synced =
                  λ l. laws.on_frame-synced r.protocol frame a.now verdict (f.live_synced l);
              down_waits = f.down_waits;
              end_known = f.end_known;
            },
            (w, s),
          ))
          (f.end_known, w, s)

    step-Inv :
        (e : Event) (a : Answers) (r : VenueRunner p.State) → Inv p r → Inv p (step p draw e a r)
    unfolding step closed_by
    step-Inv opened a r v = on_open-Inv a r v
    step-Inv (frame_comes frame) a r v = on_frame-Inv a frame r v
    step-Inv (closed generation) a r v =
        if-Inv p (generation == r.reconnect_generation) _ _
          (λ h. on_close-Inv p draw r (base p draw r v)) (λ h. v)
    step-Inv (snapshot_comes succeeded body) a r v = on_snapshot-Inv a succeeded body r v
    step-Inv (watchdog_ends cancelled) a r v = on_watchdog-Inv a cancelled r v
    step-Inv reconnect_ends a r v = on_reconnect-Inv a r v
    step-Inv stop_called a r v = stop-Inv r v
    step-Inv stop_runs a r v = if-Inv p r.stopping _ _ (λ h. halt-Inv a r h v) (λ h. v)

    run-Inv :
        (es : List (Event × Answers)) (r : VenueRunner p.State) → Inv p r → Inv p (run p draw es r)
    unfolding run
    run-Inv [] r v = v
    run-Inv ((e, a) ∷ es) r v = run-Inv es _ (step-Inv e a r v)

    start-Inv : (options : Options) (a : Answers) (s : p.State) → Inv p (start p draw options a s)
    unfolding start new_runner
    start-Inv options a s =
        connect-Inv p draw a (new_runner options a.now s) (λ h. absurd (cc h)) (refl, refl, tt)

    -- From Start on, whatever the network, the ring, the clock and the REST client answer, and in
    -- whatever order: no connection is opened and no reconnect scheduled after a fatal verdict or
    -- after Stop, and once the ring has refused a batch no batch is pushed before the protocol is
    -- reset.
    pub run-IsSound :
        (options : Options) (a : Answers) (s : p.State) (es : List (Event × Answers))
        → IsSound (run p draw es (start p draw options a s)).log
    run-IsSound options a s es = (run-Inv es _ (start-Inv options a s)).1.1

    -- After any events from Start on, a venue that is reported live has a protocol that is
    -- synchronised.
    pub run-live :
        (options : Options) (a : Answers) (s : p.State) (es : List (Event × Answers))
        → is_live (run p draw es (start p draw options a s)).state ≡ true
        → p.synced (run p draw es (start p draw options a s)).protocol ≡ true
    run-live options a s es on = (run-Inv es _ (start-Inv options a s)).0.live_synced on

    -- After any events from Start on, a venue that is reported disconnected waits for a reconnect,
    -- unless Stop was called or a verdict was fatal.
    pub run-waits :
        (options : Options) (a : Answers) (s : p.State) (es : List (Event × Answers))
        → is_down (run p draw es (start p draw options a s)).state ≡ true
        → (run p draw es (start p draw options a s)).stopping
            || (run p draw es (start p draw options a s)).failed
          ≡ false
        → (run p draw es (start p draw options a s)).reconnect_waits ≡ true
    run-waits options a s es down on =
        let f = (run-Inv es _ (start-Inv options a s)).0 in f.down_waits down (f.end_known ∙ on)
