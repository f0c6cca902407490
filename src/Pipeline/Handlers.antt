-- ===== src/Pipeline/Handlers.antt =====
-- src/venues/runner.cc: what each handler of the runner pushes, and so what each step of it pushes.
use mathlib.Core.List.{append-nil}
use home_assignment.Common.{
  ℕ, ◌+◌, ◌≡◌, sym, ◌∙◌, Bool, true, false, not, ◌||◌, List, [], ◌∷◌, if◌then◌else◌, ◌==◌, arith,
}
use home_assignment.Common.Lists.{All}
use home_assignment.Common.Int.{ℤ, pos, ◌-ℤ◌, eq_ℤ, leb_ℤ}
use home_assignment.Venues.{FeedUpdate, FrameVerdict, ok, needs_resync, parse_error, fatal}
use home_assignment.Engine.Books.{Ingested}
use home_assignment.Runner.{
  disconnected, syncing, stale, Protocol, keeps_alive, fails_fatally, back, Options, VenueRunner,
  Answers, note, set_state, arm_watchdog, on_close, closed_by, close_connection, fetch_snapshot,
  publish, send_all, on_open, after_snapshot, on_snapshot, note_exchange, frame_updates,
  after_frame, on_frame, on_watchdog, on_reconnect, stop, halt, Event, opened, frame_comes, closed,
  snapshot_comes, watchdog_ends, reconnect_ends, stop_called, stop_runs, step, new_runner, start,
}
use home_assignment.Pipeline.Laws.{FeedLaws}
use home_assignment.Pipeline.Sending.{
  allowed, Pushing, on_close-Pushing, close_connection-Pushing, arm_watchdog-Pushing,
  connect-Pushing, fetch_snapshot-Pushing, resync-Pushing, lift-Pushing, publish-Pushing,
  live_if_synced-Pushing, send_all-Pushing, if-Pushing,
}

module _ (p : Protocol) {Good : p.State → Type 0} (laws : FeedLaws p Good) (draw : ℕ → ℕ → ℕ)
    (before : List (List FeedUpdate)) where
  on_open-Pushing :
      (n : ℕ) (a : Answers) (r : VenueRunner p.State)
      → Pushing p laws draw before n r
      → Pushing p laws draw before n (on_open p draw a r)
  unfolding on_open set_state
  on_open-Pushing n a r v =
      let sent = send_all p draw p.subscribe_frames (set_state syncing r) in
      let subscribed = note (keeps_alive p.keepalive_frame p.keepalive_interval) sent in
      let w = send_all-Pushing p laws draw before n p.subscribe_frames (set_state syncing r) v in
      if-Pushing p laws draw before n p.needs_rest_snapshot (fetch_snapshot p draw a subscribed)
        subscribed (fetch_snapshot-Pushing p laws draw before n a subscribed w) w

  after_snapshot-Pushing :
      (a : Answers) (verdict : FrameVerdict) (out : List FeedUpdate) (r : VenueRunner p.State)
      → All Ingested out
      → Pushing p laws draw before 0 r
      → Pushing p laws draw before (allowed a.room) (after_snapshot p draw a verdict out r)
  after_snapshot-Pushing a ok out r good v =
      live_if_synced-Pushing p laws draw before (allowed a.room) (publish p draw a out r)
        (publish-Pushing p laws draw before a out r good v)
  after_snapshot-Pushing a needs_resync out r good v =
      resync-Pushing p laws draw before (allowed a.room) a r
        (lift-Pushing p laws draw before (allowed a.room) r v)
  after_snapshot-Pushing a parse_error out r good v =
      resync-Pushing p laws draw before (allowed a.room) a r
        (lift-Pushing p laws draw before (allowed a.room) r v)
  after_snapshot-Pushing a fatal out r good v =
      resync-Pushing p laws draw before (allowed a.room) a r
        (lift-Pushing p laws draw before (allowed a.room) r v)

  on_snapshot-Pushing :
      (a : Answers) (succeeded : Bool) (body : List ℕ) (r : VenueRunner p.State)
      → Pushing p laws draw before 0 r
      → Pushing p laws draw before (allowed a.room) (on_snapshot p draw a succeeded body r)
  unfolding on_snapshot
  on_snapshot-Pushing a succeeded body r (g, s) =
      let o = p.on_rest_snapshot r.protocol body a.now in
      let fetched = record r { protocol = o.state } in
      let kept = laws.on_rest_snapshot-Good r.protocol body a.now g in
      let n = allowed a.room in
      let v = lift-Pushing p laws draw before n r (g, s) in
      if-Pushing p laws draw before n r.stopping r
        (if not succeeded
          then on_close p draw r
          else after_snapshot p draw a o.verdict o.out fetched)
        v
        (if-Pushing p laws draw before n (not succeeded) (on_close p draw r)
          (after_snapshot p draw a o.verdict o.out fetched)
          (on_close-Pushing p laws draw before n r v)
          (after_snapshot-Pushing a o.verdict o.out fetched kept.1 (kept.0, s)))

  note_exchange-Pushing :
      (n : ℕ) (ts : ℤ) (r : VenueRunner p.State)
      → Pushing p laws draw before n r
      → Pushing p laws draw before n (note_exchange p draw ts r)
  note_exchange-Pushing n ts r v = if-Pushing p laws draw before n (not (eq_ℤ ts (pos 0))) _ _ v v

  frame_updates-Pushing :
      (a : Answers) (out : List FeedUpdate) (r : VenueRunner p.State)
      → All Ingested out
      → Pushing p laws draw before 0 r
      → Pushing p laws draw before (allowed a.room) (frame_updates p draw a out r)
  frame_updates-Pushing a [] r good v = lift-Pushing p laws draw before (allowed a.room) r v
  frame_updates-Pushing a (u ∷ us) r good v =
      let noted = note_exchange p draw (back u us).exchange_ts_ns r in
      live_if_synced-Pushing p laws draw before (allowed a.room) (publish p draw a (u ∷ us) noted)
        (publish-Pushing p laws draw before a (u ∷ us) noted good (note_exchange-Pushing 0 _ r v))

  after_frame-Pushing :
      (a : Answers) (verdict : FrameVerdict) (out : List FeedUpdate) (r : VenueRunner p.State)
      → All Ingested out
      → Pushing p laws draw before 0 r
      → Pushing p laws draw before (allowed a.room) (after_frame p draw a verdict out r)
  after_frame-Pushing a ok out r good v = frame_updates-Pushing a out r good v
  after_frame-Pushing a needs_resync out r good v =
      resync-Pushing p laws draw before (allowed a.room) a
        (record r { sequence_gaps = r.sequence_gaps + 1 })
        (lift-Pushing p laws draw before (allowed a.room) r v)
  after_frame-Pushing a parse_error out r good v =
      resync-Pushing p laws draw before (allowed a.room) a
        (record r { parse_errors = r.parse_errors + 1 })
        (lift-Pushing p laws draw before (allowed a.room) r v)
  after_frame-Pushing a fatal out r good v =
      close_connection-Pushing p laws draw before (allowed a.room) a
        (record r { failed = true; state = disconnected; log = fails_fatally ∷ r.log })
        (lift-Pushing p laws draw before (allowed a.room) r v)

  on_frame-Pushing :
      (a : Answers) (frame : List ℕ) (r : VenueRunner p.State)
      → Pushing p laws draw before 0 r
      → Pushing p laws draw before (allowed a.room) (on_frame p draw a frame r)
  unfolding on_frame
  on_frame-Pushing a frame r (g, s) =
      let o = p.on_frame r.protocol frame a.now in
      let kept = laws.on_frame-Good r.protocol frame a.now g in
      after_frame-Pushing a o.verdict o.out
        (record r {
          last_activity = a.now;
          messages = r.messages + 1;
          last_recv_ts_ns = a.now;
          protocol = o.state;
        })
        kept.1 (kept.0, s)

  on_watchdog-Pushing :
      (n : ℕ) (a : Answers) (cancelled : Bool) (r : VenueRunner p.State)
      → Pushing p laws draw before n r
      → Pushing p laws draw before n (on_watchdog p draw a cancelled r)
  unfolding on_watchdog set_state
  on_watchdog-Pushing n a cancelled r v =
      let waited = record r { watchdog_waits = false } in
      let silent = record waited { state = stale } in
      let watched =
        if leb_ℤ r.silence_timeout (a.now -ℤ r.last_activity)
        then close_connection p draw a silent
        else arm_watchdog waited in
      if-Pushing p laws draw before n (cancelled || r.stopping || r.failed) waited watched v (
        if-Pushing p laws draw before n (leb_ℤ r.silence_timeout (a.now -ℤ r.last_activity))
          (close_connection p draw a silent) (arm_watchdog waited)
          (close_connection-Pushing p laws draw before n a silent v)
          (arm_watchdog-Pushing p laws draw before n waited v))

  on_reconnect-Pushing :
      (n : ℕ) (a : Answers) (r : VenueRunner p.State)
      → Pushing p laws draw before n r
      → Pushing p laws draw before n (on_reconnect p draw a r)
  unfolding on_reconnect
  on_reconnect-Pushing n a r v =
      if-Pushing p laws draw before n (not r.reconnect_waits || r.stopping) _ _ v
        (connect-Pushing p laws draw before n a (record r { reconnect_waits = false }) v)

  stop-Pushing :
      (n : ℕ) (r : VenueRunner p.State)
      → Pushing p laws draw before n r
      → Pushing p laws draw before n (stop p draw r)
  unfolding stop
  stop-Pushing n r v = if-Pushing p laws draw before n r.stopping _ _ v v

  halt-Pushing :
      (n : ℕ) (a : Answers) (r : VenueRunner p.State)
      → Pushing p laws draw before n r
      → Pushing p laws draw before n (halt p draw a r)
  unfolding halt
  halt-Pushing n a r v =
      close_connection-Pushing p laws draw before n a
        (record r { reconnect_waits = false; watchdog_waits = false }) v

  closed_by-Pushing :
      (n generation : ℕ) (r : VenueRunner p.State)
      → Pushing p laws draw before n r
      → Pushing p laws draw before n (closed_by p draw generation r)
  unfolding closed_by
  closed_by-Pushing n generation r v =
      if-Pushing p laws draw before n (generation == r.reconnect_generation) _ _
        (on_close-Pushing p laws draw before n r v) v

  pub step-Pushing :
      (e : Event) (a : Answers) (r : VenueRunner p.State)
      → Pushing p laws draw before 0 r
      → Pushing p laws draw before (allowed a.room) (step p draw e a r)
  unfolding step
  step-Pushing opened a r v =
      on_open-Pushing (allowed a.room) a r (lift-Pushing p laws draw before (allowed a.room) r v)
  step-Pushing (frame_comes frame) a r v = on_frame-Pushing a frame r v
  step-Pushing (closed generation) a r v =
      closed_by-Pushing (allowed a.room) generation r
        (lift-Pushing p laws draw before (allowed a.room) r v)
  step-Pushing (snapshot_comes succeeded body) a r v = on_snapshot-Pushing a succeeded body r v
  step-Pushing (watchdog_ends cancelled) a r v =
      on_watchdog-Pushing (allowed a.room) a cancelled r
        (lift-Pushing p laws draw before (allowed a.room) r v)
  step-Pushing reconnect_ends a r v =
      on_reconnect-Pushing (allowed a.room) a r
        (lift-Pushing p laws draw before (allowed a.room) r v)
  step-Pushing stop_called a r v =
      stop-Pushing (allowed a.room) r (lift-Pushing p laws draw before (allowed a.room) r v)
  step-Pushing stop_runs a r v =
      if-Pushing p laws draw before (allowed a.room) r.stopping (halt p draw a r) r
        (halt-Pushing (allowed a.room) a r (lift-Pushing p laws draw before (allowed a.room) r v))
        (lift-Pushing p laws draw before (allowed a.room) r v)

  pub start-Pushing :
      (options : Options) (a : Answers) (s : p.State)
      → Good s
      → before ≡ []
      → Pushing p laws draw before 0 (start p draw options a s)
  unfolding start new_runner
  start-Pushing options a s g e =
      connect-Pushing p laws draw before 0 a (new_runner options a.now s)
        (g, ([], sym e ∙ sym (append-nil before), omega arith, tt))
