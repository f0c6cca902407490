-- ===== src/Runner.antt =====
-- src/venues/runner.h and src/venues/runner.cc: what drives one venue's connection. The handlers run
-- one after the other on the venue's thread. What they ask of the connection, the ring, the timers
-- and the REST client is the list `log`, the newest first; the answers of these are later events.
-- What a handler is told while it runs is its `Answers`. Logging, the thread and the TLS context are
-- left out.
pub mod Laws
pub mod Protocols
pub mod Runs
pub mod Safety
use home_assignment.Common.{
  ℕ, suc, ◌+◌, Bool, true, false, not, ◌&&◌, ◌||◌, List, [], ◌∷◌, ◌++◌, ◌≡◌, if◌then◌else◌, ◌==◌,
}
use home_assignment.Common.Int.{ℤ, pos, ◌-ℤ◌, eq_ℤ, leb_ℤ}
use home_assignment.Retry
use home_assignment.Retry.{
  ExponentialBackoff, RateBudget, next, try_consume, new_backoff, new_budget,
}
use home_assignment.Venues.{FeedUpdate, FrameVerdict, ok, needs_resync, parse_error, fatal, Outcome}

pub data VenueState : Type 0 where
  disconnected connecting syncing live stale : VenueState

abbrev pub is_live : VenueState → Bool
is_live live = true
is_live _ = false

-- What a runner uses of a venue's protocol.
pub record Protocol : Type 1 where
  pub State : Type 0
  pub reset : State → State
  pub on_frame : State → List ℕ → ℤ → Outcome State
  pub on_rest_snapshot : State → List ℕ → ℤ → Outcome State
  pub synced : State → Bool
  pub needs_rest_snapshot : Bool
  pub subscribe_frames : List (List ℕ)
  pub keepalive_frame : List ℕ
  pub keepalive_interval : ℕ

-- A call that succeeds does not lose the synchronisation.
pub record ProtocolLaws (p : Protocol) : Type 0 where
  pub on_frame-synced :
      (s : p.State) (frame : List ℕ) (recv : ℤ)
      → (p.on_frame s frame recv).verdict ≡ ok
      → p.synced s ≡ true
      → p.synced (p.on_frame s frame recv).state ≡ true
  pub on_rest_snapshot-synced :
      (s : p.State) (body : List ℕ) (recv : ℤ)
      → (p.on_rest_snapshot s body recv).verdict ≡ ok
      → p.synced s ≡ true
      → p.synced (p.on_rest_snapshot s body recv).state ≡ true

pub data Effect : Type 0 where
  opens : ℕ → Effect
  sends : List ℕ → Effect
  keeps_alive : List ℕ → ℕ → Effect
  closes requests_snapshot resets fails_fatally stops : Effect
  pushes refuses : List FeedUpdate → Effect
  schedules : ℕ → Effect

pub record Options : Type 0 where
  pub reconnect_initial : ℕ
  pub reconnect_max : ℕ
  pub max_resyncs_per_minute : ℕ
  pub silence_timeout : ℤ

-- The statistics' fields stand beside the runner's. The timers are Booleans: one is waited for, or
-- none; setting a timer cancels the wait before it.
pub record VenueRunner (S : Type 0) : Type 0 where
  pub state : VenueState
  pub messages : ℕ
  pub resyncs : ℕ
  pub sequence_gaps : ℕ
  pub ring_overflows : ℕ
  pub parse_errors : ℕ
  pub last_recv_ts_ns : ℤ
  pub last_exchange_ts_ns : ℤ
  pub failed : Bool
  pub protocol : S
  pub silence_timeout : ℤ
  pub connected : Bool
  pub reconnect_waits : Bool
  pub watchdog_waits : Bool
  pub backoff : ExponentialBackoff
  pub resync_budget : RateBudget
  pub last_activity : ℤ
  pub stopping : Bool
  pub reconnect_generation : ℕ
  pub logged_live : Bool
  pub log : List Effect

-- The clock; whether the ring takes a batch; whether Open or Close of the connection calls on_close
-- before it returns, as it does on a malformed URL and on a connection that is not open.
pub record Answers : Type 0 where
  pub now : ℤ
  pub room : Bool
  pub tells : Bool

abbrev pub note : {S : Type 0} → Effect → VenueRunner S → VenueRunner S
note effect r = record r { log = effect ∷ r.log }

unfoldable pub set_state : {S : Type 0} → VenueState → VenueRunner S → VenueRunner S
set_state state r = record r { state = state }

unfoldable pub mark_healthy : {S : Type 0} → VenueRunner S → VenueRunner S
unfolding Retry.reset
mark_healthy r = record r { logged_live = true; backoff = Retry.reset r.backoff }

unfoldable pub arm_watchdog : {S : Type 0} → VenueRunner S → VenueRunner S
arm_watchdog r = if r.stopping then r else record r { watchdog_waits = true }

-- The last update of a batch.
abbrev pub back : FeedUpdate → List FeedUpdate → FeedUpdate
back update [] = update
back update (u ∷ us) = back u us

module _ (p : Protocol) (draw : ℕ → ℕ → ℕ) where
  abbrev pub Runner : Type 0
  Runner = VenueRunner p.State

  unfoldable pub schedule_reconnect : Runner → Runner
  unfolding next
  schedule_reconnect r = if r.stopping || r.failed then r else record r {
    backoff = (next draw r.backoff).0;
    reconnect_waits = true;
    log = schedules (next draw r.backoff).1 ∷ r.log;
  }

  unfoldable pub on_close : Runner → Runner
  unfolding set_state schedule_reconnect
  on_close r =
      if r.stopping || r.failed
      then set_state disconnected r
      else schedule_reconnect (set_state disconnected r)

  -- The on_close callback of the connection of some generation.
  unfoldable pub closed_by : ℕ → Runner → Runner
  unfolding on_close
  closed_by generation r = if generation == r.reconnect_generation then on_close r else r

  abbrev pub tell : Answers → Runner → Runner
  tell a r = if a.tells then on_close r else r

  -- `if (connection_) connection_->Close();`
  unfoldable pub close_connection : Answers → Runner → Runner
  unfolding on_close
  close_connection a r = if r.connected then tell a (note closes r) else r

  -- Up to the call of Open.
  abbrev pub opening : Runner → Runner
  opening r = record r {
    logged_live = false;
    state = connecting;
    protocol = p.reset r.protocol;
    reconnect_generation = suc r.reconnect_generation;
    connected = true;
    log = opens (suc r.reconnect_generation) ∷ resets ∷ r.log;
  }

  unfoldable pub connect : Answers → Runner → Runner
  unfolding on_close arm_watchdog
  connect a r =
      if r.stopping || r.failed
      then r
      else arm_watchdog (record (tell a (opening r)) { last_activity = a.now })

  abbrev pub with_token : RateBudget × Bool → Runner → Runner
  with_token (budget, true) r = record r { resync_budget = budget; log = requests_snapshot ∷ r.log }
  with_token (budget, false) r = schedule_reconnect (record r { resync_budget = budget })

  unfoldable pub fetch_snapshot : Answers → Runner → Runner
  unfolding try_consume schedule_reconnect
  fetch_snapshot a r = if r.stopping then r else with_token (try_consume a.now r.resync_budget) r

  unfoldable pub resync : Answers → Runner → Runner
  unfolding fetch_snapshot close_connection
  resync a r =
      let cleared = record r {
        resyncs = r.resyncs + 1;
        state = syncing;
        protocol = p.reset r.protocol;
        log = resets ∷ r.log;
      } in
      if p.needs_rest_snapshot then fetch_snapshot a cleared else close_connection a cleared

  unfoldable pub publish : Answers → List FeedUpdate → Runner → Runner
  unfolding resync
  publish a [] r = r
  publish a (u ∷ us) r =
      if a.room
      then note (pushes (u ∷ us)) r
      else resync a
          (record r { ring_overflows = r.ring_overflows + 1; log = refuses (u ∷ us) ∷ r.log })

  abbrev pub live_if_synced : Runner → Runner
  live_if_synced r = if p.synced r.protocol then mark_healthy (set_state live r) else r

  abbrev pub send_all : List (List ℕ) → Runner → Runner
  send_all [] r = r
  send_all (frame ∷ frames) r = send_all frames (note (sends frame) r)

  unfoldable pub on_open : Answers → Runner → Runner
  unfolding set_state fetch_snapshot
  on_open a r =
      let subscribed =
        note (keeps_alive p.keepalive_frame p.keepalive_interval)
          (send_all p.subscribe_frames (set_state syncing r)) in
      if p.needs_rest_snapshot then fetch_snapshot a subscribed else subscribed

  abbrev pub after_snapshot : Answers → FrameVerdict → List FeedUpdate → Runner → Runner
  after_snapshot a ok out r = live_if_synced (publish a out r)
  after_snapshot a needs_resync out r = resync a r
  after_snapshot a parse_error out r = resync a r
  after_snapshot a fatal out r = resync a r

  -- The handler of the REST request: `none` is a failure of it.
  unfoldable pub on_snapshot : Answers → Bool → List ℕ → Runner → Runner
  unfolding on_close resync publish set_state mark_healthy
  on_snapshot a succeeded body r =
      let o = p.on_rest_snapshot r.protocol body a.now in
      if r.stopping
      then r
      else if not succeeded
      then on_close r
      else after_snapshot a o.verdict o.out (record r { protocol = o.state })

  abbrev pub note_exchange : ℤ → Runner → Runner
  note_exchange ts r = if not (eq_ℤ ts (pos 0)) then record r { last_exchange_ts_ns = ts } else r

  abbrev pub frame_updates : Answers → List FeedUpdate → Runner → Runner
  frame_updates a [] r = r
  frame_updates a (u ∷ us) r =
      live_if_synced (publish a (u ∷ us) (note_exchange (back u us).exchange_ts_ns r))

  abbrev pub after_frame : Answers → FrameVerdict → List FeedUpdate → Runner → Runner
  after_frame a ok out r = frame_updates a out r
  after_frame a needs_resync out r = resync a (record r { sequence_gaps = r.sequence_gaps + 1 })
  after_frame a parse_error out r = resync a (record r { parse_errors = r.parse_errors + 1 })
  after_frame a fatal out r =
      close_connection a
        (record r { failed = true; state = disconnected; log = fails_fatally ∷ r.log })

  unfoldable pub on_frame : Answers → List ℕ → Runner → Runner
  unfolding resync publish close_connection set_state mark_healthy
  on_frame a frame r =
      let o = p.on_frame r.protocol frame a.now in
      after_frame a o.verdict o.out (record r {
        last_activity = a.now;
        messages = r.messages + 1;
        last_recv_ts_ns = a.now;
        protocol = o.state;
      })

  -- The watchdog's timer ends, cancelled or not.
  unfoldable pub on_watchdog : Answers → Bool → Runner → Runner
  unfolding set_state close_connection arm_watchdog
  on_watchdog a cancelled r =
      let waited = record r { watchdog_waits = false } in
      if cancelled || r.stopping || r.failed
      then waited
      else if leb_ℤ r.silence_timeout (a.now -ℤ r.last_activity)
      then close_connection a (set_state stale waited)
      else arm_watchdog waited

  -- The reconnect timer ends, if it is waited for.
  unfoldable pub on_reconnect : Answers → Runner → Runner
  unfolding connect
  on_reconnect a r =
      if not r.reconnect_waits || r.stopping
      then r
      else connect a (record r { reconnect_waits = false })

  -- Stop, and the handler that it posts.
  unfoldable pub stop : Runner → Runner
  stop r = if r.stopping then r else record r { stopping = true; log = stops ∷ r.log }

  unfoldable pub halt : Answers → Runner → Runner
  unfolding close_connection
  halt a r = close_connection a (record r { reconnect_waits = false; watchdog_waits = false })

-- What happens to a runner.
pub data Event : Type 0 where
  opened : Event
  frame_comes : List ℕ → Event
  closed : ℕ → Event
  snapshot_comes : Bool → List ℕ → Event
  watchdog_ends : Bool → Event
  reconnect_ends stop_called stop_runs : Event

module _ (p : Protocol) (draw : ℕ → ℕ → ℕ) where
  unfoldable pub step : Event → Answers → VenueRunner p.State → VenueRunner p.State
  unfolding on_open on_frame closed_by on_snapshot on_watchdog on_reconnect stop halt
  step opened a r = on_open p draw a r
  step (frame_comes frame) a r = on_frame p draw a frame r
  step (closed generation) a r = closed_by p draw generation r
  step (snapshot_comes succeeded body) a r = on_snapshot p draw a succeeded body r
  step (watchdog_ends cancelled) a r = on_watchdog p draw a cancelled r
  step reconnect_ends a r = on_reconnect p draw a r
  step stop_called a r = stop p draw r
  step stop_runs a r = if r.stopping then halt p draw a r else r

  unfoldable pub run : List (Event × Answers) → VenueRunner p.State → VenueRunner p.State
  unfolding step
  run [] r = r
  run ((e, a) ∷ es) r = run es (step e a r)

-- The constructor; `now` is the clock, `s` the protocol as it was built.
unfoldable pub new_runner : {S : Type 0} → Options → ℤ → S → VenueRunner S
unfolding new_backoff new_budget
new_runner options now s = record {
  state = disconnected;
  messages = 0;
  resyncs = 0;
  sequence_gaps = 0;
  ring_overflows = 0;
  parse_errors = 0;
  last_recv_ts_ns = pos 0;
  last_exchange_ts_ns = pos 0;
  failed = false;
  protocol = s;
  silence_timeout = options.silence_timeout;
  connected = false;
  reconnect_waits = false;
  watchdog_waits = false;
  backoff = new_backoff options.reconnect_initial options.reconnect_max;
  resync_budget = new_budget options.max_resyncs_per_minute (pos 60_000_000_000);
  last_activity = now;
  stopping = false;
  reconnect_generation = 0;
  logged_live = false;
  log = [];
}

-- Start: the thread's first handler connects.
unfoldable pub start :
    (p : Protocol) → (ℕ → ℕ → ℕ) → Options → Answers → p.State → VenueRunner p.State
unfolding connect new_runner
start p draw options a s = connect p draw a (new_runner options a.now s)
