-- ===== src/Pipeline/Sending.antt =====
-- What a handler of the runner pushes: at most one batch, only if the ring has room, of levels that
-- passed ingestion.
use mathlib.Core.List.{append_assoc}
use home_assignment.Common.{
  ℕ, ◌+◌, ◌≤◌, ◌≡◌, ap, ◌∙◌, Bool, true, false, ◌||◌, List, [], ◌∷◌, ◌++◌, if◌then◌else◌, arith,
}
use home_assignment.Common.Lists.{All, All-append, length, length-append}
use home_assignment.Retry.{RateBudget, try_consume}
use home_assignment.Venues.{FeedUpdate}
use home_assignment.Engine.Books.{Ingested}
use home_assignment.Runner.{
  disconnected, syncing, Protocol, pushes, closes, resets, refuses, sends, VenueRunner, Answers,
  note, set_state, mark_healthy, arm_watchdog, schedule_reconnect, on_close, tell, close_connection,
  opening, connect, with_token, fetch_snapshot, resync, publish, live_if_synced, send_all,
}
use home_assignment.Pipeline.{batches}
use home_assignment.Pipeline.Laws.{FeedLaws}

-- The log has at most `n` batches more than `before`, and their levels passed ingestion.
abbrev pub Sent : List (List FeedUpdate) → ℕ → List (List FeedUpdate) → Type 0
Sent before n now =
    (more : List (List FeedUpdate)) × (now ≡ before ++ more)
    × (length more ≤ n)
    × All (All Ingested) more

Sent-mono : (before now : List (List FeedUpdate)) (n : ℕ) → Sent before 0 now → Sent before n now
Sent-mono before now n (more, e, few, good) = (more, e, omega (arith, few), good)

-- How many batches a handler may push.
abbrev pub allowed : Bool → ℕ
allowed true = 1
allowed false = 0

one_more :
    (before now : List (List FeedUpdate)) (batch : List FeedUpdate)
    → All Ingested batch
    → Sent before 0 now
    → Sent before 1 (now ++ batch ∷ [])
one_more before now batch good (more, e, few, all) = (
  more ++ batch ∷ [],
  ap (λ bs. bs ++ batch ∷ []) e ∙ append_assoc before more (batch ∷ []),
  omega (arith, few, length-append more (batch ∷ [])),
  All-append (All Ingested) more (batch ∷ []) all (good, tt),
)

module _ (p : Protocol) {Good : p.State → Type 0} (laws : FeedLaws p Good) (draw : ℕ → ℕ → ℕ)
    (before : List (List FeedUpdate)) where
  -- What holds while a handler runs.
  abbrev pub Pushing : ℕ → VenueRunner p.State → Type 0
  Pushing n r = Good r.protocol × Sent before n (batches r.log)

  pub if-Pushing :
      (n : ℕ) (b : Bool) (x y : VenueRunner p.State)
      → Pushing n x
      → Pushing n y
      → Pushing n (if b then x else y)
  if-Pushing n true x y h k = h
  if-Pushing n false x y h k = k

  if-allowed :
      (b : Bool) (x y : VenueRunner p.State)
      → Pushing 1 x
      → Pushing 0 y
      → Pushing (allowed b) (if b then x else y)
  if-allowed true x y h k = h
  if-allowed false x y h k = k

  pub schedule_reconnect-Pushing :
      (n : ℕ) (r : VenueRunner p.State) → Pushing n r → Pushing n (schedule_reconnect p draw r)
  unfolding schedule_reconnect
  schedule_reconnect-Pushing n r v = if-Pushing n (r.stopping || r.failed) _ _ v v

  pub on_close-Pushing :
      (n : ℕ) (r : VenueRunner p.State) → Pushing n r → Pushing n (on_close p draw r)
  unfolding on_close set_state
  on_close-Pushing n r v =
      if-Pushing n (r.stopping || r.failed) _ _ v
        (schedule_reconnect-Pushing n (record r { state = disconnected }) v)

  pub tell-Pushing :
      (n : ℕ) (a : Answers) (r : VenueRunner p.State) → Pushing n r → Pushing n (tell p draw a r)
  tell-Pushing n a r v = if-Pushing n a.tells _ _ (on_close-Pushing n r v) v

  pub close_connection-Pushing :
      (n : ℕ) (a : Answers) (r : VenueRunner p.State)
      → Pushing n r
      → Pushing n (close_connection p draw a r)
  unfolding close_connection
  close_connection-Pushing n a r v =
      if-Pushing n r.connected _ _ (tell-Pushing n a (note closes r) v) v

  pub arm_watchdog-Pushing :
      (n : ℕ) (r : VenueRunner p.State) → Pushing n r → Pushing n (arm_watchdog r)
  unfolding arm_watchdog
  arm_watchdog-Pushing n r v = if-Pushing n r.stopping _ _ v v

  pub connect-Pushing :
      (n : ℕ) (a : Answers) (r : VenueRunner p.State) → Pushing n r → Pushing n (connect p draw a r)
  unfolding connect
  connect-Pushing n a r (g, s) =
      if-Pushing n (r.stopping || r.failed) _ _ (g, s)
        (arm_watchdog-Pushing n
          (record (tell p draw a (opening p draw r)) { last_activity = a.now })
          (tell-Pushing n a (opening p draw r) (laws.reset-Good r.protocol g, s)))

  pub with_token-Pushing :
      (n : ℕ) (token : RateBudget × Bool) (r : VenueRunner p.State)
      → Pushing n r
      → Pushing n (with_token p draw token r)
  with_token-Pushing n (budget, true) r v = v
  with_token-Pushing n (budget, false) r v =
      schedule_reconnect-Pushing n (record r { resync_budget = budget }) v

  pub fetch_snapshot-Pushing :
      (n : ℕ) (a : Answers) (r : VenueRunner p.State)
      → Pushing n r
      → Pushing n (fetch_snapshot p draw a r)
  unfolding fetch_snapshot
  fetch_snapshot-Pushing n a r v =
      if-Pushing n r.stopping _ _ v (with_token-Pushing n (try_consume a.now r.resync_budget) r v)

  pub resync-Pushing :
      (n : ℕ) (a : Answers) (r : VenueRunner p.State) → Pushing n r → Pushing n (resync p draw a r)
  unfolding resync
  resync-Pushing n a r (g, s) =
      let cleared = record r {
        resyncs = r.resyncs + 1;
        state = syncing;
        protocol = p.reset r.protocol;
        log = resets ∷ r.log;
      } in
      if-Pushing n p.needs_rest_snapshot (fetch_snapshot p draw a cleared)
        (close_connection p draw a cleared)
        (fetch_snapshot-Pushing n a cleared (laws.reset-Good r.protocol g, s))
        (close_connection-Pushing n a cleared (laws.reset-Good r.protocol g, s))

  pub lift-Pushing : (n : ℕ) (r : VenueRunner p.State) → Pushing 0 r → Pushing n r
  lift-Pushing n r (g, s) = (g, Sent-mono before (batches r.log) n s)

  pub publish-Pushing :
      (a : Answers) (out : List FeedUpdate) (r : VenueRunner p.State)
      → All Ingested out
      → Pushing 0 r
      → Pushing (allowed a.room) (publish p draw a out r)
  unfolding publish
  publish-Pushing a [] r good v = lift-Pushing (allowed a.room) r v
  publish-Pushing a (u ∷ us) r good (g, s) =
      let refused = record r {
        ring_overflows = r.ring_overflows + 1;
        log = refuses (u ∷ us) ∷ r.log;
      } in
      if-allowed a.room (note (pushes (u ∷ us)) r) (resync p draw a refused)
        (g, one_more before (batches r.log) (u ∷ us) good s) (resync-Pushing 0 a refused (g, s))

  pub live_if_synced-Pushing :
      (n : ℕ) (r : VenueRunner p.State) → Pushing n r → Pushing n (live_if_synced p draw r)
  unfolding mark_healthy set_state
  live_if_synced-Pushing n r v = if-Pushing n (p.synced r.protocol) _ _ v v

  pub send_all-Pushing :
      (n : ℕ) (frames : List (List ℕ)) (r : VenueRunner p.State)
      → Pushing n r
      → Pushing n (send_all p draw frames r)
  send_all-Pushing n [] r v = v
  send_all-Pushing n (frame ∷ frames) r v = send_all-Pushing n frames (note (sends frame) r) v
