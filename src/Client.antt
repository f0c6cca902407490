-- ===== src/Client.antt =====
-- src/clients/common.h and the four programs beside it: what a client asks for, the loop that reads a
-- stream, and the exit codes. The messages that a stream delivers and its final status are arguments;
-- so are the texts that a message is printed as, std::atoll, and whether the output file opens.
pub mod Loop
pub mod Rendering
use home_assignment.Common.{
  ℕ, suc, ◌+◌, Bool, true, false, not, ◌&&◌, List, [], ◌∷◌, ◌++◌, map, Option, none, some,
  if◌then◌else◌, ltb,
}
use home_assignment.Common.Int.{ℤ, pos, ◌*ℤ◌, ltb_ℤ, leb_ℤ, eq_ℤ}
use home_assignment.Fixed.{scale}
use home_assignment.Flags.Clients.{ClientOptions, split_csv}
use home_assignment.Runner.{is_live}
use home_assignment.Service.Status.{VenueStatus, GetVenueStatusResponse}

pub record Subscription : Type 0 where
  pub instrument : List ℕ
  pub min_interval_micros : ℕ

-- An empty instrument is left as the message has it, which is empty.
unfoldable pub fill_subscription : ClientOptions → Subscription
fill_subscription options = record {
  instrument = options.instrument;
  min_interval_micros = options.min_interval_micros;
}

-- The bands of a request, from the text of the flag.
unfoldable pub bands_of : (List ℕ → ℤ) → List ℕ → List ℤ
unfolding split_csv
bands_of atoll text = map (λ band. atoll band *ℤ pos scale) (split_csv text)

-- The standard output and the file, if it is open.
pub record Output : Type 0 where
  pub printed : List ℕ
  pub is_open : Bool
  pub file : List ℕ

-- The constructor: a path that is not empty is opened for appending to what the file has.
unfoldable pub new_output : List ℕ → Bool → List ℕ → Output
new_output [] opens file = record { printed = []; is_open = false; file = file }
new_output (c ∷ path) opens file = record { printed = []; is_open = opens; file = file }

unfoldable pub write : Output → List ℕ → Output
write out text = record out {
  printed = out.printed ++ text;
  file = if out.is_open then out.file ++ text else out.file;
}

-- Where the loop stands when it ends: the output, and whether it has cancelled the call.
pub record Ended : Type 0 where
  pub output : Output
  pub cancelled : Bool

-- The loop: `max_updates` is the option, `count` the messages so far, and the list is what Read gives
-- until it fails.
unfoldable pub read_loop : {A : Type 0} → ℤ → ℕ → (A → List ℕ) → Output → List A → Ended
unfolding write
read_loop max_updates count text out [] = record { output = out; cancelled = false }
read_loop max_updates count text out (update ∷ updates) =
    let written = write out (text update) in
    let rest = read_loop max_updates (suc count) text written updates in
    if ltb_ℤ (pos 0) max_updates && leb_ℤ max_updates (pos (suc count))
    then record { output = written; cancelled = true }
    else rest

-- StreamLoop, with the status that Finish gives: the end of the loop, and the exit code.
unfoldable pub stream_loop :
    {A : Type 0} → ClientOptions → (A → List ℕ) → (A → List ℕ) → Output → List A → Bool → Ended × ℕ
unfolding read_loop
stream_loop options to_json render out updates ok = (
  read_loop options.max_updates 0 (λ u. if options.json then to_json u else render u) out updates,
  if not ok && eq_ℤ options.max_updates (pos 0) then 1 else 0,
)

-- The loop of the status client that counts the live venues.
unfoldable pub count_live : List VenueStatus → ℕ
count_live [] = 0
count_live (venue ∷ venues) =
    let rest = count_live venues in if is_live venue.state then suc rest else rest

-- The status client's exit code; `none` is a query that failed.
unfoldable pub status_exit : Option GetVenueStatusResponse → ℕ
unfolding count_live
status_exit none = 1
status_exit (some response) = if ltb 0 (count_live response.venues) then 0 else 1
