-- ===== src/WsClient.antt =====
-- src/net/ws_client.h and src/net/ws_client.cc: one venue's websocket connection. The handlers run
-- one after the other, on the thread of the io_context. What the socket library is told to do, and
-- what the callbacks are told, is the list `log`, the newest first; the library completes each
-- operation once, with an error or without. What a callback does with the connection is a list of
-- commands. TLS settings and timeouts, which the library acts on, are left out.
pub mod Runs
pub mod Safety
use home_assignment.Common.{
  ℕ, suc, ◌-◌, Bool, true, false, not, ◌&&◌, ◌||◌, List, [], ◌∷◌, ◌++◌, Option, none, some,
  if◌then◌else◌, ◌==◌,
}
use home_assignment.Common.Text.{codes, text_eq}
use home_assignment.Url.{Url, parse_url}

pub data State : Type 0 where
  idle connecting open_ closed : State

-- The error codes that the handlers tell apart: a TLS stream cut short, a close of the peer, and the
-- others, with their messages.
pub data Error : Type 0 where
  stream_truncated peer_closed : Error
  other : List ℕ → Error

-- The operation of opening that is under way.
pub data Dial : Type 0 where
  fresh resolving connecting securing upgrading over : Dial

pub data Effect : Type 0 where
  resolves : List ℕ → List ℕ → Effect
  connects secures upgrades reads sends_close arms_timer cancels_timer : Effect
  queues : List ℕ → Effect
  writes : List ℕ → Effect
  write_ends : Effect
  tells_open : Effect
  tells_frame : List ℕ → Effect
  tells_close : List ℕ → Effect

pub record WsConnection : Type 0 where
  pub url : Url
  pub state : State
  pub finished : Bool
  pub write_queue : List (List ℕ)
  pub writing : Bool
  pub close_pending : Bool
  pub keepalive_payload : List ℕ
  pub keepalive_interval : ℕ
  pub dial : Dial
  pub log : List Effect

abbrev pub is_open : State → Bool
is_open open_ = true
is_open _ = false

abbrev pub is_connecting : State → Bool
is_connecting connecting = true
is_connecting _ = false

abbrev pub note : Effect → WsConnection → WsConnection
note effect c = record c { log = effect ∷ c.log }

unfoldable pub finish : List ℕ → WsConnection → WsConnection
finish reason c = if c.finished then c else record c {
  finished = true;
  state = closed;
  log = tells_close reason ∷ cancels_timer ∷ c.log;
}

unfoldable pub fail : Error → List ℕ → WsConnection → WsConnection
unfolding finish
fail stream_truncated stage c = finish (codes "peer closed") c
fail peer_closed stage c = finish (codes "peer closed") c
fail (other message) stage c = finish (stage ++ codes ": " ++ message) c

abbrev pub write_front : List (List ℕ) → WsConnection → WsConnection
write_front [] c = c
write_front (payload ∷ rest) c = record c { writing = true; log = writes payload ∷ c.log }

unfoldable pub do_write : WsConnection → WsConnection
do_write c = if is_open c.state then write_front c.write_queue c else c

unfoldable pub do_read : WsConnection → WsConnection
do_read c = if is_open c.state then note reads c else c

unfoldable pub send : List ℕ → WsConnection → WsConnection
unfolding do_write
send payload c =
    let queued = record c {
      write_queue = c.write_queue ++ payload ∷ [];
      log = queues payload ∷ c.log;
    } in
    if is_open c.state && not c.writing then do_write queued else queued

unfoldable pub close : WsConnection → WsConnection
unfolding finish
close c =
    if not (is_open c.state)
    then finish (codes "closed before open") c
    else if c.writing
    then record c { close_pending = true }
    else record c { state = closed; log = sends_close ∷ cancels_timer ∷ c.log }

unfoldable pub arm_keepalive : WsConnection → WsConnection
arm_keepalive c = if is_open c.state || is_connecting c.state then note arms_timer c else c

abbrev pub is_empty : List ℕ → Bool
is_empty [] = true
is_empty (x ∷ xs) = false

unfoldable pub start_keepalive : List ℕ → ℕ → WsConnection → WsConnection
unfolding arm_keepalive
start_keepalive payload interval c =
    if is_empty payload || interval == 0
    then c
    else arm_keepalive (record c { keepalive_payload = payload; keepalive_interval = interval })

-- `aborted` is the error of a timer that was cancelled; no other error stops the keepalive.
unfoldable pub on_keepalive : Bool → WsConnection → WsConnection
unfolding arm_keepalive send
on_keepalive aborted c =
    if aborted
    then c
    else if not (is_open c.state)
    then arm_keepalive c
    else arm_keepalive (send c.keepalive_payload c)

-- The queue without its first entry, if it has one.
abbrev pub pop_front : List (List ℕ) → List (List ℕ)
pop_front [] = []
pop_front (payload ∷ rest) = rest

abbrev pub after_write : Option Error → WsConnection → WsConnection
after_write (some ec) c = fail ec (codes "write") c
after_write none c =
    let popped = record c { write_queue = pop_front c.write_queue } in
    if c.close_pending then close (record popped { close_pending = false }) else do_write popped

unfoldable pub on_write : Option Error → WsConnection → WsConnection
unfolding fail close do_write
on_write ec c = after_write ec (record c { writing = false; log = write_ends ∷ c.log })

-- What the owner calls, from a callback or at another time.
pub data Command : Type 0 where
  sends : List ℕ → Command
  keeps_alive : List ℕ → ℕ → Command
  closes : Command

unfoldable pub obey : Command → WsConnection → WsConnection
unfolding send start_keepalive close
obey (sends payload) c = send payload c
obey (keeps_alive payload interval) c = start_keepalive payload interval c
obey closes c = close c

unfoldable pub obey_all : List Command → WsConnection → WsConnection
unfolding obey
obey_all [] c = c
obey_all (k ∷ ks) c = obey_all ks (obey k c)

abbrev pub dial_to : Option Url → List ℕ → WsConnection → WsConnection
dial_to none text c = finish (codes "malformed websocket url: " ++ text) (record c { dial = over })
dial_to (some url) text c =
    if not (text_eq url.scheme (codes "ws")) && not (text_eq url.scheme (codes "wss"))
    then finish (codes "malformed websocket url: " ++ text) (record c { url = url; dial = over })
    else record c {
      url = url;
      state = connecting;
      dial = resolving;
      log = resolves url.host url.port ∷ c.log;
    }

-- Open, which the owner calls once.
unfoldable pub open_url : List ℕ → WsConnection → WsConnection
unfolding finish
open_url text c = dial_to (parse_url text) text c

unfoldable pub on_resolve : Option Error → WsConnection → WsConnection
unfolding fail
on_resolve (some ec) c = fail ec (codes "resolve") (record c { dial = over })
on_resolve none c = record c { dial = connecting; log = connects ∷ c.log }

unfoldable pub start_websocket_handshake : WsConnection → WsConnection
start_websocket_handshake c = record c { dial = upgrading; log = upgrades ∷ c.log }

-- `sni` is the error of setting the host's name, if there is one.
unfoldable pub on_connect : Option Error → Option Error → WsConnection → WsConnection
unfolding fail start_websocket_handshake
on_connect (some ec) sni c = fail ec (codes "connect") (record c { dial = over })
on_connect none (some ec) c =
    if c.url.secure
    then fail ec (codes "sni") (record c { dial = over })
    else start_websocket_handshake c
on_connect none none c =
    if c.url.secure
    then record c { dial = securing; log = secures ∷ c.log }
    else start_websocket_handshake c

unfoldable pub on_tls_handshake : Option Error → WsConnection → WsConnection
unfolding fail start_websocket_handshake
on_tls_handshake (some ec) c = fail ec (codes "tls handshake") (record c { dial = over })
on_tls_handshake none c = start_websocket_handshake c

abbrev pub flush : WsConnection → WsConnection
flush c = if not c.writing then do_write c else c

unfoldable pub on_websocket_handshake : Option Error → List Command → WsConnection → WsConnection
unfolding fail obey_all do_read do_write
on_websocket_handshake (some ec) callback c =
    fail ec (codes "websocket handshake") (record c { dial = over })
on_websocket_handshake none callback c = flush (
    do_read (obey_all callback (record c { state = open_; dial = over; log = tells_open ∷ c.log })))

-- A message that was read, or an error; the callback's commands come before the next read.
unfoldable pub on_read : Option Error → List ℕ → List Command → WsConnection → WsConnection
unfolding fail obey_all do_read
on_read (some ec) frame callback c = fail ec (codes "read") c
on_read none frame callback c = do_read (obey_all callback (note (tells_frame frame) c))

-- What happens to a connection: the library completes an operation, the timer ends, or the owner
-- calls.
pub data Event : Type 0 where
  resolved secured wrote : Option Error → Event
  connected : Option Error → Option Error → Event
  upgraded : Option Error → List Command → Event
  has_read : Option Error → List ℕ → List Command → Event
  has_closed : Event
  timer_ends : Bool → Event
  calls : Command → Event

-- How many writes the library has not completed yet.
unfoldable pub outstanding : List Effect → ℕ
outstanding [] = 0
outstanding (writes payload ∷ log) = suc (outstanding log)
outstanding (write_ends ∷ log) = outstanding log - 1
outstanding (_ ∷ log) = outstanding log

abbrev pub on_dial : Event → Dial → WsConnection → WsConnection
on_dial (resolved ec) resolving c = on_resolve ec c
on_dial (connected ec sni) connecting c = on_connect ec sni c
on_dial (secured ec) securing c = on_tls_handshake ec c
on_dial (upgraded ec callback) upgrading c = on_websocket_handshake ec callback c
on_dial _ _ c = c

-- A completion comes only for an operation that is under way.
unfoldable pub step : Event → WsConnection → WsConnection
unfolding on_resolve on_connect on_tls_handshake on_websocket_handshake on_read on_write
    on_keepalive obey outstanding
step (has_read ec frame callback) c = on_read ec frame callback c
step (wrote ec) c = if outstanding c.log == 0 then c else on_write ec c
step has_closed c = finish (codes "closed") c
step (timer_ends aborted) c = on_keepalive aborted c
step (calls command) c = obey command c
step e c = on_dial e c.dial c

unfoldable pub run : List Event → WsConnection → WsConnection
unfolding step
run [] c = c
run (e ∷ es) c = run es (step e c)

unfoldable pub new_connection : WsConnection
new_connection = record {
  url = record { secure = false; scheme = []; host = []; port = []; target = codes "/" };
  state = idle;
  finished = false;
  write_queue = [];
  writing = false;
  close_pending = false;
  keepalive_payload = [];
  keepalive_interval = 0;
  dial = fresh;
  log = [];
}
