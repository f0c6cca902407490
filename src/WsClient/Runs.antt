-- ===== src/WsClient/Runs.antt =====
-- src/net/ws_client.cc: the completion handlers keep the invariant, so it holds of every run.
use home_assignment.Common.{
  ℕ, ◌-◌, ◌≡◌, refl, sym, ap, ◌∙◌, subst, Bool, true, false, not, ◌&&◌, List, [], ◌∷◌, ◌++◌, Option,
  none, some, ◌==◌, arith,
}
use home_assignment.Common.Text.{codes, text_eq}
use home_assignment.Url.{Url, parse_url}
use home_assignment.WsClient.{
  connecting, Error, Dial, fresh, resolving, securing, upgrading, over, write_ends, WsConnection,
  is_open, pop_front, after_write, on_write, Command, dial_to, open_url, on_resolve,
  start_websocket_handshake, on_connect, on_tls_handshake, on_websocket_handshake, on_read, Event,
  resolved, secured, wrote, connected, upgraded, has_read, has_closed, timer_ends, calls, upgraded,
  flush, outstanding, on_dial, step, run, new_connection,
}
use home_assignment.WsClient.Safety.{
  finish-Inv, on_keepalive-Inv, obey-Inv, Dialing, Inv, IsOrderly, KeptAt, SafeAt, close-Inv,
  closings, do_read-Inv, do_write-Inv, fail-Inv, if-Inv, obey_all-Inv, queued, rest_of, told,
  written,
}

Dialing-idle :
    (opened writing : Bool) (frames : ℕ) (d : Dial)
    → Dialing opened writing frames d
    → Dialing opened false frames d
Dialing-idle opened writing frames over h = tt
Dialing-idle opened writing frames fresh h = (h.0, refl, h.2)
Dialing-idle opened writing frames resolving h = (h.0, refl, h.2)
Dialing-idle opened writing frames connecting h = (h.0, refl, h.2)
Dialing-idle opened writing frames securing h = (h.0, refl, h.2)
Dialing-idle opened writing frames upgrading h = (h.0, refl, h.2)

after_write-Inv :
    (ec : Option Error) (c : WsConnection)
    → c.writing ≡ false
    → SafeAt c
    → KeptAt (record c { write_queue = pop_front c.write_queue })
    → Inv (after_write ec c)
after_write-Inv (some ec) c w v kept = fail-Inv ec _ c v
after_write-Inv none c w v kept =
    if-Inv c.close_pending _ _ (λ p. close-Inv _ (v, kept)) (λ p. do_write-Inv _ w (v, kept))

-- A write that the library completes was under way; a written payload leaves the queue.
on_write-Inv :
    (ec : Option Error) (c : WsConnection) → c.writing ≡ true → Inv c → Inv (on_write ec c)
unfolding on_write outstanding
on_write-Inv ec c w ((v, ord), kept) =
    let none_out : outstanding c.log - 1 ≡ 0 = ground (arith, v.one_write, w) in
    let idle_now : SafeAt (record c { writing = false; log = write_ends ∷ c.log }) = (
      record {
        told_once = v.told_once;
        one_write = none_out;
        dialing = Dialing-idle _ _ _ c.dial v.dialing;
        unclosed = v.unclosed;
      },
      ord,
    ) in
    after_write-Inv ec _ refl idle_now (record {
      balanced =
          λ live. ap (λ b. written c.log ++ rest_of b c.write_queue) (sym w) ∙ kept.balanced live;
      busy = λ live b. absurd (cc b);
    })

-- What dialing leaves alone.
dial-Inv :
    (d : Dial) (c : WsConnection)
    → Dialing (is_open c.state) c.writing (closings c.log) d
    → Inv c
    → Inv (record c { dial = d })
dial-Inv d c h ((v, ord), kept) = (
  (
    record { told_once = v.told_once; one_write = v.one_write; dialing = h; unclosed = v.unclosed },
    ord,
  ),
  kept,
)

on_resolve-Inv :
    (ec : Option Error) (c : WsConnection) → c.dial ≡ resolving → Inv c → Inv (on_resolve ec c)
unfolding on_resolve outstanding
on_resolve-Inv (some ec) c d v = fail-Inv ec _ _ (dial-Inv over c tt v).0
on_resolve-Inv none c d v =
    dial-Inv connecting c
      (subst (Dialing (is_open c.state) c.writing (closings c.log)) d v.0.0.dialing) v

handshake-Inv :
    (c : WsConnection)
    → Dialing (is_open c.state) c.writing (closings c.log) upgrading
    → Inv c
    → Inv (start_websocket_handshake c)
unfolding start_websocket_handshake outstanding
handshake-Inv c h v = dial-Inv upgrading c h v

on_connect-Inv :
    (ec sni : Option Error) (c : WsConnection)
    → c.dial ≡ connecting
    → Inv c
    → Inv (on_connect ec sni c)
unfolding on_connect outstanding
on_connect-Inv (some ec) sni c d v = fail-Inv ec _ _ (dial-Inv over c tt v).0
on_connect-Inv none (some ec) c d v =
    let h = subst (Dialing (is_open c.state) c.writing (closings c.log)) d v.0.0.dialing in
    if-Inv c.url.secure _ _ (λ s. fail-Inv ec _ _ (dial-Inv over c tt v).0)
      (λ s. handshake-Inv c h v)
on_connect-Inv none none c d v =
    let h = subst (Dialing (is_open c.state) c.writing (closings c.log)) d v.0.0.dialing in
    if-Inv c.url.secure _ _ (λ s. dial-Inv securing c h v) (λ s. handshake-Inv c h v)

on_tls_handshake-Inv :
    (ec : Option Error) (c : WsConnection) → c.dial ≡ securing → Inv c → Inv (on_tls_handshake ec c)
unfolding on_tls_handshake
on_tls_handshake-Inv (some ec) c d v = fail-Inv ec _ _ (dial-Inv over c tt v).0
on_tls_handshake-Inv none c d v =
    handshake-Inv c (subst (Dialing (is_open c.state) c.writing (closings c.log)) d v.0.0.dialing) v

flush-Inv : (c : WsConnection) → Inv c → Inv (flush c)
flush-Inv c v = if-Inv (not c.writing) _ _ (λ h. do_write-Inv c (ground (arith, h)) v) (λ h. v)

on_websocket_handshake-Inv :
    (ec : Option Error) (callback : List Command) (c : WsConnection)
    → c.dial ≡ upgrading
    → Inv c
    → Inv (on_websocket_handshake ec callback c)
unfolding on_websocket_handshake outstanding
on_websocket_handshake-Inv (some ec) callback c d v = fail-Inv ec _ _ (dial-Inv over c tt v).0
on_websocket_handshake-Inv none callback c d ((v, ord), kept) =
    let h = subst (Dialing (is_open c.state) c.writing (closings c.log)) d v.dialing in
    flush-Inv _ (
      do_read-Inv _ (
        obey_all-Inv callback _ (
          (
            record {
              told_once = v.told_once;
              one_write = v.one_write;
              dialing = tt;
              unclosed = λ o. h.2;
            },
            ord,
          ),
          kept,
        )))

on_read-Inv :
    (ec : Option Error) (frame : List ℕ) (callback : List Command) (c : WsConnection)
    → Inv c
    → Inv (on_read ec frame callback c)
unfolding on_read outstanding
on_read-Inv (some ec) frame callback c v = fail-Inv ec _ c v.0
on_read-Inv none frame callback c v = do_read-Inv _ (obey_all-Inv callback _ v)

-- A handler runs when its operation is under way.
on_dial-Inv : (e : Event) (d : Dial) (c : WsConnection) → c.dial ≡ d → Inv c → Inv (on_dial e d c)
on_dial-Inv (resolved ec) fresh c at v = v
on_dial-Inv (resolved ec) resolving c at v = on_resolve-Inv ec c at v
on_dial-Inv (resolved ec) connecting c at v = v
on_dial-Inv (resolved ec) securing c at v = v
on_dial-Inv (resolved ec) upgrading c at v = v
on_dial-Inv (resolved ec) over c at v = v
on_dial-Inv (secured ec) fresh c at v = v
on_dial-Inv (secured ec) resolving c at v = v
on_dial-Inv (secured ec) connecting c at v = v
on_dial-Inv (secured ec) securing c at v = on_tls_handshake-Inv ec c at v
on_dial-Inv (secured ec) upgrading c at v = v
on_dial-Inv (secured ec) over c at v = v
on_dial-Inv (connected ec sni) fresh c at v = v
on_dial-Inv (connected ec sni) resolving c at v = v
on_dial-Inv (connected ec sni) connecting c at v = on_connect-Inv ec sni c at v
on_dial-Inv (connected ec sni) securing c at v = v
on_dial-Inv (connected ec sni) upgrading c at v = v
on_dial-Inv (connected ec sni) over c at v = v
on_dial-Inv (upgraded ec callback) fresh c at v = v
on_dial-Inv (upgraded ec callback) resolving c at v = v
on_dial-Inv (upgraded ec callback) connecting c at v = v
on_dial-Inv (upgraded ec callback) securing c at v = v
on_dial-Inv (upgraded ec callback) upgrading c at v = on_websocket_handshake-Inv ec callback c at v
on_dial-Inv (upgraded ec callback) over c at v = v
on_dial-Inv (wrote ec) d c at v = v
on_dial-Inv (has_read ec frame callback) d c at v = v
on_dial-Inv has_closed d c at v = v
on_dial-Inv (timer_ends aborted) d c at v = v
on_dial-Inv (calls command) d c at v = v

step-Inv : (e : Event) (c : WsConnection) → Inv c → Inv (step e c)
unfolding step
step-Inv (has_read ec frame callback) c v = on_read-Inv ec frame callback c v
step-Inv (wrote ec) c v =
    if-Inv (outstanding c.log == 0) _ _ (λ h. v)
      (λ h. on_write-Inv ec c (ground (arith, h, v.0.0.one_write)) v)
step-Inv has_closed c v = finish-Inv _ c v.0
step-Inv (timer_ends aborted) c v = on_keepalive-Inv aborted c v
step-Inv (calls command) c v = obey-Inv command c v
step-Inv (resolved ec) c v = on_dial-Inv (resolved ec) c.dial c refl v
step-Inv (secured ec) c v = on_dial-Inv (secured ec) c.dial c refl v
step-Inv (connected ec sni) c v = on_dial-Inv (connected ec sni) c.dial c refl v
step-Inv (upgraded ec callback) c v = on_dial-Inv (upgraded ec callback) c.dial c refl v

run-Inv : (es : List Event) (c : WsConnection) → Inv c → Inv (run es c)
unfolding run
run-Inv [] c v = v
run-Inv (e ∷ es) c v = run-Inv es _ (step-Inv e c v)

start-Inv : Inv new_connection
unfolding new_connection outstanding
start-Inv = (
  (
    record {
      told_once = refl;
      one_write = refl;
      dialing = (refl, refl, refl);
      unclosed = λ h. refl;
    },
    tt,
  ),
  record { balanced = λ h. refl; busy = λ h w. absurd (cc) },
)

dial_to-Inv :
    (url : Option Url) (text : List ℕ) (c : WsConnection)
    → c.dial ≡ fresh
    → Inv c
    → Inv (dial_to url text c)
unfolding outstanding
dial_to-Inv none text c d v = finish-Inv _ _ (dial-Inv over c tt v).0
dial_to-Inv (some url) text c d ((v, ord), kept) =
    let h = subst (Dialing (is_open c.state) c.writing (closings c.log)) d v.dialing in
    if-Inv (not (text_eq url.scheme (codes "ws")) && not (text_eq url.scheme (codes "wss"))) _ _
      (λ bad. finish-Inv _ _ (dial-Inv over c tt ((v, ord), kept)).0)
      (λ good. (
        (
          record {
            told_once = v.told_once;
            one_write = v.one_write;
            dialing = (refl, h.1, h.2);
            unclosed = λ o. absurd (cc o);
          },
          ord,
        ),
        kept,
      ))

open_url-Inv : (text : List ℕ) → Inv (open_url text new_connection)
unfolding open_url new_connection outstanding
open_url-Inv text = dial_to-Inv (parse_url text) text new_connection refl start-Inv

-- Whatever address Open is called with, and whatever events follow, in whatever order, with
-- whatever the callbacks do with the connection: a write is started only when none is under way
-- and no close was started, a close only when no write is under way and none was started before,
-- and on_close is called at most once.
pub run-IsOrderly :
    (text : List ℕ) (es : List Event) → IsOrderly (run es (open_url text new_connection)).log
run-IsOrderly text es = (run-Inv es _ (open_url-Inv text)).0.1

-- After any events, as long as on_close was not called, the payloads whose write was started
-- followed by the rest of the queue are exactly the payloads handed to Send, in their order.
pub run-in_order :
    (text : List ℕ) (es : List Event)
    → told (run es (open_url text new_connection)).log ≡ 0
    → written (run es (open_url text new_connection)).log
        ++ rest_of
            (run es (open_url text new_connection)).writing
            (run es (open_url text new_connection)).write_queue
      ≡ queued (run es (open_url text new_connection)).log
run-in_order text es none_told =
    let (v, kept) = run-Inv es _ (open_url-Inv text) in
    kept.balanced (ground (arith, none_told, v.0.told_once))
