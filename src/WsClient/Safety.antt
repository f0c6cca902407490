-- ===== src/WsClient/Safety.antt =====
-- What holds of a connection whatever the network does.
use mathlib.Core.List.{append_assoc}
use home_assignment.Common.{
  ℕ, suc, ◌<◌, ◌≡◌, refl, sym, ap, ◌∙◌, subst, Bool, true, false, not, ◌&&◌, ◌||◌, List, [], ◌∷◌,
  ◌++◌, if◌then◌else◌, ◌==◌, arith,
}
use home_assignment.Common.Lists.{length, length-append}
use home_assignment.WsClient.{
  connecting, is_connecting, is_empty, Error, stream_truncated, peer_closed, other, Dial, fresh,
  resolving, securing, upgrading, over, Effect, sends_close, queues, writes, tells_close,
  WsConnection, is_open, finish, fail, write_front, do_write, do_read, send, close, arm_keepalive,
  start_keepalive, on_keepalive, pop_front, Command, sends, keeps_alive, closes, obey, obey_all,
  outstanding,
}

-- How often on_close was called.
abbrev pub told : List Effect → ℕ
told [] = 0
told (tells_close reason ∷ log) = suc (told log)
told (_ ∷ log) = told log

-- How many close frames were started.
abbrev pub closings : List Effect → ℕ
closings [] = 0
closings (sends_close ∷ log) = suc (closings log)
closings (_ ∷ log) = closings log

-- The payloads handed to Send, and those whose write was started, the oldest first.
abbrev pub queued : List Effect → List (List ℕ)
queued [] = []
queued (queues payload ∷ log) = queued log ++ payload ∷ []
queued (_ ∷ log) = queued log

abbrev pub written : List Effect → List (List ℕ)
written [] = []
written (writes payload ∷ log) = written log ++ payload ∷ []
written (_ ∷ log) = written log

-- No write is started while another or a close is under way, no close while a write is, and
-- on_close is called once.
abbrev pub IsOrderly : List Effect → Type 0
IsOrderly [] = Unit
IsOrderly (writes payload ∷ log) = (outstanding log ≡ 0) × (closings log ≡ 0) × IsOrderly log
IsOrderly (sends_close ∷ log) = (outstanding log ≡ 0) × (closings log ≡ 0) × IsOrderly log
IsOrderly (tells_close reason ∷ log) = (told log ≡ 0) × IsOrderly log
IsOrderly (_ ∷ log) = IsOrderly log

-- The queue behind the payload that is being written.
abbrev pub rest_of : Bool → List (List ℕ) → List (List ℕ)
rest_of true queue = pop_front queue
rest_of false queue = queue

-- Before the connection opens nothing was written or closed.
abbrev pub Dialing : Bool → Bool → ℕ → Dial → Type 0
Dialing opened writing frames over = Unit
Dialing opened writing frames _ = (opened ≡ false) × (writing ≡ false) × (frames ≡ 0)

pub record Safe (ends under_way frames : ℕ) (finished writing opened : Bool) (dial : Dial)
    : Type 0 where
  pub told_once : ends ≡ (if finished then 1 else 0)
  pub one_write : under_way ≡ (if writing then 1 else 0)
  pub dialing : Dialing opened writing frames dial
  pub unclosed : opened ≡ true → frames ≡ 0

-- Until the end is told no payload is lost: what is left of the queue follows what was written.
pub record Kept (finished writing : Bool) (out all queue : List (List ℕ)) : Type 0 where
  pub balanced : finished ≡ false → out ++ rest_of writing queue ≡ all
  pub busy : finished ≡ false → writing ≡ true → 0 < length queue

abbrev pub SafeAt : WsConnection → Type 0
SafeAt c =
    Safe (told c.log) (outstanding c.log) (closings c.log) c.finished c.writing (is_open c.state)
      c.dial
    × IsOrderly c.log

abbrev pub KeptAt : WsConnection → Type 0
KeptAt c = Kept c.finished c.writing (written c.log) (queued c.log) c.write_queue

abbrev pub Inv : WsConnection → Type 0
Inv c = SafeAt c × KeptAt c

pub if-Inv :
    (b : Bool) (x y : WsConnection)
    → (b ≡ true → Inv x)
    → (b ≡ false → Inv y)
    → Inv (if b then x else y)
if-Inv true x y p q = p refl
if-Inv false x y p q = q refl

Dialing-closed :
    (opened writing : Bool) (frames : ℕ) (d : Dial)
    → Dialing opened writing frames d
    → Dialing false writing frames d
Dialing-closed opened writing frames over h = tt
Dialing-closed opened writing frames fresh h = (refl, h.1, h.2)
Dialing-closed opened writing frames resolving h = (refl, h.1, h.2)
Dialing-closed opened writing frames connecting h = (refl, h.1, h.2)
Dialing-closed opened writing frames securing h = (refl, h.1, h.2)
Dialing-closed opened writing frames upgrading h = (refl, h.1, h.2)

-- An open connection is dialed no more.
Dialing-open :
    (w : Bool) (frames k : ℕ) (opened writing : Bool) (d : Dial)
    → opened ≡ true
    → Dialing opened w frames d
    → Dialing opened writing k d
Dialing-open w frames k opened writing over o h = tt
Dialing-open w frames k opened writing fresh o h = absurd (cc (o, h.0))
Dialing-open w frames k opened writing resolving o h = absurd (cc (o, h.0))
Dialing-open w frames k opened writing connecting o h = absurd (cc (o, h.0))
Dialing-open w frames k opened writing securing o h = absurd (cc (o, h.0))
Dialing-open w frames k opened writing upgrading o h = absurd (cc (o, h.0))

pub finish-Inv : (reason : List ℕ) (c : WsConnection) → SafeAt c → Inv (finish reason c)
unfolding finish outstanding
finish-Inv reason c (v, o) =
    if-Inv c.finished _ _
      (λ done. ((v, o), record { balanced = λ h. absurd (cc); busy = λ h. absurd (cc) }))
      (λ first.
        let none_told : told c.log ≡ 0 = ground (arith, v.told_once, first) in
        (
          (
            record {
              told_once = omega (arith, none_told);
              one_write = v.one_write;
              dialing = Dialing-closed _ _ _ c.dial v.dialing;
              unclosed = λ h. absurd (cc);
            },
            (none_told, o),
          ),
          record { balanced = λ h. absurd (cc); busy = λ h. absurd (cc) },
        ))

pub fail-Inv : (ec : Error) (stage : List ℕ) (c : WsConnection) → SafeAt c → Inv (fail ec stage c)
unfolding fail
fail-Inv stream_truncated stage c v = finish-Inv _ c v
fail-Inv peer_closed stage c v = finish-Inv _ c v
fail-Inv (other message) stage c v = finish-Inv _ c v

-- A write is started when none is under way.
write_front-Inv :
    (queue : List (List ℕ)) (c : WsConnection)
    → c.write_queue ≡ queue
    → is_open c.state ≡ true
    → c.writing ≡ false
    → Inv c
    → Inv (write_front queue c)
unfolding outstanding
write_front-Inv [] c q o w v = v
write_front-Inv (payload ∷ rest) c q o w ((v, ord), kept) =
    let none_out : outstanding c.log ≡ 0 = ground (arith, v.one_write, w) in
    let all : c.finished ≡ false → written c.log ++ c.write_queue ≡ queued c.log =
      λ live. ap (λ b. written c.log ++ rest_of b c.write_queue) (sym w) ∙ kept.balanced live in
    (
      (
        record {
          told_once = v.told_once;
          one_write = omega (arith, none_out);
          dialing = Dialing-open _ _ _ _ _ c.dial o v.dialing;
          unclosed = v.unclosed;
        },
        (none_out, v.unclosed o, ord),
      ),
      record {
        balanced = λ live.
            append_assoc (written c.log) (payload ∷ []) (pop_front c.write_queue)
            ∙ ap (λ q. written c.log ++ payload ∷ pop_front q) q
            ∙ ap (λ q. written c.log ++ q) (sym q)
            ∙ all live;
        busy = λ live b. subst (λ q. 0 < length q) (sym q) (omega arith);
      },
    )

pub do_write-Inv : (c : WsConnection) → c.writing ≡ false → Inv c → Inv (do_write c)
unfolding do_write
do_write-Inv c w v =
    if-Inv (is_open c.state) _ _ (λ o. write_front-Inv c.write_queue c refl o w v) (λ h. v)

pub do_read-Inv : (c : WsConnection) → Inv c → Inv (do_read c)
unfolding do_read outstanding
do_read-Inv c v = if-Inv (is_open c.state) _ _ (λ o. v) (λ h. v)

arm_keepalive-Inv : (c : WsConnection) → Inv c → Inv (arm_keepalive c)
unfolding arm_keepalive outstanding
arm_keepalive-Inv c v = if-Inv (is_open c.state || is_connecting c.state) _ _ (λ o. v) (λ h. v)

start_keepalive-Inv :
    (payload : List ℕ) (interval : ℕ) (c : WsConnection)
    → Inv c
    → Inv (start_keepalive payload interval c)
unfolding start_keepalive
start_keepalive-Inv payload interval c v =
    if-Inv (is_empty payload || interval == 0) _ _ (λ o. v) (λ h. arm_keepalive-Inv _ v)

rest_of-append :
    (writing : Bool) (queue : List (List ℕ)) (payload : List ℕ)
    → (writing ≡ true → 0 < length queue)
    → rest_of writing (queue ++ payload ∷ []) ≡ rest_of writing queue ++ payload ∷ []
rest_of-append false queue payload h = refl
rest_of-append true [] payload h = absurd (omega (arith, h refl))
rest_of-append true (x ∷ queue) payload h = refl

queue-Inv :
    (payload : List ℕ) (c : WsConnection)
    → Inv c
    → Inv (record c { write_queue = c.write_queue ++ payload ∷ []; log = queues payload ∷ c.log })
unfolding outstanding
queue-Inv payload c (v, kept) = (
  v,
  record {
    balanced = λ live.
        ap (λ q. written c.log ++ q)
          (rest_of-append c.writing c.write_queue payload (kept.busy live))
        ∙ sym (append_assoc (written c.log) (rest_of c.writing c.write_queue) (payload ∷ []))
        ∙ ap (λ q. q ++ payload ∷ []) (kept.balanced live);
    busy = λ live b. omega (arith, kept.busy live b, length-append c.write_queue (payload ∷ []));
  },
)

send-Inv : (payload : List ℕ) (c : WsConnection) → Inv c → Inv (send payload c)
unfolding send
send-Inv payload c v =
    let w = queue-Inv payload c v in
    if-Inv (is_open c.state && not c.writing) _ _ (λ h. do_write-Inv _ (ground (arith, h)) w)
      (λ h. w)

pub close-Inv : (c : WsConnection) → Inv c → Inv (close c)
unfolding close outstanding
close-Inv c v =
    if-Inv (not (is_open c.state)) _ _ (λ o. finish-Inv _ c v.0)
      (λ o.
        if-Inv c.writing _ _ (λ w. v)
          (λ w.
            let none_out : outstanding c.log ≡ 0 = ground (arith, v.0.0.one_write, w) in
            let opened : is_open c.state ≡ true = ground (arith, o) in
            (
              (
                record {
                  told_once = v.0.0.told_once;
                  one_write = v.0.0.one_write;
                  dialing =
                      Dialing-closed _ _ _ c.dial
                        (Dialing-open _ _ _ _ _ c.dial opened v.0.0.dialing);
                  unclosed = λ h. absurd (cc h);
                },
                (none_out, v.0.0.unclosed opened, v.0.1),
              ),
              v.1,
            )))

pub obey-Inv : (k : Command) (c : WsConnection) → Inv c → Inv (obey k c)
unfolding obey
obey-Inv (sends payload) c v = send-Inv payload c v
obey-Inv (keeps_alive payload interval) c v = start_keepalive-Inv payload interval c v
obey-Inv closes c v = close-Inv c v

pub obey_all-Inv : (ks : List Command) (c : WsConnection) → Inv c → Inv (obey_all ks c)
unfolding obey_all
obey_all-Inv [] c v = v
obey_all-Inv (k ∷ ks) c v = obey_all-Inv ks _ (obey-Inv k c v)

pub on_keepalive-Inv : (aborted : Bool) (c : WsConnection) → Inv c → Inv (on_keepalive aborted c)
unfolding on_keepalive
on_keepalive-Inv aborted c v =
    if-Inv aborted _ _ (λ a. v)
      (λ a.
        if-Inv (not (is_open c.state)) _ _ (λ o. arm_keepalive-Inv c v)
          (λ o. arm_keepalive-Inv _ (send-Inv c.keepalive_payload c v)))
