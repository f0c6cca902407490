-- ===== src/HttpClient.antt =====
-- src/net/http_client.h and src/net/http_client.cc: one GET request. A session has one operation of
-- the socket library under way at a time; what the library completes it with is a `Completion`. What
-- the handler is called with is the list `handled`. The request's texts and the timeout are left out.
pub mod Once
use home_assignment.Common.{
  ℕ, Bool, true, false, not, ◌&&◌, List, [], ◌∷◌, ◌++◌, Option, none, some, if◌then◌else◌, ◌==◌,
}
use home_assignment.Common.Text.{codes, text_eq}
use home_assignment.Fixed.{to_string}
use home_assignment.Url.{Url, parse_url}

-- The operation that is under way.
pub data Phase : Type 0 where
  resolving connecting securing writing reading over : Phase

pub record Answer : Type 0 where
  pub ok : Bool
  pub body : List ℕ
  pub error : List ℕ

pub record Session : Type 0 where
  pub secure : Bool
  pub phase : Phase
  pub done : Bool
  pub handled : List Answer

-- The error's message, if there is one; whether the host's name could be set; the response.
pub record Completion : Type 0 where
  pub error : Option (List ℕ)
  pub named : Bool
  pub status : ℕ
  pub body : List ℕ

unfoldable pub finish : Bool → List ℕ → List ℕ → Session → Session
finish ok body error s = if s.done then record s { phase = over } else record s {
  phase = over;
  done = true;
  handled = record { ok = ok; body = body; error = error } ∷ s.handled;
}

-- An error ends the session; otherwise it goes on.
abbrev pub checked : List ℕ → Option (List ℕ) → Session → Session → Session
checked stage (some message) s next = finish false [] (stage ++ message) s
checked stage none s next = next

unfoldable pub on_tls_connect : Bool → Session → Session
unfolding finish
on_tls_connect named s =
    if not named then finish false [] (codes "sni failed") s else record s { phase = securing }

unfoldable pub on_connect : Bool → Session → Session
unfolding on_tls_connect
on_connect named s = if s.secure then on_tls_connect named s else record s { phase = writing }

unfoldable pub on_response : ℕ → List ℕ → Session → Session
unfolding finish
on_response status body s =
    if not (status == 200)
    then finish false [] (codes "http status " ++ to_string 20 status []) s
    else finish true body [] s

abbrev pub complete : Phase → Completion → Session → Session
complete resolving c s = checked (codes "resolve: ") c.error s (record s { phase = connecting })
complete connecting c s = checked (codes "connect: ") c.error s (on_connect c.named s)
complete securing c s = checked (codes "tls: ") c.error s (record s { phase = writing })
complete writing c s = checked (codes "write: ") c.error s (record s { phase = reading })
complete reading c s = checked (codes "read: ") c.error s (on_response c.status c.body s)
complete over c s = s

unfoldable pub run : List Completion → Session → Session
unfolding on_connect on_response
run [] s = s
run (c ∷ cs) s = run cs (complete s.phase c s)

abbrev malformed : List ℕ → Session
malformed text = record {
  secure = false;
  phase = over;
  done = true;
  handled = record { ok = false; body = []; error = codes "malformed url: " ++ text } ∷ [];
}

abbrev pub session_of : List ℕ → Option Url → Session
session_of text none = malformed text
session_of text (some url) =
    if not (text_eq url.scheme (codes "http")) && not (text_eq url.scheme (codes "https"))
    then malformed text
    else record { secure = url.secure; phase = resolving; done = false; handled = [] }

unfoldable pub http_get : List ℕ → Session
http_get text = session_of text (parse_url text)
