-- ===== src/HttpClient/Once.antt =====
-- src/net/http_client.cc: the handler runs once.
use home_assignment.Common.{
  ℕ, suc, ◌≤◌, ◌≡◌, refl, sym, subst, Bool, true, false, not, ◌&&◌, List, [], ◌∷◌, ◌++◌, Option,
  none, some, if◌then◌else◌, ◌==◌, arith,
}
use home_assignment.Common.Lists.{length}
use home_assignment.Common.Text.{codes, text_eq}
use home_assignment.Url.{Url, parse_url}
use home_assignment.HttpClient.{
  Phase, resolving, connecting, securing, writing, reading, over, Answer, Session, Completion,
  finish, checked, on_tls_connect, on_connect, on_response, complete, run, session_of, http_get,
}

-- How many operations are left at most.
abbrev left : Phase → ℕ
left resolving = 5
left connecting = 4
left securing = 3
left writing = 2
left reading = 1
left over = 0

-- Until it is over a session has not called the handler, and then once.
abbrev Inv : Phase → Session → Type 0
Inv over s = (s.done ≡ true) × ((answer : Answer) × (s.handled ≡ answer ∷ []))
Inv _ s = (s.done ≡ false) × (s.handled ≡ [])

-- Not over, whatever the phase.
abbrev Waits : Session → Type 0
Waits s = (s.done ≡ false) × (s.handled ≡ [])

abbrev Fine : ℕ → Session → Type 0
Fine n s = Inv s.phase s × (left s.phase ≤ n)

if-Fine : (n : ℕ) (b : Bool) (x y : Session) → Fine n x → Fine n y → Fine n (if b then x else y)
if-Fine n true x y h k = h
if-Fine n false x y h k = k

finish-Fine :
    (n : ℕ) (ok : Bool) (body error : List ℕ) (s : Session)
    → Waits s
    → Fine n (finish ok body error s)
unfolding finish
finish-Fine n ok body error s (d, h) = go s.done d
  where
    go :
        (b : Bool)
        → b ≡ false
        → Fine n (
            if b then record s { phase = over } else record s {
              phase = over;
              done = true;
              handled = record { ok = ok; body = body; error = error } ∷ s.handled;
            })
    go true e = absurd (cc e)
    go false e = ((refl, (record { ok = ok; body = body; error = error }, rw h refl)), omega arith)

checked-Fine :
    (n : ℕ) (stage : List ℕ) (error : Option (List ℕ)) (s next : Session)
    → Waits s
    → Fine n next
    → Fine n (checked stage error s next)
checked-Fine n stage (some message) s next w f = finish-Fine n false [] (stage ++ message) s w
checked-Fine n stage none s next w f = f

on_connect-Fine :
    (n : ℕ) (named : Bool) (s : Session) → 3 ≤ n → Waits s → Fine n (on_connect named s)
unfolding on_connect on_tls_connect
on_connect-Fine n named s le w =
    if-Fine n s.secure _ _
      (if-Fine n (not named) _ _ (finish-Fine n false [] (codes "sni failed") s w) (w, le))
      (w, omega (arith, le))

on_response-Fine :
    (n status : ℕ) (body : List ℕ) (s : Session) → Waits s → Fine n (on_response status body s)
unfolding on_response
on_response-Fine n status body s w =
    if-Fine n (not (status == 200)) _ _ (finish-Fine n false [] _ s w)
      (finish-Fine n true body [] s w)

-- A completion leaves fewer operations.
complete-Fine :
    (n : ℕ) (p : Phase) (c : Completion) (s : Session)
    → s.phase ≡ p
    → Inv p s
    → left p ≤ suc n
    → Fine n (complete p c s)
complete-Fine n resolving c s at w le =
    checked-Fine n (codes "resolve: ") c.error s (record s { phase = connecting }) w
      (w, omega (arith, le))
complete-Fine n connecting c s at w le =
    checked-Fine n (codes "connect: ") c.error s (on_connect c.named s) w
      (on_connect-Fine n c.named s (omega (arith, le)) w)
complete-Fine n securing c s at w le =
    checked-Fine n (codes "tls: ") c.error s (record s { phase = writing }) w (w, omega (arith, le))
complete-Fine n writing c s at w le =
    checked-Fine n (codes "write: ") c.error s (record s { phase = reading }) w
      (w, omega (arith, le))
complete-Fine n reading c s at w le =
    checked-Fine n (codes "read: ") c.error s (on_response c.status c.body s) w
      (on_response-Fine n c.status c.body s w)
complete-Fine n over c s at w le = subst (λ p. Inv p s × (left p ≤ n)) (sym at) (w, omega arith)

over-handled :
    (p : Phase) (s : Session) → Inv p s → left p ≤ 0 → (answer : Answer) × (s.handled ≡ answer ∷ [])
over-handled over s w le = w.1
over-handled resolving s w le = absurd (omega (arith, le))
over-handled connecting s w le = absurd (omega (arith, le))
over-handled securing s w le = absurd (omega (arith, le))
over-handled writing s w le = absurd (omega (arith, le))
over-handled reading s w le = absurd (omega (arith, le))

run-handled :
    (cs : List Completion) (s : Session)
    → Fine (length cs) s
    → (answer : Answer) × ((run cs s).handled ≡ answer ∷ [])
unfolding run
run-handled [] s (w, le) = over-handled s.phase s w le
run-handled (c ∷ cs) s (w, le) = run-handled cs _ (complete-Fine (length cs) s.phase c s refl w le)

session_of-Fine : (n : ℕ) (text : List ℕ) (url : Option Url) → 5 ≤ n → Fine n (session_of text url)
session_of-Fine n text none le = ((refl, (_, refl)), omega arith)
session_of-Fine n text (some url) le =
    if-Fine n (not (text_eq url.scheme (codes "http")) && not (text_eq url.scheme (codes "https")))
      _ _ ((refl, (_, refl)), omega arith) ((refl, refl), le)

-- Whatever the URL, five completions of the socket library are enough for the handler to run, and
-- however many there are it has then run exactly once.
pub http_get-run :
    (text : List ℕ) (cs : List Completion)
    → 5 ≤ length cs
    → (answer : Answer) × ((run cs (http_get text)).handled ≡ answer ∷ [])
unfolding http_get
http_get-run text cs le = run-handled cs _ (session_of-Fine (length cs) text (parse_url text) le)
