-- ===== src/Examples/Requests.antt =====
-- A request that the server answers with a snapshot, and one that it refuses.
use home_assignment.Common.{true, List, [], ◌∷◌, ◌≡◌, refl, none, arith}
use home_assignment.Common.Text.{codes, text_eq}
use home_assignment.Url.{parse_url}
use home_assignment.HttpClient.{Answer, Completion, run, http_get}
use home_assignment.HttpClient.Once.{http_get-run}

abbrev succeeds : Completion
succeeds = record { error = none; named = true; status = 200; body = codes "{}" }

abbrev answered : List Completion
answered = succeeds ∷ succeeds ∷ succeeds ∷ succeeds ∷ succeeds ∷ []

fetched :
    (run answered (http_get (codes "https://h/"))).handled
    ≡ record { ok = true; body = codes "{}"; error = [] } ∷ []
unfolding run http_get parse_url text_eq
fetched = refl

http_get-run_example :
    (answer : Answer) × ((run answered (http_get (codes "https://h/"))).handled ≡ answer ∷ [])
http_get-run_example = http_get-run (codes "https://h/") answered (omega arith)
