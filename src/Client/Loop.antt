-- ===== src/Client/Loop.antt =====
-- What the loop of a client prints and when it exits with a failure.
use mathlib.Core.List.{append-nil, append_assoc}
use home_assignment.Common.{
  ℕ, zero, suc, ◌+◌, ◌≡◌, refl, sym, ap, ap₂, ◌∙◌, Bool, true, false, not, ◌&&◌, ◌||◌, List, [],
  ◌∷◌, ◌++◌, map, Option, none, some, if◌then◌else◌, ltb, leb, arith, ◌==◌,
}
use home_assignment.Common.Lists.{length, take}
use home_assignment.Common.Int.{ℤ, pos, ltb_ℤ, leb_ℤ, eq_ℤ}
use home_assignment.Flags.Clients.{ClientOptions}
use home_assignment.Runner.{is_live}
use home_assignment.Engine.{Engine, ConsolidatedBook, VenueClockInfo}
use home_assignment.Service.Status.{
  VenueStats, VenueStatus, get_venue_status, venue_status, with_clocks, with_latest,
}
use home_assignment.Client.{Output, Ended, write, read_loop, stream_loop, count_live, status_exit}

-- One text after the other.
abbrev pub joined : {A : Type 0} → (A → List ℕ) → List A → List ℕ
joined text [] = []
joined text (u ∷ us) = text u ++ joined text us

-- The messages that a limit lets through: all of them for 0.
abbrev pub shown : {A : Type 0} → ℕ → List A → List A
shown zero us = us
shown (suc limit) us = take (suc limit) us

-- The output with a text behind it.
abbrev pub after_text : Output → List ℕ → Output
after_text out text = record out {
  printed = out.printed ++ text;
  file = if out.is_open then out.file ++ text else out.file;
}

abbrev ended : Output → Bool → Ended
ended output cancelled = record { output = output; cancelled = cancelled }

output_of : Output → List ℕ → List ℕ → Output
output_of out printed file = record { printed = printed; is_open = out.is_open; file = file }

after_text-nil : (out : Output) → out ≡ after_text out []
unfolding output_of
after_text-nil out = ap₂ (output_of out) (sym (append-nil out.printed)) (kept out.is_open)
  where
    kept : (b : Bool) → out.file ≡ (if b then out.file ++ [] else out.file)
    kept true = sym (append-nil out.file)
    kept false = refl

after_text-joined :
    (out : Output) (s t : List ℕ) → after_text (after_text out s) t ≡ after_text out (s ++ t)
unfolding output_of
after_text-joined out s t = ap₂ (output_of out) (append_assoc out.printed s t) (kept out.is_open)
  where
    kept :
        (b : Bool)
        → (if b
            then (if b then out.file ++ s else out.file) ++ t
            else (if b then out.file ++ s else out.file))
          ≡ (if b then out.file ++ (s ++ t) else out.file)
    kept true = append_assoc out.file s t
    kept false = refl

module _ {A : Type 0} (text : A → List ℕ) where
  read_all :
      (count : ℕ) (out : Output) (us : List A)
      → read_loop (pos 0) count text out us
        ≡ record { output = after_text out (joined text us); cancelled = false }
  unfolding read_loop write ltb_ℤ
  read_all count out [] = ap (λ o. record { output = o; cancelled = false }) (after_text-nil out)
  read_all count out (u ∷ us) =
      read_all (suc count) (after_text out (text u)) us
      ∙ ap (λ o. record { output = o; cancelled = false })
          (after_text-joined out (text u) (joined text us))

  reached :
      (count : ℕ)
      → ltb_ℤ (pos 0) (pos (1 + count)) && leb_ℤ (pos (1 + count)) (pos (suc count)) ≡ true
  reached count = unfold ltb_ℤ leb_ℤ in ground arith

  not_reached :
      (limit count : ℕ)
      → ltb_ℤ (pos 0) (pos (suc (suc limit) + count))
          && leb_ℤ (pos (suc (suc limit) + count)) (pos (suc count))
        ≡ false
  not_reached limit count = unfold ltb_ℤ leb_ℤ in ground arith

  read_some :
      (limit count : ℕ) (out : Output) (us : List A)
      → read_loop (pos (suc limit + count)) count text out us ≡ record {
        output = after_text out (joined text (take (suc limit) us));
        cancelled = leb (suc limit) (length us);
      }
  unfolding read_loop write
  read_some limit count out [] = ap₂ ended (after_text-nil out) (ground arith)
  read_some zero count out (u ∷ us) =
      let all : true ≡ leb 1 (suc (length us)) = ground arith in
      rw (reached count) (ap₂ ended (ap (after_text out) (sym (append-nil (text u)))) all)
  read_some (suc limit) count out (u ∷ us) =
      let written = after_text out (text u) in
      let same : leb (suc limit) (length us) ≡ leb (suc (suc limit)) (suc (length us)) =
        ground arith in
      rw (not_reached limit count) (
        ap (λ k. read_loop (pos k) (suc count) text written us) (omega arith)
        ∙ read_some limit (suc count) written us
        ∙ ap₂ ended (after_text-joined out (text u) (joined text (take (suc limit) us))) same)

abbrev one_if : Bool → ℕ
one_if b = if b then 1 else 0

exit_code :
    (ok : Bool) (m : ℤ) (n : ℕ)
    → m ≡ pos n
    → one_if (not ok && eq_ℤ m (pos 0)) ≡ one_if (not ok && n == 0)
exit_code ok m n e =
    let same : eq_ℤ (pos n) (pos 0) ≡ (n == 0) = unfold eq_ℤ in ground arith in
    ap (λ b. one_if (not ok && b)) (ap (λ k. eq_ℤ k (pos 0)) e ∙ same)

-- With a limit of n messages the loop prints the first n that come, each once and in order, to the
-- standard output and to the file if it is open; with the limit 0 it prints all. It cancels the call
-- exactly if the limit is not 0 and as many messages came. The exit code is 1 exactly if the call
-- failed and the limit is 0.
pub stream_loop-shown :
    {A : Type 0} (options : ClientOptions) (n : ℕ) (to_json render : A → List ℕ) (out : Output)
    (us : List A) (ok : Bool)
    → options.max_updates ≡ pos n
    → let text : A → List ℕ = λ u. if options.json then to_json u else render u in
      ((stream_loop options to_json render out us ok).0.output
        ≡ after_text out (joined text (shown n us)))
      × ((stream_loop options to_json render out us ok).0.cancelled
          ≡ not (n == 0) && leb n (length us))
      × ((stream_loop options to_json render out us ok).1 ≡ (if not ok && n == 0 then 1 else 0))
unfolding stream_loop
stream_loop-shown {A} options zero to_json render out us ok e =
    let text : A → List ℕ = λ u. if options.json then to_json u else render u in
    let all = ap (λ m. read_loop m 0 text out us) e ∙ read_all text 0 out us in
    (ap (λ r. r.output) all, ap (λ r. r.cancelled) all, exit_code ok options.max_updates 0 e)
stream_loop-shown {A} options (suc n) to_json render out us ok e =
    let text : A → List ℕ = λ u. if options.json then to_json u else render u in
    let some_of =
      ap (λ m. read_loop m 0 text out us) e
      ∙ ap (λ k. read_loop (pos k) 0 text out us) (omega arith)
      ∙ read_some text n 0 out us in
    let positive : leb (suc n) (length us) ≡ not (suc n == 0) && leb (suc n) (length us) =
      ground arith in
    (
      ap (λ r. r.output) some_of,
      ap (λ r. r.cancelled) some_of ∙ positive,
      exit_code ok options.max_updates (suc n) e,
    )

abbrev pub any_live : List VenueStats → Bool
any_live [] = false
any_live (stats ∷ feeds) = is_live stats.state || any_live feeds

-- A clock leaves the states as they are.
count_live-clocks :
    (statuses : List VenueStatus) (clocks : List VenueClockInfo)
    → count_live (with_clocks statuses clocks) ≡ count_live statuses
unfolding count_live with_clocks
count_live-clocks [] clocks = refl
count_live-clocks (s ∷ statuses) [] = refl
count_live-clocks (s ∷ statuses) (c ∷ clocks) =
    ap (λ n. if is_live s.state then suc n else n) (count_live-clocks statuses clocks)

count_live-any_live :
    (feeds : List VenueStats) → ltb 0 (count_live (map venue_status feeds)) ≡ any_live feeds
unfolding count_live venue_status
count_live-any_live [] = refl
count_live-any_live (s ∷ feeds) = ground (arith, count_live-any_live feeds)

with_latest-count_live :
    (statuses : List VenueStatus) (latest : Option ConsolidatedBook)
    → count_live (with_latest statuses latest) ≡ count_live statuses
with_latest-count_live statuses none = refl
with_latest-count_live statuses (some book) = count_live-clocks statuses book.clocks

-- The health check exits with 0 exactly if the query succeeds and a venue is live, whatever the
-- engine has published.
pub status_exit-any_live :
    (e : Engine) (feeds : List VenueStats) (started now later : ℤ)
    → (status_exit (some (get_venue_status e feeds started now later))
        ≡ (if any_live feeds then 0 else 1))
      × (status_exit none ≡ 1)
unfolding status_exit get_venue_status
status_exit-any_live e feeds started now later = (
  ap (λ n. if ltb 0 n then 0 else 1) (with_latest-count_live (map venue_status feeds) e.latest)
      ∙ ap (λ b. if b then 0 else 1) (count_live-any_live feeds),
  refl,
)
