-- ===== src/Url.antt =====
-- src/net/url.h and src/net/url.cc: the parser of web addresses. A text is the list of its bytes;
-- `none` is the result false, for which the caller does not read `out`.
pub mod Print
use home_assignment.Common.{
  ℕ, Bool, true, false, ◌&&◌, List, [], ◌∷◌, ◌++◌, Option, none, some, if◌then◌else◌, ◌==◌,
}
use home_assignment.Common.Text.{codes}

-- A row of kSchemes.
pub record Scheme : Type 0 where
  pub prefix : List ℕ
  pub name : List ℕ
  pub secure : Bool
  pub default_port : List ℕ

abbrev pub wss : Scheme
wss = record {
  prefix = codes "wss://";
  name = codes "wss";
  secure = true;
  default_port = codes "443";
}

abbrev pub ws : Scheme
ws = record { prefix = codes "ws://"; name = codes "ws"; secure = false; default_port = codes "80" }

abbrev pub https : Scheme
https = record {
  prefix = codes "https://";
  name = codes "https";
  secure = true;
  default_port = codes "443";
}

abbrev pub http : Scheme
http = record {
  prefix = codes "http://";
  name = codes "http";
  secure = false;
  default_port = codes "80";
}

abbrev pub schemes : List Scheme
schemes = wss ∷ ws ∷ https ∷ http ∷ []

pub record Url : Type 0 where
  pub secure : Bool
  pub scheme : List ℕ
  pub host : List ℕ
  pub port : List ℕ
  pub target : List ℕ

-- `starts_with` and `remove_prefix`: what is left of the text behind the prefix.
unfoldable pub strip_prefix : List ℕ → List ℕ → Option (List ℕ)
strip_prefix [] text = some text
strip_prefix (p ∷ ps) [] = none
strip_prefix (p ∷ ps) (c ∷ cs) = if p == c then strip_prefix ps cs else none

abbrev first_scheme : Scheme → Option (List ℕ) → Option (Scheme × List ℕ) → Option (Scheme × List ℕ)
first_scheme candidate none rest = rest
first_scheme candidate (some url) rest = some (candidate, url)

-- The loop over the schemes.
unfoldable pub find_scheme : List Scheme → List ℕ → Option (Scheme × List ℕ)
unfolding strip_prefix
find_scheme [] url = none
find_scheme (candidate ∷ candidates) url =
    first_scheme candidate (strip_prefix candidate.prefix url) (find_scheme candidates url)

abbrev cons_first : ℕ → List ℕ × List ℕ → List ℕ × List ℕ
cons_first c (before, from) = (c ∷ before, from)

-- `find`: the text before the first such byte, and the text from it on, empty if there is none.
unfoldable pub cut_at : ℕ → List ℕ → List ℕ × List ℕ
cut_at c [] = ([], [])
cut_at c (x ∷ xs) = if x == c then ([], x ∷ xs) else cons_first x (cut_at c xs)

abbrev extend : ℕ → ℕ → List ℕ → Option (List ℕ × List ℕ) → Option (List ℕ × List ℕ)
extend c x xs (some (upto, after)) = some (x ∷ upto, after)
extend c x xs none = if x == c then some (x ∷ [], xs) else none

-- `rfind`: the text up to the last such byte, with it, and the text behind it.
unfoldable pub cut_after_last : ℕ → List ℕ → Option (List ℕ × List ℕ)
cut_after_last c [] = none
cut_after_last c (x ∷ xs) = extend c x xs (cut_after_last c xs)

-- What stands before `search_from`, and what is searched for the colon.
abbrev search_from : List ℕ → Option (List ℕ × List ℕ) → List ℕ × List ℕ
search_from authority none = ([], authority)
search_from authority (some cut) = cut

-- The text without its last byte, if that is the one given.
unfoldable pub strip_last : ℕ → List ℕ → Option (List ℕ)
strip_last c [] = none
strip_last c (x ∷ []) = if x == c then some [] else none
strip_last c (x ∷ y ∷ ys) = elim (strip_last c (y ∷ ys)) [ none ↦ none | some zs ↦ some (x ∷ zs) ]

abbrev or_else : List ℕ → Option (List ℕ) → List ℕ
or_else text none = text
or_else text (some inner) = inner

-- The brackets of an IPv6 address are taken away, where the host has both.
unfoldable pub strip_brackets : List ℕ → List ℕ
unfolding strip_last
strip_brackets [] = []
strip_brackets (c ∷ cs) = if c == b'[' then or_else (c ∷ cs) (strip_last b']' cs) else c ∷ cs

abbrev pub target_of : List ℕ → List ℕ
target_of [] = codes "/"
target_of (c ∷ cs) = c ∷ cs

-- The checks of the host and the result.
abbrev with_host : Scheme → List ℕ → List ℕ → List ℕ → Option Url
with_host scheme [] port target = none
with_host scheme (c ∷ cs) port target = some (record {
  secure = scheme.secure;
  scheme = scheme.name;
  host = c ∷ cs;
  port = port;
  target = target;
})

-- Host and port: `before` stands before the search, then what is before the colon, and from it on.
unfoldable pub with_colon : Scheme → List ℕ → List ℕ → List ℕ × List ℕ → Option Url
unfolding strip_brackets
with_colon scheme target before (host, []) =
    with_host scheme (strip_brackets (before ++ host)) scheme.default_port target
with_colon scheme target before (host, colon ∷ []) = none
with_colon scheme target before (host, colon ∷ p ∷ port) =
    with_host scheme (strip_brackets (before ++ host)) (p ∷ port) target

unfoldable pub with_authority : Scheme → List ℕ → List ℕ → Option Url
unfolding cut_after_last cut_at with_colon
with_authority scheme [] target = none
with_authority scheme (c ∷ cs) target =
    let (before, searched) = search_from (c ∷ cs) (cut_after_last b']' (c ∷ cs)) in
    with_colon scheme target before (cut_at b':' searched)

abbrev with_scheme : Option (Scheme × List ℕ) → Option Url
with_scheme none = none
with_scheme (some (scheme, url)) =
    let (authority, rest) = cut_at b'/' url in with_authority scheme authority (target_of rest)

unfoldable pub parse_url : List ℕ → Option Url
unfolding find_scheme cut_at with_authority
parse_url url = with_scheme (find_scheme schemes url)
