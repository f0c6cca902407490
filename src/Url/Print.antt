-- ===== src/Url/Print.antt =====
-- Addresses as they are written, and that the parser reads them back.
use mathlib.Core.List.{append_assoc, append-nil}
use home_assignment.Common.{
  ℕ, Bool, true, false, List, [], ◌∷◌, ◌++◌, ◌≡◌, ◌⊎◌, refl, ap, ◌∙◌, Option, none, some, ◌==◌,
  Bool-cases, inl, inr, arith,
}
use home_assignment.Common.Lists.{All, All-append}
use home_assignment.Common.Text.{codes}
use home_assignment.Url.{
  Scheme, Url, schemes, wss, ws, https, http, target_of, cut_at, cut_after_last, strip_last,
  strip_brackets, with_colon, with_authority, find_scheme, parse_url,
}

-- An address of one of the schemes; a host that is an IPv6 address is written in brackets.
pub record Address : Type 0 where
  pub scheme : Scheme
  pub bracketed : Bool
  pub host : List ℕ
  pub port : Option (List ℕ)
  pub target : Option (List ℕ)

abbrev pub print_host : Bool → List ℕ → List ℕ
print_host true host = b'[' ∷ host ++ b']' ∷ []
print_host false host = host

abbrev pub print_port : Option (List ℕ) → List ℕ
print_port none = []
print_port (some port) = b':' ∷ port

abbrev pub print_target : Option (List ℕ) → List ℕ
print_target none = []
print_target (some path) = b'/' ∷ path

abbrev pub print_url : Address → List ℕ
print_url a =
    a.scheme.prefix ++ (print_host a.bracketed a.host ++ print_port a.port ++ print_target a.target)

-- What the parser should make of it.
abbrev pub port_of : Scheme → Option (List ℕ) → List ℕ
port_of scheme none = scheme.default_port
port_of scheme (some port) = port

abbrev pub path_of : Option (List ℕ) → List ℕ
path_of none = codes "/"
path_of (some path) = b'/' ∷ path

abbrev pub url_of : Address → Url
url_of a = record {
  secure = a.scheme.secure;
  scheme = a.scheme.name;
  host = a.host;
  port = port_of a.scheme a.port;
  target = path_of a.target;
}

-- The byte does not occur.
abbrev pub Without : ℕ → List ℕ → Type 0
Without c = All (λ x. (x == c) ≡ false)

abbrev pub IsPort : Option (List ℕ) → Type 0
IsPort none = Unit
IsPort (some []) = ⊥
IsPort (some (p ∷ port)) = Without b'/' (p ∷ port) × Without b']' (p ∷ port)

-- Colons may stand only in a bracketed host.
abbrev pub IsHost : Bool → List ℕ → Type 0
IsHost bracketed [] = ⊥
IsHost true (c ∷ cs) = Without b'/' (c ∷ cs) × Without b']' (c ∷ cs)
IsHost false (c ∷ cs) = Without b'/' (c ∷ cs) × Without b']' (c ∷ cs) × Without b':' (c ∷ cs)

pub cut_at-none : (c : ℕ) (xs : List ℕ) → Without c xs → cut_at c xs ≡ (xs, [])
unfolding cut_at
cut_at-none c [] h = refl
cut_at-none c (x ∷ xs) h = rw (h.0, cut_at-none c xs h.1) refl

pub cut_at-some : (c : ℕ) (xs ys : List ℕ) → Without c xs → cut_at c (xs ++ c ∷ ys) ≡ (xs, c ∷ ys)
unfolding cut_at
cut_at-some c [] ys h = let e : (c == c) ≡ true = ground arith in rw e refl
cut_at-some c (x ∷ xs) ys h = rw (h.0, cut_at-some c xs ys h.1) refl

cut_after_last-none : (c : ℕ) (xs : List ℕ) → Without c xs → cut_after_last c xs ≡ none
unfolding cut_after_last
cut_after_last-none c [] h = refl
cut_after_last-none c (x ∷ xs) h = rw (cut_after_last-none c xs h.1, h.0) refl

cut_after_last-some :
    (c : ℕ) (xs ys : List ℕ)
    → Without c ys
    → cut_after_last c (xs ++ c ∷ ys) ≡ some (xs ++ c ∷ [], ys)
unfolding cut_after_last
cut_after_last-some c [] ys h =
    let e : (c == c) ≡ true = ground arith in rw (cut_after_last-none c ys h, e) refl
cut_after_last-some c (x ∷ xs) ys h = rw (cut_after_last-some c xs ys h) refl

strip_last-snoc : (c : ℕ) (xs : List ℕ) → strip_last c (xs ++ c ∷ []) ≡ some xs
unfolding strip_last
strip_last-snoc c [] = let e : (c == c) ≡ true = ground arith in rw e refl
strip_last-snoc c (x ∷ []) = let e : (c == c) ≡ true = ground arith in rw (e, strip_last) refl
strip_last-snoc c (x ∷ y ∷ ys) = rw (strip_last-snoc c (y ∷ ys)) refl

strip_last-none : (c : ℕ) (xs : List ℕ) → Without c xs → strip_last c xs ≡ none
unfolding strip_last
strip_last-none c [] h = refl
strip_last-none c (x ∷ []) h = rw (h.0) refl
strip_last-none c (x ∷ y ∷ ys) h = rw (strip_last-none c (y ∷ ys) h.1) refl

strip_brackets-bracketed : (host : List ℕ) → strip_brackets (b'[' ∷ host ++ b']' ∷ []) ≡ host
unfolding strip_brackets
strip_brackets-bracketed host = rw (strip_last-snoc b']' host) refl

strip_brackets-plain : (host : List ℕ) → Without b']' host → strip_brackets host ≡ host
unfolding strip_brackets
strip_brackets-plain [] h = refl
strip_brackets-plain (c ∷ cs) h = elim (Bool-cases (c == b'[')) [
  | inl opens ↦ rw (opens, strip_last-none b']' cs h.1) refl
  | inr other ↦ rw other refl
]

with_colon-port :
    (scheme : Scheme) (target before host : List ℕ) (port : Option (List ℕ)) (c : ℕ) (cs : List ℕ)
    → IsPort port
    → strip_brackets (before ++ host) ≡ c ∷ cs
    → with_colon scheme target before (host, print_port port)
      ≡ some (record {
        secure = scheme.secure;
        scheme = scheme.name;
        host = c ∷ cs;
        port = port_of scheme port;
        target = target;
      })
unfolding with_colon
with_colon-port scheme target before host none c cs p e = rw e refl
with_colon-port scheme target before host (some []) c cs p e = absurd p
with_colon-port scheme target before host (some (x ∷ port)) c cs p e = rw e refl

Without-port :
    (port : Option (List ℕ))
    → IsPort port
    → Without b'/' (print_port port) × Without b']' (print_port port)
Without-port none p = (tt, tt)
Without-port (some []) p = absurd p
Without-port (some (x ∷ port)) p = ((refl, p.0), (refl, p.1))

cut_at-colon :
    (host : List ℕ) (port : Option (List ℕ))
    → Without b':' host
    → cut_at b':' (host ++ print_port port) ≡ (host, print_port port)
cut_at-colon host none h = rw append-nil (cut_at-none b':' host h)
cut_at-colon host (some port) h = cut_at-some b':' host port h

with_authority-print :
    (scheme : Scheme) (bracketed : Bool) (host : List ℕ) (port : Option (List ℕ)) (target : List ℕ)
    → IsHost bracketed host
    → IsPort port
    → with_authority scheme (print_host bracketed host ++ print_port port) target
      ≡ some (record {
        secure = scheme.secure;
        scheme = scheme.name;
        host = host;
        port = port_of scheme port;
        target = target;
      })
unfolding with_authority
with_authority-print scheme bracketed [] port target h p = absurd h
with_authority-print scheme true (c ∷ cs) port target h p =
    let shape : (b'[' ∷ c ∷ cs ++ b']' ∷ []) ++ print_port port
        ≡ (b'[' ∷ c ∷ cs) ++ b']' ∷ print_port port =
      append_assoc (b'[' ∷ c ∷ cs) (b']' ∷ []) (print_port port) in
    let cut =
      ap (cut_after_last b']') shape
      ∙ cut_after_last-some b']' (b'[' ∷ c ∷ cs) (print_port port) (Without-port port p).1 in
    rw (cut, cut_at-colon [] port tt)
      (with_colon-port scheme target (b'[' ∷ c ∷ cs ++ b']' ∷ []) [] port c cs p (
        ap strip_brackets (append-nil (b'[' ∷ c ∷ cs ++ b']' ∷ []))
        ∙ strip_brackets-bracketed (c ∷ cs)))
with_authority-print scheme false (c ∷ cs) port target h p =
    let none_ = cut_after_last-none b']' (c ∷ cs ++ print_port port) (
      All-append (λ x. (x == b']') ≡ false) (c ∷ cs) (print_port port) h.1
        (Without-port port p).1) in
    rw (none_, cut_at-colon (c ∷ cs) port h.2)
      (with_colon-port scheme target [] (c ∷ cs) port c cs p (strip_brackets-plain (c ∷ cs) h.1))

-- One of the schemes that the parser knows.
abbrev pub IsKnown : Scheme → Type 0
IsKnown s = (s ≡ wss) ⊎ (s ≡ ws) ⊎ (s ≡ https) ⊎ (s ≡ http)

find_scheme-prefix :
    (s : Scheme) (rest : List ℕ)
    → IsKnown s
    → find_scheme schemes (s.prefix ++ rest) ≡ some (s, rest)
unfolding find_scheme
find_scheme-prefix s rest (inl e) = rw e refl
find_scheme-prefix s rest (inr (inl e)) = rw e refl
find_scheme-prefix s rest (inr (inr (inl e))) = rw e refl
find_scheme-prefix s rest (inr (inr (inr e))) = rw e refl

cut_at-target :
    (authority : List ℕ) (target : Option (List ℕ))
    → Without b'/' authority
    → cut_at b'/' (authority ++ print_target target) ≡ (authority, print_target target)
cut_at-target authority none h = rw append-nil (cut_at-none b'/' authority h)
cut_at-target authority (some path) h = cut_at-some b'/' authority path h

Without-host :
    (bracketed : Bool) (host : List ℕ)
    → IsHost bracketed host
    → Without b'/' (print_host bracketed host)
Without-host bracketed [] h = absurd h
Without-host true (c ∷ cs) h =
    (refl, All-append (λ x. (x == b'/') ≡ false) (c ∷ cs) (b']' ∷ []) h.0 (refl, tt))
Without-host false (c ∷ cs) h = h.0

target_of-print : (target : Option (List ℕ)) → target_of (print_target target) ≡ path_of target
target_of-print none = refl
target_of-print (some path) = refl

-- Every address of a known scheme, whose host is not empty and without slashes and closing brackets,
-- and without colons unless it is bracketed, and whose port, if it is written, is not empty and
-- without slashes and closing brackets, is read back as it was written: the brackets are taken off,
-- a port that is not written is the scheme's, and a target that is not written is the root.
pub parse_url-print_url :
    (a : Address)
    → IsKnown a.scheme
    → IsHost a.bracketed a.host
    → IsPort a.port
    → parse_url (print_url a) ≡ some (url_of a)
unfolding parse_url
parse_url-print_url a known host port =
    let authority = print_host a.bracketed a.host ++ print_port a.port in
    let without =
      All-append (λ x. (x == b'/') ≡ false) (print_host a.bracketed a.host) (print_port a.port)
        (Without-host a.bracketed a.host host) (Without-port a.port port).0 in
    rw
      (
        find_scheme-prefix a.scheme (authority ++ print_target a.target) known,
        cut_at-target authority a.target without,
        target_of-print a.target,
      )
      (with_authority-print a.scheme a.bracketed a.host a.port (path_of a.target) host port)
