-- ===== src/Client/Rendering/Names.antt =====
-- The names in a header are those that SplitCsv reads back.
use mathlib.Core.List.{append-nil, append_assoc}
use home_assignment.Common.{
  ℕ, false, List, [], ◌∷◌, ◌++◌, ◌≡◌, refl, sym, ap, ◌∙◌, ◌==◌, if◌then◌else◌,
}
use home_assignment.Common.Lists.{All}
use home_assignment.Common.Text.{codes}
use home_assignment.Fixed.{to_string}
use home_assignment.Flags.Clients.{split_csv, split_loop, push_item}
use home_assignment.Service.Messages.{SnapshotMeta, Touch}
use home_assignment.Client.Rendering.{
  Printing, header, header_start, stale_part, with_commas, drop_comma,
}

-- No byte of the text is a comma.
abbrev pub NoComma : List ℕ → Type 0
NoComma = All (λ c. (c == b',') ≡ false)

-- A name that SplitCsv can give.
abbrev pub IsName : List ℕ → Type 0
IsName [] = ⊥
IsName (c ∷ cs) = NoComma (c ∷ cs)

-- The names with a comma between each and the next.
abbrev pub join : List ℕ → List (List ℕ) → List ℕ
join name [] = name
join name (next ∷ names) = name ++ b',' ∷ join next names

with_commas-join :
    (name : List ℕ) (names : List (List ℕ))
    → with_commas (name ∷ names) ≡ join name names ++ b',' ∷ []
unfolding with_commas
with_commas-join name [] = append-nil (name ++ b',' ∷ [])
with_commas-join name (next ∷ names) =
    ap (λ t. (name ++ b',' ∷ []) ++ t) (with_commas-join next names)
    ∙ append_assoc name (b',' ∷ []) (join next names ++ b',' ∷ [])
    ∙ sym (append_assoc name (b',' ∷ join next names) (b',' ∷ []))

drop_comma-append : (xs : List ℕ) → drop_comma (xs ++ b',' ∷ []) ≡ xs
unfolding drop_comma
drop_comma-append [] = refl
drop_comma-append (x ∷ []) = refl
drop_comma-append (x ∷ y ∷ ys) = ap (λ zs. x ∷ zs) (drop_comma-append (y ∷ ys))

split_loop-item :
    (item xs rest : List ℕ)
    → NoComma xs
    → split_loop item (xs ++ b',' ∷ rest) ≡ push_item (item ++ xs) (split_loop [] rest)
split_loop-item item [] rest h =
    ap (λ it. push_item it (split_loop [] rest)) (sym (append-nil item))
split_loop-item item (x ∷ xs) rest h = rw (h.0) (
    split_loop-item (item ++ x ∷ []) xs rest h.1
    ∙ ap (λ it. push_item it (split_loop [] rest)) (append_assoc item (x ∷ []) xs))

push_item-IsName :
    (name : List ℕ) (names : List (List ℕ)) → IsName name → push_item name names ≡ name ∷ names
push_item-IsName [] names h = absurd h
push_item-IsName (c ∷ cs) names h = refl

IsName-NoComma : (name : List ℕ) → IsName name → NoComma name
IsName-NoComma [] h = absurd h
IsName-NoComma (c ∷ cs) h = h

split_csv-join :
    (name : List ℕ) (names : List (List ℕ))
    → All IsName (name ∷ names)
    → split_csv (join name names) ≡ name ∷ names
unfolding split_csv
split_csv-join name [] h =
    split_loop-item [] name [] (IsName-NoComma name h.0) ∙ push_item-IsName name [] h.0
split_csv-join name (next ∷ names) h =
    ap (split_loop []) (append_assoc name (b',' ∷ join next names) (b',' ∷ []))
    ∙ split_loop-item [] name (join next names ++ b',' ∷ []) (IsName-NoComma name h.0)
    ∙ ap (push_item name) (split_csv-join next names h.1)
    ∙ push_item-IsName name (next ∷ names) h.0

-- The names as a list with commas, which is empty for none.
abbrev pub list_text : List (List ℕ) → List ℕ
list_text [] = []
list_text (name ∷ names) = join name names

abbrev pub stale_text : List (List ℕ) → List ℕ
stale_text [] = []
stale_text (name ∷ names) = codes " stale=" ++ join name names

split_csv-list_text :
    (names : List (List ℕ)) → All IsName names → split_csv (list_text names) ≡ names
split_csv-list_text [] h = unfold split_csv in refl
split_csv-list_text (name ∷ names) h = split_csv-join name names h

stale_part-text : (names : List (List ℕ)) → stale_part names ≡ stale_text names
stale_part-text [] = refl
stale_part-text (name ∷ names) =
    ap (λ t. codes " stale=" ++ t)
      (ap drop_comma (with_commas-join name names) ∙ drop_comma-append (join name names))

-- Only the end of the text matters.
drop_comma-behind :
    (xs : List ℕ) (y : ℕ) (ys : List ℕ) → drop_comma (xs ++ y ∷ ys) ≡ xs ++ drop_comma (y ∷ ys)
unfolding drop_comma
drop_comma-behind [] y ys = refl
drop_comma-behind (x ∷ []) y ys = refl
drop_comma-behind (x ∷ z ∷ xs) y ys = ap (λ zs. x ∷ zs) (drop_comma-behind (z ∷ xs) y ys)

drop_comma-venues :
    (before : List ℕ) (names : List (List ℕ))
    → drop_comma (before ++ codes " venues=" ++ with_commas names)
      ≡ before ++ codes " venues=" ++ list_text names
unfolding drop_comma with_commas
drop_comma-venues before [] =
    ap drop_comma (append-nil (before ++ codes " venues="))
    ∙ drop_comma-behind before b' ' (codes "venues=")
    ∙ sym (append-nil (before ++ codes " venues="))
drop_comma-venues before (name ∷ names) =
    let start = before ++ codes " venues=" in
    ap (λ t. drop_comma (start ++ t)) (with_commas-join name names)
    ∙ ap drop_comma (sym (append_assoc start (join name names) (b',' ∷ [])))
    ∙ drop_comma-append (start ++ join name names)

-- The header is, one behind the other: the sequence, the wall time, ` CROSSED` exactly if the touch
-- is crossed, the stale venues exactly if there are any, and the contributing venues, both as names
-- with a comma between each and the next and none at the end. If no name is empty or has a comma,
-- the clients' SplitCsv reads both lists back as these venues, in their order.
pub header-split_csv :
    (print : Printing) (meta : SnapshotMeta) (touch : Touch)
    → All IsName meta.contributing_venues
    → All IsName meta.stale_venues
    → (header print meta touch
        ≡ codes "seq="
          ++ to_string 20 meta.sequence []
          ++ codes " "
          ++ print.format_wall meta.publish_ts_ns
          ++ (if touch.crossed then codes " CROSSED" else [])
          ++ stale_text meta.stale_venues
          ++ codes " venues="
          ++ list_text meta.contributing_venues)
      × (split_csv (list_text meta.contributing_venues) ≡ meta.contributing_venues)
      × (split_csv (list_text meta.stale_venues) ≡ meta.stale_venues)
unfolding header header_start
header-split_csv print meta touch h k =
    let start =
      codes "seq="
      ++ to_string 20 meta.sequence []
      ++ codes " "
      ++ print.format_wall meta.publish_ts_ns
      ++ (if touch.crossed then codes " CROSSED" else []) in
    (
      drop_comma-venues (start ++ stale_part meta.stale_venues) meta.contributing_venues
          ∙ ap (λ t. start ++ t ++ codes " venues=" ++ list_text meta.contributing_venues)
              (stale_part-text meta.stale_venues),
      split_csv-list_text meta.contributing_venues h,
      split_csv-list_text meta.stale_venues k,
    )
