-- ===== src/Service/Stream.antt =====
-- The books that a stream sends.
use home_assignment.Common.{
  ℕ, ◌<◌, ◌≤◌, Bool, true, false, List, [], ◌∷◌, ◌≡◌, refl, sym, subst, ◌⊎◌, inl, inr, Option, none,
  some, Bool-cases, arith, leb,
}
use home_assignment.Common.Int.{ℤ, pos, ◌-ℤ◌, ◌≤ℤ◌, ltb_ℤ, ltb_ℤ→ge}
use home_assignment.Engine.{ConsolidatedBook}
use home_assignment.Service.{
  Sending, Wait, too_soon, on_book, on_wait, begin_stream, stream_loop, run_stream,
}

-- Each book was published after the one sent before it, and with an interval it was sent at least
-- that long after it. The newest stands first.
abbrev pub IsPaced : ℤ → List (ConsolidatedBook × ℤ) → Type 0
IsPaced interval [] = Unit
IsPaced interval (x ∷ []) = Unit
IsPaced interval (x ∷ y ∷ sent) =
    (y.0.sequence < x.0.sequence)
    × ((interval ≤ℤ pos 0) ⊎ (interval ≤ℤ x.1 -ℤ y.1))
    × IsPaced interval (y ∷ sent)

-- The loop's state remembers the newest book sent, and with an interval its time.
abbrev Remembers : ℤ → ℕ → Option ℤ → List (ConsolidatedBook × ℤ) → Type 0
Remembers interval last_sequence last_sent [] = Unit
Remembers interval last_sequence last_sent (x ∷ sent) =
    (x.0.sequence ≤ last_sequence)
    × ((interval ≤ℤ pos 0) ⊎ (last_sent ≡ some x.1))
    × IsPaced interval (x ∷ sent)

Remembers-IsPaced :
    (i : ℤ) (n : ℕ) (t : Option ℤ) (sent : List (ConsolidatedBook × ℤ))
    → Remembers i n t sent
    → IsPaced i sent
Remembers-IsPaced i n t [] h = tt
Remembers-IsPaced i n t (x ∷ sent) h = h.2

Remembers-mono :
    (i : ℤ) (n m : ℕ) (t : Option ℤ) (sent : List (ConsolidatedBook × ℤ))
    → n ≤ m
    → Remembers i n t sent
    → Remembers i m t sent
Remembers-mono i n m t [] le h = tt
Remembers-mono i n m t (x ∷ sent) le h = (omega (arith, h.0), h.1, h.2)

-- A book that is neither old nor too soon, sent.
push_sent :
    (i : ℤ) (n : ℕ) (t t' : Option ℤ) (book : ConsolidatedBook) (now : ℤ)
    (sent : List (ConsolidatedBook × ℤ))
    → n < book.sequence
    → ((i ≤ℤ pos 0) ⊎ ((too_soon i t now ≡ false) × (t' ≡ some now)))
    → Remembers i n t sent
    → Remembers i book.sequence t' ((book, now) ∷ sent)
push_sent i n t t' book now [] lt (inl free) h = (omega arith, inl free, tt)
push_sent i n t t' book now [] lt (inr (late, same)) h = (omega arith, inr same, tt)
push_sent i n t t' book now (x ∷ sent) lt (inl free) h =
    (omega arith, inl free, (omega (arith, h.0), inl free, h.2))
push_sent i n t t' book now (x ∷ sent) lt (inr (late, same)) (le, inl free, paced) =
    (omega arith, inr same, (omega (arith, le), inl free, paced))
push_sent i n t t' book now (x ∷ sent) lt (inr (late, same)) (le, inr at, paced) =
    let gap : ltb_ℤ (now -ℤ x.1) i ≡ false = unfold too_soon in rw at at late in
    (omega arith, inr same, (omega (arith, le), inr (ltb_ℤ→ge _ _ gap), paced))

-- The loop goes on and remembers, or it has sent nothing more.
abbrev Continues : ℤ → Sending → Sending × Bool → Type 0
Continues i s (after, going) =
    ((going ≡ true) × Remembers i after.last_sequence after.last_sent after.sent)
    ⊎ ((going ≡ false) × (after.sent ≡ s.sent))

on_book-Continues :
    (i : ℤ) (s : Sending) (book : ConsolidatedBook) (now : ℤ) (writes : Bool)
    → Remembers i s.last_sequence s.last_sent s.sent
    → Continues i s (on_book i s book now writes)
unfolding on_book
on_book-Continues i s book now writes h = elim (Bool-cases (leb book.sequence s.last_sequence)) [
  | inl old ↦ rw old (inl (refl, h))
  | inr newer ↦
      let lt : s.last_sequence < book.sequence = ground (arith, newer) in
      elim (Bool-cases (ltb_ℤ (pos 0) i)) [
        | inl limited ↦ elim (Bool-cases (too_soon i s.last_sent now)) [
          | inl soon ↦
              rw (newer, limited, soon)
                (inl (
                  refl,
                  Remembers-mono i s.last_sequence book.sequence s.last_sent s.sent (omega arith) h,
                ))
          | inr late ↦ elim (Bool-cases writes) [
            | inl good ↦
                rw (newer, limited, late, good)
                  (inl (
                    refl,
                    push_sent i s.last_sequence s.last_sent (some now) book now s.sent lt
                        (inr (late, refl)) h,
                  ))
            | inr bad ↦ rw (newer, limited, late, bad) (inr (refl, refl))
          ]
        ]
        | inr free ↦
            let none_needed : i ≤ℤ pos 0 = ltb_ℤ→ge (pos 0) i free in
            elim (Bool-cases writes) [
              | inl good ↦
                  rw (newer, free, good)
                    (inl (
                      refl,
                      push_sent i s.last_sequence s.last_sent s.last_sent book now s.sent lt
                          (inl none_needed) h,
                    ))
              | inr bad ↦ rw (newer, free, bad) (inr (refl, refl))
            ]
      ]
]

on_wait-Continues :
    (i : ℤ) (s : Sending) (w : Wait) (book : Option ConsolidatedBook)
    → Remembers i s.last_sequence s.last_sent s.sent
    → Continues i s (on_wait i s w book)
on_wait-Continues i s w none h = inl (refl, h)
on_wait-Continues i s w (some book) h = on_book-Continues i s book w.now w.writes h

stream_loop-IsPaced :
    (i : ℤ) (s : Sending) (waits : List Wait)
    → Remembers i s.last_sequence s.last_sent s.sent
    → IsPaced i (stream_loop i s waits).sent
unfolding stream_loop
stream_loop-IsPaced i s [] h = Remembers-IsPaced i s.last_sequence s.last_sent s.sent h
stream_loop-IsPaced i s (w ∷ ws) h =
    let so_far = Remembers-IsPaced i s.last_sequence s.last_sent s.sent h in
    elim (Bool-cases w.stopped) [
      | inl stopped ↦ rw stopped so_far
      | inr waiting ↦ elim (on_wait-Continues i s w w.book h) [
        | inl (going, left) ↦
            rw (waiting, going) (stream_loop-IsPaced i (on_wait i s w w.book).0 ws left)
        | inr (over, same) ↦ rw (waiting, over) (subst (IsPaced i) (sym same) so_far)
      ]
    ]

-- Whatever comes from the slot and whenever it comes, the books that a stream sends are in the order
-- of their sequence numbers, none twice, and with a minimum interval each is sent at least that
-- long after the one before it.
pub run_stream-IsPaced :
    (interval : ℤ) (latest : Option ConsolidatedBook) (now : ℤ) (writes : Bool) (waits : List Wait)
    → IsPaced interval (run_stream interval latest now writes waits)
unfolding run_stream begin_stream
run_stream-IsPaced i none now writes waits = stream_loop-IsPaced i _ waits tt
run_stream-IsPaced i (some book) now true waits =
    stream_loop-IsPaced i _ waits (omega arith, inr refl, tt)
run_stream-IsPaced i (some book) now false waits = tt
