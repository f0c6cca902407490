-- ===== src/Retry/Budget.antt =====
-- No more than the allowed number of events are granted in any window.
use home_assignment.Common.{
  ℕ, zero, suc, ◌+◌, ◌-◌, ◌≤◌, true, false, List, [], ◌∷◌, ◌++◌, ◌≡◌, refl, sym, subst, arith,
  if◌then◌else◌, ltb, leb, Bool-cases, inl, inr,
}
use home_assignment.Common.Lists.{length, All, All-mono, All-append, drop}
use home_assignment.Common.Int.{ℤ, ◌-ℤ◌, ◌≤ℤ◌, ◌<ℤ◌, ltb_ℤ, ltb_ℤ→lt, ltb_ℤ→ge, lt→ltb_ℤ, int_laws}
use home_assignment.Retry.{RateBudget, new_budget, drop_expired, try_consume}

-- The calls, each with its time: what is granted, the newest first.
unfoldable pub grants : RateBudget → List ℤ → List ℤ → List ℤ
unfolding try_consume
grants b log [] = log
grants b log (now ∷ times) =
    let (b', granted) = try_consume now b in grants b' (if granted then now ∷ log else log) times

-- Time does not go back.
abbrev pub Forward : ℤ → List ℤ → Type 0
Forward last [] = Unit
Forward last (now ∷ times) = (last ≤ℤ now) × Forward now times

-- Behind each event, all but the `limit - 1` before it are more than a window older.
abbrev pub IsLimited : ℕ → ℤ → List ℤ → Type 0
IsLimited limit window [] = Unit
IsLimited limit window (x ∷ log) =
    All (λ y. window <ℤ x -ℤ y) (drop (limit - 1) log) × IsLimited limit window log

abbrev reverse_onto : List ℤ → List ℤ → List ℤ
reverse_onto [] log = log
reverse_onto (x ∷ xs) log = reverse_onto xs (x ∷ log)

reverse_onto-snoc :
    (x : ℤ) (xs log : List ℤ) → reverse_onto (xs ++ x ∷ []) log ≡ x ∷ reverse_onto xs log
reverse_onto-snoc x [] log = refl
reverse_onto-snoc x (y ∷ xs) log = reverse_onto-snoc x xs (y ∷ log)

All-drop : (P : ℤ → Type 0) (k m : ℕ) (xs : List ℤ) → k ≤ m → All P (drop k xs) → All P (drop m xs)
All-drop P zero zero xs le h = h
All-drop P zero (suc m) [] le h = tt
All-drop P zero (suc m) (x ∷ xs) le h = All-drop P zero m xs (omega arith) h.1
All-drop P (suc k) zero xs le h = absurd (omega arith)
All-drop P (suc k) (suc m) [] le h = tt
All-drop P (suc k) (suc m) (x ∷ xs) le h = All-drop P k m xs (omega arith) h

All-drop-reverse_onto :
    (P : ℤ → Type 0) (xs log : List ℤ) (k m : ℕ)
    → length xs + k ≤ m
    → All P (drop k log)
    → All P (drop m (reverse_onto xs log))
All-drop-reverse_onto P [] log k m le h = All-drop P k m log (omega arith) h
All-drop-reverse_onto P (x ∷ xs) log k m le h =
    All-drop-reverse_onto P xs (x ∷ log) (suc k) m (omega arith) h

-- Events that have expired stay so.
expired_later :
    (window last now : ℤ) (log : List ℤ)
    → last ≤ℤ now
    → All (λ y. window <ℤ last -ℤ y) log
    → All (λ y. window <ℤ now -ℤ y) log
expired_later window last now log le =
    All-mono (λ y. window <ℤ last -ℤ y) (λ y. window <ℤ now -ℤ y) log
      (λ y lt. omega (int_laws, lt, le))

still_new :
    (window now x y : ℤ)
    → ltb_ℤ window (now -ℤ x) ≡ false
    → x ≤ℤ y
    → ltb_ℤ window (now -ℤ y) ≡ false
still_new window now x y new le = elim (Bool-cases (ltb_ℤ window (now -ℤ y))) [
  | inl old ↦
      absurd (omega (int_laws, ltb_ℤ→lt window (now -ℤ y) old, ltb_ℤ→ge window (now -ℤ x) new, le))
  | inr e ↦ e
]

-- The events that are dropped have expired.
drop_expired-lem :
    (window now : ℤ) (events expired : List ℤ)
    → All (λ y. window <ℤ now -ℤ y) expired
    → (more : List ℤ) × (reverse_onto events expired
        ≡ reverse_onto (drop_expired window now events) more)
      × All (λ y. window <ℤ now -ℤ y) more
unfolding drop_expired
drop_expired-lem window now [] expired h = (expired, refl, h)
drop_expired-lem window now (front ∷ events) expired h =
    elim (Bool-cases (ltb_ℤ window (now -ℤ front))) [
      | inl old ↦
          let (more, same, all) =
            drop_expired-lem window now events (front ∷ expired) (ltb_ℤ→lt _ _ old, h) in
          (more, rw (old, drop_expired) same, all)
      | inr new ↦ (expired, rw (new, drop_expired) refl, h)
    ]

grants-IsLimited :
    (limit : ℕ) (window : ℤ) (events expired : List ℤ) (last : ℤ) (times : List ℤ)
    → Forward last times
    → All (λ y. window <ℤ last -ℤ y) expired
    → IsLimited limit window (reverse_onto events expired)
    → IsLimited limit window (
        grants
          (record { max_events = limit; window = window; events = events })
          (reverse_onto events expired)
          times)
unfolding grants try_consume
grants-IsLimited limit window events expired last [] f old h = h
grants-IsLimited limit window events expired last (now ∷ times) f old h =
    let (more, same, all) =
      drop_expired-lem window now events expired (expired_later window last now expired f.0 old) in
    let kept = drop_expired window now events in
    let h' = subst (IsLimited limit window) same h in
    elim (Bool-cases (leb limit (length kept))) [
      | inl full ↦
          rw (full, grants, same) (grants-IsLimited limit window kept more now times f.1 all h')
      | inr room ↦
          let few : length kept + 0 ≤ limit - 1 = ground (arith, room) in
          let snoc = reverse_onto-snoc now kept more in
          let next = grants-IsLimited limit window (kept ++ now ∷ []) more now times f.1 all (
            subst (IsLimited limit window) (sym snoc) (
              All-drop-reverse_onto (λ y. window <ℤ now -ℤ y) kept more 0 (limit - 1) few all,
              h',
            )) in
          rw (room, grants, same) (rw (← snoc) next)
    ]

-- How many events of the log are no more than a window ago.
unfoldable pub recent : ℤ → ℤ → List ℤ → ℕ
recent window now [] = 0
recent window now (y ∷ log) =
    let rest = recent window now log in if ltb_ℤ window (now -ℤ y) then rest else suc rest

-- A limiter that looks at all that was ever granted.
unfoldable pub reference : ℕ → ℤ → List ℤ → List ℤ → List ℤ
unfolding recent
reference limit window log [] = log
reference limit window log (now ∷ times) =
    reference limit window (if ltb (recent window now log) limit then now ∷ log else log) times

-- The events ascend, up to a time.
abbrev RisesTo : ℤ → List ℤ → Type 0
RisesTo last [] = Unit
RisesTo last (x ∷ xs) = (x ≤ℤ last) × All (λ y. x ≤ℤ y) xs × RisesTo last xs

RisesTo-snoc :
    (last now : ℤ) (xs : List ℤ) → last ≤ℤ now → RisesTo last xs → RisesTo now (xs ++ now ∷ [])
RisesTo-snoc last now [] le h = (omega arith, tt, tt)
RisesTo-snoc last now (x ∷ xs) le h = (
  omega (arith, h.0),
  All-append (λ y. x ≤ℤ y) xs (now ∷ []) h.1 (omega (arith, h.0), tt),
  RisesTo-snoc last now xs le h.2,
)

RisesTo-mono : (last now : ℤ) (xs : List ℤ) → last ≤ℤ now → RisesTo last xs → RisesTo now xs
RisesTo-mono last now [] le h = tt
RisesTo-mono last now (x ∷ xs) le h = (omega (arith, h.0), h.1, RisesTo-mono last now xs le h.2)

-- What is left still ascends, and none of it has expired.
drop_expired-RisesTo :
    (window now last : ℤ) (events : List ℤ)
    → RisesTo last events
    → RisesTo last (drop_expired window now events)
      × All (λ y. ltb_ℤ window (now -ℤ y) ≡ false) (drop_expired window now events)
unfolding drop_expired
drop_expired-RisesTo window now last [] h = (tt, tt)
drop_expired-RisesTo window now last (x ∷ events) h = elim (Bool-cases (ltb_ℤ window (now -ℤ x))) [
  | inl old ↦ rw (old, drop_expired) (drop_expired-RisesTo window now last events h.2)
  | inr new ↦
      rw (new, drop_expired)
        (
          h,
          (
            new,
            All-mono (λ y. x ≤ℤ y) (λ y. ltb_ℤ window (now -ℤ y) ≡ false) events
                (λ y le. still_new window now x y new le) h.1,
          ),
        )
]

recent-expired :
    (window now : ℤ) (log : List ℤ) → All (λ y. window <ℤ now -ℤ y) log → recent window now log ≡ 0
unfolding recent
recent-expired window now [] h = refl
recent-expired window now (y ∷ log) h =
    rw (lt→ltb_ℤ window (now -ℤ y) h.0, recent) (recent-expired window now log h.1)

recent-reverse_onto :
    (window now : ℤ) (events log : List ℤ)
    → All (λ y. ltb_ℤ window (now -ℤ y) ≡ false) events
    → recent window now (reverse_onto events log) ≡ length events + recent window now log
recent-reverse_onto window now [] log h = omega arith
recent-reverse_onto window now (x ∷ events) log h =
    let more : recent window now (x ∷ log) ≡ suc (recent window now log) =
      unfold recent in rw (h.0) refl in
    omega (arith, recent-reverse_onto window now events (x ∷ log) h.1, more)

grants-reference :
    (limit : ℕ) (window : ℤ) (events expired : List ℤ) (last : ℤ) (times : List ℤ)
    → Forward last times
    → All (λ y. window <ℤ last -ℤ y) expired
    → RisesTo last events
    → grants
        (record { max_events = limit; window = window; events = events })
        (reverse_onto events expired)
        times
      ≡ reference limit window (reverse_onto events expired) times
unfolding grants try_consume reference
grants-reference limit window events expired last [] f old h = refl
grants-reference limit window events expired last (now ∷ times) f old h =
    let (more, same, all) =
      drop_expired-lem window now events expired (expired_later window last now expired f.0 old) in
    let kept = drop_expired window now events in
    let (rises, new) = drop_expired-RisesTo window now last events h in
    let count : recent window now (reverse_onto kept more) ≡ length kept =
      omega
        (arith, recent-reverse_onto window now kept more new, recent-expired window now more all) in
    elim (Bool-cases (leb limit (length kept))) [
      | inl full ↦
          let off : ltb (length kept) limit ≡ false = ground (arith, full) in
          rw (same, full, count, off, grants)
            (grants-reference limit window kept more now times f.1 all
              (RisesTo-mono last now kept f.0 rises))
      | inr room ↦
          let on : ltb (length kept) limit ≡ true = ground (arith, room) in
          let snoc = reverse_onto-snoc now kept more in
          rw (same, room, count, on, grants)
            (rw (← snoc) (
              grants-reference limit window (kept ++ now ∷ []) more now times f.1 all
                (RisesTo-snoc last now kept f.0 rises)))
    ]

-- For times that do not go back, the budget grants exactly what a limiter that keeps the whole log
-- grants, an event at a time when fewer than the limit lie within the window before it; and behind
-- each event granted, all but the `limit - 1` before it are more than a window older.
pub grants-IsLimited-reference :
    (limit : ℕ) (window start : ℤ) (times : List ℤ)
    → Forward start times
    → (grants (new_budget limit window) [] times ≡ reference limit window [] times)
      × IsLimited limit window (grants (new_budget limit window) [] times)
unfolding new_budget
grants-IsLimited-reference limit window start times f = (
  grants-reference limit window [] [] start times f tt tt,
  grants-IsLimited limit window [] [] start times f tt tt,
)
