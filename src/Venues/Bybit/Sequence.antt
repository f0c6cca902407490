-- ===== src/Venues/Bybit/Sequence.antt =====
-- The sequence rules of the Bybit protocol.
use home_assignment.Common.{
  ℕ, Bool, true, false, List, [], ◌∷◌, ap, ◌≡◌, refl, ◌∙◌, ◌⊎◌, Option, none, some, Bool-cases, inl,
  inr, arith,
}
use home_assignment.Common.Int.{ℤ, pos, ◌+ℤ◌, eq_ℤ, eq_ℤ→eq, eq_ℤ_refl}
use home_assignment.Common.Text.{codes, text_eq, text_eq→eq, text_eq_refl}
use home_assignment.Book.{Level}
use home_assignment.Json.{Json, get_string, get_i64, parse_level_array, ◌>>=◌}
use home_assignment.Json.Levels.{>>=-eq-some}
use home_assignment.Venues.{FeedUpdate, FrameVerdict, ok, parse_error, Outcome, stop, ms_to_ns}
use home_assignment.Venues.Bybit.{
  State, on_update, update_of, numbered_frame, body_frame, typed_frame, acknowledgement,
  topic_frame, parsed_frame, on_frame,
}

-- What becomes of the stream: it stays where it was and nothing is appended, or it moves to a
-- number and exactly one update goes out, both as `P` says.
abbrev Moves {ℓ} : State → (ℤ → FeedUpdate → Type ℓ) → Outcome State → Type ℓ
Moves s P o =
    ((o.out ≡ []) × (o.state.last_update_id ≡ s.last_update_id) × (o.state.synced ≡ s.synced))
    ⊎ ((id : ℤ) × (u : FeedUpdate) × P id u
        × (o.verdict ≡ ok)
        × (o.out ≡ u ∷ [])
        × (o.state ≡ record s { last_update_id = id; synced = true }))

Moves-mono :
    (s : State) (P Q : ℤ → FeedUpdate → Type 0) (o : Outcome State)
    → ((id : ℤ) (u : FeedUpdate) → P id u → Q id u)
    → Moves s P o
    → Moves s Q o
Moves-mono s P Q o f (inl idle) = inl idle
Moves-mono s P Q o f (inr (id, u, p, accepted, out, state)) =
    inr (id, u, f id u p, accepted, out, state)

-- A snapshot continues any stream, a delta only a synced one whose number is one less.
abbrev Continues : State → Bool → ℤ → Type 0
Continues s true id = Unit
Continues s false id = (s.synced ≡ true) × (id ≡ s.last_update_id +ℤ pos 1)

abbrev kind_text : Bool → List ℕ
kind_text true = codes "snapshot"
kind_text false = codes "delta"

on_update-Moves :
    (s : State) (id : ℤ) (is_snapshot : Bool) (u : Option FeedUpdate)
    → Moves s
        (λ number v. (number ≡ id) × (u ≡ some v) × Continues s is_snapshot id)
        (on_update s id u is_snapshot)
unfolding on_update
on_update-Moves s id is_snapshot none = inl (ground arith, ground arith, ground arith)
on_update-Moves s id true (some u) = inr (id, u, (refl, refl, tt), refl, refl, refl)
on_update-Moves s id false (some u) = elim (Bool-cases s.synced) [
  | inr out_of_sync ↦ inl (ground arith, ground arith, ground arith)
  | inl synced ↦ elim (Bool-cases (eq_ℤ id (s.last_update_id +ℤ pos 1))) [
    | inr gap ↦ inl (ground arith, ground arith, ground arith)
    | inl next ↦ inr (
      id,
      u,
      (refl, refl, (synced, eq_ℤ→eq id (s.last_update_id +ℤ pos 1) next)),
      ground arith,
      ground arith,
      rw (synced, next) refl,
    )
  ]
]

-- In the other direction, an update that continues the stream is taken.
on_update-continued :
    (s : State) (id : ℤ) (is_snapshot : Bool) (u : FeedUpdate)
    → Continues s is_snapshot id
    → on_update s id (some u) is_snapshot ≡ record {
      verdict = ok;
      state = record s { last_update_id = id; synced = true };
      out = u ∷ [];
    }
unfolding on_update
on_update-continued s id true u h = refl
on_update-continued s id false u (synced, next) =
    rw (synced, next, eq_ℤ_refl (s.last_update_id +ℤ pos 1)) refl

module _ (json : Json) (topic : List ℕ) where
  open json use {Element, parse, at_key, bool_of}

  -- The number and the levels of a frame's body.
  abbrev Holds : State → ℤ → Element → Bool → Element → ℤ → FeedUpdate → Type 0
  Holds s recv root is_snapshot body id u =
      (bids : List Level) × (asks : List Level) × (get_i64 json (at_key body (codes "u")) ≡ some id)
      × (parse_level_array json (at_key body (codes "b")) ≡ some bids)
      × (parse_level_array json (at_key body (codes "a")) ≡ some asks)
      × (u ≡ record {
        is_snapshot = is_snapshot;
        bids = bids;
        asks = asks;
        exchange_ts_ns = ms_to_ns (get_i64 json (at_key root (codes "ts")));
        recv_ts_ns = recv;
      })
      × Continues s is_snapshot id

  abbrev HoldsTyped : State → ℤ → Element → ℤ → FeedUpdate → Type 0
  HoldsTyped s recv root id u =
      (is_snapshot : Bool) × (body : Element) × (get_string json (at_key root (codes "type"))
        ≡ some (kind_text is_snapshot))
      × (at_key root (codes "data") ≡ some body)
      × Holds s recv root is_snapshot body id u

  -- A frame of the topic that is a snapshot or a delta with the number and exactly the levels of
  -- the update, and continues the stream.
  abbrev pub InSequence : State → List ℕ → ℤ → ℤ → FeedUpdate → Type 0
  InSequence s frame recv id u =
      (root : Element) × (parse frame ≡ some root)
      × (get_string json (at_key root (codes "topic")) ≡ some topic)
      × HoldsTyped s recv root id u

  idle :
      (s t : State) (v : FrameVerdict) (P : ℤ → FeedUpdate → Type 0)
      → t.last_update_id ≡ s.last_update_id
      → t.synced ≡ s.synced
      → Moves s P (stop v t)
  idle s t v P p q = inl (refl, p, q)

  numbered_frame-Moves :
      (s : State) (recv : ℤ) (is_snapshot : Bool) (root body : Element) (id : Option ℤ)
      → get_i64 json (at_key body (codes "u")) ≡ id
      → Moves s
          (Holds s recv root is_snapshot body)
          (numbered_frame json topic s recv is_snapshot root body id)
  unfolding update_of
  numbered_frame-Moves s recv is_snapshot root body none e =
      idle s s parse_error (Holds s recv root is_snapshot body) refl refl
  numbered_frame-Moves s recv is_snapshot root body (some id) e =
      Moves-mono s
        (λ number v.
          (number ≡ id)
          × (update_of json topic is_snapshot recv root body ≡ some v)
          × Continues s is_snapshot id)
        (Holds s recv root is_snapshot body) _ holds
        (on_update-Moves s id is_snapshot (update_of json topic is_snapshot recv root body))
    where
      holds :
          (number : ℤ) (v : FeedUpdate)
          → (number ≡ id)
            × (update_of json topic is_snapshot recv root body ≡ some v)
            × Continues s is_snapshot id
          → Holds s recv root is_snapshot body number v
      holds number v (same, is_update, next) =
          let (bids, p, e1) =
            >>=-eq-some (parse_level_array json (at_key body (codes "b"))) _ is_update in
          let (asks, q, e2) = >>=-eq-some (parse_level_array json (at_key body (codes "a"))) _ e1 in
          rw same (bids, asks, e, p, q, cc, next)

  body_frame-Moves :
      (s : State) (recv : ℤ) (is_snapshot : Bool) (root : Element) (data_ : Option Element)
      → get_string json (at_key root (codes "type")) ≡ some (kind_text is_snapshot)
      → at_key root (codes "data") ≡ data_
      → Moves s (HoldsTyped s recv root) (body_frame json topic s recv is_snapshot root data_)
  body_frame-Moves s recv is_snapshot root none k e =
      idle s s parse_error (HoldsTyped s recv root) refl refl
  body_frame-Moves s recv is_snapshot root (some body) k e =
      Moves-mono s (Holds s recv root is_snapshot body) (HoldsTyped s recv root) _
        (λ id u h. (is_snapshot, body, k, e, h))
        (numbered_frame-Moves s recv is_snapshot root body _ refl)

  typed_frame-Moves :
      (s : State) (recv : ℤ) (root : Element) (kind : Option (List ℕ))
      → get_string json (at_key root (codes "type")) ≡ kind
      → Moves s (HoldsTyped s recv root) (typed_frame json topic s recv root kind)
  typed_frame-Moves s recv root none k = idle s s parse_error (HoldsTyped s recv root) refl refl
  typed_frame-Moves s recv root (some kind) k =
      elim (Bool-cases (text_eq kind (codes "snapshot"))) [
        | inl snapshot ↦
            let is_kind = k ∙ ap some (text_eq→eq kind (codes "snapshot") snapshot) in
            rw snapshot (body_frame-Moves s recv true root _ is_kind refl)
        | inr other ↦ elim (Bool-cases (text_eq kind (codes "delta"))) [
          | inl delta ↦
              let is_kind = k ∙ ap some (text_eq→eq kind (codes "delta") delta) in
              rw (other, delta) (body_frame-Moves s recv false root _ is_kind refl)
          | inr neither ↦ rw (other, neither) (idle s s ok (HoldsTyped s recv root) refl refl)
        ]
      ]

  acknowledgement-Moves :
      (s : State) (root : Element) (P : ℤ → FeedUpdate → Type 0) (success : Option Bool)
      → Moves s P (acknowledgement json topic s root success)
  acknowledgement-Moves s root P none = idle s s ok P refl refl
  acknowledgement-Moves s root P (some true) = idle s s ok P refl refl
  acknowledgement-Moves s root P (some false) = inl (refl, refl, refl)

  parsed_frame-Moves :
      (s : State) (frame : List ℕ) (recv : ℤ) (root : Option Element)
      → parse frame ≡ root
      → Moves s (InSequence s frame recv) (parsed_frame json topic s recv root)
  parsed_frame-Moves s frame recv none e = idle s s parse_error (InSequence s frame recv) refl refl
  parsed_frame-Moves s frame recv (some root) e =
      by_topic (get_string json (at_key root (codes "topic"))) refl
    where
      by_topic :
          (name : Option (List ℕ))
          → get_string json (at_key root (codes "topic")) ≡ name
          → Moves s (InSequence s frame recv) (topic_frame json topic s recv root name)
      by_topic none t =
          acknowledgement-Moves s root (InSequence s frame recv)
            (at_key root (codes "success") >>= bool_of)
      by_topic (some name) t = elim (Bool-cases (text_eq name topic)) [
        | inr other ↦ rw other (idle s s ok (InSequence s frame recv) refl refl)
        | inl ours ↦ rw ours (
            Moves-mono s (HoldsTyped s recv root) (InSequence s frame recv) _
              (λ id u h. (root, e, t ∙ ap some (text_eq→eq name topic ours), h))
              (typed_frame-Moves s recv root _ refl))
      ]

  on_frame-Moves :
      (s : State) (frame : List ℕ) (recv : ℤ)
      → Moves s (InSequence s frame recv) (on_frame json topic s frame recv)
  unfolding on_frame
  on_frame-Moves s frame recv = parsed_frame-Moves s frame recv (parse frame) refl

  -- In the other direction, a frame that is in sequence is taken.
  on_frame-taken :
      (s : State) (frame : List ℕ) (recv id : ℤ) (u : FeedUpdate)
      → InSequence s frame recv id u
      → (on_frame json topic s frame recv).out ≡ u ∷ []
  unfolding on_frame update_of text_eq
  on_frame-taken s frame recv id u
        (root, e, t, (true, body, k, d, (bids, asks, n, p, q, is_update, next))) =
      rw (e, t, text_eq_refl topic, k, d, n, p, q, is_update)
        (ap (λ o. o.out) (on_update-continued s id true _ next))
  on_frame-taken s frame recv id u
        (root, e, t, (false, body, k, d, (bids, asks, n, p, q, is_update, next))) =
      rw (e, t, text_eq_refl topic, k, d, n, p, q, is_update)
        (ap (λ o. o.out) (on_update-continued s id false _ next))

  -- Whatever frame arrives, one of two things holds. Either it is accepted with exactly one update:
  -- then it is a frame of the topic, a snapshot, or a delta of a synced stream whose number is one
  -- past the last, the update has its kind, its levels and its time, and the stream is synced at
  -- the frame's number. Or it is no such frame, appends nothing and leaves the sequence state alone.
  pub on_frame-InSequence :
      (s : State) (frame : List ℕ) (recv : ℤ)
      → let o = on_frame json topic s frame recv in
        ((id : ℤ) × (u : FeedUpdate) × InSequence s frame recv id u
          × (o.verdict ≡ ok)
          × (o.out ≡ u ∷ [])
          × (o.state ≡ record s { last_update_id = id; synced = true }))
        ⊎ ((o.out ≡ [])
            × (o.state.last_update_id ≡ s.last_update_id)
            × (o.state.synced ≡ s.synced)
            × ¬ ((id : ℤ) × (u : FeedUpdate) × InSequence s frame recv id u))
  on_frame-InSequence s frame recv = elim (on_frame-Moves s frame recv) [
    | inr accepted ↦ inl accepted
    | inl idle ↦ inr (
      idle.0,
      idle.1,
      idle.2,
      λ (id, u, h). let taken = on_frame-taken s frame recv id u h in cc (idle.0, taken),
    )
  ]
