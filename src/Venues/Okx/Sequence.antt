-- ===== src/Venues/Okx/Sequence.antt =====
-- The sequence rules of the OKX protocol.
use home_assignment.Common.{
  ℕ, Bool, true, false, not, ◌||◌, List, [], ◌∷◌, ap, ◌≡◌, ◌⊎◌, refl, sym, ◌∙◌, Option, none, some,
  Bool-cases, inl, inr,
}
use home_assignment.Common.Int.{ℤ, eq_ℤ, eq_ℤ→eq, eq_ℤ_refl}
use home_assignment.Common.Text.{codes}
use home_assignment.Book.{Level}
use home_assignment.Json.{Json, get_i64, parse_level_array}
use home_assignment.Json.Levels.{>>=-eq-some}
use home_assignment.Venues.{FeedUpdate, FrameVerdict, ok, needs_resync, parse_error, ms_to_ns}
use home_assignment.Venues.Okx.{
  State, Batch, failed, staged, with_update, Check, refuse, unchanged, take, check_prev, check_seq,
  update_of, after_check, entry_loop, commit, data_frame,
}

-- A passed check: the previous number was the one expected, and either it is repeated or a new
-- number is taken.
data Passed (next seq : ℤ) (prev : Option ℤ) : Check → Type 0 where
  refused : (v : FrameVerdict) → Passed next seq prev (refuse v)
  repeated : prev ≡ some next → seq ≡ next → Passed next seq prev unchanged
  moved : prev ≡ some next → ¬ (seq ≡ next) → Passed next seq prev (take seq)

unlike : (prev next seq : ℤ) → prev ≡ next → eq_ℤ prev seq ≡ false → ¬ (seq ≡ next)
unlike prev next seq e h same = let again = eq_ℤ_refl prev in cc

eq_ℤ-unlike : (next seq : ℤ) → ¬ (seq ≡ next) → eq_ℤ next seq ≡ false
eq_ℤ-unlike next seq h = elim (Bool-cases (eq_ℤ next seq)) [
  | inl same ↦ absurd (h (sym (eq_ℤ→eq next seq same)))
  | inr other ↦ other
]

check_prev-Passed :
    (synced : Bool) (next : ℤ) (has : Bool) (seq : ℤ) (prev : Option ℤ)
    → Passed next seq prev (check_prev synced next has seq prev)
unfolding check_prev
check_prev-Passed synced next has seq none = refused parse_error
check_prev-Passed synced next has seq (some prev) = elim (Bool-cases (not synced || not has)) [
  | inl lost ↦ rw lost (refused needs_resync)
  | inr going ↦ elim (Bool-cases (eq_ℤ prev next)) [
    | inr gap ↦ rw (going, gap) (refused needs_resync)
    | inl same ↦
        let e = eq_ℤ→eq prev next same in
        elim (Bool-cases (eq_ℤ prev seq)) [
          | inl still ↦
              rw (going, same, still) (repeated (ap some e) (sym (eq_ℤ→eq prev seq still) ∙ e))
          | inr fresh ↦ rw (going, same, fresh) (moved (ap some e) (unlike prev next seq e fresh))
        ]
  ]
]

module _ (json : Json) (symbol : List ℕ) where
  open json use {Element, at_key}

  abbrev seq_of : Element → Option ℤ
  seq_of entry = get_i64 json (at_key entry (codes "seqId"))

  abbrev prev_of : Element → Option ℤ
  prev_of entry = get_i64 json (at_key entry (codes "prevSeqId"))

  -- A delta with the entry's levels and time.
  abbrev pub Carries : ℤ → Element → FeedUpdate → Type 0
  Carries recv entry u =
      (bids : List Level) × (asks : List Level) × (parse_level_array json
          (at_key entry (codes "bids"))
        ≡ some bids)
      × (parse_level_array json (at_key entry (codes "asks")) ≡ some asks)
      × (u ≡ record {
        is_snapshot = false;
        bids = bids;
        asks = asks;
        exchange_ts_ns = ms_to_ns (get_i64 json (at_key entry (codes "ts")));
        recv_ts_ns = recv;
      })

  -- Each entry names the number of the one before it as the previous one; `last` is the number of
  -- the last entry. An entry with a number of its own is one update, an entry that repeats the
  -- number is none.
  abbrev pub Linked : ℤ → ℤ → List Element → ℤ → List FeedUpdate → Type 0
  Linked recv next [] last us = (next ≡ last) × (us ≡ [])
  Linked recv next (entry ∷ entries) last us =
      (seq : ℤ) × (prev_of entry ≡ some next)
      × (seq_of entry ≡ some seq)
      × (((seq ≡ next) × Linked recv next entries last us)
          ⊎ ((u : FeedUpdate) × (rest : List FeedUpdate) × (us ≡ u ∷ rest)
              × (¬ (seq ≡ next))
              × Carries recv entry u
              × Linked recv seq entries last rest))

  abbrev LinkedBatch : ℤ → ℤ → List Element → Batch → Type 0
  LinkedBatch recv next entries (failed v) = Unit
  LinkedBatch recv next entries (staged us last has) = Linked recv next entries last us

  update_of-Carries :
      (recv : ℤ) (entry : Element) (u : FeedUpdate)
      → update_of json symbol false recv entry ≡ some u
      → Carries recv entry u
  unfolding update_of
  update_of-Carries recv entry u e =
      let (bids, p, e1) = >>=-eq-some (parse_level_array json (at_key entry (codes "bids"))) _ e in
      let (asks, q, e2) = >>=-eq-some (parse_level_array json (at_key entry (codes "asks"))) _ e1 in
      (bids, asks, p, q, cc)

  update_of_carried :
      (recv : ℤ) (entry : Element) (u : FeedUpdate)
      → Carries recv entry u
      → update_of json symbol false recv entry ≡ some u
  unfolding update_of
  update_of_carried recv entry u (bids, asks, p, q, e) = rw (p, q, e) refl

  repeat :
      (recv next seq : ℤ) (entry : Element) (entries : List Element) (b : Batch)
      → prev_of entry ≡ some next
      → seq_of entry ≡ some seq
      → seq ≡ next
      → LinkedBatch recv next entries b
      → LinkedBatch recv next (entry ∷ entries) b
  repeat recv next seq entry entries (failed v) p q e h = tt
  repeat recv next seq entry entries (staged us last has) p q e h = (seq, p, q, inl (e, h))

  link :
      (recv next seq : ℤ) (entry : Element) (entries : List Element) (u : FeedUpdate) (b : Batch)
      → prev_of entry ≡ some next
      → seq_of entry ≡ some seq
      → ¬ (seq ≡ next)
      → Carries recv entry u
      → LinkedBatch recv seq entries b
      → LinkedBatch recv next (entry ∷ entries) (with_update u b)
  link recv next seq entry entries u (failed v) p q e c h = tt
  link recv next seq entry entries u (staged us last has) p q e c h =
      (seq, p, q, inr (u, us, refl, e, c, h))

  after_check-Linked :
      (recv next seq : ℤ) (entry : Element) (entries : List Element) (c : Check)
      (u : Option FeedUpdate) (skip : Batch) (taken : ℤ → Batch)
      → seq_of entry ≡ some seq
      → update_of json symbol false recv entry ≡ u
      → Passed next seq (prev_of entry) c
      → LinkedBatch recv next entries skip
      → ((s : ℤ) → LinkedBatch recv s entries (taken s))
      → LinkedBatch recv next (entry ∷ entries) (after_check json symbol c u skip taken)
  after_check-Linked recv next seq entry entries _ u skip taken q r (refused v) k t = tt
  after_check-Linked recv next seq entry entries _ u skip taken q r (repeated p e) k t =
      repeat recv next seq entry entries skip p q e k
  after_check-Linked recv next seq entry entries _ none skip taken q r (moved p e) k t = tt
  after_check-Linked recv next seq entry entries _ (some u) skip taken q r (moved p e) k t =
      link recv next seq entry entries u (taken seq) p q e (update_of-Carries recv entry u r)
        (t seq)

  check_seq-Linked :
      (synced : Bool) (recv next : ℤ) (has : Bool) (entry : Element) (entries : List Element)
      (seq : Option ℤ) (skip : Batch) (taken : ℤ → Batch)
      → seq_of entry ≡ seq
      → LinkedBatch recv next entries skip
      → ((s : ℤ) → LinkedBatch recv s entries (taken s))
      → LinkedBatch recv next (entry ∷ entries) (
          after_check json symbol
            (check_seq json symbol false synced next has entry seq)
            (update_of json symbol false recv entry)
            skip
            taken)
  unfolding check_seq
  check_seq-Linked synced recv next has entry entries none skip taken q k t = tt
  check_seq-Linked synced recv next has entry entries (some seq) skip taken q k t =
      after_check-Linked recv next seq entry entries _ (update_of json symbol false recv entry) skip
        taken q refl (check_prev-Passed synced next has seq (prev_of entry)) k t

  -- An update frame that is not refused is linked to the state and in itself, entries that
  -- repeat their number included.
  entry_loop-Linked :
      (synced : Bool) (recv next : ℤ) (has : Bool) (entries : List Element)
      → LinkedBatch recv next entries (entry_loop json symbol false synced recv next has entries)
  unfolding entry_loop
  entry_loop-Linked synced recv next has [] = (refl, refl)
  entry_loop-Linked synced recv next has (entry ∷ entries) =
      check_seq-Linked synced recv next has entry entries (seq_of entry) _ _ refl
        (entry_loop-Linked synced recv next has entries)
        (λ s. entry_loop-Linked synced recv s true entries)

  -- In the other direction, a synced stream takes every linked frame.
  entry_loop_takes :
      (recv next last : ℤ) (entries : List Element) (us : List FeedUpdate)
      → Linked recv next entries last us
      → entry_loop json symbol false true recv next true entries ≡ staged us last true
  unfolding entry_loop check_seq check_prev
  entry_loop_takes recv next last [] us (e, none_left) = rw (e, none_left) refl
  entry_loop_takes recv next last (entry ∷ entries) us (seq, p, q, inl (e, h)) =
      rw (q, p, eq_ℤ_refl next, e, eq_ℤ_refl next) (entry_loop_takes recv next last entries us h)
  entry_loop_takes recv next last (entry ∷ entries) us (seq, p, q, inr (u, rest, e, n, c, h)) =
      rw
        (
          q,
          p,
          eq_ℤ_refl next,
          eq_ℤ-unlike next seq n,
          update_of_carried recv entry u c,
          entry_loop_takes recv seq last entries rest h,
          e,
        )
        refl

  by_batch :
      (s : State) (recv : ℤ) (entries : List Element) (b : Batch)
      → entry_loop json symbol false s.synced recv s.last_seq_id s.has_seq entries ≡ b
      → LinkedBatch recv s.last_seq_id entries b
      → let o = commit json symbol s false b in
        ((o.out ≡ [])
          × (o.state ≡ s)
          × ¬ (
              (last : ℤ) × (us : List FeedUpdate) × (s.synced ≡ true)
              × (s.has_seq ≡ true)
              × Linked recv s.last_seq_id entries last us))
        ⊎ ((o.verdict ≡ ok) × Linked recv s.last_seq_id entries o.state.last_seq_id o.out)
  unfolding commit
  by_batch s recv entries (failed v) e h = inl (refl, refl, refuses)
    where
      refuses : ¬ (
          (last : ℤ) × (us : List FeedUpdate) × (s.synced ≡ true)
          × (s.has_seq ≡ true)
          × Linked recv s.last_seq_id entries last us)
      refuses (last, us, synced, has, linked) =
          let taken = entry_loop_takes recv s.last_seq_id last entries us linked in cc
  by_batch s recv entries (staged us last has) e h = inr (refl, h)

  -- The entries of an update frame are taken only as a whole. Either nothing is appended and the
  -- state stays as it was, and then the stream is out of sync, or the entries are not linked or
  -- not readable. Or the verdict is ok and the entries are linked to one another, the first to the
  -- last number of the state and the last to the new one, and exactly the updates of the entries
  -- that do not repeat their number go out, in order, each with the levels and the time of its
  -- entry.
  pub data_frame-Linked :
      (s : State) (recv : ℤ) (entries : List Element)
      → let o = data_frame json symbol s recv false (some entries) in
        ((o.out ≡ [])
          × (o.state ≡ s)
          × ¬ (
              (last : ℤ) × (us : List FeedUpdate) × (s.synced ≡ true)
              × (s.has_seq ≡ true)
              × Linked recv s.last_seq_id entries last us))
        ⊎ ((o.verdict ≡ ok) × Linked recv s.last_seq_id entries o.state.last_seq_id o.out)
  data_frame-Linked s recv entries =
      by_batch s recv entries
        (entry_loop json symbol false s.synced recv s.last_seq_id s.has_seq entries) refl
        (entry_loop-Linked s.synced recv s.last_seq_id s.has_seq entries)
