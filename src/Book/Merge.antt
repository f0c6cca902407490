-- ===== src/Book/Merge.antt =====
-- The merge loop of ApplyBatch, and the removal loop of Replace, as maps from prices.
use home_assignment.Common.{
  Bool, true, false, List, [], ◌∷◌, ◌≡◌, refl, ap, ◌∙◌, some, arith, if◌then◌else◌, Bool-cases, inl,
  inr,
}
use home_assignment.Common.Lists.{All}
use home_assignment.Common.Int.{ℤ, pos, eq_ℤ, eq_ℤ→eq}
use home_assignment.Book.{Level, better, push_unless_zero, push_rest, merge, remove_zero}
use home_assignment.Book.Order.{better_total, AllWorse, AllWorse-trans, Ordered, IsBook}
use home_assignment.Book.Lookup.{qty_at, qty_at-AllWorse, AllWorse-eq_ℤ}
use home_assignment.Book.Deltas.{last_at, override, last_at-AllWorse}

abbrev pub IfKept {ℓ} : (Level → Type ℓ) → Level → Type ℓ
IfKept P u = eq_ℤ u.qty (pos 0) ≡ false → P u

module _ {ℓ} (P : Level → Type ℓ) where
  All-push : (u : Level) (ls : List Level) → IfKept P u → All P ls → All P (push_unless_zero u ls)
  All-push u ls h k = elim (Bool-cases (eq_ℤ u.qty (pos 0))) [
    | inl gone ↦ rw gone k
    | inr kept ↦ rw kept (h kept, k)
  ]

  All-push_rest : (ds : List Level) → All (IfKept P) ds → All P (push_rest ds)
  unfolding push_rest
  All-push_rest [] h = tt
  All-push_rest (u ∷ ds) h = All-push u (push_rest ds) h.0 (All-push_rest ds h.1)

  pub All-merge :
      (d : Bool) (ls ds : List Level) → All P ls → All (IfKept P) ds → All P (merge d ls ds)
  unfolding merge
  All-merge d [] ds h k = All-push_rest ds k
  All-merge d (e ∷ ls) [] h k = h
  All-merge d (e ∷ ls) (u ∷ ds) h k = elim (Bool-cases (eq_ℤ e.px u.px)) [
    | inl same ↦ rw same (All-push u (merge d ls ds) k.0 (All-merge d ls ds h.1 k.1))
    | inr other ↦ elim (Bool-cases (better d e.px u.px)) [
      | inl keep ↦ rw (other, keep) (h.0, All-merge d ls (u ∷ ds) h.1 k)
      | inr change ↦
          rw (other, change) (All-push u (merge d (e ∷ ls) ds) k.0 (All-merge d (e ∷ ls) ds h k.1))
    ]
  ]

weaken :
    (d : Bool) (p : ℤ) (ds : List Level)
    → AllWorse d p ds
    → All (IfKept (λ l. better d p l.px ≡ true)) ds
weaken d p [] w = tt
weaken d p (u ∷ ds) w = (λ _. w.0, weaken d p ds w.1)

Ordered-push :
    (d : Bool) (u : Level) (ls : List Level)
    → AllWorse d u.px ls
    → Ordered d ls
    → Ordered d (push_unless_zero u ls)
Ordered-push d u ls w o = elim (Bool-cases (eq_ℤ u.qty (pos 0))) [
  | inl gone ↦ rw gone o
  | inr kept ↦ rw kept (w, o)
]

AllWorse-push_rest :
    (d : Bool) (p : ℤ) (ds : List Level) → AllWorse d p ds → AllWorse d p (push_rest ds)
AllWorse-push_rest d p ds w = All-push_rest (λ l. better d p l.px ≡ true) ds (weaken d p ds w)

Ordered-push_rest : (d : Bool) (ds : List Level) → Ordered d ds → Ordered d (push_rest ds)
unfolding push_rest
Ordered-push_rest d [] o = tt
Ordered-push_rest d (u ∷ ds) o =
    Ordered-push d u (push_rest ds) (AllWorse-push_rest d u.px ds o.0) (Ordered-push_rest d ds o.1)

AllWorse-merge :
    (d : Bool) (p : ℤ) (ls ds : List Level)
    → AllWorse d p ls
    → AllWorse d p ds
    → AllWorse d p (merge d ls ds)
AllWorse-merge d p ls ds w v = All-merge (λ l. better d p l.px ≡ true) d ls ds w (weaken d p ds v)

-- Where neither level is at the other's price, one of them is closer to the touch.
other_way : (d : Bool) (a b : ℤ) → eq_ℤ a b ≡ false → better d a b ≡ false → better d b a ≡ true
other_way d a b e n = ground (arith, better_total d a b n)

Ordered-merge :
    (d : Bool) (ls ds : List Level) → Ordered d ls → Ordered d ds → Ordered d (merge d ls ds)
unfolding merge
Ordered-merge d [] ds o q = Ordered-push_rest d ds q
Ordered-merge d (e ∷ ls) [] o q = o
Ordered-merge d (e ∷ ls) (u ∷ ds) o q = elim (Bool-cases (eq_ℤ e.px u.px)) [
  | inl same ↦ rw same (
      Ordered-push d u (merge d ls ds)
        (AllWorse-merge d u.px ls ds (AllWorse-eq_ℤ d e.px u.px ls same o.0) q.0)
        (Ordered-merge d ls ds o.1 q.1))
  | inr other ↦ elim (Bool-cases (better d e.px u.px)) [
    | inl keep ↦
        rw (other, keep)
          (
            AllWorse-merge d e.px ls (u ∷ ds) o.0 (keep, AllWorse-trans d e.px u.px ds keep q.0),
            Ordered-merge d ls (u ∷ ds) o.1 q,
          )
    | inr change ↦
        let b = other_way d e.px u.px other change in
        rw (other, change)
          (Ordered-push d u (merge d (e ∷ ls) ds)
            (AllWorse-merge d u.px (e ∷ ls) ds (b, AllWorse-trans d u.px e.px ls b o.0) q.0)
            (Ordered-merge d (e ∷ ls) ds o q.1))
  ]
]

any_kept : (ds : List Level) → All (IfKept (λ l. eq_ℤ l.qty (pos 0) ≡ false)) ds
any_kept [] = tt
any_kept (u ∷ ds) = (λ kept. kept, any_kept ds)

pub merge-IsBook :
    (d : Bool) (ls ds : List Level) → IsBook d ls → Ordered d ds → IsBook d (merge d ls ds)
merge-IsBook d ls ds b o = (
  Ordered-merge d ls ds b.0 o,
  All-merge (λ l. eq_ℤ l.qty (pos 0) ≡ false) d ls ds b.1 (any_kept ds),
)

-- A pushed level is what the map finds at its price, also where its quantity is 0.
qty_at-push :
    (d : Bool) (p : ℤ) (u : Level) (ls : List Level)
    → AllWorse d u.px ls
    → qty_at p (push_unless_zero u ls) ≡ (if eq_ℤ u.px p then u.qty else qty_at p ls)
unfolding qty_at
qty_at-push d p u ls w = ground (
  arith,
  eq_ℤ→eq u.qty (pos 0),
  λ (e : eq_ℤ u.px p ≡ true). qty_at-AllWorse d p ls (AllWorse-eq_ℤ d u.px p ls e w),
)

pub qty_at-push_rest :
    (d : Bool) (p : ℤ) (ds : List Level)
    → Ordered d ds
    → qty_at p (push_rest ds) ≡ override (last_at p ds) (pos 0)
unfolding push_rest last_at
qty_at-push_rest d p [] o = unfold qty_at in refl
qty_at-push_rest d p (u ∷ ds) o =
    qty_at-push d p u (push_rest ds) (AllWorse-push_rest d u.px ds o.0)
    ∙ ground (
      arith,
      qty_at-push_rest d p ds o.1,
      λ (e : eq_ℤ u.px p ≡ true). last_at-AllWorse d p ds (AllWorse-eq_ℤ d u.px p ds e o.0),
    )

last_at_head :
    (d : Bool) (p : ℤ) (u : Level) (ds : List Level)
    → AllWorse d u.px ds
    → last_at p (u ∷ ds) ≡ (if eq_ℤ u.px p then some u.qty else last_at p ds)
unfolding last_at
last_at_head d p u ds w =
    ground
      (arith, λ (e : eq_ℤ u.px p ≡ true). last_at-AllWorse d p ds (AllWorse-eq_ℤ d u.px p ds e w))

-- The merge gives each price what the deltas set there, and what the book had elsewhere.
pub qty_at-merge :
    (d : Bool) (p : ℤ) (ls ds : List Level)
    → Ordered d ls
    → Ordered d ds
    → qty_at p (merge d ls ds) ≡ override (last_at p ds) (qty_at p ls)
unfolding merge qty_at
qty_at-merge d p [] ds o q = qty_at-push_rest d p ds q
qty_at-merge d p (e ∷ ls) [] o q = unfold last_at in refl
qty_at-merge d p (e ∷ ls) (u ∷ ds) o q = elim (Bool-cases (eq_ℤ e.px u.px)) [
  | inl same ↦
      let w = AllWorse-merge d u.px ls ds (AllWorse-eq_ℤ d e.px u.px ls same o.0) q.0 in
      rw (same, qty_at-push d p u (merge d ls ds) w)
        (ground (
          arith,
          last_at_head d p u ds q.0,
          eq_ℤ→eq e.px u.px same,
          qty_at-merge d p ls ds o.1 q.1,
        ))
  | inr other ↦ elim (Bool-cases (better d e.px u.px)) [
    | inl keep ↦
        let w = AllWorse-trans d e.px u.px ds keep q.0 in
        rw (other, keep)
          (ground (
            arith,
            λ (h : eq_ℤ e.px p ≡ true).
                last_at-AllWorse d p (u ∷ ds) (AllWorse-eq_ℤ d e.px p (u ∷ ds) h (keep, w)),
            qty_at-merge d p ls (u ∷ ds) o.1 q,
          ))
    | inr change ↦
        let b = other_way d e.px u.px other change in
        let v : AllWorse d u.px (e ∷ ls) = (b, AllWorse-trans d u.px e.px ls b o.0) in
        let w = AllWorse-merge d u.px (e ∷ ls) ds v q.0 in
        rw (other, change, qty_at-push d p u (merge d (e ∷ ls) ds) w)
          (ground (arith, last_at_head d p u ds q.0, qty_at-merge d p (e ∷ ls) ds o q.1))
  ]
]

remove_zero-push_rest : (ls : List Level) → remove_zero ls ≡ push_rest ls
unfolding remove_zero push_rest
remove_zero-push_rest [] = refl
remove_zero-push_rest (l ∷ ls) = ap (push_unless_zero l) (remove_zero-push_rest ls)

-- `Replace` is the merge of the sorted levels into an empty book.
pub remove_zero-merge : (d : Bool) (ls : List Level) → remove_zero ls ≡ merge d [] ls
unfolding merge
remove_zero-merge d ls = remove_zero-push_rest ls
