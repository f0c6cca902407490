-- ===== src/Ring/Capacity.antt =====
-- The capacity is a power of two.
use home_assignment.Common.{
  ℕ, zero, suc, ◌+◌, ◌-◌, ◌*◌, ◌%◌, ◌^◌, ◌≤◌, ◌<◌, ◌≡◌, refl, ap, subst, ◌⊎◌, arith, some, false,
  Bool-cases, inl, inr, ltb, ltb→lt,
}
use home_assignment.Ring.{round_up_pow2}

pow_suc : (a : ℕ) → 2 ^ suc a ≡ 2 ^ a * 2
pow_suc a = omega arith

pow_pos : (a : ℕ) → 0 < 2 ^ a
pow_pos zero = omega arith
pow_pos (suc a) = omega (arith, pow_suc a, pow_pos a)

pub pow_add : (a b : ℕ) → 2 ^ (a + b) ≡ 2 ^ a * 2 ^ b
pow_add zero b = let e : 0 + b ≡ b = omega arith in rw e (omega arith)
pow_add (suc a) b =
    let e : suc a + b ≡ suc (a + b) = omega arith in
    rw (e, pow_suc (a + b), pow_suc a, pow_add a b) (grind arith)

pow-le : (a b : ℕ) → 2 ^ a ≤ 2 ^ (a + b)
pow-le a b = grind (arith, pow_add a b, pow_pos b)

pub pow-le_of_le : (a b : ℕ) → a ≤ b → 2 ^ a ≤ 2 ^ b
pow-le_of_le a b le =
    let e : a + (b - a) ≡ b = omega arith in subst (λ n. 2 ^ a ≤ 2 ^ n) e (pow-le a (b - a))

not_largest : (k v : ℕ) → k ≤ 63 → v ≤ 2 ^ 63 → 2 ^ k < v → k < 63
not_largest k v small fits below = elim (Bool-cases (ltb k 63)) [
  | inl lt ↦ ground (arith, lt)
  | inr ge ↦ let e : k ≡ 63 = ground (arith, ge) in absurd (omega (arith, ap (λ n. 2 ^ n) e))
]

tight_after : (k n v : ℕ) → 2 ^ k < v → (n ≡ suc k) ⊎ (2 ^ n < v * 2) → 2 ^ n < v * 2
tight_after k n v below (inl e) = omega (arith, pow_suc k, ap (λ m. 2 ^ m) e)
tight_after k n v below (inr h) = h

round_up_pow2-loop :
    (fuel k v : ℕ)
    → 63 ≤ k + fuel
    → k ≤ 63
    → v ≤ 2 ^ 63
    → (n : ℕ) × (round_up_pow2 (suc fuel) (2 ^ k) v ≡ some (2 ^ n))
      × (n ≤ 63)
      × (v ≤ 2 ^ n)
      × ((n ≡ k) ⊎ (2 ^ n < v * 2))
unfolding round_up_pow2
round_up_pow2-loop zero k v enough small fits =
    let last : ltb (2 ^ k) v ≡ false = elim (Bool-cases (ltb (2 ^ k) v)) [
      | inr done ↦ done
      | inl more ↦ absurd (omega (arith, not_largest k v small fits (ltb→lt (2 ^ k) v more)))
    ] in
    (k, rw last refl, small, ground (arith, last), inl refl)
round_up_pow2-loop (suc fuel) k v enough small fits = elim (Bool-cases (ltb (2 ^ k) v)) [
  | inr done ↦ (k, rw done refl, small, ground (arith, done), inl refl)
  | inl more ↦
      let below : 2 ^ k < v = ground (arith, more) in
      let room : k < 63 = not_largest k v small fits below in
      let exact : 2 ^ k * 2 % 2 ^ 64 ≡ 2 ^ suc k =
        omega (arith, pow_suc k, pow-le_of_le (suc k) 63 room) in
      let (n, is, le, above, tight) = round_up_pow2-loop fuel (suc k) v (omega arith) room fits in
      (n, rw (more, exact) is, le, above, inr (tight_after k n v below tight))
]

-- For every capacity of at most 2 ^ 63 the loop ends, within 63 doublings, at a power of two that is
-- no smaller than the capacity and less than twice it, 1 apart.
pub round_up_pow2-returns :
    (v : ℕ)
    → v ≤ 2 ^ 63
    → (n : ℕ) × (round_up_pow2 64 1 v ≡ some (2 ^ n))
      × (n ≤ 63)
      × (v ≤ 2 ^ n)
      × ((n ≡ 0) ⊎ (2 ^ n < v * 2))
round_up_pow2-returns v fits = round_up_pow2-loop 63 0 v (omega arith) (omega arith) fits
