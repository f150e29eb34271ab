-- ===== src/Support/Bits/Powers.antt =====
-- `is_power_of_2` and `least_significant_bit` of src/support/bits.rs.
use native.Mathlib.Nat.{pow-suc, one-le-pow, mod-eq_of_lt}
use propeller_kernel.Prelude.{
  ℕ, zero, suc, ◌+◌, ◌-◌, ◌*◌, ◌/◌, ◌%◌, ◌^◌, ◌≤◌, ◌<◌, ◌≡◌, ap, sym, ◌∙◌, true, ◌↔◌, ◌⊎◌, inl, inr,
  arith, bit_and,
}
use propeller_kernel.Support.Bits.{is_power_of_2, least_significant_bit, complement}
use propeller_kernel.Support.Bits.Digits.{and_step, and-zero}

and-self_below : (b n : ℕ) → n ≤ b → bit_and n n ≡ n
and-self_below b zero h = and-zero 0
and-self_below zero (suc n) h = absurd (omega arith)
and-self_below (suc b) (suc n) h =
    omega (arith, and_step (suc n) (suc n), and-self_below b (suc n / 2) (omega arith))

parity : (n : ℕ) → (n % 2 ≡ 0) ⊎ (n % 2 ≡ 1)
parity n = ground arith

-- Clearing the lowest one leaves nothing.
IsPower_of_and : (b n : ℕ) → n ≤ b → 0 < n → bit_and n (n - 1) ≡ 0 → (k : ℕ) × (n ≡ 2 ^ k)
IsPower_of_and zero n h p e = absurd (omega arith)
IsPower_of_and (suc b) n h p e = elim (parity n) [
  | inr odd ↦
      (0, omega (arith, and_step n (n - 1), and-self_below n (n / 2) (omega arith), same odd))
  | inl even ↦
      let (k, q) =
        IsPower_of_and b (n / 2) (omega arith) (omega arith)
          (omega (arith, rw (half even) at (and_step n (n - 1)))) in
      (suc k, omega (arith, pow-suc 2 k))
]
  where
    half : n % 2 ≡ 0 → (n - 1) / 2 ≡ n / 2 - 1
    half even = omega arith

    same : n % 2 ≡ 1 → bit_and (n / 2) ((n - 1) / 2) ≡ bit_and (n / 2) (n / 2)
    same odd = ap (λ (t : ℕ). bit_and (n / 2) t) (omega arith)

and-pred_two_pow : (k : ℕ) → bit_and (2 ^ k) (2 ^ k - 1) ≡ 0
and-pred_two_pow zero = and-zero 1
and-pred_two_pow (suc k) = omega (
  arith,
  rw (half, half_pred) at (and_step (2 ^ suc k) (2 ^ suc k - 1)),
  pow-suc 2 k,
  and-pred_two_pow k,
)
  where
    half : 2 ^ suc k / 2 ≡ 2 ^ k
    half = omega (arith, pow-suc 2 k)

    half_pred : (2 ^ suc k - 1) / 2 ≡ 2 ^ k - 1
    half_pred = omega (arith, pow-suc 2 k, one-le-pow k 2)

-- `is_power_of_2` is true exactly on the powers of two; zero is none.
pub is_power_of_2_iff : (n : ℕ) → (is_power_of_2 n ≡ true) ↔ ((k : ℕ) × (n ≡ 2 ^ k))
unfolding is_power_of_2
is_power_of_2_iff n = (
  (λ e. IsPower_of_and n n (omega arith) (ground (arith, e)) (ground (arith, e))),
  (λ (k, e). ground (arith, e, rw (sym e) at (and-pred_two_pow k), one-le-pow k 2)),
)

and-complement : (w n : ℕ) → n < 2 ^ w → bit_and n (2 ^ w - 1 - n) ≡ 0
and-complement zero n h =
    ap (λ (t : ℕ). bit_and t (2 ^ 0 - 1 - t)) (let e : n ≡ 0 = omega arith in e) ∙ and-zero 0
and-complement (suc w) n h = omega (
  arith,
  rw half at (and_step n (2 ^ suc w - 1 - n)),
  pow-suc 2 w,
  and-complement w (n / 2) (omega (arith, pow-suc 2 w)),
)
  where
    half : (2 ^ suc w - 1 - n) / 2 ≡ 2 ^ w - 1 - n / 2
    half = omega (arith, pow-suc 2 w)

lowest_one :
    (w n : ℕ)
    → 0 < n
    → n < 2 ^ w
    → (k q : ℕ) × (bit_and n (2 ^ w - n) ≡ 2 ^ k) × (n ≡ 2 ^ k * (2 * q + 1))
lowest_one zero n p h = absurd (omega arith)
lowest_one (suc w) n p h = elim (parity n) [
  | inr odd ↦ (
    0,
    n / 2,
    omega (
      arith,
      rw (half_odd odd) at (and_step n (2 ^ suc w - n)),
      and-complement w (n / 2) (omega (arith, pow-suc 2 w)),
      pow-suc 2 w,
    ),
    omega arith,
  )
  | inl even ↦
      let (k, q, low, e) = lowest_one w (n / 2) (omega arith) (omega (arith, pow-suc 2 w)) in
      (
        suc k,
        q,
        omega (arith, rw (half_even even) at (and_step n (2 ^ suc w - n)), low, pow-suc 2 k),
        omega (arith, e, ap (λ (t : ℕ). t * (2 * q + 1)) (pow-suc 2 k)),
      )
]
  where
    half_odd : n % 2 ≡ 1 → (2 ^ suc w - n) / 2 ≡ 2 ^ w - 1 - n / 2
    half_odd odd = omega (arith, pow-suc 2 w)

    half_even : n % 2 ≡ 0 → (2 ^ suc w - n) / 2 ≡ 2 ^ w - n / 2
    half_even even = omega (arith, pow-suc 2 w)

-- The least significant one of a word that is not zero is the power of two whose odd multiple the word
-- is.
pub least_significant_bit-two_pow :
    (w n : ℕ)
    → 0 < n
    → n < 2 ^ w
    → (k q : ℕ) × (least_significant_bit w n ≡ 2 ^ k) × (n ≡ 2 ^ k * (2 * q + 1))
unfolding least_significant_bit
least_significant_bit-two_pow w n p h =
    let (k, q, low, e) = lowest_one w n p h in (k, q, ap (λ (t : ℕ). bit_and n t) negated ∙ low, e)
  where
    negated : (complement w n + 1) % 2 ^ w ≡ 2 ^ w - n
    negated =
        ap (λ (t : ℕ). t % 2 ^ w) (let s : complement w n + 1 ≡ 2 ^ w - n = omega arith in s)
        ∙ mod-eq_of_lt (omega arith)
