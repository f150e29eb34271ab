-- ===== src/Support/Bits/Align.antt =====
-- Alignment to a power of two, of src/support/bits.rs.
use native.Mathlib.Nat.{
  one-le-pow, mod-lt, mod-le, add-mul-mod_self_left, mod-eq_of_lt, div-add-mod,
}
use propeller_kernel.Prelude.{
  ℕ, ◌+◌, ◌-◌, ◌*◌, ◌/◌, ◌%◌, ◌^◌, ◌≤◌, ◌<◌, ◌≡◌, ap, ◌∙◌, ok, arith, ◌==◌, le→leb, lt→ltb, bit_and,
}
use propeller_kernel.Support.Bits.{align_down, align_up, is_aligned, complement}
use propeller_kernel.Support.Bits.Digits.{and-high_ones}

module _ (w k : ℕ) (h : k ≤ w) where
  abbrev boundary : ℕ
  boundary = 2 ^ k

  and-mask : (n : ℕ) → n < 2 ^ w → bit_and n (complement w (boundary - 1)) ≡ n - n % boundary
  and-mask n l = omega (arith, ap (λ (t : ℕ). bit_and n t) same, and-high_ones k w n h l)
    where
      same : complement w (boundary - 1) ≡ 2 ^ w - 2 ^ k
      same = omega (arith, one-le-pow k 2)

  one-le-boundary : 1 ≤ boundary
  one-le-boundary = one-le-pow k 2 (omega arith)

  -- A word is rounded down to a multiple of a power of two.
  align_down-eq : (n : ℕ) → n < 2 ^ w → align_down w n (2 ^ k) ≡ ok (n - n % 2 ^ k)
  unfolding align_down
  align_down-eq n l = rw (le→leb 1 boundary one-le-boundary) (ap ok (and-mask n l))

  -- A word is found to be aligned exactly when the power of two divides it.
  is_aligned-eq : (n : ℕ) → n < 2 ^ w → is_aligned w n (2 ^ k) ≡ ok (n % 2 ^ k == 0)
  unfolding is_aligned
  is_aligned-eq n l =
      rw (le→leb 1 boundary one-le-boundary)
        (rw (and-mask n l) (ap ok (ground (arith, mod-le n boundary))))

  rounded-mod : (n : ℕ) → (n - n % boundary) % boundary ≡ 0
  rounded-mod n =
      ap (λ (t : ℕ). t % boundary) multiple
      ∙ (add-mul-mod_self_left 0 boundary (n / boundary) ∙ mod-eq_of_lt one-le-boundary)
    where
      multiple : n - n % boundary ≡ 0 + boundary * (n / boundary)
      multiple = omega (arith, div-add-mod n boundary)

  -- A word is rounded up to the least multiple of a power of two that is not below it, when the word
  -- plus the power of two less one is a word.
  pub align_up-least :
      (n : ℕ)
      → n + (2 ^ k - 1) < 2 ^ w
      → (r : ℕ) × (align_up w n (2 ^ k) ≡ ok r) × (r % 2 ^ k ≡ 0) × (n ≤ r) × (r < n + 2 ^ k)
  unfolding align_up
  align_up-least n l = (
    n + (boundary - 1) - (n + (boundary - 1)) % boundary,
    rw (le→leb 1 boundary one-le-boundary)
        (rw (lt→ltb (n + (boundary - 1)) (2 ^ w) l) (ap ok (and-mask (n + (boundary - 1)) l))),
    rounded-mod (n + (boundary - 1)),
    omega (arith, mod-lt (n + (boundary - 1)) one-le-boundary),
    omega (arith, one-le-boundary),
  )
