-- ===== src/Support/Bits/Bitmap/Toggle.antt =====
-- `Bitmap::toggle_bit` and `Bitmap::set_bit` of src/support/bits.rs, seen by `Bitmap::test_bit`.
use native.Mathlib.Nat.{
  pow-suc, one-le-pow, mod-lt, div-add-mod, mod-eq_of_lt, pow-le-pow_right, div-lt_iff_lt-mul,
}
use propeller_kernel.Prelude.{
  ℕ, zero, suc, ◌-◌, ◌*◌, ◌/◌, ◌%◌, ◌^◌, ◌≤◌, ◌<◌, ◌≡◌, ◌⊎◌, refl, ap, sym, ◌∙◌, Bool, false, not,
  some, ok, inl, inr, arith, ◌==◌, ==_iff, ==_refl, leb-false, if◌then◌else◌, length, set, bit_and,
  bit_or, bit_xor, Bool-cases, true,
}
use propeller_kernel.Prelude.Monad.{load}
use propeller_kernel.Prelude.Access.{load-lt, lt-load, store_lem, load-set_self, load-set_ne}
use propeller_kernel.Support.Bits.{shl}
use propeller_kernel.Support.Bits.Digits.{
  and_step, and-zero, and-two_pow, bit_at, bit_at-toggle, bit_at-lt-two, bit_at-or, bit_at-two_pow,
  mod-two_pow_suc,
}
use propeller_kernel.Support.Bits.Bitmap.{
  Bitmap, get_word_and_shift, update_bit, set_bit, toggle_bit, test_bit,
}

and-low_ones : (k n : ℕ) → bit_and n (2 ^ k - 1) ≡ n % 2 ^ k
and-low_ones zero n = omega (arith, and-zero n)
and-low_ones (suc k) n = omega (
  arith,
  rw half at (and_step n (2 ^ suc k - 1)),
  and-low_ones k (n / 2),
  pow-suc 2 k,
  one-le-pow k 2,
  mod-two_pow_suc k n,
)
  where
    half : (2 ^ suc k - 1) / 2 ≡ 2 ^ k - 1
    half = omega (arith, pow-suc 2 k, one-le-pow k 2)

lt-two_pow : (k : ℕ) → k < 2 ^ k
lt-two_pow zero = omega arith
lt-two_pow (suc k) = omega (arith, lt-two_pow k, pow-suc 2 k)

module _ (k bit : ℕ) where
  abbrev place : ℕ
  place = bit % 2 ^ k

  place-lt : place < 2 ^ k
  place-lt = mod-lt bit (one-le-pow k 2 (omega arith))

  mask_lem : shl (2 ^ k) 1 (bit_and bit (2 ^ k - 1)) ≡ 2 ^ place
  mask_lem = rw (and-low_ones k bit) (mod-eq_of_lt (omega (arith, below)) ∙ omega arith)
    where
      below : 2 ^ place < 2 ^ (2 ^ k)
      below = omega (
        arith,
        pow-suc 2 place,
        one-le-pow place 2,
        pow-le-pow_right {n = 2} (omega arith) (let h : suc place ≤ 2 ^ k = place-lt in h),
      )

-- What a word says of a bit.
abbrev pub is_set : ℕ → ℕ → Bool
is_set value place = bit_at value place == 1

is_set_lem : (value place : ℕ) → not (bit_and value (2 ^ place) == 0) ≡ is_set value place
is_set_lem value place = rw (and-two_pow place value) (ground (arith, one-le-pow place 2, digit))
  where
    digit : (bit_at value place ≡ 0) ⊎ (bit_at value place ≡ 1)
    digit = ground (arith, bit_at-lt-two place value)

module _ (k : ℕ) where
  pub test_bit_lem :
      (b : Bitmap) (bit : ℕ) {value : ℕ}
      → bit < b.bits
      → load b.bitmap (bit / 2 ^ k) ≡ ok value
      → test_bit k b bit ≡ ok (some (is_set value (bit % 2 ^ k)))
  unfolding test_bit get_word_and_shift
  test_bit_lem b bit {value} l at =
      rw (leb-false b.bits bit l, at)
        (rw (mask_lem k bit) (ap (λ t. ok (some t)) (is_set_lem value (bit % 2 ^ k))))

  -- The words hold all bits of the map.
  abbrev pub HasWords : Bitmap → Type 0
  HasWords b = b.bits ≤ length b.bitmap * 2 ^ k

  word-lt : (b : Bitmap) (bit : ℕ) → HasWords b → bit < b.bits → bit / 2 ^ k < length b.bitmap
  word-lt b bit h l =
      (div-lt_iff_lt-mul {x = bit} {y = length b.bitmap} (one-le-pow k 2 (omega arith))).1
        (omega (arith, h))

  same_place :
      (bit other : ℕ)
      → bit / 2 ^ k ≡ other / 2 ^ k
      → (bit % 2 ^ k == other % 2 ^ k) ≡ (bit == other)
  same_place bit other same = ground (arith, apart, ap (λ (t : ℕ). t % 2 ^ k))
    where
      apart : bit % 2 ^ k ≡ other % 2 ^ k → bit ≡ other
      apart e = omega (
        arith,
        div-add-mod bit (2 ^ k),
        div-add-mod other (2 ^ k),
        ap (λ (t : ℕ). 2 ^ k * t) same,
      )

  -- A change of words that acts on the digit at the place of a mask by `g`, and on no other digit.
  module _ (f : ℕ → ℕ → ℕ) (g : Bool → Bool)
      (law : (value p q : ℕ)
        → is_set (f value (2 ^ p)) q
          ≡ (if p == q then g (is_set value q) else is_set value q)) where
    abbrev updated : Bitmap → ℕ → ℕ → Bitmap
    updated b bit value = record b {
      bitmap = set b.bitmap (bit / 2 ^ k) (f value (2 ^ (bit % 2 ^ k)));
    }

    update_bit_lem :
        (b : Bitmap) (bit : ℕ) {value : ℕ}
        → bit < b.bits
        → load b.bitmap (bit / 2 ^ k) ≡ ok value
        → update_bit k f b bit ≡ ok (updated b bit value)
    unfolding update_bit get_word_and_shift
    update_bit_lem b bit {value} l at =
        rw (leb-false b.bits bit l, at)
          (rw (mask_lem k bit) (
            rw
              (store_lem b.bitmap (bit / 2 ^ k) (f value (2 ^ (bit % 2 ^ k)))
                (load-lt b.bitmap (bit / 2 ^ k) at))
              refl))

    pub test_bit-update_bit :
        (b : Bitmap) (bit other : ℕ)
        → HasWords b
        → bit < b.bits
        → other < b.bits
        → (b' : Bitmap) × (v : Bool) × (update_bit k f b bit ≡ ok b')
          × (test_bit k b other ≡ ok (some v))
          × (test_bit k b' other ≡ ok (some (if bit == other then g v else v)))
    test_bit-update_bit b bit other h l l' =
        let (value, at) = lt-load b.bitmap (bit / 2 ^ k) (word-lt b bit h l) in
        let (value', at') = lt-load b.bitmap (other / 2 ^ k) (word-lt b other h l') in
        (
          updated b bit value,
          is_set value' (other % 2 ^ k),
          update_bit_lem b bit l at,
          test_bit_lem b other l' at',
          tested value value' at at',
        )
      where
        tested :
            (value value' : ℕ)
            → load b.bitmap (bit / 2 ^ k) ≡ ok value
            → load b.bitmap (other / 2 ^ k) ≡ ok value'
            → test_bit k (updated b bit value) other
              ≡ ok (
                  some (
                    if bit == other
                    then g (is_set value' (other % 2 ^ k))
                    else is_set value' (other % 2 ^ k)))
        tested value value' at at' = elim (Bool-cases (bit / 2 ^ k == other / 2 ^ k)) [
          | inl same ↦
              let e : bit / 2 ^ k ≡ other / 2 ^ k = (==_iff _ _).0 same in
              let ev : value ≡ value' = cc (sym at ∙ (ap (λ t. load b.bitmap t) e ∙ at')) in
              test_bit_lem (updated b bit value) other l' (
                ap (λ t. load (set b.bitmap (bit / 2 ^ k) (f value (2 ^ (bit % 2 ^ k)))) t) (sym e)
                ∙ load-set_self b.bitmap (bit / 2 ^ k) _ (load-lt b.bitmap (bit / 2 ^ k) at))
              ∙ ap (λ t. ok (some t))
                  (law value (bit % 2 ^ k) (other % 2 ^ k) ∙ rw (same_place bit other e, ev) refl)
          | inr apart ↦
              test_bit_lem (updated b bit value) other l' (
                load-set_ne b.bitmap (bit / 2 ^ k) (other / 2 ^ k) _ (λ e. ground (arith, e, apart))
                ∙ at')
              ∙ ap (λ t. ok (some t)) (rw (differ apart) refl)
        ]
          where
            differ : (bit / 2 ^ k == other / 2 ^ k) ≡ false → (bit == other) ≡ false
            differ a = elim (Bool-cases (bit == other)) [
              | inl same ↦
                  absurd (cc (rw ((==_iff bit other).0 same) at a, ==_refl (other / 2 ^ k)))
              | inr other_bit ↦ other_bit
            ]

  is_set-toggle :
      (value p q : ℕ)
      → is_set (bit_xor value (2 ^ p)) q ≡ (if p == q then not (is_set value q) else is_set value q)
  is_set-toggle value p q = ground (arith, bit_at-toggle p q value, bit_at-lt-two q value)

  is_set-set :
      (value p q : ℕ) → is_set (bit_or value (2 ^ p)) q ≡ (if p == q then true else is_set value q)
  is_set-set value p q =
      ground (arith, bit_at-or q value (2 ^ p), bit_at-two_pow p q, bit_at-lt-two q value)

  -- In a map whose words hold all its bits, setting a bit of the map does not panic. A test of any bit of
  -- the map then gives true for that bit, and what it gave before for another bit.
  pub test_bit-set_bit :
      (b : Bitmap) (bit other : ℕ)
      → HasWords b
      → bit < b.bits
      → other < b.bits
      → (b' : Bitmap) × (v : Bool) × (set_bit k b bit ≡ ok b')
        × (test_bit k b other ≡ ok (some v))
        × (test_bit k b' other ≡ ok (some (if bit == other then true else v)))
  unfolding set_bit
  test_bit-set_bit b bit other h l l' =
      test_bit-update_bit bit_or (λ v. true) is_set-set b bit other h l l'

  -- In a map whose words hold all its bits, toggling a bit of the map does not panic. A test of any bit
  -- of the map gives the opposite of what it gave before for that bit, and the same for another bit.
  pub test_bit-toggle_bit :
      (b : Bitmap) (bit other : ℕ)
      → HasWords b
      → bit < b.bits
      → other < b.bits
      → (b' : Bitmap) × (v : Bool) × (toggle_bit k b bit ≡ ok b')
        × (test_bit k b other ≡ ok (some v))
        × (test_bit k b' other ≡ ok (some (if bit == other then not v else v)))
  unfolding toggle_bit
  test_bit-toggle_bit b bit other h l l' =
      test_bit-update_bit bit_xor not is_set-toggle b bit other h l l'
