-- ===== src/Support/Bits/Bitmap/Least.antt =====
-- `Bitmap::first_zero` of src/support/bits.rs beside `Bitmap::test_bit`.
use native.Mathlib.Nat.{
  pow-suc, suc-mul, div-eq_of_lt, one-le-pow, mod-eq_of_lt, add-mul-div_left, add-mul-mod_self_left,
}
use propeller_kernel.Prelude.{
  ℕ, zero, suc, ◌+◌, ◌-◌, ◌*◌, ◌/◌, ◌%◌, ◌^◌, ◌≤◌, ◌<◌, ◌≡◌, ◌⊎◌, refl, ap, ◌∙◌, true, false, none,
  some, List, [], ◌∷◌, ok, inl, inr, arith, ltb, leb, ◌==◌, lt→ltb, ltb-false, if◌then◌else◌,
  length, Bool-cases,
}
use propeller_kernel.Prelude.Monad.{load}
use propeller_kernel.Support.Bits.Digits.{bit_at, bit_at-lt-two}
use propeller_kernel.Support.Bits.Bitmap.{Bitmap, test_bit}
use propeller_kernel.Support.Bits.Bitmap.Toggle.{HasWords, test_bit_lem}
use propeller_kernel.Support.Bits.Bitmap.Search.{trailing_zeros, first_zero_loop, first_zero}

-- The place of the lowest one among the lowest digits, or no place where all are zero.
record IsLowest (left n z : ℕ) : Type 0 where
  within : z ≤ left
  below : (j : ℕ) → j < z → bit_at n j ≡ 0
  here : z < left → bit_at n z ≡ 1

lower_zeros :
    (n z j : ℕ) → n % 2 ≡ 0 → ((i : ℕ) → i < z → bit_at (n / 2) i ≡ 0) → j < z + 1 → bit_at n j ≡ 0
unfolding bit_at
lower_zeros n z zero even h l = even
lower_zeros n z (suc j) even h l = h j (omega arith)

higher_one : (n z : ℕ) → bit_at (n / 2) z ≡ 1 → bit_at n (z + 1) ≡ 1
unfolding bit_at
higher_one n z h = ap (λ t. bit_at n t) (let e : z + 1 ≡ suc z = omega arith in e) ∙ h

trailing_zeros-IsLowest : (left n : ℕ) → IsLowest left n (trailing_zeros left n)
unfolding trailing_zeros bit_at
trailing_zeros-IsLowest zero n = record {
  within = omega arith;
  below = λ j h. absurd (omega arith);
  here = λ h. absurd (omega arith);
}
trailing_zeros-IsLowest (suc left) n =
    let rest = trailing_zeros-IsLowest left (n / 2) in
    elim (Bool-cases (n % 2 == 0)) [
      | inr odd ↦ rw odd (record {
        within = omega arith;
        below = λ j h. absurd (omega arith);
        here = λ h. ground (arith, odd);
      })
      | inl even ↦ rw even (record {
        within = omega (arith, rest.within);
        below = λ j h.
            lower_zeros n (trailing_zeros left (n / 2)) j (ground (arith, even)) rest.below h;
        here = λ h. higher_one n (trailing_zeros left (n / 2)) (rest.here (omega arith));
      })
    ]

complement-bit_at : (w n j : ℕ) → n < 2 ^ w → j < w → bit_at (2 ^ w - 1 - n) j ≡ 1 - bit_at n j
unfolding bit_at
complement-bit_at zero n j h l = absurd (omega arith)
complement-bit_at (suc w) n zero h l = omega (arith, pow-suc 2 w, one-le-pow w 2)
complement-bit_at (suc w) n (suc j) h l =
    rw
      (let half : (2 ^ suc w - 1 - n) / 2 ≡ 2 ^ w - 1 - n / 2 =
          omega (arith, pow-suc 2 w, one-le-pow w 2) in
        half)
      (complement-bit_at w (n / 2) j (omega (arith, pow-suc 2 w)) (omega arith))

ltb→lt : (a b : ℕ) → ltb a b ≡ true → a < b
ltb→lt a b h = ground (arith, h)

module _ (k : ℕ) where
  -- The bit of a list of words, from the lowest bit of the first word on.
  abbrev bit_in : List ℕ → ℕ → ℕ
  bit_in [] j = 0
  bit_in (value ∷ words) j = if ltb j (2 ^ k) then bit_at value j else bit_in words (j - 2 ^ k)

  -- Words of `2 ^ k` bits.
  abbrev pub AllSmall : List ℕ → Type 0
  AllSmall [] = Unit
  AllSmall (value ∷ words) = (value < 2 ^ (2 ^ k)) × AllSmall words

  -- The least index of a zero, or the number of all bits where there is none.
  record IsLeast (words : List ℕ) (z : ℕ) : Type 0 where
    within : z ≤ length words * 2 ^ k
    below : (j : ℕ) → j < z → bit_in words j ≡ 1
    here : z < length words * 2 ^ k → bit_in words z ≡ 0

  -- The complement has a zero where the word has a one.
  word-IsLowest :
      (value z : ℕ)
      → value < 2 ^ (2 ^ k)
      → IsLowest (2 ^ k) (2 ^ (2 ^ k) - 1 - value) z
      → ((j : ℕ) → j < z → bit_at value j ≡ 1) × (z < 2 ^ k → bit_at value z ≡ 0)
  word-IsLowest value z small lowest = (
    λ j h. omega (
      arith,
      lowest.below j h,
      lowest.within,
      complement-bit_at (2 ^ k) value j small (omega (arith, lowest.within)),
      bit_at-lt-two j value,
    ),
    λ h.
        omega
          (arith, lowest.here h, complement-bit_at (2 ^ k) value z small h, bit_at-lt-two z value),
  )

  first_zero_loop-IsLeast :
      (words : List ℕ) (index : ℕ)
      → AllSmall words
      → index + length words * 2 ^ k < 2 ^ (2 ^ k)
      → (z : ℕ) × (first_zero_loop k words index ≡ ok (index + z)) × IsLeast words z
  unfolding first_zero_loop
  first_zero_loop-IsLeast [] index h room = (
    0,
    ap ok (omega arith),
    record {
      within = omega arith;
      below = λ j l. absurd (omega arith);
      here = λ l. absurd (omega arith);
    },
  )
  first_zero_loop-IsLeast (value ∷ words) index (small, h) room =
      elim (Bool-cases (ltb z (2 ^ k))) [
        | inl found ↦ (
          z,
          rw found (
              rw
                (lt→ltb (index + z) (2 ^ (2 ^ k))
                  (omega (arith, room, more, ltb→lt z (2 ^ k) found)))
                refl),
          record {
            within = omega (arith, more, ltb→lt z (2 ^ k) found);
            below = λ j l. rw (lt→ltb j (2 ^ k) (ground (arith, found, l))) (lowest.0 j l);
            here = λ l. rw found (lowest.1 (ground (arith, found)));
          },
        )
        | inr none_here ↦
            let (z', run, least) =
              first_zero_loop-IsLeast words (index + 2 ^ k) h (omega (arith, room, more)) in
            (
              2 ^ k + z',
              rw none_here (
                  rw (lt→ltb (index + 2 ^ k) (2 ^ (2 ^ k)) (omega (arith, room, more)))
                    (run ∙ ap ok (omega arith))),
              record {
                within = omega (arith, more, least.within);
                below = λ j l. elim (Bool-cases (ltb j (2 ^ k))) [
                  | inl low ↦ rw low (lowest.0 j (ground (arith, low, none_here)))
                  | inr high ↦ rw high (least.below (j - 2 ^ k) (ground (arith, high, l)))
                ];
                here = λ l. rw (ltb-false (2 ^ k + z') (2 ^ k) (omega arith)) (
                    ap (λ t. bit_in words t) (let e : 2 ^ k + z' - 2 ^ k ≡ z' = omega arith in e)
                    ∙ least.here (omega (arith, more, l)));
              },
            )
      ]
    where
      more : suc (length words) * 2 ^ k ≡ 2 ^ k + length words * 2 ^ k
      more = suc-mul (length words) (2 ^ k) ∙ omega arith

      z : ℕ
      z = trailing_zeros (2 ^ k) (2 ^ (2 ^ k) - 1 - value)

      lowest : ((j : ℕ) → j < z → bit_at value j ≡ 1) × (z < 2 ^ k → bit_at value z ≡ 0)
      lowest =
          word-IsLowest value z small (trailing_zeros-IsLowest (2 ^ k) (2 ^ (2 ^ k) - 1 - value))

  load-bit_in :
      (words : List ℕ) (j : ℕ)
      → j < length words * 2 ^ k
      → (value : ℕ) × (load words (j / 2 ^ k) ≡ ok value)
        × (bit_at value (j % 2 ^ k) ≡ bit_in words j)
  unfolding load
  load-bit_in [] j h = absurd (omega arith)
  load-bit_in (value ∷ words) j h = elim (Bool-cases (ltb j (2 ^ k))) [
    | inl low ↦ (
      value,
      rw (div-eq_of_lt (ltb→lt j (2 ^ k) low)) refl,
      rw (mod-eq_of_lt (ltb→lt j (2 ^ k) low), low) refl,
    )
    | inr high ↦
        let past : j ≡ j - 2 ^ k + 2 ^ k * 1 = ground (arith, high) in
        let (v, at, bit) =
          load-bit_in words (j - 2 ^ k) (omega (arith, h, suc-mul (length words) (2 ^ k), past)) in
        let up : (j - 2 ^ k + 2 ^ k * 1) / 2 ^ k ≡ suc ((j - 2 ^ k) / 2 ^ k) =
          add-mul-div_left (j - 2 ^ k) 1 {y = 2 ^ k} (one-le-pow k 2 (omega arith)) ∙ omega arith in
        (
          v,
          ap (λ (t : ℕ). load (value ∷ words) (t / 2 ^ k)) past
              ∙ (ap (λ t. load (value ∷ words) t) up ∙ at),
          ap (λ (t : ℕ). bit_at v (t % 2 ^ k)) past
              ∙ (ap (λ t. bit_at v t) (add-mul-mod_self_left (j - 2 ^ k) (2 ^ k) 1)
                  ∙ (bit ∙ rw high refl)),
        )
  ]

  test_bit-bit_in :
      (b : Bitmap) (j : ℕ)
      → HasWords k b
      → j < b.bits
      → test_bit k b j ≡ ok (some (bit_in b.bitmap j == 1))
  test_bit-bit_in b j h l =
      let (value, at, bit) = load-bit_in b.bitmap j (omega (arith, h, l)) in
      test_bit_lem k b j l at ∙ rw bit refl

  -- In a map of words of `2 ^ k` bits that hold all its bits and have fewer bits than a word counts:
  -- `first_zero` does not panic. It gives nothing when every bit of the map is set; otherwise it gives
  -- the index of a bit that is clear, and every bit before it is set.
  pub first_zero-test_bit :
      (b : Bitmap)
      → HasWords k b
      → AllSmall b.bitmap
      → length b.bitmap * 2 ^ k < 2 ^ (2 ^ k)
      → ((first_zero k b ≡ ok none) × ((j : ℕ) → j < b.bits → test_bit k b j ≡ ok (some true)))
        ⊎ ((z : ℕ) × (z < b.bits)
            × (first_zero k b ≡ ok (some z))
            × (test_bit k b z ≡ ok (some false))
            × ((j : ℕ) → j < z → test_bit k b j ≡ ok (some true)))
  unfolding first_zero
  first_zero-test_bit b h small room =
      let (z, run, least) = first_zero_loop-IsLeast b.bitmap 0 small (omega (arith, room)) in
      let at_z : first_zero_loop k b.bitmap 0 ≡ ok z = run ∙ ap ok (omega arith) in
      elim (Bool-cases (leb b.bits z)) [
        | inl none_in ↦ inl (
          rw at_z (rw none_in refl),
          λ j l. test_bit-bit_in b j h l ∙ rw (least.below j (ground (arith, none_in, l))) refl,
        )
        | inr some_in ↦ inr (
          z,
          ground (arith, some_in),
          rw at_z (rw some_in refl),
          test_bit-bit_in b z h (ground (arith, some_in))
              ∙ rw (least.here (ground (arith, some_in, h))) refl,
          λ j l. test_bit-bit_in b j h (ground (arith, some_in, l)) ∙ rw (least.below j l) refl,
        )
      ]
