-- ===== src/Support/Bits/Digits.antt =====
-- The native bit operations by binary digits, at variables.
use Prim.Native.Nat.{digits, bitwise, differ, bit_and-bitwise, bit_or-bitwise, bit_xor-bitwise, ◌≤◌}
use native.Mathlib.Nat.{
  pow-suc, one-le-pow, add-mul-mod_self_left, mod-eq_of_lt, div-add-mod, mod-lt,
}
use propeller_kernel.Prelude.{
  ℕ, zero, suc, ◌+◌, ◌-◌, ◌*◌, ◌/◌, ◌%◌, ◌^◌, ◌<◌, ◌≡◌, refl, ap, sym, ◌∙◌, min, max, bit_and,
  bit_or, bit_xor, ◌==◌, if◌then◌else◌, arith,
}

module _ (at_end : ℕ → ℕ) (op : ℕ → ℕ → ℕ) where
  -- Any fuel from the first number on gives the same result as the number itself does.
  canonical :
      (bound fuel a b : ℕ)
      → a ≤ bound
      → a ≤ fuel
      → digits at_end op fuel a b ≡ bitwise at_end op a b
  canonical bound zero zero b h l = refl
  canonical bound (suc fuel) zero b h l = refl
  canonical bound zero (suc a) b h l = absurd (omega arith)
  canonical zero (suc fuel) (suc a) b h l = absurd (omega arith)
  canonical (suc bound) (suc fuel) (suc a) b h l =
      let half = suc a / 2 in
      ap (λ t. t * 2 + op (suc a % 2) (b % 2))
        (canonical bound fuel half (b / 2) (omega arith) (omega arith)
          ∙ sym (canonical bound a half (b / 2) (omega arith) (omega arith)))

  split_lowest :
      (a b : ℕ)
      → bitwise at_end op (suc a) b
        ≡ bitwise at_end op (suc a / 2) (b / 2) * 2 + op (suc a % 2) (b % 2)
  split_lowest a b =
      ap (λ t. t * 2 + op (suc a % 2) (b % 2))
        (canonical a a (suc a / 2) (b / 2) (omega arith) (omega arith))

pub and_step : (a b : ℕ) → bit_and a b ≡ 2 * bit_and (a / 2) (b / 2) + min (a % 2) (b % 2)
and_step zero b = omega (arith, bit_and-bitwise 0 b, bit_and-bitwise 0 (b / 2))
and_step (suc a) b = omega (
  arith,
  bit_and-bitwise (suc a) b,
  bit_and-bitwise (suc a / 2) (b / 2),
  split_lowest (λ t. 0) min a b,
)

pub or_step : (a b : ℕ) → bit_or a b ≡ 2 * bit_or (a / 2) (b / 2) + max (a % 2) (b % 2)
or_step zero b = omega (arith, bit_or-bitwise 0 b, bit_or-bitwise 0 (b / 2))
or_step (suc a) b = omega (
  arith,
  bit_or-bitwise (suc a) b,
  bit_or-bitwise (suc a / 2) (b / 2),
  split_lowest (λ t. t) max a b,
)

differ-eq_mod : (x y : ℕ) → x < 2 → y < 2 → differ x y ≡ (x + y) % 2
differ-eq_mod zero y h l = omega arith
differ-eq_mod (suc zero) zero h l = omega arith
differ-eq_mod (suc zero) (suc zero) h l = omega arith
differ-eq_mod (suc zero) (suc (suc y)) h l = absurd (omega arith)
differ-eq_mod (suc (suc x)) y h l = absurd (omega arith)

pub xor_step : (a b : ℕ) → bit_xor a b ≡ 2 * bit_xor (a / 2) (b / 2) + (a % 2 + b % 2) % 2
xor_step zero b = omega (arith, bit_xor-bitwise 0 b, bit_xor-bitwise 0 (b / 2))
xor_step (suc a) b = omega (
  arith,
  bit_xor-bitwise (suc a) b,
  bit_xor-bitwise (suc a / 2) (b / 2),
  split_lowest (λ t. t) differ a b,
  differ-eq_mod (suc a % 2) (b % 2) (omega arith) (omega arith),
)

-- Exclusive or is commutative and associative: by recursion on a bound of the numbers.
xor_comm_below : (n a b : ℕ) → a ≤ n → b ≤ n → bit_xor a b ≡ bit_xor b a
xor_comm_below zero zero zero h l = refl
xor_comm_below zero (suc a) b h l = absurd (omega arith)
xor_comm_below zero zero (suc b) h l = absurd (omega arith)
xor_comm_below (suc n) a b h l = omega (
  arith,
  xor_step a b,
  xor_step b a,
  xor_comm_below n (a / 2) (b / 2) (omega arith) (omega arith),
)

xor_half : (a b : ℕ) → bit_xor a b / 2 ≡ bit_xor (a / 2) (b / 2)
xor_half a b = omega (arith, xor_step a b)

xor_parity : (a b : ℕ) → bit_xor a b % 2 ≡ (a % 2 + b % 2) % 2
xor_parity a b = omega (arith, xor_step a b)

xor_right_comm_below :
    (n a b c : ℕ) → a ≤ n → b ≤ n → c ≤ n → bit_xor (bit_xor a b) c ≡ bit_xor (bit_xor a c) b
xor_right_comm_below zero zero zero zero h l m = refl
xor_right_comm_below zero (suc a) b c h l m = absurd (omega arith)
xor_right_comm_below zero zero (suc b) c h l m = absurd (omega arith)
xor_right_comm_below zero zero zero (suc c) h l m = absurd (omega arith)
xor_right_comm_below (suc n) a b c h l m = omega (
  arith,
  rw (xor_half a b) at (xor_step (bit_xor a b) c),
  rw (xor_half a c) at (xor_step (bit_xor a c) b),
  xor_parity a b,
  xor_parity a c,
  xor_right_comm_below n (a / 2) (b / 2) (c / 2) (omega arith) (omega arith) (omega arith),
)

pub xor_comm : (a b : ℕ) → bit_xor a b ≡ bit_xor b a
xor_comm a b = xor_comm_below (a + b) a b (omega arith) (omega arith)

pub xor_right_comm : (a b c : ℕ) → bit_xor (bit_xor a b) c ≡ bit_xor (bit_xor a c) b
xor_right_comm a b c =
    xor_right_comm_below (a + b + c) a b c (omega arith) (omega arith) (omega arith)

-- The digit of a number at a place, counted from the lowest.
unfoldable pub bit_at : ℕ → ℕ → ℕ
bit_at n zero = n % 2
bit_at n (suc k) = bit_at (n / 2) k

pub bit_at-lt-two : (k n : ℕ) → bit_at n k < 2
unfolding bit_at
bit_at-lt-two zero n = omega arith
bit_at-lt-two (suc k) n = bit_at-lt-two k (n / 2)

and-zero_below : (k n : ℕ) → n ≤ k → bit_and n 0 ≡ 0
and-zero_below k zero h = bit_and-bitwise 0 0
and-zero_below zero (suc n) h = absurd (omega arith)
and-zero_below (suc k) (suc n) h =
    omega (arith, and_step (suc n) 0, and-zero_below k (suc n / 2) (omega arith))

pub and-zero : (n : ℕ) → bit_and n 0 ≡ 0
and-zero n = and-zero_below n n (omega arith)

two_pow_half : (k : ℕ) → (2 ^ suc k / 2 ≡ 2 ^ k) × (2 ^ suc k % 2 ≡ 0)
two_pow_half k = (omega (arith, pow-suc 2 k), omega (arith, pow-suc 2 k))

-- A mask of one bit selects the digit at its place.
pub and-two_pow : (k n : ℕ) → bit_and n (2 ^ k) ≡ 2 ^ k * bit_at n k
unfolding bit_at
and-two_pow zero n = omega (arith, and_step n 1, and-zero (n / 2))
and-two_pow (suc k) n = omega (
  arith,
  rw ((two_pow_half k).0) at (and_step n (2 ^ suc k)),
  two_pow_half k,
  ap (λ (t : ℕ). t * bit_at (n / 2) k) (pow-suc 2 k),
  and-two_pow k (n / 2),
)

pub bit_at-xor : (k a b : ℕ) → bit_at (bit_xor a b) k ≡ (bit_at a k + bit_at b k) % 2
unfolding bit_at
bit_at-xor zero a b = xor_parity a b
bit_at-xor (suc k) a b = rw (xor_half a b) (bit_at-xor k (a / 2) (b / 2))

pub bit_at-zero : (k : ℕ) → bit_at 0 k ≡ 0
unfolding bit_at
bit_at-zero zero = refl
bit_at-zero (suc k) = bit_at-zero k

pub bit_at-two_pow : (k j : ℕ) → bit_at (2 ^ k) j ≡ (if k == j then 1 else 0)
unfolding bit_at
bit_at-two_pow zero zero = refl
bit_at-two_pow zero (suc j) = ground (arith, bit_at-zero j)
bit_at-two_pow (suc k) zero = ground (arith, two_pow_half k)
bit_at-two_pow (suc k) (suc j) = rw ((two_pow_half k).0) (ground (arith, bit_at-two_pow k j))

-- Exclusive or with a mask of one bit changes the digit at its place, and no other.
pub bit_at-toggle :
    (k j n : ℕ) → bit_at (bit_xor n (2 ^ k)) j ≡ (if k == j then 1 - bit_at n j else bit_at n j)
bit_at-toggle k j n = ground (arith, bit_at-xor j n (2 ^ k), bit_at-two_pow k j, bit_at-lt-two j n)

and-ones : (w n : ℕ) → n < 2 ^ w → bit_and n (2 ^ w - 1) ≡ n
and-ones zero n h = omega (arith, and-zero n)
and-ones (suc w) n h = omega (
  arith,
  pow-suc 2 w,
  one-le-pow w 2,
  rw half_mask at (and_step n (2 ^ suc w - 1)),
  and-ones w (n / 2) (omega (arith, pow-suc 2 w)),
)
  where
    half_mask : (2 ^ suc w - 1) / 2 ≡ 2 ^ w - 1
    half_mask = omega (arith, pow-suc 2 w, one-le-pow w 2)

mod_unique : (y x q n : ℕ) → n ≡ x + y * q → x < y → n % y ≡ x
mod_unique y x q n e l = ap (λ (t : ℕ). t % y) e ∙ (add-mul-mod_self_left x y q ∙ mod-eq_of_lt l)

-- The remainder by a power of two, from the lowest digit up.
pub mod-two_pow_suc : (k n : ℕ) → n % 2 ^ suc k ≡ n / 2 % 2 ^ k * 2 + n % 2
mod-two_pow_suc k n =
    mod_unique (2 ^ suc k) (n / 2 % 2 ^ k * 2 + n % 2) (n / 2 / 2 ^ k) n
      (omega
        (arith, div-add-mod (n / 2) (2 ^ k), ap (λ (t : ℕ). t * (n / 2 / 2 ^ k)) (pow-suc 2 k)))
      (omega (arith, pow-suc 2 k, mod-lt (n / 2) (one-le-pow k 2 (omega arith))))

-- A mask of all but the lowest `k` ones rounds down to a multiple of `2 ^ k`.
pub and-high_ones : (k w n : ℕ) → k ≤ w → n < 2 ^ w → bit_and n (2 ^ w - 2 ^ k) + n % 2 ^ k ≡ n
and-high_ones zero w n h l = omega (arith, and-ones w n l)
and-high_ones (suc k) zero n h l = absurd (omega arith)
and-high_ones (suc k) (suc w) n h l = omega (
  arith,
  pow-suc 2 w,
  pow-suc 2 k,
  rw half_mask at (and_step n (2 ^ suc w - 2 ^ suc k)),
  and-high_ones k w (n / 2) (omega arith) (omega (arith, pow-suc 2 w)),
  mod-two_pow_suc k n,
)
  where
    half_mask : (2 ^ suc w - 2 ^ suc k) / 2 ≡ 2 ^ w - 2 ^ k
    half_mask = omega (arith, pow-suc 2 w, pow-suc 2 k)

or_half : (a b : ℕ) → bit_or a b / 2 ≡ bit_or (a / 2) (b / 2)
or_half a b = omega (arith, or_step a b)

or_parity : (a b : ℕ) → bit_or a b % 2 ≡ max (a % 2) (b % 2)
or_parity a b = omega (arith, or_step a b)

pub bit_at-or : (k a b : ℕ) → bit_at (bit_or a b) k ≡ max (bit_at a k) (bit_at b k)
unfolding bit_at
bit_at-or zero a b = or_parity a b
bit_at-or (suc k) a b = rw (or_half a b) (bit_at-or k (a / 2) (b / 2))
