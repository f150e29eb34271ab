-- ===== src/Support/Range/Elements.antt =====
-- The elements of a range of src/support/range.rs, the view in which its operations are specified.
use propeller_kernel.Prelude.{
  ℕ, ◌+◌, ◌-◌, ◌^◌, ◌≤◌, ◌<◌, ◌≡◌, Bool, false, ◌&&◌, Option, none, some, ok, arith, ltb, leb,
}
use propeller_kernel.Support.Range.{Range, last_of}

module _ {ℓ} {T : Type ℓ} where
  -- Not empty, and its last element is a `w`-bit number.
  pub record IsValid (w : ℕ) (r : Range T) : Type 0 where
    pub not_empty : 0 < r.size
    pub fits : r.base + r.size ≤ 2 ^ w

  abbrev pub contains : Range T → ℕ → Bool
  contains r x = leb r.base x && ltb x (r.base + r.size)

  abbrev pub contains? : Option (Range T) → ℕ → Bool
  contains? none x = false
  contains? (some r) x = contains r x

  -- On a valid range the last element is computed with no overflow.
  pub last_of_lem : (w : ℕ) (r : Range T) → IsValid w r → last_of w r ≡ ok (r.base + r.size - 1)
  unfolding last_of
  last_of_lem w r v = ground arith
