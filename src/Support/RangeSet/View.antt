-- ===== src/Support/RangeSet/View.antt =====
-- The list of ranges that a `RangeSet` of src/support/range_set.rs stands for.
use propeller_kernel.Prelude.{
  ℕ, ◌+◌, ◌≡◌, refl, List, [], ◌++◌, ok, arith, ◌==◌, length, length-append, length-replicate,
  le→leb, take-length_append,
}
use propeller_kernel.Support.Range.{Range}
use propeller_kernel.Support.RangeSet.{RangeSet, new, clear, is_empty, len, get_ranges}

-- The first `count` of the `cap` slots hold `xs`.
pub record IsView {ℓ} {T : Type ℓ} (cap : ℕ) (s : RangeSet T) (xs : List (Range T)) : Type ℓ where
  pub spare : List (Range T)
  pub slots : s.ranges ≡ xs ++ spare
  pub size : length xs + length spare ≡ cap
  pub used : s.count ≡ length xs

module _ {ℓ} {T : Type ℓ} where
  pub new-IsView : (cap : ℕ) (tag : T) → IsView cap (new cap tag) []
  unfolding new
  new-IsView cap tag = record {
    spare = _;
    slots = refl;
    size = omega (arith, length-replicate {ℓ} cap);
    used = refl;
  }

  module _ {cap : ℕ} {s : RangeSet T} {xs : List (Range T)} (v : IsView cap s xs) where
    pub clear-IsView : IsView cap (clear s) []
    unfolding clear
    clear-IsView = record {
      spare = xs ++ v.spare;
      slots = v.slots;
      size = omega (arith, v.size, length-append xs v.spare);
      used = refl;
    }

    -- A set reads as its list: `get_ranges` does not panic and returns it, `len` is its length, and
    -- `is_empty` says whether it is empty.
    pub get_ranges-IsView :
        (get_ranges s ≡ ok xs) × (len s ≡ length xs) × (is_empty s ≡ (length xs == 0))
    unfolding get_ranges len is_empty
    get_ranges-IsView = (
      rw (v.slots, v.used)
          (rw
            (
              le→leb (length xs) (length (xs ++ v.spare)) (omega (arith, length-append xs v.spare)),
              take-length_append xs v.spare (length xs) refl,
            )
            refl),
      v.used,
      rw v.used,
    )
