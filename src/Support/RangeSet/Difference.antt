-- ===== src/Support/RangeSet/Difference.antt =====
-- `RangeSet::exclude_range` of src/support/range_set.rs as set difference.
use propeller_kernel.Prelude.{
  ℕ, ◌+◌, ◌^◌, ◌≤◌, ◌<◌, ◌≡◌, refl, ◌∙◌, Bool, false, not, ◌&&◌, ◌||◌, List, [], ◌∷◌, ◌++◌, ok,
  arith, ltb, leb, length, min, max,
}
use propeller_kernel.Support.Range.{Range}
use propeller_kernel.Support.Range.Elements.{IsValid, contains}
use propeller_kernel.Support.Range.Order.{limit}
use propeller_kernel.Support.RangeSet.{RangeSet, exclude_range}
use propeller_kernel.Support.RangeSet.View.{IsView}
use propeller_kernel.Support.RangeSet.Remaining.{
  part, remaining_of, remaining, splits, AllValid, exclude_range-remaining,
}
use propeller_kernel.Support.RangeSet.{RangeSet}

module _ {ℓ} {T : Type ℓ} where
  -- Some range of the list holds the address.
  unfoldable pub contains_any : List (Range T) → ℕ → Bool
  contains_any [] x = false
  contains_any (r ∷ rs) x = contains r x || contains_any rs x

  contains_any-append :
      (xs ys : List (Range T)) (x : ℕ)
      → contains_any (xs ++ ys) x ≡ (contains_any xs x || contains_any ys x)
  unfolding contains_any
  contains_any-append [] ys x = refl
  contains_any-append (r ∷ rs) ys x = ground (arith, contains_any-append rs ys x)

  contains_any-part :
      (r : Range T) (lo hi x : ℕ) → contains_any (part r lo hi) x ≡ (leb lo x && ltb x hi)
  unfolding contains_any part
  contains_any-part r lo hi x = ground arith

  contains_any-remaining_of :
      (excl r : Range T) (x : ℕ)
      → contains_any (remaining_of excl r) x ≡ (contains r x && not (contains excl x))
  unfolding remaining_of
  contains_any-remaining_of excl r x =
      contains_any-append (part r r.base (min (limit r) excl.base)) _ x
      ∙ ground (
        arith,
        contains_any-part r r.base (min (limit r) excl.base) x,
        contains_any-part r (max r.base (limit excl)) (limit r) x,
      )

  -- The remaining ranges hold exactly the addresses that the ranges held and the exclusion range does
  -- not hold.
  pub contains_any-remaining :
      (excl : Range T) (xs : List (Range T)) (x : ℕ)
      → contains_any (remaining excl xs) x ≡ (contains_any xs x && not (contains excl x))
  unfolding remaining contains_any
  contains_any-remaining excl [] x = refl
  contains_any-remaining excl (r ∷ rs) x =
      contains_any-append (remaining_of excl r) (remaining excl rs) x
      ∙ ground (arith, contains_any-remaining_of excl r x, contains_any-remaining excl rs x)

  -- With valid ranges, an exclusion range that ends below the top of the address space and a free slot
  -- for each range that is split, `exclude_range` does not panic, and the ranges of the set then hold
  -- exactly the addresses that they held before and the exclusion range does not hold.
  pub exclude_range-contains_any :
      {cap : ℕ} (w : ℕ) (excl : Range T)
      → IsValid w excl
      → limit excl < 2 ^ w
      → (s : RangeSet T) (xs : List (Range T)) → IsView cap s xs
      → AllValid w xs
      → length xs + splits excl xs ≤ cap
      → (s' : RangeSet T) × (ys : List (Range T)) × (exclude_range w cap s excl ≡ ok s')
        × IsView cap s' ys
        × ((x : ℕ) → contains_any ys x ≡ (contains_any xs x && not (contains excl x)))
  exclude_range-contains_any w excl vx inside s xs v valid room =
      let (s', run, v') = exclude_range-remaining w excl vx inside s xs v valid room in
      (s', remaining excl xs, run, v', λ x. contains_any-remaining excl xs x)
