-- ===== src/Examples/Sets.antt =====
-- The range set of src/support/range_set.rs with four slots.
use propeller_kernel.Prelude.{
  ℕ, ◌+◌, ◌^◌, ◌≤◌, ◌<◌, ◌≡◌, ◌↔◌, ◌⊎◌, Bool, if◌then◌else◌, refl, inl, true, false, not, ◌&&◌,
  List, [], ◌∷◌, ok, out_of_fuel, arith, length,
}
use propeller_kernel.Support.Range.{Range}
use propeller_kernel.Support.Range.Elements.{IsValid, contains}
use propeller_kernel.Support.RangeSet.{
  RangeSet, insert_range, exclude_range, trim_ranges, trim_empty_ranges,
}
use propeller_kernel.Support.RangeSet.View.{IsView}
use propeller_kernel.Support.RangeSet.Insert.{
  insert_sorted, insert_range-insert_sorted, insert_range-refused, IsSorted, insert_range-IsSorted,
}
use propeller_kernel.Support.RangeSet.Trim.{nonempty, ReturnsView, trim_empty_ranges-nonempty}
use propeller_kernel.Support.RangeSet.Remaining.{remaining, splits, exclude_range-remaining}
use propeller_kernel.Support.RangeSet.Difference.{contains_any, exclude_range-contains_any}
use propeller_kernel.Support.RangeSet.Overlap.{trim_ranges-never, trim_ranges-apart}
use propeller_kernel.Examples.Ranges.{bank, hole, empty, bank-IsValid, hole-IsValid}

abbrev upper : Range ℕ
upper = record { tag = 9; base = 65536; size = 4096 }

upper-IsValid : IsValid 32 upper
upper-IsValid = record { not_empty = omega arith; fits = omega arith }

abbrev two : RangeSet ℕ
two = record { ranges = bank ∷ upper ∷ empty ∷ empty ∷ []; count = 2 }

two-IsView : IsView 4 two (bank ∷ upper ∷ [])
two-IsView = record { spare = empty ∷ empty ∷ []; slots = refl; size = refl; used = refl }

abbrev overlapping : RangeSet ℕ
overlapping = record { ranges = bank ∷ hole ∷ empty ∷ empty ∷ []; count = 2 }

overlapping-IsView : IsView 4 overlapping (bank ∷ hole ∷ [])
overlapping-IsView = record { spare = empty ∷ empty ∷ []; slots = refl; size = refl; used = refl }

abbrev with_empty : RangeSet ℕ
with_empty = record { ranges = bank ∷ empty ∷ upper ∷ empty ∷ []; count = 3 }

with_empty-IsView : IsView 4 with_empty (bank ∷ empty ∷ upper ∷ [])
with_empty-IsView = record { spare = empty ∷ []; slots = refl; size = refl; used = refl }

insert_range-insert_sorted_example :
    (s' : RangeSet ℕ) × (insert_range 32 4 two hole ≡ ok (s', true))
    × IsView 4 s' (insert_sorted hole (bank ∷ upper ∷ []))
insert_range-insert_sorted_example =
    insert_range-insert_sorted 32 hole two-IsView hole-IsValid (omega arith)

-- A set with one slot, which is in use.
abbrev full : RangeSet ℕ
full = record { ranges = bank ∷ []; count = 1 }

insert_range-refused_example :
    (s' : RangeSet ℕ) × (inserted : Bool) × (insert_range 32 1 full hole ≡ ok (s', inserted))
    × ((inserted ≡ false) ↔ ((1 ≤ 1) ⊎ (hole.size ≡ 0) ⊎ (2 ^ 32 < hole.base + hole.size)))
    × ((inserted ≡ false) → s' ≡ full)
    × IsView 1 s' (if inserted then insert_sorted hole (bank ∷ []) else bank ∷ [])
insert_range-refused_example =
    insert_range-refused 32 hole (record { spare = []; slots = refl; size = refl; used = refl })
      (omega arith)

insert_range-IsSorted_example :
    (s' : RangeSet ℕ) × (ys : List (Range ℕ)) × (insert_range 32 4 two hole ≡ ok (s', true))
    × IsView 4 s' ys
    × IsSorted ys
    × (length ys ≡ 3)
insert_range-IsSorted_example =
    insert_range-IsSorted 32 hole two (bank ∷ upper ∷ []) two-IsView (omega arith, tt) hole-IsValid
      (omega arith)

trim_empty_ranges-nonempty_example :
    ReturnsView 4 (nonempty (bank ∷ empty ∷ upper ∷ [])) (trim_empty_ranges with_empty)
trim_empty_ranges-nonempty_example =
    trim_empty_ranges-nonempty with_empty (bank ∷ empty ∷ upper ∷ []) with_empty-IsView

two-splits : 2 + splits hole (bank ∷ upper ∷ []) ≡ 3
unfolding splits
two-splits = refl

exclude_range-remaining_example :
    ReturnsView 4 (remaining hole (bank ∷ upper ∷ [])) (exclude_range 32 4 two hole)
exclude_range-remaining_example =
    exclude_range-remaining 32 hole hole-IsValid (omega arith) two (bank ∷ upper ∷ []) two-IsView
      (bank-IsValid, (upper-IsValid, tt)) (omega (arith, two-splits))

exclude_range-contains_any_example :
    (s' : RangeSet ℕ) × (ys : List (Range ℕ)) × (exclude_range 32 4 two hole ≡ ok s')
    × IsView 4 s' ys
    × ((x : ℕ) → contains_any ys x ≡ (contains_any (bank ∷ upper ∷ []) x && not (contains hole x)))
exclude_range-contains_any_example =
    exclude_range-contains_any 32 hole hole-IsValid (omega arith) two (bank ∷ upper ∷ []) two-IsView
      (bank-IsValid, (upper-IsValid, tt)) (omega (arith, two-splits))

trim_ranges-never_example : trim_ranges 32 4 1000 overlapping ≡ out_of_fuel
trim_ranges-never_example =
    trim_ranges-never 32 4 1000 overlapping [] [] bank hole overlapping-IsView
      (
        record { valid = bank-IsValid; inside = omega arith },
        (record { valid = hole-IsValid; inside = omega arith }, tt),
      )
      (omega arith) (omega arith)

trim_ranges-apart_example : ReturnsView 4 (bank ∷ upper ∷ []) (trim_ranges 32 4 3 two)
trim_ranges-apart_example =
    trim_ranges-apart 32 4 3 two (bank ∷ upper ∷ []) two-IsView
      (bank-IsValid, upper-IsValid, inl (omega arith), tt) (bank-IsValid, (upper-IsValid, tt))
      (omega arith)
