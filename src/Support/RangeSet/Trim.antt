-- ===== src/Support/RangeSet/Trim.antt =====
-- `RangeSet::trim_empty_ranges` of src/support/range_set.rs.
use mathlib.Core.List.{append_assoc}
use propeller_kernel.Prelude.{
  ℕ, zero, suc, ◌+◌, ◌-◌, ◌<◌, ◌≡◌, refl, sym, inl, inr, List, [], ◌∷◌, ◌++◌, Run, ok, arith, ltb,
  if◌then◌else◌, Bool-cases, length, length-append, lt→ltb, ltb-false,
}
use propeller_kernel.Support.Range.{Range}
use propeller_kernel.Prelude.Monad.{load}
use propeller_kernel.Support.RangeSet.{RangeSet, copy_within, trim_empty_loop, trim_empty_ranges}
use propeller_kernel.Support.RangeSet.Slots.{load-append, copy_within-left}
use propeller_kernel.Support.RangeSet.View.{IsView}

module _ {ℓ} {T : Type ℓ} where
  unfoldable pub nonempty : List (Range T) → List (Range T)
  nonempty [] = []
  nonempty (x ∷ xs) = if ltb 0 x.size then x ∷ nonempty xs else nonempty xs

  -- A run that returns a set which reads as `xs`.
  abbrev pub ReturnsView : ℕ → List (Range T) → Run (RangeSet T) → Type ℓ
  ReturnsView cap xs result = (s : RangeSet T) × (result ≡ ok s) × IsView cap s xs

  pub IsView-regroup :
      {cap : ℕ} {s : RangeSet T} (pre : List (Range T)) (x : Range T) (xs : List (Range T))
      → IsView cap s (pre ++ (x ∷ xs))
      → IsView cap s ((pre ++ (x ∷ [])) ++ xs)
  IsView-regroup pre x xs v = rw (append_assoc pre (x ∷ []) xs) v

  module _ {cap : ℕ} where
    trim_empty_loop-nonempty :
        (fuel : ℕ) (pre xs : List (Range T)) (s : RangeSet T) (i : ℕ)
        → IsView cap s (pre ++ xs)
        → length xs < fuel
        → i ≡ length pre
        → ReturnsView cap (pre ++ nonempty xs) (trim_empty_loop fuel s i)
    unfolding trim_empty_loop nonempty
    trim_empty_loop-nonempty zero pre xs s i v h e = absurd (omega arith)
    trim_empty_loop-nonempty (suc fuel) pre [] s i v h e =
        (s, rw (ltb-false i s.count (omega (arith, v.used, length-append pre []))), v)
    trim_empty_loop-nonempty (suc fuel) pre (x ∷ xs) s i v h e =
        rw (lt→ltb i s.count (omega (arith, v.used, length-append pre (x ∷ xs)))) (
          rw loaded (elim (Bool-cases (ltb 0 x.size)) [
            | inl keep ↦ rw keep (
                rw (append_assoc pre (x ∷ []) (nonempty xs)) at (
                  trim_empty_loop-nonempty fuel (pre ++ (x ∷ [])) xs s (i + 1)
                    (IsView-regroup pre x xs v) (omega arith)
                    (omega (arith, length-append pre (x ∷ [])))))
            | inr drop ↦
                rw drop
                  (rw moved.1 (trim_empty_loop-nonempty fuel pre xs _ i shrunk (omega arith) e))
          ]))
      where
        loaded : load s.ranges i ≡ ok x
        loaded =
            rw (v.slots, append_assoc pre (x ∷ xs) v.spare) (load-append pre (xs ++ v.spare) x i e)

        moved :
            (z : Range T) × (copy_within s.ranges (i + 1) s.count i
              ≡ ok (pre ++ (xs ++ (z ∷ v.spare))))
        moved =
            rw (v.slots, append_assoc pre (x ∷ xs) v.spare)
              (copy_within-left pre xs v.spare x (i + 1) s.count i (omega arith)
                (omega (arith, v.used, length-append pre (x ∷ xs))) e)

        shrunk :
            IsView cap
              (record { ranges = pre ++ (xs ++ (moved.0 ∷ v.spare)); count = s.count - 1 })
              (pre ++ xs)
        shrunk = record {
          spare = moved.0 ∷ v.spare;
          slots = sym (append_assoc pre xs (moved.0 ∷ v.spare));
          size = omega (arith, v.size, length-append pre xs, length-append pre (x ∷ xs));
          used = omega (arith, v.used, length-append pre xs, length-append pre (x ∷ xs));
        }

    -- Trimming removes exactly the empty ranges and keeps the order of the others.
    pub trim_empty_ranges-nonempty :
        (s : RangeSet T) (xs : List (Range T))
        → IsView cap s xs
        → ReturnsView cap (nonempty xs) (trim_empty_ranges s)
    unfolding trim_empty_ranges
    trim_empty_ranges-nonempty s xs v =
        trim_empty_loop-nonempty (s.count + 1) [] xs s 0 v (omega (arith, v.used)) refl
