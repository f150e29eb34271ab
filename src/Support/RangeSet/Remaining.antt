-- ===== src/Support/RangeSet/Remaining.antt =====
-- What `RangeSet::exclude_range` of src/support/range_set.rs leaves, as a function on lists.
use mathlib.Core.List.{append-nil}
use mathlib.Core.Path.{ap₂, subst}
use propeller_kernel.Prelude.{
  ℕ, ◌+◌, ◌-◌, ◌^◌, ◌≤◌, ◌<◌, ◌≡◌, refl, ap, sym, ◌∙◌, Bool, ◌&&◌, ◌||◌, inl, inr, List, [], ◌∷◌,
  ◌++◌, arith, ltb, leb, if◌then◌else◌, Bool-cases, length, ltb-false, min, max,
}
use propeller_kernel.Support.Range.{
  Range, RangeOrdering, less, less_equal, greater_equal, greater, equal, superset, subset,
}
use propeller_kernel.Support.Range.Elements.{IsValid}
use propeller_kernel.Support.Range.Order.{limit, Relates}
use propeller_kernel.Support.Range.Exclude.{below, above, low_of, high_of, exclude-eq}
use propeller_kernel.Support.RangeSet.{RangeSet, exclude_range}
use propeller_kernel.Support.RangeSet.View.{IsView}
use propeller_kernel.Support.RangeSet.Trim.{nonempty, ReturnsView, trim_empty_ranges-nonempty}
use propeller_kernel.Support.RangeSet.Exclude.{
  to_list, extra, Pieces, nil, cons, exclude_loop-Pieces,
}

module _ {ℓ} {T : Type ℓ} where
  -- The part of `r` in `[lo, hi)`, if there is one.
  unfoldable pub part : Range T → ℕ → ℕ → List (Range T)
  part r lo hi = if ltb lo hi then record { tag = r.tag; base = lo; size = hi - lo } ∷ [] else []

  -- The parts of `r` below and above `excl`.
  unfoldable pub remaining_of : Range T → Range T → List (Range T)
  remaining_of excl r =
      part r r.base (min (limit r) excl.base) ++ part r (max r.base (limit excl)) (limit r)

  unfoldable pub remaining : Range T → List (Range T) → List (Range T)
  remaining excl [] = []
  remaining excl (x ∷ xs) = remaining_of excl x ++ remaining excl xs

  abbrev pub is_split : Range T → Range T → Bool
  is_split excl r =
      leb r.base excl.base
      && leb (limit excl) (limit r)
      && (ltb r.base excl.base || ltb (limit excl) (limit r))

  -- The ranges that contain `excl` and are larger.
  unfoldable pub splits : Range T → List (Range T) → ℕ
  splits excl [] = 0
  splits excl (x ∷ xs) = (if is_split excl x then 1 else 0) + splits excl xs

  part-nonempty :
      (r : Range T) (b n lo hi : ℕ)
      → b ≡ lo
      → n ≡ hi - lo
      → nonempty (record { tag = r.tag; base = b; size = n } ∷ []) ≡ part r lo hi
  unfolding part nonempty
  part-nonempty r b n lo hi e f = rw (e, f, same) refl
    where
      same : ltb 0 (hi - lo) ≡ ltb lo hi
      same = ground arith

  part-none : (r : Range T) (lo hi : ℕ) → hi ≤ lo → part r lo hi ≡ []
  unfolding part
  part-none r lo hi h = rw (ltb-false lo hi h)

  nonempty-append : (xs ys : List (Range T)) → nonempty (xs ++ ys) ≡ nonempty xs ++ nonempty ys
  unfolding nonempty
  nonempty-append [] ys = refl
  nonempty-append (x ∷ xs) ys = elim (Bool-cases (ltb 0 x.size)) [
    | inl keep ↦ rw keep (ap (λ t. x ∷ t) (nonempty-append xs ys))
    | inr drop ↦ rw drop (nonempty-append xs ys)
  ]

  module _ (w : ℕ) (r excl : Range T) (vr : IsValid w r) (vx : IsValid w excl)
      (inside : limit excl < 2 ^ w) where
    pieces-remaining_of :
        (o : RangeOrdering)
        → Relates o r excl
        → nonempty (to_list (low_of r excl o) (high_of r excl o)) ≡ remaining_of excl r
    unfolding remaining_of nonempty
    pieces-remaining_of less h =
        rw (part-none r (max r.base (limit excl)) (limit r) (omega (arith, vx.not_empty))) (
          part-nonempty r r.base r.size r.base (min (limit r) excl.base) refl (omega arith)
          ∙ sym (append-nil _))
    pieces-remaining_of greater h =
        rw (part-none r r.base (min (limit r) excl.base) (omega (arith, vx.not_empty))) (
          part-nonempty r r.base r.size (max r.base (limit excl)) (limit r) (omega arith)
            (omega arith))
    pieces-remaining_of equal h =
        rw
          (
            part-none r r.base (min (limit r) excl.base) (omega arith),
            part-none r (max r.base (limit excl)) (limit r) (omega arith),
          )
          refl
    pieces-remaining_of subset h =
        rw
          (
            part-none r r.base (min (limit r) excl.base) (omega arith),
            part-none r (max r.base (limit excl)) (limit r) (omega arith),
          )
          refl
    pieces-remaining_of less_equal h =
        rw (part-none r (max r.base (limit excl)) (limit r) (omega arith)) (
          part-nonempty r r.base (excl.base - r.base) r.base (min (limit r) excl.base) refl
            (omega arith)
          ∙ sym (append-nil _))
    pieces-remaining_of greater_equal h =
        rw (part-none r r.base (min (limit r) excl.base) (omega arith)) (
          part-nonempty r (limit excl - 1 + 1) (limit r - 1 - (limit excl - 1))
            (max r.base (limit excl)) (limit r) (omega (arith, vx.not_empty))
            (omega (arith, vx.not_empty)))
    pieces-remaining_of superset h =
        nonempty-append (below r excl ∷ []) (above r excl ∷ [])
        ∙ ap₂ ◌++◌
            (part-nonempty r r.base (excl.base - r.base) r.base (min (limit r) excl.base) refl
              (omega arith))
            (part-nonempty r (limit excl - 1 + 1) (limit r - 1 - (limit excl - 1))
              (max r.base (limit excl)) (limit r) (omega (arith, vx.not_empty))
              (omega (arith, vx.not_empty)))

    extra-is_split :
        (o : RangeOrdering)
        → Relates o r excl
        → extra (low_of r excl o) (high_of r excl o) ≡ (if is_split excl r then 1 else 0)
    extra-is_split less h = ground (arith, vx.not_empty, vr.not_empty)
    extra-is_split greater h = ground (arith, vx.not_empty, vr.not_empty)
    extra-is_split _ h = ground (arith, vx.not_empty, vr.not_empty)

  abbrev pub AllValid : ℕ → List (Range T) → Type 0
  AllValid w [] = Unit
  AllValid w (x ∷ xs) = IsValid w x × AllValid w xs

  -- The pieces of a list of valid ranges.
  record Excluded (w : ℕ) (excl : Range T) (xs : List (Range T)) : Type ℓ where
    left : List (Range T)
    pieces : Pieces w excl xs left (splits excl xs)
    trimmed : nonempty left ≡ remaining excl xs

  module _ (w : ℕ) (excl : Range T) (vx : IsValid w excl) (inside : limit excl < 2 ^ w) where
    excluded : (xs : List (Range T)) → AllValid w xs → Excluded w excl xs
    unfolding nonempty remaining splits
    excluded [] h = record { left = []; pieces = nil; trimmed = refl }
    excluded (x ∷ xs) (vr, h) =
        let (o, related, run) = exclude-eq w x excl vr vx inside in
        let rest = excluded xs h in
        record {
          left = to_list (low_of x excl o) (high_of x excl o) ++ rest.left;
          pieces =
              subst (Pieces w excl _ _)
                (ap (λ n. n + splits excl xs) (extra-is_split w x excl vr vx inside o related))
                (cons _ _ run rest.pieces);
          trimmed =
              nonempty-append (to_list (low_of x excl o) (high_of x excl o)) rest.left
              ∙ ap₂ ◌++◌ (pieces-remaining_of w x excl vr vx inside o related) rest.trimmed;
        }

    -- With valid ranges, an exclusion range that ends below the top of the address space and a free
    -- slot for each range that is split, `exclude_range` does not panic. The set then reads as the
    -- nonempty parts of its ranges outside the exclusion range, in order.
    pub exclude_range-remaining :
        {cap : ℕ} (s : RangeSet T) (xs : List (Range T))
        → IsView cap s xs
        → AllValid w xs
        → length xs + splits excl xs ≤ cap
        → ReturnsView cap (remaining excl xs) (exclude_range w cap s excl)
    unfolding exclude_range
    exclude_range-remaining {cap} s xs v valid room =
        let ex = excluded xs valid in
        let (s', run, v') =
          exclude_loop-Pieces w excl (s.count + 1) [] s 0 ex.pieces v (omega arith)
            (omega (arith, v.used)) refl in
        rw run (rw (← ex.trimmed) (trim_empty_ranges-nonempty s' ex.left v'))
