-- ===== src/Support/Range/Exclude.antt =====
-- `Range::exclude` of src/support/range.rs as set difference.
use propeller_kernel.Prelude.{
  ℕ, ◌+◌, ◌-◌, ◌≤◌, ◌<◌, ◌↔◌, panic, ◌^◌, ◌≡◌, refl, Bool, not, ◌&&◌, ◌||◌, Option, none, some, Run,
  ok, arith, lt→ltb, le→leb,
}
use propeller_kernel.Support.Range.{
  Range, RangeOrdering, less, less_equal, greater_equal, greater, equal, superset, subset, Split,
  parts, low_part, high_part, order_of, exclude_overlap, exclude_by, exclude,
}
use propeller_kernel.Support.Range.Elements.{IsValid, contains, contains?, last_of_lem}
use propeller_kernel.Support.Range.Order.{limit, Relates, cmp-order_of, order_of_iff}

module _ {ℓ} {T : Type ℓ} where
  -- A part of `r`: nothing, or a range inside `r` with the tag of `r`. It may be empty.
  abbrev pub IsPart : Range T → Option (Range T) → Type ℓ
  IsPart r none = Unit
  IsPart r (some p) = (p.tag ≡ r.tag) × (r.base ≤ p.base) × (limit p ≤ limit r)

  -- The low part is below the high one.
  abbrev pub Apart : Option (Range T) → Option (Range T) → Type 0
  Apart (some a) (some b) = limit a ≤ b.base
  Apart _ _ = Unit

  -- The run returns two parts of `r` that together hold the elements of `r` that `keep` selects.
  pub record Selects (r : Range T) (keep : ℕ → Bool) (result : Run (Split T)) : Type ℓ where
    pub low : Option (Range T)
    pub high : Option (Range T)
    pub returns : result ≡ ok (parts low high)
    pub elements : (x : ℕ) → (contains? low x || contains? high x) ≡ (contains r x && keep x)
    pub low_part : IsPart r low
    pub high_part : IsPart r high
    pub apart : Apart low high

  abbrev pub below : Range T → Range T → Range T
  below r excl = record r { size = excl.base - r.base }

  abbrev pub above : Range T → Range T → Range T
  above r excl = record r { base = limit excl - 1 + 1; size = limit r - 1 - (limit excl - 1) }

  -- The parts that are returned for each ordering.
  abbrev pub low_of : Range T → Range T → RangeOrdering → Option (Range T)
  low_of r excl less = some r
  low_of r excl greater = some r
  low_of r excl less_equal = some (below r excl)
  low_of r excl superset = some (below r excl)
  low_of r excl _ = none

  abbrev pub high_of : Range T → Range T → RangeOrdering → Option (Range T)
  high_of r excl greater_equal = some (above r excl)
  high_of r excl superset = some (above r excl)
  high_of r excl _ = none

  module _ (w : ℕ) (r excl : Range T) (vr : IsValid w r) (vx : IsValid w excl)
      (inside : limit excl < 2 ^ w) where
    exclude_by-eq :
        (o : RangeOrdering)
        → Relates o r excl
        → exclude_by w (some o) r excl ≡ ok (parts (low_of r excl o) (high_of r excl o))
    unfolding exclude_by exclude_overlap low_part high_part
    exclude_by-eq less h = refl
    exclude_by-eq greater h = refl
    exclude_by-eq equal h = refl
    exclude_by-eq subset h = refl
    exclude_by-eq less_equal h =
        rw (last_of_lem w r vr, last_of_lem w excl vx, le→leb r.base excl.base (omega arith)) refl
    exclude_by-eq greater_equal h =
        rw
          (
            last_of_lem w r vr,
            last_of_lem w excl vx,
            lt→ltb (limit excl - 1 + 1) (2 ^ w) (omega (arith, vx.not_empty)),
            le→leb (limit excl - 1) (limit r - 1) (omega arith),
          )
          refl
    exclude_by-eq superset h =
        rw
          (
            last_of_lem w r vr,
            last_of_lem w excl vx,
            le→leb r.base excl.base (omega arith),
            lt→ltb (limit excl - 1 + 1) (2 ^ w) (omega (arith, vx.not_empty)),
            le→leb (limit excl - 1) (limit r - 1) (omega arith),
          )
          refl

    -- The ordering of the two ranges, and the parts that `exclude` returns for it.
    pub exclude-eq :
        (o : RangeOrdering) × Relates o r excl
        × (exclude w r excl ≡ ok (parts (low_of r excl o) (high_of r excl o)))
    unfolding exclude
    exclude-eq =
        let o = order_of r excl (limit r - 1) (limit excl - 1) in
        let related = (order_of_iff w r excl vr vx o).0 refl in
        (o, related, rw (cmp-order_of w r excl vr vx) (exclude_by-eq o related))

    parts-Selects :
        (o : RangeOrdering)
        → Relates o r excl
        → {result : Run (Split T)} → result ≡ ok (parts (low_of r excl o) (high_of r excl o))
        → Selects r (λ x. not (contains excl x)) result
    parts-Selects less h e = record {
      low = some r;
      high = none;
      returns = e;
      elements = λ x. ground (arith, vx.not_empty);
      low_part = (refl, ground arith, ground arith);
      high_part = tt;
      apart = tt;
    }
    parts-Selects greater h e = record {
      low = some r;
      high = none;
      returns = e;
      elements = λ x. ground arith;
      low_part = (refl, ground arith, ground arith);
      high_part = tt;
      apart = tt;
    }
    parts-Selects equal h e = record {
      low = none;
      high = none;
      returns = e;
      elements = λ x. ground arith;
      low_part = tt;
      high_part = tt;
      apart = tt;
    }
    parts-Selects subset h e = record {
      low = none;
      high = none;
      returns = e;
      elements = λ x. ground arith;
      low_part = tt;
      high_part = tt;
      apart = tt;
    }
    parts-Selects less_equal h e = record {
      low = some (below r excl);
      high = none;
      returns = e;
      elements = λ x. ground arith;
      low_part = (refl, ground arith, ground arith);
      high_part = tt;
      apart = tt;
    }
    parts-Selects greater_equal h e = record {
      low = none;
      high = some (above r excl);
      returns = e;
      elements = λ x. ground (arith, vx.not_empty);
      low_part = tt;
      high_part = (refl, ground (arith, vx.not_empty), ground (arith, vx.not_empty));
      apart = tt;
    }
    parts-Selects superset h e = record {
      low = some (below r excl);
      high = some (above r excl);
      returns = e;
      elements = λ x. ground (arith, vx.not_empty);
      low_part = (refl, ground arith, ground arith);
      high_part = (refl, ground (arith, vx.not_empty), ground (arith, vx.not_empty));
      apart = ground (arith, vx.not_empty);
    }

    -- Excluding a valid range that ends below the top of the address space from another valid range
    -- does not panic. The parts that are returned hold exactly the elements of the range that are
    -- not in the exclusion range; each part lies inside the original range and has its tag, and the
    -- low part ends before the high part begins.
    pub exclude-Selects : Selects r (λ x. not (contains excl x)) (exclude w r excl)
    exclude-Selects = let (o, related, returned) = exclude-eq in parts-Selects o related returned

  -- Excluding a valid range from another panics exactly when the range contains the exclusion range,
  -- is not equal to it, and the exclusion range ends at the top of the address space.
  pub exclude-panic :
      (w : ℕ) (r excl : Range T)
      → IsValid w r
      → IsValid w excl
      → (exclude w r excl ≡ panic) ↔ (Relates superset r excl × (limit excl ≡ 2 ^ w))
  unfolding exclude exclude_by exclude_overlap low_part high_part
  exclude-panic w r excl vr vx =
      rw (cmp-order_of w r excl vr vx) (panics _ ((order_of_iff w r excl vr vx _).0 refl))
    where
      panics :
          (o : RangeOrdering)
          → Relates o r excl
          → (exclude_by w (some o) r excl ≡ panic)
            ↔ (Relates superset r excl × (limit excl ≡ 2 ^ w))
      panics superset h = ground (arith, last_of_lem w r vr, last_of_lem w excl vx)
      panics less h = ground (arith, vx.not_empty)
      panics greater h = ground (arith, vx.not_empty)
      panics equal h = ground (arith, vx.not_empty)
      panics subset h = ground (arith, vx.not_empty)
      panics less_equal h = ground (arith, last_of_lem w r vr, last_of_lem w excl vx)
      panics greater_equal h = ground (arith, last_of_lem w r vr, last_of_lem w excl vx)
