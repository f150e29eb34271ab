-- ===== src/Support/Range/Order.antt =====
-- `Range::cmp` of src/support/range.rs against the order of the two intervals.
use propeller_kernel.Prelude.{ℕ, ◌+◌, ◌-◌, ◌≤◌, ◌<◌, ◌^◌, ◌≡◌, ap, ◌↔◌, ◌⊎◌, none, some, ok, arith}
use propeller_kernel.Support.Range.{
  Range, RangeOrdering, less, less_equal, greater_equal, greater, equal, superset, subset, order_of,
  last_of, cmp,
}
use propeller_kernel.Support.Range.Elements.{IsValid, last_of_lem}

module _ {ℓ} {T : Type ℓ} where
  abbrev pub limit : Range T → ℕ
  limit r = r.base + r.size

  -- What each ordering says of two intervals `[base, limit)`.
  abbrev pub Relates : RangeOrdering → Range T → Range T → Type 0
  Relates less r s = limit r ≤ s.base
  Relates greater r s = limit s ≤ r.base
  Relates equal r s = (r.base ≡ s.base) × (limit r ≡ limit s)
  Relates superset r s =
      (r.base ≤ s.base) × (limit s ≤ limit r) × ((r.base < s.base) ⊎ (limit s < limit r))
  Relates subset r s =
      (s.base ≤ r.base) × (limit r ≤ limit s) × ((s.base < r.base) ⊎ (limit r < limit s))
  Relates less_equal r s = (r.base < s.base) × (s.base < limit r) × (limit r < limit s)
  Relates greater_equal r s = (s.base < r.base) × (r.base < limit s) × (limit s < limit r)

  module _ (w : ℕ) (r s : Range T) (vr : IsValid w r) (vs : IsValid w s) where
    pub cmp-order_of : cmp w r s ≡ ok (some (order_of r s (limit r - 1) (limit s - 1)))
    unfolding cmp
    cmp-order_of = ground (arith, last_of_lem w r vr, last_of_lem w s vs)

    pub order_of_iff :
        (o : RangeOrdering) → (order_of r s (limit r - 1) (limit s - 1) ≡ o) ↔ Relates o r s
    unfolding order_of
    order_of_iff less = ground (arith, vr.not_empty, vs.not_empty)
    order_of_iff _ = ground (arith, vr.not_empty, vs.not_empty)

    -- Two valid ranges compare with no panic, and the result is an ordering exactly when the two
    -- intervals stand in the relation that the ordering names.
    pub cmp-Relates : (o : RangeOrdering) → (cmp w r s ≡ ok (some o)) ↔ Relates o r s
    cmp-Relates o =
        rw cmp-order_of
          ((λ e. (order_of_iff o).0 (cc)), (λ h. ap (λ t. ok (some t)) ((order_of_iff o).1 h)))

  -- A comparison gives no ordering exactly when one of the ranges is empty, of any two ranges whose
  -- ends fit the word.
  pub cmp-none :
      (w : ℕ) (r s : Range T)
      → limit r ≤ 2 ^ w
      → limit s ≤ 2 ^ w
      → (cmp w r s ≡ ok none) ↔ ((r.size ≡ 0) ⊎ (s.size ≡ 0))
  unfolding cmp last_of
  cmp-none w r s hr hs = ground arith
