-- ===== src/Support/Range/Cut.antt =====
-- `Range::split` of src/support/range.rs.
use propeller_kernel.Prelude.{
  ℕ, ◌+◌, ◌-◌, ◌^◌, ◌≡◌, refl, ◌&&◌, Option, none, some, Run, ok, arith, ltb, leb, inl, inr, false,
  ◌==◌, Bool-cases, lt→ltb, le→leb,
}
use propeller_kernel.Support.Range.{Range, Split, err, parts, split}
use propeller_kernel.Support.Range.Elements.{IsValid, contains, contains?, last_of_lem}
use propeller_kernel.Support.Range.Order.{limit}

module _ {ℓ} {T : Type ℓ} where
  -- A valid part of `r` with its tag, or nothing.
  abbrev pub IsValidPart : ℕ → Range T → Option (Range T) → Type ℓ
  IsValidPart w r none = Unit
  IsValidPart w r (some p) = (p.tag ≡ r.tag) × IsValid w p

  -- The run returns the elements of `r` below `at`, and those from `at` on.
  pub record IsCut (w : ℕ) (r : Range T) (at : ℕ) (result : Run (Split T)) : Type ℓ where
    pub low : Option (Range T)
    pub high : Option (Range T)
    pub returns : result ≡ ok (parts low high)
    pub below : (x : ℕ) → contains? low x ≡ (contains r x && ltb x at)
    pub above : (x : ℕ) → contains? high x ≡ (contains r x && leb at x)
    pub low_valid : IsValidPart w r low
    pub high_valid : IsValidPart w r high

  -- Splitting a valid range at any point does not panic. The low part holds exactly the elements
  -- below the point, the high part exactly the others; a part that has no elements is `none`, and
  -- the other parts are valid ranges with the tag of the original one.
  pub split-IsCut : (w : ℕ) (r : Range T) → IsValid w r → (at : ℕ) → IsCut w r at (split w r at)
  unfolding split
  split-IsCut w r v at = rw nonzero (
      rw (last_of_lem w r v) (elim (Bool-cases (leb at r.base)) [
        | inl low ↦ rw low (record {
          low = none;
          high = some r;
          returns = refl;
          below = λ x. ground arith;
          above = λ x. ground arith;
          low_valid = tt;
          high_valid = (refl, v);
        })
        | inr high ↦ rw high (elim (Bool-cases (ltb (limit r - 1) at)) [
          | inl beyond ↦ rw beyond (record {
            low = some r;
            high = none;
            returns = refl;
            below = λ x. ground arith;
            above = λ x. ground arith;
            low_valid = (refl, v);
            high_valid = tt;
          })
          | inr within ↦ rw within (record {
            low = some (record r { size = at - r.base });
            high = some (record r { base = at; size = limit r - 1 - at + 1 });
            returns =
                rw
                  (
                    le→leb r.base at (ground arith),
                    le→leb at (limit r - 1) (ground arith),
                    lt→ltb (limit r - 1 - at + 1) (2 ^ w) (ground (arith, v.fits)),
                  )
                  refl;
            below = λ x. ground arith;
            above = λ x. ground (arith, v.not_empty);
            low_valid = (refl, ground arith);
            high_valid = (refl, ground (arith, v.fits));
          })
        ])
      ]))
    where
      nonzero : (r.size == 0) ≡ false
      nonzero = ground (arith, v.not_empty)

  -- An empty range cannot be split.
  pub split-err : (w : ℕ) (r : Range T) (at : ℕ) → r.size ≡ 0 → split w r at ≡ ok err
  unfolding split
  split-err w r at h = rw h
