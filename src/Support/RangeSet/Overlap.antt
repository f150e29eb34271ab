-- ===== src/Support/RangeSet/Overlap.antt =====
-- `RangeSet::trim_overlapping_ranges` of src/support/range_set.rs: it leaves ranges that are apart as
-- they are, and does not end where two neighbours overlap and no computation overflows.
use mathlib.Core.List.{append_assoc}
use propeller_kernel.Prelude.{
  ℕ, zero, suc, ◌+◌, ◌-◌, ◌≤◌, ◌<◌, ◌≡◌, refl, ap, sym, ◌∙◌, inl, inr, ◌⊎◌, List, [], ◌∷◌, ◌++◌, ok,
  out_of_fuel, arith, ltb, Bool-cases, if◌then◌else◌, length, length-append, lt→ltb, ltb-false,
}
use propeller_kernel.Support.Range.{Range, less, greater}
use propeller_kernel.Support.Range.Elements.{IsValid}
use propeller_kernel.Support.Range.Order.{limit, cmp-Relates}
use propeller_kernel.Support.RangeSet.{
  RangeSet, merge, trim_overlapping_loop, trim_overlapping_ranges, trim_ranges,
}
use propeller_kernel.Support.RangeSet.View.{IsView}
use propeller_kernel.Support.RangeSet.Trim.{nonempty, ReturnsView, trim_empty_ranges-nonempty}
use propeller_kernel.Support.RangeSet.Remaining.{AllValid}
use propeller_kernel.Support.RangeSet.Collision.{
  ordering-Relates, AllProper, HasCollision, here, there, IsSlots, KeepsCollision, load_here,
  load_next, merge-KeepsCollision,
}

module _ {ℓ} {T : Type ℓ} (w : ℕ) where
  nonempty-AllValid : (xs : List (Range T)) → AllValid w xs → nonempty xs ≡ xs
  unfolding nonempty
  nonempty-AllValid [] h = refl
  nonempty-AllValid (x ∷ xs) (v, h) =
      rw (lt→ltb 0 x.size v.not_empty) (ap (λ t. x ∷ t) (nonempty-AllValid xs h))

  -- On a set with two neighbours that meet the loop uses up any number of turns.
  trim_overlapping_loop-out_of_fuel :
      (cap fuel : ℕ) (s : RangeSet T) (i : ℕ)
      → KeepsCollision w (s, i)
      → trim_overlapping_loop w cap fuel s i ≡ out_of_fuel
  unfolding trim_overlapping_loop
  trim_overlapping_loop-out_of_fuel cap zero s i k = refl
  trim_overlapping_loop-out_of_fuel cap (suc fuel) s i k =
      go (λ t j c. trim_overlapping_loop-out_of_fuel cap fuel t j c) k.pre k.xs k.spare k.holds
        k.proper k.collides
    where
      go :
          ((t : RangeSet T) (j : ℕ)
            → KeepsCollision w (t, j)
            → trim_overlapping_loop w cap fuel t j ≡ out_of_fuel)
          → (pre xs spare : List (Range T)) → IsSlots w pre xs spare s i
          → AllProper w xs
          → HasCollision w xs
          → trim_overlapping_loop w cap (suc fuel) s i ≡ out_of_fuel
      go rec pre [] spare sl ps c = elim c [ ]
      go rec pre (x ∷ []) spare sl ps (there c) = elim c [ ]
      go rec pre (x ∷ (y ∷ rest)) spare sl (px, (py, ps)) c =
          let (o, ordered, rel) = ordering-Relates w x y px py in
          let (out, merged, keeps) = merge-KeepsCollision w cap sl px py ps o rel c in
          rw
            (
              lt→ltb i (s.count - 1) (omega (arith, sl.at, sl.used)),
              load_here w cap sl,
              load_next w cap sl,
            )
            (rw ordered (rw merged (rec out.0 out.1 keeps)))

  HasCollision-append : (pre xs : List (Range T)) → HasCollision w xs → HasCollision w (pre ++ xs)
  HasCollision-append [] xs c = c
  HasCollision-append (p ∷ pre) xs c = there (HasCollision-append pre xs c)

  -- When no range in a set is empty or reaches the top of the address space, and two neighbours share
  -- an address, `trim_ranges` neither returns nor panics: it uses up any number of turns of its loop.
  pub trim_ranges-never :
      (cap fuel : ℕ) (s : RangeSet T) (pre post : List (Range T)) (x y : Range T)
      → IsView cap s (pre ++ (x ∷ (y ∷ post)))
      → AllProper w (pre ++ (x ∷ (y ∷ post)))
      → x.base < limit y
      → y.base < limit x
      → trim_ranges w cap fuel s ≡ out_of_fuel
  unfolding trim_ranges trim_overlapping_ranges
  trim_ranges-never cap fuel s pre post x y v proper before behind =
      rw (ltb-false s.count 2 (omega (arith, v.used, length-append {ℓ})))
        (rw (trim_overlapping_loop-out_of_fuel cap fuel s 0 start) refl)
    where
      start : KeepsCollision w (s, 0)
      start = record {
        pre = [];
        xs = pre ++ (x ∷ (y ∷ post));
        spare = v.spare;
        holds = record { slots = v.slots; used = omega (arith, v.used); at = refl };
        proper = proper;
        collides = HasCollision-append pre (x ∷ (y ∷ post)) (here (before, behind));
      }

  -- Each range and its successor are valid and share no address.
  abbrev pub AllApart : List (Range T) → Type 0
  AllApart [] = Unit
  AllApart (x ∷ []) = Unit
  AllApart (x ∷ (y ∷ xs)) =
      IsValid w x × IsValid w y × ((limit x ≤ y.base) ⊎ (limit y ≤ x.base)) × AllApart (y ∷ xs)

  trim_overlapping_loop-apart :
      (cap fuel : ℕ) (s : RangeSet T) (i : ℕ) (pre xs spare : List (Range T))
      → IsSlots w pre xs spare s i
      → AllApart xs
      → length xs < fuel
      → trim_overlapping_loop w cap fuel s i ≡ ok s
  unfolding trim_overlapping_loop merge
  trim_overlapping_loop-apart cap zero s i pre xs spare sl a h = absurd (omega arith)
  trim_overlapping_loop-apart cap (suc fuel) s i pre [] spare sl a h =
      rw (ltb-false i (s.count - 1) (omega (arith, sl.at, sl.used)))
  trim_overlapping_loop-apart cap (suc fuel) s i pre (x ∷ []) spare sl a h =
      rw (ltb-false i (s.count - 1) (omega (arith, sl.at, sl.used)))
  trim_overlapping_loop-apart cap (suc fuel) s i pre (x ∷ (y ∷ rest)) spare sl (vx, vy, apart, a)
        h =
      rw
        (
          lt→ltb i (s.count - 1) (omega (arith, sl.at, sl.used)),
          load_here w cap sl,
          load_next w cap sl,
        )
        (let rest_of =
            trim_overlapping_loop-apart cap fuel s (i + 1) (pre ++ (x ∷ [])) (y ∷ rest) spare next a
              (omega arith) in
          elim apart [
            | inl l ↦ rw ((cmp-Relates w x y vx vy less).1 l) rest_of
            | inr g ↦ rw ((cmp-Relates w x y vx vy greater).1 g) rest_of
          ])
    where
      next : IsSlots w (pre ++ (x ∷ [])) (y ∷ rest) spare s (i + 1)
      next = record {
        slots = sl.slots ∙ sym (append_assoc pre (x ∷ []) (y ∷ (rest ++ spare)));
        used = omega (arith, sl.used, length-append {ℓ});
        at = omega (arith, sl.at, length-append {ℓ});
      }

  -- On valid ranges whose neighbours share no address, `trim_ranges` ends within `count + 1` turns,
  -- does not panic and changes nothing but dropping empty ranges, of which there are none.
  pub trim_ranges-apart :
      (cap fuel : ℕ) (s : RangeSet T) (xs : List (Range T))
      → IsView cap s xs
      → AllApart xs
      → AllValid w xs
      → length xs < fuel
      → ReturnsView cap xs (trim_ranges w cap fuel s)
  unfolding trim_ranges trim_overlapping_ranges
  trim_ranges-apart cap fuel s xs v a valid h =
      rw unchanged (rw (nonempty-AllValid xs valid) at (trim_empty_ranges-nonempty s xs v))
    where
      unchanged : (if ltb s.count 2 then ok s else trim_overlapping_loop w cap fuel s 0) ≡ ok s
      unchanged = elim (Bool-cases (ltb s.count 2)) [
        | inl few ↦ rw few
        | inr many ↦ rw many (
            trim_overlapping_loop-apart cap fuel s 0 [] xs v.spare
              (record { slots = v.slots; used = omega (arith, v.used); at = refl }) a h)
      ]
