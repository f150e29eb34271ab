-- ===== src/Support/Dtb/Property.antt =====
-- `get_next_property` of src/support/dtb.rs: a property that it returns is passed.
use propeller_kernel.Prelude.{
  ℕ, zero, suc, ◌+◌, ◌-◌, ◌≤◌, ◌<◌, refl, inl, inr, Option, none, some, List, Run, ok, panic,
  out_of_fuel, ◌==◌, le→leb, length, arith,
}
use propeller_kernel.Prelude.Monad
use propeller_kernel.Prelude.Monad.{sub}
use propeller_kernel.Prelude.Ends.{Ends}
use propeller_kernel.Support.Dtb.{
  DtbReader, DtbPropertyHeader, get_slice_from_string_table, property_header, next_property_loop,
  get_next_property,
}
use propeller_kernel.Support.Dtb.Parse.{Parse, run}
use propeller_kernel.Support.Dtb.Cursor.{IsReader, get_u32_cases}
use propeller_kernel.Support.Dtb.Safety.{Safe, returns, panics, Safe-eq, Safe-weaken}
use propeller_kernel.Support.Dtb.Ending.{if-Safe, get_slice_from_string_table-Ends}

-- The location is inside the tree, not before `loc`, and behind it when a property is returned.
abbrev pub Passed : DtbReader → ℕ → Option DtbPropertyHeader × ℕ → Type 0
Passed r loc (none, loc') = (loc ≤ loc') × (loc' ≤ length r.dtb)
Passed r loc (some h, loc') = (loc < loc') × (loc' ≤ length r.dtb)

Passed-weaken :
    (r : DtbReader) (a b : ℕ) (p : Option DtbPropertyHeader × ℕ)
    → a ≤ b
    → Passed r b p
    → Passed r a p
Passed-weaken r a b (none, loc') h (x, y) = (omega arith, y)
Passed-weaken r a b (some p, loc') h (x, y) = (omega arith, y)

module _ (w : ℕ) (r : DtbReader) (v : IsReader w r) {M : Type 0} (m : M) where
  named-Safe :
      (size name_offset loc : ℕ) (code : Run (Option (List ℕ)))
      → 0 < loc
      → loc ≤ length r.dtb
      → Ends code
      → (start : ℕ) → start < loc
      → Safe M (Passed r start) (
          run (
            Monad.◌>>=◌ code (λ found. elim found as (λ o. Run (Option DtbPropertyHeader × ℕ)) [
              | none ↦ ok (none, loc)
              | some name ↦
                  ok (some (record { size = size; name_offset = name_offset; name = name }), loc)
            ])))
  named-Safe size off loc (ok none) p h e start s = returns (omega arith, h)
  named-Safe size off loc (ok (some name)) p h e start s = returns (s, h)
  named-Safe size off loc panic p h e start s = panics m
  named-Safe size off loc out_of_fuel p h e start s = absurd (e refl)

  header-Safe :
      (loc start : ℕ)
      → loc ≤ length r.dtb
      → start < loc
      → Safe M (Passed r start) (run (property_header w r loc))
  unfolding property_header
  header-Safe loc start h s = elim (get_u32_cases w r v loc) [
    | inl (past, _) ↦ Safe-eq (rw past refl) (returns {a = (none, loc)} (omega arith, h))
    | inr (size, read, room, small) ↦ rw read (elim (get_u32_cases w r v (loc + 4)) [
      | inl (past, _) ↦ Safe-eq (rw past refl) (returns {a = (none, loc + 4)} (omega arith, room))
      | inr (name_offset, read', room', small') ↦ rw read' (
          named-Safe size name_offset (loc + 4 + 4) (get_slice_from_string_table w r name_offset)
            (omega arith) room' (get_slice_from_string_table-Ends w r name_offset) start
            (omega arith))
    ])
  ]

  next_property_loop-Safe :
      (fuel loc : ℕ)
      → loc ≤ length r.dtb
      → length r.dtb < loc + fuel
      → Safe M (Passed r loc) (run (next_property_loop w r fuel loc))
  unfolding next_property_loop
  next_property_loop-Safe zero loc h f = absurd (omega arith)
  next_property_loop-Safe (suc fuel) loc h f = elim (get_u32_cases w r v loc) [
    | inl (past, _) ↦ Safe-eq (rw past refl) (returns {a = (none, loc)} (omega arith, h))
    | inr (marker, read, room, small) ↦ rw read (
        if-Safe (marker == 4) _ _
          (Safe-weaken (next_property_loop-Safe fuel (loc + 4) room (omega arith))
            (λ p n. Passed-weaken r loc (loc + 4) p (omega arith) n))
          (if-Safe (marker == 3) _ _ (header-Safe (loc + 4) loc room (omega arith)) (
            Safe-eq (rw (le→leb 4 (loc + 4) (omega arith)) refl)
              (returns {a = (none, loc + 4 - 4)} (omega arith, omega arith)))))
  ]

  pub get_next_property-Safe :
      (loc : ℕ) → loc ≤ length r.dtb → Safe M (Passed r loc) (run (get_next_property w r loc))
  unfolding get_next_property
  get_next_property-Safe loc h = next_property_loop-Safe (length r.dtb + 1) loc h (omega arith)

-- The two cases of a property that was read.
pub found-Safe :
    {M B : Type 0} {Q : B → Type 0} (r : DtbReader) (loc loc1 : ℕ)
    (found : Option DtbPropertyHeader) {stop : Parse B} (next : DtbPropertyHeader → Parse B)
    → Passed r loc (found, loc1)
    → Safe M Q stop
    → ((h : DtbPropertyHeader) → loc < loc1 → loc1 ≤ length r.dtb → Safe M Q (next h))
    → Safe M Q (elim found [ none ↦ stop | some h ↦ next h ])
found-Safe r loc loc1 none next p s k = s
found-Safe r loc loc1 (some h) next (moved, inside) s k = k h moved inside
