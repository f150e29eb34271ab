-- ===== src/Support/Dtb/Scan.antt =====
-- `DtbReader::scan` of src/support/dtb.rs with a scanner: code on the scanner's own state that may fail.
-- The state is kept when it does.
use propeller_kernel.Prelude.{
  ℕ, zero, suc, ◌+◌, Bool, ◌||◌, Option, none, some, List, Run, ok, out_of_fuel, ◌==◌,
  if◌then◌else◌, length,
}
use propeller_kernel.Prelude.Monad
use propeller_kernel.Support.Dtb.{
  fdt_begin_node, fdt_end_node, fdt_noop, fdt_end, invalid_dtb, DtbReader, get_u32,
}
use propeller_kernel.Support.Dtb.Parse.{Result, value, error, Parse, return, fail, ok_or}
use propeller_kernel.Support.Dtb.Parse
use propeller_kernel.Support.Dtb.Walk.{node_name, skip_node_properties}

abbrev pub Scan : Type 0 → Type 0 → Type 0
Scan S A = S → Run (S × Result A)

module _ {S : Type 0} where
  abbrev pub and_then : {A B : Type 0} → (A → Scan S B) → S × Result A → Run (S × Result B)
  and_then next (s, value a) = next a s
  and_then next (s, error e) = ok (s, error e)

  abbrev pub get : Scan S S
  get s = ok (s, value s)

  abbrev pub put : S → Scan S (Unit {0})
  put s' s = ok (s', value tt)

  abbrev pub done : {A : Type 0} → A → Scan S A
  done a s = ok (s, value a)

  abbrev pub lift : {A : Type 0} → Parse A → Scan S A
  lift code s = Monad.◌>>=◌ code (λ r. ok (s, r))

infixl 5 ◌>>=◌ ◌>>◌
abbrev pub ◌>>=◌ : {S A B : Type 0} (code : Scan S A) (next : A → Scan S B) → Scan S B
◌>>=◌ code next s = Monad.◌>>=◌ (code s) (and_then next)

abbrev pub ◌>>◌ : {S B : Type 0} (code : Scan S (Unit {0})) (next : Scan S B) → Scan S B
code >> next = code >>= λ finished. next

module _ (w : ℕ) (r : DtbReader) where
  -- The inner loop of `scan`: behind the marker of the next node, or `none` at the end of the tree.
  unfoldable pub next_node_loop : ℕ → ℕ → Parse (Option ℕ)
  next_node_loop zero loc = out_of_fuel
  next_node_loop (suc fuel) loc =
      Parse.◌>>=◌ (ok_or (get_u32 w r loc) invalid_dtb) (λ (marker, loc1).
        let again = next_node_loop fuel loc1 in
        if marker == fdt_begin_node
        then return (some loc1)
        else if marker == fdt_end_node || marker == fdt_noop
        then again
        else if marker == fdt_end
        then return none
        else fail invalid_dtb)

  module _ {S : Type 0} (scan_node : DtbReader → List ℕ → ℕ → Scan S Bool) where
    unfoldable pub scan_loop : ℕ → ℕ → Scan S (Unit {0})
    scan_loop zero loc = λ s. out_of_fuel
    scan_loop (suc fuel) loc = do
      (name, loc1) ← lift (node_name w r loc)
      more ← scan_node r name loc1
      let rest = (do
        loc2 ← lift (skip_node_properties w r loc1)
        found ← lift (next_node_loop (length r.dtb + 1) loc2)
        elim found [ none ↦ done tt | some loc3 ↦ scan_loop fuel loc3 ])
      if more then rest else done tt

    unfoldable pub scan : Scan S (Unit {0})
    scan = do
      (marker, loc) ← lift (ok_or (get_u32 w r r.dt_struct_offset) invalid_dtb)
      if marker == fdt_begin_node then scan_loop (length r.dtb + 1) loc else lift (fail invalid_dtb)
