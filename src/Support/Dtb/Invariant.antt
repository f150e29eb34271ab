-- ===== src/Support/Dtb/Invariant.antt =====
-- The rule for `DtbReader::scan` of src/support/dtb.rs: what the scanner keeps at each node, the scan keeps.
use propeller_kernel.Prelude.{
  ℕ, zero, suc, ◌+◌, ◌^◌, ◌≤◌, ◌<◌, Bool, true, false, Option, none, some, List, Run, ok, panic,
  ◌⊎◌, ◌==◌, if◌then◌else◌, length, arith,
}
use propeller_kernel.Support.Dtb.Property.{Passed}
use propeller_kernel.Support.Dtb.{
  DtbPropertyHeader, DtbReader, DtbError, invalid_dtb, fdt_begin_node,
}
use propeller_kernel.Support.Dtb.Parse.{Result, value, error, Parse, fail}
use propeller_kernel.Support.Dtb.Scan.{Scan, lift, done, and_then, scan_loop, scan}
use propeller_kernel.Prelude.Monad
use propeller_kernel.Support.Dtb.Cursor.{IsReader}
use propeller_kernel.Support.Dtb.Safety.{
  Safe, word-Safe, node_name-Safe, skip_node_properties-Safe, next_node_loop-Safe, NextNode,
}
use propeller_kernel.Support.Dtb.Safety

-- The code leaves a state that satisfies `I`, and returns a value that satisfies `P` or an error. It
-- ends, and panics only if `M` holds.
pub data Runs {S A : Type 0} (M : Type 0) (I : S → Type 0) (P : A → Type 0)
    : Run (S × Result A) → Type 0 where
  returns : {s : S} {a : A} → I s → P a → Runs M I P (ok (s, value a))
  fails : {s : S} {e : DtbError} → I s → Runs M I P (ok (s, error e))
  panics : M → Runs M I P panic

module _ {M S : Type 0} {I : S → Type 0} where
  pub Runs-bind :
      {A B : Type 0} {P : A → Type 0} {Q : B → Type 0} {out : Run (S × Result A)}
      (next : A → Scan S B)
      → Runs M I P out
      → ((a : A) (s : S) → P a → I s → Runs M I Q (next a s))
      → Runs M I Q (Monad.◌>>=◌ out (and_then next))
  Runs-bind next (returns i p) k = k _ _ p i
  Runs-bind next (fails i) k = fails i
  Runs-bind next (panics m) k = panics m

  pub Runs-if :
      {A : Type 0} {P : A → Type 0} (test : Bool) (yes no : Scan S A) (s : S)
      → Runs M I P (yes s)
      → Runs M I P (no s)
      → Runs M I P ((if test then yes else no) s)
  Runs-if true a b s y n = y
  Runs-if false a b s y n = n

  pub Runs-lift :
      {A : Type 0} {P : A → Type 0} {code : Parse A} (s : S)
      → I s
      → Safe M P code
      → Runs M I P (lift code s)
  Runs-lift s i (Safety.returns p) = returns i p
  Runs-lift s i Safety.fails = fails i
  Runs-lift s i (Safety.panics m) = panics m

  -- The two cases of a property that was read.
  pub found-Runs :
      {B : Type 0} {Q : B → Type 0} (r : DtbReader) (loc loc1 : ℕ)
      (found : Option DtbPropertyHeader) (stop : Scan S B) (next : DtbPropertyHeader → Scan S B)
      (s : S)
      → Passed r loc (found, loc1)
      → Runs M I Q (stop s)
      → ((h : DtbPropertyHeader) → loc < loc1 → loc1 ≤ length r.dtb → Runs M I Q (next h s))
      → Runs M I Q (elim found as (λ o. Scan S B) [ none ↦ stop | some h ↦ next h ] s)
  found-Runs r loc loc1 none stop next s p x k = x
  found-Runs r loc loc1 (some h) stop next s (moved, inside) x k = k h moved inside

module _ (w : ℕ) (r : DtbReader) (v : IsReader w r) {M : Type 0} (wide : M ⊎ (2 ^ 32 + 4 ≤ 2 ^ w))
    {S : Type 0} (I : S → Type 0) (scan_node : DtbReader → List ℕ → ℕ → Scan S Bool)
    (keeps : (name : List ℕ) (loc : ℕ) (s : S)
      → loc ≤ length r.dtb
      → I s
      → Runs M I (λ more. Unit {0}) (scan_node r name loc s)) where
  -- The scan goes on at the next node, if there is one.
  next-Runs :
      (fuel loc : ℕ)
      → ((l : ℕ) (s : S)
          → l ≤ length r.dtb
          → length r.dtb < l + fuel
          → I s
          → Runs M I (λ u. Unit {0}) (scan_loop w r scan_node fuel l s))
      → length r.dtb < loc + suc fuel
      → (found : Option ℕ) (s : S) → NextNode r loc found
      → I s
      → Runs M I
          (λ u. Unit {0})
          (elim found as (λ o. Scan S (Unit {0})) [
            | none ↦ done tt
            | some l ↦ scan_loop w r scan_node fuel l
          ]
            s)
  next-Runs fuel loc rec f none s n i = returns i tt
  next-Runs fuel loc rec f (some l) s n i = rec l s (omega arith) (omega arith) i

  scan_loop-Runs :
      (fuel loc : ℕ) (s : S)
      → loc ≤ length r.dtb
      → length r.dtb < loc + fuel
      → I s
      → Runs M I (λ u. Unit {0}) (scan_loop w r scan_node fuel loc s)
  unfolding scan_loop
  scan_loop-Runs zero loc s h f i = absurd (omega arith)
  scan_loop-Runs (suc fuel) loc s h f i =
      Runs-bind _ (Runs-lift s i (node_name-Safe w r v loc h)) (λ (name, loc1) s1 (above, below) i1.
        Runs-bind _ (keeps name loc1 s1 below i1) (λ more s2 u i2.
          Runs-if more _ _ s2
            (Runs-bind _ (Runs-lift s2 i2 (skip_node_properties-Safe w r v wide loc1 below))
              (λ loc2 s3 (above2, below2) i3.
                Runs-bind _
                  (Runs-lift s3 i3
                    (next_node_loop-Safe w r v (length r.dtb + 1) loc2 below2 (omega arith)))
                  (next-Runs fuel loc2 (scan_loop-Runs fuel) (omega arith))))
            (returns i2 tt)))

  -- On a tree of a size that is admitted, with any content, and with a scanner that keeps a property of
  -- its state at each node, does not loop there, and panics there only if panics are admitted: the scan
  -- ends, with a result or an error; the property holds then, also after an error. It panics only if
  -- panics are admitted, which they must be if `usize` is not wider than the cells of the tree.
  pub scan-Runs : (s : S) → I s → Runs M I (λ u. Unit {0}) (scan w r scan_node s)
  unfolding scan
  scan-Runs s i =
      Runs-bind _ (Runs-lift s i (word-Safe w r v r.dt_struct_offset))
        (λ (marker, loc) s1 (moved, inside, small) i1.
          Runs-if (marker == fdt_begin_node) (scan_loop w r scan_node (length r.dtb + 1) loc)
            (lift (fail invalid_dtb)) s1
            (scan_loop-Runs (length r.dtb + 1) loc s1 inside (omega arith) i1)
            (fails {e = invalid_dtb} i1))
