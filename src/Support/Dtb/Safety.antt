-- ===== src/Support/Dtb/Safety.antt =====
-- The walks of src/support/dtb.rs end, inside the tree, whatever bytes the tree holds.
use propeller_kernel.Prelude.{
  ℕ, zero, suc, ◌+◌, ◌-◌, ◌^◌, ◌≤◌, ◌<◌, ◌≡◌, refl, sym, ◌⊎◌, inl, inr, Bool, true, false, Option,
  none, some, ok, panic, ltb, le→leb, Bool-cases, if◌then◌else◌, length, arith,
}
use mathlib.Core.Path.{subst}
use propeller_kernel.Prelude.Monad.{add, sub}
use propeller_kernel.Support.Dtb.{
  DtbReader, DtbError, invalid_dtb, get_u32, skip_and_align, get_null_terminated_u8_slice,
}
use propeller_kernel.Support.Dtb.Parse.{value, error, Parse, ◌>>=◌, ok_or, run}
use propeller_kernel.Support.Dtb.Walk.{node_name, skip_properties_loop, skip_node_properties}
use propeller_kernel.Support.Dtb.Scan.{next_node_loop}
use propeller_kernel.Support.Dtb.Cursor.{
  IsReader, get_u32_cases, skip_and_align-ok, get_null_terminated_u8_slice_cases,
}

-- The code returns a value that satisfies `P`, or an error. It ends, and panics only if `M` holds, which
-- is `⊥` where no panic is admitted.
pub data Safe {A : Type 0} (M : Type 0) (P : A → Type 0) : Parse A → Type 0 where
  returns : {a : A} → P a → Safe M P (ok (value a))
  fails : {e : DtbError} → Safe M P (ok (error e))
  panics : M → Safe M P panic

pub Safe-bind :
    {M A B : Type 0} {P : A → Type 0} {Q : B → Type 0} {code : Parse A} {next : A → Parse B}
    → Safe M P code
    → ((a : A) → P a → Safe M Q (next a))
    → Safe M Q (code >>= next)
Safe-bind (returns p) k = k _ p
Safe-bind fails k = fails
Safe-bind (panics m) k = panics m

pub Safe-if :
    {M A : Type 0} {P : A → Type 0} (test : Bool) {yes no : Parse A}
    → Safe M P yes
    → Safe M P no
    → Safe M P (if test then yes else no)
Safe-if true y n = y
Safe-if false y n = n

pub Safe-weaken :
    {M A : Type 0} {P Q : A → Type 0} {code : Parse A}
    → Safe M P code
    → ((a : A) → P a → Q a)
    → Safe M Q code
Safe-weaken (returns p) k = returns (k _ p)
Safe-weaken fails k = fails
Safe-weaken (panics m) k = panics m

pub Safe-eq :
    {M A : Type 0} {P : A → Type 0} {code code' : Parse A}
    → code ≡ code'
    → Safe M P code'
    → Safe M P code
Safe-eq {M = M} {P = P} e s = subst (Safe M P) (sym e) s

module _ (r : DtbReader) where
  -- A location behind `loc` and inside the tree.
  abbrev pub After : ℕ → ℕ → Type 0
  After loc loc' = (loc ≤ loc') × (loc' ≤ length r.dtb)

  abbrev pub NextNode : ℕ → Option ℕ → Type 0
  NextNode loc none = Unit
  NextNode loc (some loc') = (loc < loc') × (loc' ≤ length r.dtb)

  NextNode-weaken : (a b : ℕ) (o : Option ℕ) → a ≤ b → NextNode b o → NextNode a o
  NextNode-weaken a b none h n = tt
  NextNode-weaken a b (some l) h n = omega arith

module _ (w : ℕ) (r : DtbReader) (v : IsReader w r) {M : Type 0} where
  pub word-Safe :
      (loc : ℕ)
      → Safe M
          (λ p. (p.1 ≡ loc + 4) × (p.1 ≤ length r.dtb) × (p.0 < 2 ^ 32))
          (ok_or (get_u32 w r loc) invalid_dtb)
  word-Safe loc = elim (get_u32_cases w r v loc) [
    | inl (past, _) ↦ Safe-eq (rw past refl) (fails {e = invalid_dtb})
    | inr (number, read, room, small) ↦
        Safe-eq (rw read refl) (returns {a = (number, loc + 4)} (refl, room, small))
  ]

  pub skip-Safe :
      (n loc : ℕ) → loc ≤ length r.dtb → Safe M (After r loc) (run (skip_and_align w r n loc))
  skip-Safe n loc h =
      let (loc', skipped, above, below) = skip_and_align-ok w r v n loc h in
      Safe-eq (rw skipped refl) (returns {a = loc'} (above, below))

  pub name-Safe :
      (loc : ℕ)
      → loc ≤ length r.dtb
      → Safe M (λ p. After r loc (p.1)) (ok_or (get_null_terminated_u8_slice w r loc) invalid_dtb)
  name-Safe loc h = elim (get_null_terminated_u8_slice_cases w r v loc h) [
    | inl missing ↦ Safe-eq (rw missing refl) (fails {e = invalid_dtb})
    | inr (name, end, found, above, below) ↦
        Safe-eq (rw found refl) (returns {a = (name, end)} (above, omega arith))
  ]

  pub node_name-Safe :
      (loc : ℕ) → loc ≤ length r.dtb → Safe M (λ p. After r loc (p.1)) (node_name w r loc)
  unfolding node_name
  node_name-Safe loc h = Safe-bind (name-Safe loc h) (λ (name, end) (above, below).
      Safe-bind (skip-Safe 1 end below) (λ loc' (above', below'). returns (omega arith, below')))

  -- Panics are admitted, or `usize` is wider than the cells of the tree.
  module _ (wide : M ⊎ (2 ^ 32 + 4 ≤ 2 ^ w)) where
    skip_properties_loop-Safe :
        (fuel loc : ℕ)
        → loc ≤ length r.dtb
        → length r.dtb < loc + fuel
        → Safe M (After r loc) (skip_properties_loop w r fuel loc)
    unfolding skip_properties_loop
    skip_properties_loop-Safe zero loc h f = absurd (omega arith)
    skip_properties_loop-Safe (suc fuel) loc h f =
        Safe-bind (word-Safe loc) (λ (marker, loc1) (moved, inside, small).
          Safe-if _
            (Safe-bind (word-Safe loc1) (λ (prop_size, loc2) (moved', inside', small').
              Safe-bind (added prop_size small') (λ n tt'.
                Safe-bind (skip-Safe n loc2 inside') (λ loc3 (above, below).
                  Safe-weaken (skip_properties_loop-Safe fuel loc3 below (omega arith))
                    (λ l (a, b). (omega arith, b))))))
            (Safe-if _ (Safe-eq (back loc1 (omega arith)) (returns (omega arith, omega arith))) (
              Safe-if _
                (Safe-weaken (skip_properties_loop-Safe fuel loc1 inside (omega arith))
                  (λ l (a, b). (omega arith, b)))
                (fails {e = invalid_dtb}))))
      where
        added : (n : ℕ) → n < 2 ^ 32 → Safe M (λ k. Unit {0}) (run (add w n 4))
        added n s = elim (Bool-cases (ltb (n + 4) (2 ^ w))) [
          | inl fits ↦ Safe-eq (rw fits refl) (returns {a = n + 4} tt)
          | inr over ↦ elim wide [
            | inl m ↦ Safe-eq (rw over refl) (panics m)
            | inr roomy ↦ absurd (ground (arith, over, roomy, s))
          ]
        ]

        back : (l : ℕ) → 4 ≤ l → run (sub l 4) ≡ ok (value (l - 4))
        back l h = rw (le→leb 4 l h) refl

    pub skip_node_properties-Safe :
        (loc : ℕ) → loc ≤ length r.dtb → Safe M (After r loc) (skip_node_properties w r loc)
    unfolding skip_node_properties
    skip_node_properties-Safe loc h =
        skip_properties_loop-Safe (length r.dtb + 1) loc h (omega arith)

  pub next_node_loop-Safe :
      (fuel loc : ℕ)
      → loc ≤ length r.dtb
      → length r.dtb < loc + fuel
      → Safe M (NextNode r loc) (next_node_loop w r fuel loc)
  unfolding next_node_loop
  next_node_loop-Safe zero loc h f = absurd (omega arith)
  next_node_loop-Safe (suc fuel) loc h f =
      Safe-bind (word-Safe loc) (λ (marker, loc1) (moved, inside, small).
        Safe-if _ (returns {a = some loc1} (omega arith, inside)) (
          Safe-if _
            (Safe-weaken (next_node_loop-Safe fuel loc1 inside (omega arith))
              (λ o n. NextNode-weaken r loc loc1 o (omega arith) n))
            (Safe-if _ (returns {a = none} tt) (fails {e = invalid_dtb}))))
