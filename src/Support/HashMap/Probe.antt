-- ===== src/Support/HashMap/Probe.antt =====
-- The probes of src/support/hash_map.rs: they stay in the table, and a slot that holds another key does
-- not matter to a search.
use native.Mathlib.Nat.{mul-le-mul, mod-lt}
use propeller_kernel.Prelude.{
  ℕ, zero, suc, ◌+◌, ◌*◌, ◌%◌, ◌^◌, ◌≤◌, ◌<◌, ◌≡◌, refl, ap, sym, ◌∙◌, Bool, false, inl, inr,
  Option, none, some, Run, ok, if◌then◌else◌, arith, lt→ltb, ◌==◌, ==_iff, Bool-cases, length, set,
  length-set,
}
use propeller_kernel.Prelude.Monad.{◌>>=◌, bind_cong, load}
use propeller_kernel.Prelude.Access.{load-lt, load-set_self, load-set_ne}
use propeller_kernel.Support.HashMap.{Eq, Table, make_probe_index, find_loop}

-- No probe overflows the 64-bit calculation, and the table has a slot.
pub record Fits (h n : ℕ) : Type 0 where
  pub some_slot : 0 < n
  pub no_overflow : h + n * n < 2 ^ 64

-- Each probe of a table gives one of its slots.
pub make_probe_index-ok :
    (h i n : ℕ) → Fits h n → i < n → (idx : ℕ) × (make_probe_index h i n ≡ ok idx) × (idx < n)
unfolding make_probe_index
make_probe_index-ok h i zero fits l = absurd (omega arith)
make_probe_index-ok h i (suc n) fits l = (
  (h + i * i) % suc n,
  rw
      (
        lt→ltb (i * i) (2 ^ 64) (omega (arith, square, fits.no_overflow)),
        lt→ltb (h + i * i) (2 ^ 64) (omega (arith, square, fits.no_overflow)),
      )
      refl,
  mod-lt (h + i * i) fits.some_slot,
)
  where
    square : i * i ≤ suc n * suc n
    square = mul-le-mul (omega arith) (omega arith)

module _ {K V : Type 0} ⦃e : Eq K⦄ where
  -- The slot holds the key.
  abbrev pub holds : K → Option (K × V) → Bool
  holds key none = false
  holds key (some (k, v)) = e.beq k key

  abbrev look : K → Run (Option V) → Option (K × V) → Run (Option V)
  look key rest slot = elim slot [
    | none ↦ rest
    | some (k, v) ↦ if e.beq k key then ok (some v) else rest
  ]

  -- A search step at a slot that does not hold the key.
  pub look-past :
      (key : K) (slot : Option (K × V)) (rest : Run (Option V))
      → holds key slot ≡ false
      → look key rest slot ≡ rest
  look-past key none rest h = refl
  look-past key (some (k, v)) rest h = rw h refl

  -- A search does not see a change of a slot that holds the key neither before nor after.
  pub find_loop-set :
      (h : ℕ) (key : K) (left i : ℕ) (map : Table K V) (j : ℕ) {old : Option (K × V)}
      (new : Option (K × V))
      → load map j ≡ ok old
      → holds key old ≡ false
      → holds key new ≡ false
      → find_loop h key left i (set map j new) ≡ find_loop h key left i map
  unfolding find_loop
  find_loop-set h key zero i map j new at out out' = refl
  find_loop-set h key (suc left) i map j {old} new at out out' =
      ap
        (λ n. make_probe_index h i n >>= λ idx.
          load (set map j new) idx >>= look key (find_loop h key left (i + 1) (set map j new)))
        (length-set map j new)
      ∙ bind_cong (make_probe_index h i (length map))
          (step (find_loop-set h key left (i + 1) map j new at out out'))
    where
      step :
          find_loop h key left (i + 1) (set map j new) ≡ find_loop h key left (i + 1) map
          → (idx : ℕ)
          → (load (set map j new) idx >>= look key (find_loop h key left (i + 1) (set map j new)))
            ≡ (load map idx >>= look key (find_loop h key left (i + 1) map))
      step rest idx = elim (Bool-cases (j == idx)) [
        | inl same ↦ rw (← (==_iff j idx).0 same) (
            rw (load-set_self map j new (load-lt map j at), at)
              (look-past key new _ out' ∙ (rest ∙ sym (look-past key old _ out))))
        | inr other ↦
            rw (load-set_ne map j idx new (λ e. ground (arith, e, other)))
              (bind_cong (load map idx) (λ slot. ap (λ r. look key r slot) rest))
      ]
