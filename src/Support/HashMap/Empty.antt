-- ===== src/Support/HashMap/Empty.antt =====
-- The empty table of src/support/hash_map.rs.
use propeller_kernel.Prelude.{
  ℕ, zero, suc, ◌+◌, ◌≤◌, ◌<◌, ◌≡◌, refl, Option, none, ok, arith, replicate, length-replicate,
}
use propeller_kernel.Prelude.Monad.{load}
use propeller_kernel.Support.HashMap.{Eq, find_loop, find, new}
use propeller_kernel.Support.HashMap.Probe.{Fits, make_probe_index-ok}

module _ {K V : Type 0} where
  load-replicate :
      (n idx : ℕ) → idx < n → load (replicate {A = Option (K × V)} n none) idx ≡ ok none
  unfolding load
  load-replicate zero idx l = absurd (omega arith)
  load-replicate (suc n) zero l = refl
  load-replicate (suc n) (suc idx) l = load-replicate n idx (omega arith)

  find_loop-replicate :
      ⦃e : Eq K⦄ (h : ℕ) (key : K) (n left i : ℕ)
      → Fits h n
      → i + left ≤ n
      → find_loop h key left i (replicate {A = Option (K × V)} n none) ≡ ok none
  unfolding find_loop
  find_loop-replicate h key n zero i fits l = refl
  find_loop-replicate h key n (suc left) i fits l =
      let (idx, probe, inside) = make_probe_index-ok h i n fits (omega arith) in
      rw (length-replicate {A = Option (K × V)} n none, probe)
        (rw (load-replicate n idx inside)
          (find_loop-replicate h key n left (i + 1) fits (omega arith)))

  -- In an empty table there is no key.
  pub find-new :
      ⦃e : Eq K⦄ (hash : K → ℕ) (key : K) (n : ℕ)
      → Fits (hash key) n
      → find hash (new {K = K} {V = V} n) key ≡ ok none
  unfolding find new
  find-new hash key n fits =
      rw (length-replicate {A = Option (K × V)} n none)
        (find_loop-replicate (hash key) key n n 0 fits (omega arith))
