-- ===== src/Prelude/Access.antt =====
-- Reads and writes of array slots that are in range.
use propeller_kernel.Prelude.Lists.{length, set, get_elem?-set_self, get_elem?-set_ne, get_elem?_lt}
use propeller_kernel.Prelude.Tests.{lt→ltb}
use propeller_kernel.Prelude.Monad.{ok, load, store}
use Prim.Native.Nat.{ℕ, zero, suc, ◌<◌}
use mathlib.Core.Path.{◌≡◌}
use mathlib.Core.Logic.{◌≢◌}
use mathlib.Core.List.{List, [], ◌∷◌}
use native.Mathlib.Omega.{arith}

module _ {ℓ} {A : Type ℓ} where
  pub load-lt : (xs : List A) (i : ℕ) {a : A} → load xs i ≡ ok a → i < length xs
  unfolding load
  load-lt [] i h = absurd (cc h)
  load-lt (x ∷ xs) zero h = omega arith
  load-lt (x ∷ xs) (suc i) h = omega (arith, load-lt xs i h)

  pub lt-load : (xs : List A) (i : ℕ) → i < length xs → (a : A) × (load xs i ≡ ok a)
  unfolding load
  lt-load xs i h = let (a, e) = get_elem?_lt xs i h in (a, rw e)

  pub store_lem : (xs : List A) (i : ℕ) (v : A) → i < length xs → store xs i v ≡ ok (set xs i v)
  unfolding store
  store_lem xs i v h = rw (lt→ltb i (length xs) h)

  pub load-set_self : (xs : List A) (i : ℕ) (v : A) → i < length xs → load (set xs i v) i ≡ ok v
  unfolding load
  load-set_self xs i v h = rw (get_elem?-set_self xs i v h)

  pub load-set_ne : (xs : List A) (i j : ℕ) (v : A) → i ≢ j → load (set xs i v) j ≡ load xs j
  unfolding load
  load-set_ne xs i j v h = rw (get_elem?-set_ne xs i j v h)
