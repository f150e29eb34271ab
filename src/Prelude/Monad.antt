-- ===== src/Prelude/Monad.antt =====
-- The result of running kernel code: a value, a panic, or a loop that has used up the fuel it was
-- given. A failed `assert!`, `unwrap` of `None`,
-- slice index out of range and, with the dev profile's checks, an arithmetic overflow all panic.
use Prim.Native.Nat.{ℕ, zero, suc, ◌+◌, ◌-◌, ◌*◌, ◌/◌, ◌%◌, ◌^◌}
use mathlib.Core.Path.{◌≡◌, refl}
use mathlib.Core.Bool.{Bool, true, false}
use mathlib.Core.Option.{Option, none, some}
use mathlib.Core.List.{List}
use propeller_kernel.Prelude.Lists.{length, get_elem?, set}
use propeller_kernel.Prelude.Tests.{ltb, leb, if◌then◌else◌}

pub data Run {ℓ} (A : Type ℓ) : Type ℓ where
  ok : A → Run A
  panic : Run A
  out_of_fuel : Run A

infixl 5 ◌>>=◌ ◌>>◌
-- What follows code that has panicked or is still looping is not run.
abbrev pub ◌>>=◌ {ℓ κ} : {V : Type ℓ} {W : Type κ} (code : Run V) (next : (v : V) → Run W) → Run W
out_of_fuel >>= next = out_of_fuel
panic >>= next = panic
ok v >>= next = next v

module _ {ℓ κ} {V : Type ℓ} {W : Type κ} (next : V → Run W) where
  -- When a sequence ends in a value, its first part did.
  pub >>=-eq-ok :
      (code : Run V) {w : W} → (code >>= next) ≡ ok w → (v : V) × (code ≡ ok v) × (next v ≡ ok w)
  >>=-eq-ok out_of_fuel e = cc
  >>=-eq-ok panic e = cc
  >>=-eq-ok (ok v) e = (v, refl, e)

abbrev pub ◌>>◌ {κ} : {W : Type κ} (code : Run (Unit {0})) (next : Run W) → Run W
code >> next = code >>= λ done. next

module _ {ℓ} {U V W : Type ℓ} where
  pub bind_assoc :
      (code : Run U) (f : U → Run V) (g : V → Run W)
      → ((code >>= f) >>= g) ≡ (code >>= λ u. f u >>= g)
  bind_assoc out_of_fuel f g = refl
  bind_assoc panic f g = refl
  bind_assoc (ok u) f g = refl

-- Two continuations that agree may stand for each other.
pub bind_cong {ℓ} :
    {U V : Type ℓ} (code : Run U) {f g : U → Run V}
    → ((u : U) → f u ≡ g u)
    → (code >>= f) ≡ (code >>= g)
bind_cong out_of_fuel h = refl
bind_cong panic h = refl
bind_cong (ok u) h = h u

-- `assert!`.
abbrev pub check : (test : Bool) → Run (Unit {0})
check false = panic
check true = ok tt

-- `unwrap`.
abbrev pub unwrap {ℓ} : {A : Type ℓ} → Option A → Run A
unwrap none = panic
unwrap (some a) = ok a

-- `a + b`, `a - b` and `a * b` on a `w`-bit unsigned integer.
abbrev pub add : (w : ℕ) → ℕ → ℕ → Run ℕ
add w a b = if ltb (a + b) (2 ^ w) then ok (a + b) else panic

abbrev pub sub : ℕ → ℕ → Run ℕ
sub a b = if leb b a then ok (a - b) else panic

abbrev pub mul : (w : ℕ) → ℕ → ℕ → Run ℕ
mul w a b = if ltb (a * b) (2 ^ w) then ok (a * b) else panic

-- `a % b`, which panics at a divisor of zero.
abbrev pub rem : ℕ → ℕ → Run ℕ
rem a zero = panic
rem a (suc b) = ok (a % suc b)

-- `a / b`, which panics at a divisor of zero.
abbrev pub div : ℕ → ℕ → Run ℕ
div a zero = panic
div a (suc b) = ok (a / suc b)

-- `xs[i]` and `xs[i] = v`.
unfoldable pub load {ℓ} : {A : Type ℓ} → List A → ℕ → Run A
load xs i = unwrap (get_elem? xs i)

unfoldable pub store {ℓ} : {A : Type ℓ} → List A → ℕ → A → Run (List A)
store xs i v = if ltb i (length xs) then ok (set xs i v) else panic
