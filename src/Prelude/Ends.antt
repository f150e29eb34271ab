-- ===== src/Prelude/Ends.antt =====
-- Code that ends, in a value or a panic.
use Prim.Native.Nat.{ℕ, ◌+◌}
use mathlib.Core.Logic.{◌≢◌}
use mathlib.Core.Path.{refl, ◌≡◌}
use native.Mathlib.Omega.{arith}
use mathlib.Core.Bool.{Bool, true, false}
use mathlib.Core.Option.{Option, none, some}
use mathlib.Core.List.{List}
use propeller_kernel.Prelude.Lists.{get_elem?}
use propeller_kernel.Prelude.Tests.{if◌then◌else◌}
use propeller_kernel.Prelude.Monad.{
  Run, ok, panic, out_of_fuel, ◌>>=◌, check, add, sub, load, store, unwrap,
}

abbrev pub Ends {ℓ} : {A : Type ℓ} → Run A → Type ℓ
Ends code = code ≢ out_of_fuel

pub ok-Ends {ℓ} : {A : Type ℓ} (a : A) → Ends (ok a)
ok-Ends a h = cc

pub panic-Ends {ℓ} : {A : Type ℓ} → Ends {A = A} panic
panic-Ends h = cc

pub >>=-Ends {ℓ} :
    {A B : Type ℓ} (code : Run A) {next : A → Run B}
    → Ends code
    → ((a : A) → Ends (next a))
    → Ends (code >>= next)
>>=-Ends out_of_fuel e f = absurd (e refl)
>>=-Ends panic e f = panic-Ends
>>=-Ends (ok a) e f = f a

pub if-Ends {ℓ} :
    {A : Type ℓ} (test : Bool) {yes no : Run A}
    → Ends yes
    → Ends no
    → Ends (if test then yes else no)
if-Ends true y n = y
if-Ends false y n = n

pub add-Ends : (w a b : ℕ) → Ends (add w a b)
add-Ends w a b = if-Ends _ (ok-Ends _) panic-Ends

pub sub-Ends : (a b : ℕ) → Ends (sub a b)
sub-Ends a b = if-Ends _ (ok-Ends _) panic-Ends

pub check-Ends : (test : Bool) → Ends (check test)
check-Ends true = ok-Ends tt
check-Ends false = panic-Ends

pub load-Ends {ℓ} : {A : Type ℓ} (xs : List A) (i : ℕ) → Ends (load xs i)
unfolding load
load-Ends {A = A} xs i = ends (get_elem? xs i)
  where
    ends : (found : Option A) → Ends (unwrap found)
    ends none = panic-Ends
    ends (some a) = ok-Ends a

pub store-Ends {ℓ} : {A : Type ℓ} (xs : List A) (i : ℕ) (v : A) → Ends (store xs i v)
unfolding store
store-Ends xs i v = if-Ends _ (ok-Ends _) panic-Ends

-- What follows may use the value that was returned.
pub >>=-Ends_eq {ℓ} :
    {A B : Type ℓ} (code : Run A) {next : A → Run B}
    → Ends code
    → ((a : A) → code ≡ ok a → Ends (next a))
    → Ends (code >>= next)
>>=-Ends_eq out_of_fuel e f = absurd (e refl)
>>=-Ends_eq panic e f = panic-Ends
>>=-Ends_eq (ok a) e f = f a refl

pub sub-eq-ok : (a b : ℕ) {c : ℕ} → sub a b ≡ ok c → c + b ≡ a
sub-eq-ok a b h = ground (arith, h)

pub option-Ends {ℓ} :
    {A B : Type ℓ} (o : Option A) {absent : Run B} {present : A → Run B}
    → Ends absent
    → ((a : A) → Ends (present a))
    → Ends (elim o [ none ↦ absent | some a ↦ present a ])
option-Ends none h k = h
option-Ends (some a) h k = k a
