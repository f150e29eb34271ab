-- ===== src/Support/Dtb/Parse.antt =====
-- Results of src/support/dtb.rs: `Result<_, DtbError>`, and sequences by `?`.
use propeller_kernel.Prelude.{Option, none, some, Run, ok}
use propeller_kernel.Support.Dtb.{DtbError}
use propeller_kernel.Prelude.Monad

pub data Result (A : Type 0) : Type 0 where
  value : A → Result A
  error : DtbError → Result A

abbrev pub Parse : Type 0 → Type 0
Parse A = Run (Result A)

abbrev pub return : {A : Type 0} → A → Parse A
return a = ok (value a)

abbrev pub fail : {A : Type 0} → DtbError → Parse A
fail e = ok (error e)

abbrev pub continue : {A B : Type 0} → (A → Parse B) → Result A → Parse B
continue next (value a) = next a
continue next (error e) = fail e

infixl 5 ◌>>=◌ ◌>>◌
abbrev pub ◌>>=◌ : {A B : Type 0} (code : Parse A) (next : A → Parse B) → Parse B
code >>= next = Monad.◌>>=◌ code (continue next)

abbrev pub ◌>>◌ : {B : Type 0} (code : Parse (Unit {0})) (next : Parse B) → Parse B
code >> next = code >>= λ done. next

abbrev pub from_option : {A : Type 0} → DtbError → Option A → Parse A
from_option e none = fail e
from_option e (some a) = return a

-- `ok_or(e)?`
abbrev pub ok_or : {A : Type 0} → Run (Option A) → DtbError → Parse A
ok_or code e = Monad.◌>>=◌ code (from_option e)

abbrev pub run : {A : Type 0} → Run A → Parse A
run code = Monad.◌>>=◌ code (λ a. return a)

-- `.ok()`
abbrev pub to_option : {A : Type 0} → Result A → Option A
to_option (value a) = some a
to_option (error e) = none

abbrev pub option : {A : Type 0} → Parse A → Run (Option A)
option code = Monad.◌>>=◌ code (λ r. ok (to_option r))
