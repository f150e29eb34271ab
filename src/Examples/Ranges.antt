-- ===== src/Examples/Ranges.antt =====
-- The ranges of src/support/range.rs at concrete addresses.
use propeller_kernel.Prelude.{ℕ, ◌^◌, ◌≡◌, ◌↔◌, ◌⊎◌, refl, not, none, some, ok, panic, arith}
use propeller_kernel.Support.Range.{
  Range, superset, cmp, exclude, split, parts, err, order_of, exclude_by, exclude_overlap, low_part,
  high_part, last_of,
}
use propeller_kernel.Support.Range.Elements.{IsValid, contains}
use propeller_kernel.Support.Range.Order.{Relates, limit, cmp-Relates, cmp-none}
use propeller_kernel.Support.Range.Exclude.{Selects, exclude-Selects, exclude-panic}
use propeller_kernel.Support.Range.Cut.{IsCut, split-IsCut, split-err}

abbrev pub bank : Range ℕ
bank = record { tag = 7; base = 4096; size = 16384 }

abbrev pub hole : Range ℕ
hole = record { tag = 0; base = 8192; size = 4096 }

abbrev pub empty : Range ℕ
empty = record { tag = 0; base = 8192; size = 0 }

-- The last pages of a 32-bit address space, and the last one.
abbrev pub top : Range ℕ
top = record { tag = 7; base = 4294959104; size = 8192 }

abbrev pub top_page : Range ℕ
top_page = record { tag = 0; base = 4294963200; size = 4096 }

pub bank-IsValid : IsValid 32 bank
bank-IsValid = record { not_empty = omega arith; fits = omega arith }

pub hole-IsValid : IsValid 32 hole
hole-IsValid = record { not_empty = omega arith; fits = omega arith }

top-IsValid : IsValid 32 top
top-IsValid = record { not_empty = omega arith; fits = omega arith }

top_page-IsValid : IsValid 32 top_page
top_page-IsValid = record { not_empty = omega arith; fits = omega arith }

cmp-Relates_example : (cmp 32 bank hole ≡ ok (some superset)) ↔ Relates superset bank hole
cmp-Relates_example = cmp-Relates 32 bank hole bank-IsValid hole-IsValid superset

cmp-none_example : (cmp 32 bank empty ≡ ok none) ↔ ((bank.size ≡ 0) ⊎ (empty.size ≡ 0))
cmp-none_example = cmp-none 32 bank empty (omega arith) (omega arith)

exclude-Selects_example : Selects bank (λ x. not (contains hole x)) (exclude 32 bank hole)
exclude-Selects_example = exclude-Selects 32 bank hole bank-IsValid hole-IsValid (omega arith)

exclude-panic_example :
    (exclude 32 top top_page ≡ panic) ↔ (Relates superset top top_page × (limit top_page ≡ 2 ^ 32))
exclude-panic_example = exclude-panic 32 top top_page top-IsValid top_page-IsValid

split-IsCut_example : IsCut 32 bank 8192 (split 32 bank 8192)
split-IsCut_example = split-IsCut 32 bank bank-IsValid 8192

split-err_example : split 32 empty 8192 ≡ ok err
split-err_example = split-err 32 empty 8192 refl

-- The parts that are left of the bank.
exclude-bank :
    exclude 32 bank hole
    ≡ ok (
        parts
          (some (record bank { size = 4096 }))
          (some (record bank { base = 12288; size = 8192 })))
unfolding exclude cmp order_of exclude_by exclude_overlap low_part high_part last_of
exclude-bank = refl

split-bank :
    split 32 bank 8192
    ≡ ok (
        parts
          (some (record bank { size = 4096 }))
          (some (record bank { base = 8192; size = 12288 })))
unfolding split last_of
split-bank = refl
