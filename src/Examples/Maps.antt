-- ===== src/Examples/Maps.antt =====
-- The bitmap of src/support/bits.rs with two words of 32 bits, of which forty bits are used.
use propeller_kernel.Prelude.{
  ℕ, ◌≡◌, ◌<◌, ◌⊎◌, Bool, true, false, not, none, some, [], ◌∷◌, ok, arith, ◌==◌, if◌then◌else◌,
}
use propeller_kernel.Support.Bits.Bitmap.{Bitmap, toggle_bit, test_bit}
use propeller_kernel.Support.Bits.Bitmap.Toggle.{test_bit-toggle_bit}
use propeller_kernel.Support.Bits.Bitmap.Search.{first_zero}
use propeller_kernel.Support.Bits.Bitmap.Least.{first_zero-test_bit}

abbrev forty : Bitmap
forty = record { bitmap = 5 ∷ 0 ∷ []; bits = 40 }

test_bit-toggle_bit_example :
    (b' : Bitmap) × (v : Bool) × (toggle_bit 5 forty 33 ≡ ok b')
    × (test_bit 5 forty 2 ≡ ok (some v))
    × (test_bit 5 b' 2 ≡ ok (some (if 33 == 2 then not v else v)))
test_bit-toggle_bit_example =
    test_bit-toggle_bit 5 forty 33 2 (omega arith) (omega arith) (omega arith)

first_zero-test_bit_example :
    ((first_zero 5 forty ≡ ok none) × ((j : ℕ) → j < 40 → test_bit 5 forty j ≡ ok (some true)))
    ⊎ ((z : ℕ) × (z < 40)
        × (first_zero 5 forty ≡ ok (some z))
        × (test_bit 5 forty z ≡ ok (some false))
        × ((j : ℕ) → j < z → test_bit 5 forty j ≡ ok (some true)))
first_zero-test_bit_example =
    first_zero-test_bit 5 forty (omega arith) (omega arith, (omega arith, tt)) (omega arith)
