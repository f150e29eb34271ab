-- ===== src/Support/Dtb/New.antt =====
-- `DtbReader::new` of src/support/dtb.rs on a memory of bytes.
use propeller_kernel.Prelude.{
  ℕ, zero, suc, ◌+◌, ◌*◌, ◌^◌, ◌≤◌, ◌<◌, ◌≡◌, refl, ap, inl, inr, ◌||◌, Bool-cases, ok, ltb, ◌==◌,
  length, arith,
}
use propeller_kernel.Support.Dtb.{DtbReader, not_a_dtb, invalid_dtb, fdt_magic}
use propeller_kernel.Support.Dtb.Walk.{bytes_at, word_at, check_dtb, new}
use propeller_kernel.Support.Dtb.Cursor.{IsReader, AllBytes}
use propeller_kernel.Support.Dtb.Safety.{Safe, returns, fails, Safe-bind, word-Safe}

length-bytes_at : (memory : ℕ → ℕ) (n addr : ℕ) → length (bytes_at memory addr n) ≡ n
unfolding bytes_at
length-bytes_at memory zero addr = refl
length-bytes_at memory (suc n) addr = ap suc (length-bytes_at memory n (addr + 1))

bytes_at-AllBytes :
    (memory : ℕ → ℕ) → ((a : ℕ) → memory a < 256) → (n addr : ℕ) → AllBytes (bytes_at memory addr n)
unfolding bytes_at
bytes_at-AllBytes memory b zero addr = tt
bytes_at-AllBytes memory b (suc n) addr = (b addr, bytes_at-AllBytes memory b n (addr + 1))

module _ {M : Type 0} (memory : ℕ → ℕ) (blob : ℕ) where
  check_dtb-Safe :
      Safe M (λ size. (32 ≤ size) × (size ≤ 64 * 1024 * 1024)) (ok (check_dtb memory blob))
  unfolding check_dtb
  check_dtb-Safe = elim (Bool-cases (blob == 0)) [
    | inl null ↦ rw null (fails {e = not_a_dtb})
    | inr some_blob ↦ rw some_blob (elim (Bool-cases (word_at memory blob 0 == fdt_magic)) [
      | inr other ↦ rw other (fails {e = not_a_dtb})
      | inl magic ↦
          rw magic
            (elim (Bool-cases
              (ltb (word_at memory blob 1) 32 || ltb (64 * 1024 * 1024) (word_at memory blob 1))) [
                | inl bad ↦ rw bad (fails {e = invalid_dtb})
                | inr good ↦ rw good (
                    returns {a = word_at memory blob 1}
                      (ground (arith, good), ground (arith, good)))
              ])
    ])
  ]

  -- On a memory of bytes and words that hold the sizes that are admitted, a reader is returned, or an
  -- error; there is no panic. The reader's tree is that of an admitted size.
  pub new-IsReader :
      (w : ℕ)
      → 64 * 1024 * 1024 + 4 ≤ 2 ^ w
      → ((a : ℕ) → memory a < 256)
      → Safe M (λ r. IsReader w r) (new w memory blob)
  unfolding new
  new-IsReader w fits bytes = Safe-bind check_dtb-Safe (λ size (above, below).
      let empty : DtbReader = record {
        dtb = bytes_at memory blob size;
        dt_struct_offset = 0;
        dt_strings_offset = 0;
        mem_rsv_map_offset = 0;
        version = 0;
        last_comp_version = 0;
        boot_cpuid_phys = 0;
        dt_strings_size = 0;
        dt_struct_size = 0;
      } in
      let v : IsReader w empty = record {
        header = omega (arith, above, length-bytes_at memory size blob);
        fits = omega (arith, below, fits, length-bytes_at memory size blob);
        bytes = bytes_at-AllBytes memory bytes size blob;
      } in
      Safe-bind (word-Safe w empty v 8) (λ p1 q1. Safe-bind (word-Safe w empty v (p1.1)) (λ p2 q2.
        Safe-bind (word-Safe w empty v (p2.1)) (λ p3 q3.
          Safe-bind (word-Safe w empty v (p3.1)) (λ p4 q4.
            Safe-bind (word-Safe w empty v (p4.1)) (λ p5 q5.
              Safe-bind (word-Safe w empty v (p5.1)) (λ p6 q6.
                Safe-bind (word-Safe w empty v (p6.1)) (λ p7 q7.
                  Safe-bind (word-Safe w empty v (p7.1)) (λ p8 q8.
                    returns (record { header = v.header; fits = v.fits; bytes = v.bytes }))))))))))
