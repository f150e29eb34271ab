-- ===== src/Arch/Bits.antt =====
-- src/arch/common/bits.rs: the bit operations for the machine's word size, of 32 or 64 bits.
pub mod Bits32
pub mod Bits64
pub mod Ending
use propeller_kernel.Prelude.{ℕ, Run, ◌==◌, if◌then◌else◌}

unfoldable pub floor_log2 : ℕ → ℕ → Run ℕ
floor_log2 w n = if w == 64 then Bits64.floor_log2 n else Bits32.floor_log2 n

unfoldable pub ceil_log2 : ℕ → ℕ → Run ℕ
ceil_log2 w n = if w == 64 then Bits64.ceil_log2 n else Bits32.ceil_log2 n

unfoldable pub ones : ℕ → ℕ → Run ℕ
ones w n = if w == 64 then Bits64.ones n else Bits32.ones n

abbrev pub checksum_seed : ℕ → ℕ
checksum_seed w = if w == 64 then Bits64.checksum_seed else Bits32.checksum_seed
