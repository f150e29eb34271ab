-- ===== src/Arch.antt =====
-- src/arch: the parts that do not depend on the processor's registers.
pub mod Memory
pub mod Tagger
pub mod DtbMemory
pub mod Cpu
pub mod DtbCpu
pub mod Bits
pub mod Buffered
pub mod ArmTask
