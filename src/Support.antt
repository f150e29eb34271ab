-- ===== src/Support.antt =====
-- src/support: the kernel's utility containers.
pub mod Range
pub mod RangeSet
pub mod HashMap
pub mod Bits
pub mod Dtb
pub mod Hash
