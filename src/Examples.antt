-- ===== src/Examples.antt =====
-- Runs of the modelled code at concrete inputs.
pub mod Ranges
pub mod Sets
pub mod Pages
pub mod Tables
pub mod Words
pub mod Maps
pub mod Trees
pub mod Layouts
pub mod Cores
pub mod Pools
pub mod Zones
pub mod Tasks
