-- ===== src/Memory.antt =====
-- crates/rusttorch-data/src/memory.rs: byte budgets and memory footprints.
pub mod Budget
pub mod Footprint
