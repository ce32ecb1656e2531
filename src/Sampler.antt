-- ===== src/Sampler.antt =====
-- crates/rusttorch-data/src/sampler.rs: index samplers, batch grouping and their checkpoints.
pub mod Validate
pub mod Traits
pub mod Batch
pub mod Sequential
pub mod Random
pub mod Subset
pub mod Weighted
pub mod Distributed
pub mod Checkpoint
