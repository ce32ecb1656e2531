-- ===== src/Examples.antt =====
-- The code on concrete inputs: an allocator that grants everything, a small generator, floats that
-- count quarters, and runs of the samplers, the budget, the limits and the datasets on them.
mod Instances
mod Sampling
mod Checkpoints
mod Budgets
mod Datasets
mod Loading
mod Resuming
mod Plans
mod Configurations
