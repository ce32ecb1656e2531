-- ===== src/Lib.antt =====
-- RustTorch: a verification library of the data crate (crates/rusttorch-data).
--
-- The program loads training data. A sampler gives the indices of one epoch, a batch sampler groups
-- them, a dataset turns an index into a sample, a byte budget bounds what is in flight, and
-- checkpoints save where an epoch stands and resume it. A loader runs batches of indices through the
-- dataset, the transform and the collation, on the calling thread or on workers. Limits bound what
-- untrusted input may ask for.
--
-- Files, by the code that they model (paths from the repository's root):
--   Sampler        crates/rusttorch-data/src/sampler.rs. `Traits` has the traits as records of their
--                  operations; `Sequential`, `Random`, `Subset`, `Weighted` and `Distributed` are the
--                  samplers, with a record for each struct and `new`, `set_epoch`, `indices_for_epoch`
--                  and `next` as in the source; `Batch` is `BatchSampler`; `Validate` has the helpers
--                  at the end of the file. The children of these modules hold the proofs.
--   Sampler.Checkpoint
--                  the `SamplerCheckpoint` and `BatchSourceCheckpoint` implementations of the same
--                  file, one module per sampler. `IsResumable` is the interface through which the
--                  batch sampler and the loader's plans use any of them, and `IsPrepared` is such a
--                  sampler at the start of an epoch (`Prepared`).
--   Memory         crates/rusttorch-data/src/memory.rs. `Footprint` has the sizes, `Budget` the state
--                  of `ByteBudget` and its critical sections, `Budget.System` the threads as a step
--                  relation: every critical section runs under the lock, so an execution is a
--                  sequence of calls, wake-ups, drops of permits and cancellations in any order.
--   Limits         crates/rusttorch-data/src/limits.rs.
--   Dataset        the trait `Dataset` and the batching of a stream (`Batches`) of
--                  crates/rusttorch-data/src/lib.rs, and of dataset.rs `ConcatDataset` (`Concat`),
--                  `Subset` and `random_split` (`Split`).
--   Loader         crates/rusttorch-data/src/loader.rs, error.rs and worker.rs. `Serial` is `LoaderIter`,
--                  the pass on the calling thread, and `Serial.Resume` its checkpoint and the resumed pass;
--                  `Plan` is `AutoBatch` and `Plan.Single` is `NoBatch`, what a loader iterates and
--                  saves the cursor of;
--                  `Workers` has the messages of the worker pool and
--                  the work of a worker, `Workers.Submit` and `Workers.Iter` are `WorkerLoaderIter`.
--                  `Configuration` has the builder's options and their validation, and its `Envelope` the
--                  saved state of checkpoint.rs and what a resumed builder tests of it.
--                  `Tasks` numbers the batches and says what loading one by itself comes to. The other
--                  modules hold the proofs.
--   Error, Outcome, Storage, Rng, Float
--                  the error values, the results of calls (a value, an error or a panic), `try_vec`,
--                  and the parameters below.
--   Base           numbers, lists, machine words, permutations and counting.
--   Examples       runs on concrete inputs.
--
-- Conventions. `usize`, `u64` and `f64` are those of a 64-bit target: `usize::MAX` is `2 ^ 64 - 1`, and
-- checked, saturating and wrapping operations are written out in Base.Words. An iterator is the list
-- of what it has still to yield. A method on `&mut self` returns the state that it leaves. A panic,
-- as of `expect` or of an index out of bounds, is a value of `Outcome`, so that a statement
-- about the result of a call says that it does not panic. The worker pool is a script: what it will
-- answer to submissions, and what arrives on its channel while `next` waits, a finished task of those in
-- flight, a failure, a message of another generation, a timeout, a cancellation or the loss of the
-- workers. A call of `next` that no event completes is left waiting. Statements about a pass hold for
-- every script, or name the scripts that they are about.
--
-- Memory. A `Vec` that is asked for with more than `isize::MAX` bytes at once panics (`with_capacity`, also
-- for `collect` over a range); one that grows sample by sample, or holds what another one holds, is
-- taken to fit, and memory that cannot be had aborts the process, which no statement speaks of. The
-- allocator of `try_vec` is a fixed function of size and capacity: it answers a later request as it
-- answered the same one before, so a sampler whose constructor was granted its storage has it in every
-- epoch, and the `expect` of a later refusal is not reached.
--
-- Parameters, for code outside the repository: the allocator behind `try_reserve_exact`, which grants
-- or refuses a request; the generator `ChaCha12Rng` with `shuffle` and `gen_range`, of which the
-- proofs use that a shuffle permutes and that a draw is in its range (`IsLawful`); the operations of
-- `f64`, of which they use only that a finite number not below zero is zero or above it (`HasSigns`);
-- the distribution `WeightedIndex` and the sample of `Open01`; what a reader or a stream holds, and the
-- collation function; for the loaders the dataset, the transform at a logical sample, the collation and the
-- pinning, as functions of their input (`Pipeline`), the snapshots of the dataset, the transform and
-- the collator in a checkpoint (`Parts`); the devices of LibTorch and the clock (`Platform`).
--
-- Fuel. `Random.permutations` is the `while` loop of `random_indices`; each round adds an index, and
-- `num_samples + 1` rounds are given. `Batch.collect` calls `next` until it yields nothing; every
-- other call takes an index, and one round more than the indices is given. `Batches.drain` calls
-- `next` of a stream's batches; each call takes a sample or ends the iterator. Without fuel they panic.
-- `fill` is the loop of `fill_available`, with as many rounds as the capacity, which every round that
-- submits uses up. `drain` of a loader makes so many calls of `next`, as a consumer would.
--
-- Not modelled: the plan of explicit batches, the checkpoints of worker loaders and of streams, transforms
-- and collators that keep a state, a worker loader with zero workers, the cancellation and the poisoning of a persistent pool that does not come
-- to rest when a pass is stopped, the threads and channels inside the pool, and the
-- streaming loader (later work); collation and pinning (LibTorch calls), the format readers of the other crates, and the tensor
-- library over LibTorch in src/. Of memory.rs tuples above three parts are left out, of dataset.rs the
-- datasets over tensors and the forwarding adapters.
pub mod Base
pub mod Error
pub mod Outcome
pub mod Storage
pub mod Rng
pub mod Float
pub mod Sampler
pub mod Memory
pub mod Dataset
pub mod Limits
pub mod Loader
mod Examples
