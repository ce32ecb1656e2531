-- ===== src/Loader/Plan/Single.antt =====
-- The plan `NoBatch` of crates/rusttorch-data/src/loader.rs, which loads one sample at a time, and its
-- cursor in a resumed loader.
use rust_torch.Base.{
  ℕ, zero, suc, ◌≡◌, refl, ap, Bool, false, not, Option, none, List, [], ◌∷◌, map, drop, ◌==◌,
  arith,
}
use rust_torch.Error.{RustTorchError, plain}
use rust_torch.Outcome.{Outcome, ok, ◌>>=◌, ◌>>◌, fail_if}
use rust_torch.Sampler.Validate.{invalid_configuration}
use rust_torch.Sampler.Traits.{Sampler}
use rust_torch.Sampler.Checkpoint.{SamplerCheckpoint, IsResumable}
use rust_torch.Loader.Configuration.{PlanCheckpointIdentity}

-- `NoBatch`, without its converter.
pub record NoBatch (S : Type 0) : Type 0 where
  pub sampler : S

unfoldable pub singleton : ℕ → List ℕ
singleton index = index ∷ []

unfoldable pub validate_cursors : ℕ → ℕ → Outcome RustTorchError (Unit {0})
validate_cursors next_batch next_logical_sample =
    fail_if (not (next_batch == next_logical_sample)) (
      invalid_configuration "checkpoint"
        (plain "no-batch cursor must advance one batch per logical sample"))

module _ {S : Type 0} (sampler : Sampler S) where
  unfoldable pub iter : NoBatch S → Outcome RustTorchError (List (List ℕ))
  iter plan = do indices ← sampler.iter plan.sampler; ok (map singleton indices)

  unfoldable pub exact_len : NoBatch S → Option ℕ
  exact_len plan = sampler.exact_len plan.sampler

  unfoldable pub set_epoch : NoBatch S → ℕ → Outcome RustTorchError (NoBatch S)
  set_epoch plan epoch = do
    s ← sampler.set_epoch plan.sampler epoch
    ok (record plan { sampler = s })

module _ {S State : Type 0} (c : SamplerCheckpoint S State) where
  unfoldable pub checkpoint_identity : NoBatch S → PlanCheckpointIdentity
  checkpoint_identity plan = record {
    batch_size = none;
    drop_last = false;
    sampler_kind = c.kind plan.sampler;
    distributed = c.distributed_configuration plan.sampler;
  }

  unfoldable pub checkpoint_identity_from_state :
      State → ℕ → Bool → Outcome RustTorchError PlanCheckpointIdentity
  checkpoint_identity_from_state state batch_size drop_last = do
    distributed ← c.checkpoint_distributed_configuration_from_state state
    ok (record {
      batch_size = none;
      drop_last = false;
      sampler_kind = c.checkpoint_kind_from_state state;
      distributed = distributed;
    })

  unfoldable pub checkpoint_state : NoBatch S → ℕ → ℕ → Outcome RustTorchError State
  unfolding validate_cursors
  checkpoint_state plan next_batch next_logical_sample = do
    validate_cursors next_batch next_logical_sample
    c.checkpoint_state plan.sampler next_logical_sample

  unfoldable pub validate_checkpoint_state :
      NoBatch S → State → ℕ → ℕ → ℕ → Outcome RustTorchError (Unit {0})
  unfolding validate_cursors
  validate_checkpoint_state plan state epoch next_batch next_logical_sample = do
    validate_cursors next_batch next_logical_sample
    c.validate_checkpoint_state plan.sampler state epoch next_logical_sample

  unfoldable pub restore_checkpoint_iter_validated :
      NoBatch S → State → Outcome RustTorchError (List (List ℕ) × NoBatch S)
  unfolding singleton
  restore_checkpoint_iter_validated plan state = do
    r ← c.restore_checkpoint_iter_validated plan.sampler state
    ok (map singleton r.0, record plan { sampler = r.1 })

drop-map : (n : ℕ) (xs : List ℕ) → map singleton (drop n xs) ≡ drop n (map singleton xs)
drop-map zero xs = refl
drop-map (suc n) [] = refl
drop-map (suc n) (x ∷ xs) = drop-map n xs

module _ {S State : Type 0} (sampler : Sampler S) (c : SamplerCheckpoint S State) (s : S) (len : ℕ)
    (law : IsResumable sampler c s len) where
  saved_at :
      (state : State) (next_batch position : ℕ)
      → checkpoint_state c (record { sampler = s }) next_batch position ≡ ok state
      → (next_batch ≡ position) × (c.checkpoint_state s position ≡ ok state)
  unfolding checkpoint_state validate_cursors
  saved_at state next_batch position h = ground arith

  cursors_equal : (n : ℕ) → validate_cursors n n ≡ ok tt
  unfolding validate_cursors
  cursors_equal n = ground arith

  -- Over a resumable sampler, a cursor that the plan of single samples saves it accepts at its own epoch,
  -- and restoring it leaves, without a panic, exactly the samples of a whole pass that come after the
  -- first `next_batch`, each on its own, with the plan at that epoch.
  pub single_resumes :
      (state : State) (next_batch position : ℕ)
      → checkpoint_state c (record { sampler = s }) next_batch position ≡ ok state
      → (validate_checkpoint_state c
            (record { sampler = s })
            state
            (sampler.epoch s)
            next_batch
            position
          ≡ ok tt)
        × (plan : NoBatch S) × (all : List (List ℕ)) × (set_epoch sampler
              (record { sampler = s })
              (sampler.epoch s)
            ≡ ok plan)
        × (iter sampler plan ≡ ok all)
        × (restore_checkpoint_iter_validated c (record { sampler = s }) state
            ≡ ok (drop next_batch all, plan))
  unfolding validate_checkpoint_state set_epoch iter restore_checkpoint_iter_validated
  single_resumes state next_batch position h =
      let (same, saved) = saved_at state next_batch position h in
      let valid = law.accepts position state saved in
      let (s', xs, at, run, _, _, back) = law.resumes state (sampler.epoch s) position valid in
      (
        rw (same, cursors_equal position) valid,
        record { sampler = s' },
        map singleton xs,
        rw at refl,
        rw run refl,
        rw (back, same) (ap (λ rest. ok (rest, record { sampler = s' })) (drop-map position xs)),
      )
