-- ===== src/Loader/Plan/Identity.antt =====
-- The identity that the plan `AutoBatch` makes of a saved cursor, for the tests of a resumed builder.
use rust_torch.Base.{ℕ, Bool, true, some, ◌≡◌, sym, ap}
use rust_torch.Outcome.{ok, >>=-eq-ok}
use rust_torch.Sampler.Checkpoint.{SamplerCheckpoint}
use rust_torch.Loader.Configuration.{PlanCheckpointIdentity}
use rust_torch.Loader.Configuration.Accepted.{IsPlan}
use rust_torch.Loader.Plan.{checkpoint_identity_from_state}

module _ {S State : Type 0} (c : SamplerCheckpoint S State) (cursor : State) where
  identity_options :
      (size : ℕ) (drop_last : Bool) (plan : PlanCheckpointIdentity)
      → checkpoint_identity_from_state c cursor size drop_last ≡ ok plan
      → (plan.batch_size ≡ some size) × (plan.drop_last ≡ drop_last)
  unfolding checkpoint_identity_from_state
  identity_options size drop_last plan h =
      let (distributed, _, made) =
        >>=-eq-ok (c.checkpoint_distributed_configuration_from_state cursor) _ h in
      let same : record {
        batch_size = some size;
        drop_last = drop_last;
        sampler_kind = c.checkpoint_kind_from_state cursor;
        distributed = distributed;
      }
          ≡ plan =
        cc made in
      (
        sym (ap (λ (q : PlanCheckpointIdentity). q.batch_size) same),
        sym (ap (λ (q : PlanCheckpointIdentity). q.drop_last) same),
      )

  pub identity-IsPlan : IsPlan true (checkpoint_identity_from_state c cursor)
  identity-IsPlan = record {
    size = λ size drop_last plan e. (identity_options size drop_last plan e).0;
    last = λ size drop_last plan e. (identity_options size drop_last plan e).1;
  }
