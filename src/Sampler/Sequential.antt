-- ===== src/Sampler/Sequential.antt =====
-- `SequentialSampler` of crates/rusttorch-data/src/sampler.rs.
use rust_torch.Base.{ℕ, suc, Option, none, some, ltb, if◌then◌else◌, range}
use rust_torch.Outcome.{ok}
use rust_torch.Sampler.Traits.{Sampler}

-- `Range<usize>`.
pub record Range : Type 0 where
  pub start : ℕ
  pub end : ℕ

pub record SequentialSampler : Type 0 where
  pub length : ℕ
  pub epoch : ℕ
  pub indices : Range

unfoldable pub new : ℕ → SequentialSampler
new length = record { length = length; epoch = 0; indices = record { start = 0; end = length } }

unfoldable pub set_epoch : SequentialSampler → ℕ → SequentialSampler
set_epoch s epoch = record s { epoch = epoch; indices = record { start = 0; end = s.length } }

unfoldable pub sampler : Sampler SequentialSampler
unfolding set_epoch
sampler = record {
  iter = λ s. ok (range s.length);
  exact_len = λ s. some s.length;
  epoch = λ s. s.epoch;
  set_epoch = λ s epoch. ok (set_epoch s epoch);
}

-- `Iterator::next`, of the range.
unfoldable pub next : SequentialSampler → Option ℕ × SequentialSampler
next s =
    if ltb s.indices.start s.indices.end
    then (
      some s.indices.start,
      record s { indices = record s.indices { start = suc s.indices.start } },
    )
    else (none, s)
