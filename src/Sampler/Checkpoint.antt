-- ===== src/Sampler/Checkpoint.antt =====
-- The trait `SamplerCheckpoint` of crates/rusttorch-data/src/sampler.rs, and what a client of it
-- relies on.
pub mod Sequential
pub mod Random
pub mod Subset
pub mod Batch
pub mod Weighted
pub mod Distributed
pub mod Prepared
use rust_torch.Base.{
  ℕ, zero, suc, ◌≤◌, ◌≡◌, refl, Bool, Option, some, List, [], ◌∷◌, arith, String, length, drop,
  usize_max, le→leb,
}
use rust_torch.Error.{RustTorchError}
use rust_torch.Outcome.{Outcome, ok, ◌>>=◌, expect}
use rust_torch.Sampler.Validate.{advance, advance_loop}
use rust_torch.Sampler.Traits.{Sampler}

pub record DistributedConfiguration : Type 0 where
  pub replicas : ℕ
  pub rank : ℕ
  pub shuffle : Bool
  pub seed : ℕ
  pub drop_last : Bool

-- `restore_checkpoint_iter_validated` changes the sampler and returns the iterator.
pub record SamplerCheckpoint (S State : Type 0) : Type 0 where
  pub kind : S → String
  pub checkpoint_kind_from_state : State → String
  pub checkpoint_state : S → ℕ → Outcome RustTorchError State
  pub validate_checkpoint_state : S → State → ℕ → ℕ → Outcome RustTorchError (Unit {0})
  pub restore_checkpoint_iter_validated : S → State → Outcome RustTorchError (List ℕ × S)
  pub distributed_configuration : S → Option DistributedConfiguration
  pub checkpoint_distributed_configuration_from_state :
      State → Outcome RustTorchError (Option DistributedConfiguration)

-- The body of `restore_checkpoint_iter_validated` where the sequence is generated: change to the
-- epoch, create an iterator, pass over what was consumed.
unfoldable pub regenerate :
    {S : Type 0} → Sampler S → S → ℕ → ℕ → String → Outcome RustTorchError (List ℕ × S)
regenerate sampler s epoch position message = do
  s' ← sampler.set_epoch s epoch
  iterator ← sampler.iter s'
  rest ← expect (advance iterator position) message
  ok (rest, s')

-- In any epoch the sampler has a sequence of `n` indices.
abbrev pub Regenerates : {S : Type 0} → Sampler S → S → ℕ → Type 0
Regenerates {S} sampler s n =
    (epoch : ℕ)
    → (s' : S) × (xs : List ℕ) × (sampler.set_epoch s epoch ≡ ok s')
      × (sampler.iter s' ≡ ok xs)
      × (length xs ≡ n)

-- The sampler `s'` is at the epoch, and the iterator `it` is its sequence from the position on.
abbrev pub Resumed :
    {S : Type 0} → Sampler S → S → ℕ → ℕ → ℕ → Outcome RustTorchError (List ℕ × S) → Type 0
Resumed {S} sampler s n epoch position restored =
    (s' : S) × (xs : List ℕ) × (sampler.set_epoch s epoch ≡ ok s')
    × (sampler.iter s' ≡ ok xs)
    × (length xs ≡ n)
    × (position ≤ n)
    × (restored ≡ ok (drop position xs, s'))

-- What a client relies on for a sampler `s` of `n` indices: a state that it saves it accepts at
-- its own epoch, and a state that it accepts resumes at the epoch and position of the call.
pub record IsResumable {S State : Type 0} (sampler : Sampler S) (c : SamplerCheckpoint S State)
    (s : S) (n : ℕ) : Type 0 where
  pub exact : sampler.exact_len s ≡ some n
  pub accepts :
      (position : ℕ) (state : State)
      → c.checkpoint_state s position ≡ ok state
      → c.validate_checkpoint_state s state (sampler.epoch s) position ≡ ok tt
  pub resumes :
      (state : State) (epoch position : ℕ)
      → c.validate_checkpoint_state s state epoch position ≡ ok tt
      → Resumed sampler s n epoch position (c.restore_checkpoint_iter_validated s state)

-- A resumable sampler of `n` indices as `set_epoch` leaves it, which saves every position of its
-- sequence.
pub record IsPrepared {S State : Type 0} (sampler : Sampler S) (c : SamplerCheckpoint S State)
    (s : S) (n : ℕ) : Type 0 where
  pub resumable : IsResumable sampler c s n
  pub saves :
      (position : ℕ) → position ≤ n → (state : State) × (c.checkpoint_state s position ≡ ok state)
  pub stands : sampler.set_epoch s (sampler.epoch s) ≡ ok s
  pub bounded : n ≤ usize_max

advance_loop-drop : (n : ℕ) (xs : List ℕ) → n ≤ length xs → advance_loop n xs ≡ ok (drop n xs)
unfolding advance_loop
advance_loop-drop zero xs h = refl
advance_loop-drop (suc n) [] h = absurd (omega arith)
advance_loop-drop (suc n) (x ∷ xs) h = advance_loop-drop n xs (omega arith)

pub advance-drop :
    (xs : List ℕ) (n : ℕ) → n ≤ length xs → n ≤ usize_max → advance xs n ≡ ok (drop n xs)
unfolding advance
advance-drop xs n h k = rw (le→leb n usize_max k) (advance_loop-drop n xs h)

-- `regenerate` passes over the consumed prefix without a panic.
pub regenerate-Resumed :
    {S : Type 0} (sampler : Sampler S) (s : S) (n epoch position : ℕ) (message : String)
    → Regenerates sampler s n
    → position ≤ n
    → position ≤ usize_max
    → Resumed sampler s n epoch position (regenerate sampler s epoch position message)
unfolding regenerate
regenerate-Resumed sampler s n epoch position message r h k =
    let (s', xs, at, it, size) = r epoch in
    (s', xs, at, it, size, h, rw (at, it, advance-drop xs position (omega arith) k))
