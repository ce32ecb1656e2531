-- ===== src/Sampler/Validate.antt =====
-- The validation helpers of crates/rusttorch-data/src/sampler.rs, which every constructor and every
-- checkpoint shares.
use rust_torch.Base.{
  ℕ, zero, suc, ◌+◌, ◌/◌, ◌%◌, String, Bool, false, not, ◌&&◌, ◌||◌, Option, none, some, List, [],
  ◌∷◌, ltb, leb, ◌==◌, if◌then◌else◌, from_bool, u64_max, usize_max, wrapping_add,
}
use rust_torch.Error.{number, Message, plain, RustTorchError}
use rust_torch.Outcome.{Outcome, ok, err, ◌>>=◌, ◌>>◌, fail_if, ok_or}
use rust_torch.Storage.{Allocator, try_vec, usize_size}

abbrev pub invalid_configuration : String → Message → RustTorchError
invalid_configuration = RustTorchError.invalid_configuration

abbrev pub usize_to_u64 : ℕ → String → Outcome RustTorchError ℕ
usize_to_u64 value field =
    if leb value u64_max
    then ok value
    else err (invalid_configuration field (plain "value does not fit the checkpoint schema"))

abbrev pub u64_to_usize : ℕ → String → Outcome RustTorchError ℕ
u64_to_usize value field =
    if leb value usize_max
    then ok value
    else err (invalid_configuration field (plain "checkpoint value does not fit this platform"))

-- The type's `==` is the first argument.
abbrev pub require_equal {ℓ} :
    {T : Type ℓ} → (T → T → Bool) → String → T → T → Outcome RustTorchError (Unit {0})
require_equal eq field actual expected =
    fail_if (not (eq actual expected))
      (invalid_configuration field (plain "checkpoint configuration does not match the loader"))

unfoldable pub validate_positive : ℕ → String → Outcome RustTorchError (Unit {0})
validate_positive value field =
    fail_if (value == 0) (invalid_configuration field (plain "must be greater than zero"))

-- The result is a `NonZeroUsize`; the last `ok_or_else` cannot fail after the first check.
unfoldable pub validate_batch_size : Allocator → ℕ → Outcome RustTorchError ℕ
unfolding validate_positive
validate_batch_size alloc batch_size = do
  validate_positive batch_size "batch_size"
  _ ← try_vec {A = ℕ} alloc usize_size batch_size "batch_size"
  ok_or (if batch_size == 0 then none else some batch_size)
      (invalid_configuration "batch_size" (plain "must be greater than zero"))

unfoldable pub validate_position : ℕ → ℕ → Outcome RustTorchError (Unit {0})
validate_position position length = do
  fail_if (ltb length position) (
      invalid_configuration "checkpoint" (record {
        template = "sampler position {position} exceeds length {length}";
        arguments = number position ∷ number length ∷ [];
      }))
  _ ← u64_to_usize position "checkpoint"
  ok tt

unfoldable pub validate_epoch_position : ℕ → ℕ → ℕ → ℕ → Outcome RustTorchError (Unit {0})
validate_epoch_position state_epoch state_position epoch position = do
  require_equal ◌==◌ "checkpoint" state_epoch epoch
  require_equal ◌==◌ "checkpoint" state_position position

-- `Option::map` and `transpose`.
abbrev pub transpose :
    {A B : Type 0} → (A → Outcome RustTorchError B) → Option A → Outcome RustTorchError (Option B)
transpose f none = ok none
transpose f (some a) = do b ← f a; ok (some b)

abbrev pub checked_div : ℕ → ℕ → Option ℕ
checked_div a b = if b == 0 then none else some (a / b)

-- `is_multiple_of` of 0 holds of 0 only, as `n % 0` is `n`.
abbrev pub is_multiple_of : ℕ → ℕ → Bool
is_multiple_of n d = n % d == 0

-- The closure of `is_some_and` in `validate_batch_boundary`.
abbrev pub is_final_short : Bool → ℕ → ℕ → ℕ → Bool → Option ℕ → Bool
is_final_short drop_last next_batch next_sample complete_boundary is_aligned none = false
is_final_short drop_last next_batch next_sample complete_boundary is_aligned (some length) =
    not drop_last
    && (next_sample == length && next_batch == complete_boundary + from_bool (not is_aligned))

unfoldable pub validate_batch_boundary :
    Option ℕ → ℕ → Bool → ℕ → ℕ → Outcome RustTorchError (Unit {0})
validate_batch_boundary exact_len batch_size drop_last next_batch next_logical_sample = do
  size ← usize_to_u64 batch_size "batch_sampler"
  complete_boundary ←
      ok_or (checked_div next_logical_sample size)
        (invalid_configuration "batch_sampler" (plain "batch size is zero"))
  let is_aligned = is_multiple_of next_logical_sample size
  length ← transpose (λ n. usize_to_u64 n "batch_sampler") exact_len
  let final_short =
      is_final_short drop_last next_batch next_logical_sample complete_boundary is_aligned length
  fail_if ((not is_aligned || not (next_batch == complete_boundary)) && not final_short) (
      invalid_configuration "checkpoint"
        (plain "batch and logical sample cursors are not on a visible batch boundary"))

-- The loop of `advance`: an iterator is the list of what it has still to yield.
unfoldable pub advance_loop : ℕ → List ℕ → Outcome RustTorchError (List ℕ)
advance_loop zero iterator = ok iterator
advance_loop (suc n) [] =
    err
      (invalid_configuration "checkpoint" (plain "sampler cursor exceeds the regenerated sequence"))
advance_loop (suc n) (x ∷ rest) = advance_loop n rest

unfoldable pub advance : List ℕ → ℕ → Outcome RustTorchError (List ℕ)
advance iterator position = do n ← u64_to_usize position "checkpoint"; advance_loop n iterator

abbrev pub epoch_seed : ℕ → ℕ → ℕ
epoch_seed seed epoch = wrapping_add seed epoch

-- The division faults at a batch size of 0, which no constructed sampler has.
unfoldable pub batch_count : ℕ → ℕ → Bool → ℕ
batch_count length batch_size drop_last =
    length / batch_size + from_bool (not drop_last && not (is_multiple_of length batch_size))
