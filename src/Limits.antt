-- ===== src/Limits.antt =====
-- crates/rusttorch-data/src/limits.rs.
pub mod Products
pub mod Reads
use rust_torch.Base.{
  ℕ, ◌+◌, ◌*◌, min, Option, none, some, List, [], ◌∷◌, ltb, length, take, checked_mul,
  saturating_add, usize_max, u64_max, i64_max, String,
}
use rust_torch.Error.{Arg, RustTorchError, plain}
use rust_torch.Outcome.{Outcome, ok, err, ◌>>=◌, ◌>>◌, fail_if, ok_or}
use rust_torch.Sampler.Validate.{invalid_configuration}

pub record ResourceLimits : Type 0 where
  pub max_encoded_bytes : ℕ
  pub max_decoded_bytes : ℕ
  pub max_tensor_elements : ℕ
  pub max_image_dimension : ℕ
  pub max_records : ℕ
  pub max_columns : ℕ
  pub max_string_bytes : ℕ
  pub max_tokens : ℕ
  pub max_columnar_bytes : ℕ
  pub max_media_seconds : ℕ
  pub max_streams : ℕ

abbrev pub default_limits : ResourceLimits
default_limits = record {
  max_encoded_bytes = 64 * 1024 * 1024;
  max_decoded_bytes = 256 * 1024 * 1024;
  max_tensor_elements = 64 * 1024 * 1024;
  max_image_dimension = 16384;
  max_records = 1000000;
  max_columns = 4096;
  max_string_bytes = 1024 * 1024;
  max_tokens = 1000000;
  max_columnar_bytes = 256 * 1024 * 1024;
  max_media_seconds = 3600;
  max_streams = 32;
}

abbrev pub unlimited : ResourceLimits
unlimited = record {
  max_encoded_bytes = usize_max;
  max_decoded_bytes = usize_max;
  max_tensor_elements = usize_max;
  max_image_dimension = usize_max;
  max_records = usize_max;
  max_columns = usize_max;
  max_string_bytes = usize_max;
  max_tokens = usize_max;
  max_columnar_bytes = usize_max;
  max_media_seconds = u64_max;
  max_streams = usize_max;
}

unfoldable pub check : String → ℕ → ℕ → Outcome RustTorchError (Unit {0})
check field actual maximum = fail_if (ltb maximum actual) (
    invalid_configuration field (record {
      template = "{actual} exceeds resource limit {maximum}";
      arguments = Arg.number actual ∷ Arg.number maximum ∷ [];
    }))

-- The loop over the dimensions.
unfoldable pub check_dimensions : List ℕ → Outcome RustTorchError (Unit {0})
check_dimensions [] = ok tt
check_dimensions (d ∷ ds) = check "tensor dimension" d i64_max >> check_dimensions ds

-- `try_fold(n, |n, &d| n.checked_mul(d))`.
unfoldable pub fold_checked_mul : ℕ → List ℕ → Option ℕ
fold_checked_mul n [] = some n
fold_checked_mul n (d ∷ ds) = elim (checked_mul n d) [
  | none ↦ none
  | some n' ↦ fold_checked_mul n' ds
]

unfoldable pub tensor_elements : ResourceLimits → List ℕ → Outcome RustTorchError ℕ
tensor_elements limits dimensions = do
  check_dimensions dimensions
  elements ←
      ok_or (fold_checked_mul 1 dimensions)
        (invalid_configuration "tensor elements" (plain "shape product overflows usize"))
  check "tensor elements" elements (min limits.max_tensor_elements i64_max)
  ok elements

-- What a reader yields: its bytes up to the end, or the error that stops it after some of them.
pub record Reader (E : Type 0) : Type 0 where
  pub bytes : List ℕ
  pub failure : Option E

pub data ReadError (E : Type 0) : Type 0 where
  inner : E → ReadError E
  invalid_data : String → ReadError E

-- `take(limit).read_to_end(&mut bytes)`: a failure is met only when the limit is not reached first.
unfoldable pub read_to_end : {E : Type 0} → ℕ → Reader E → Outcome (ReadError E) (List ℕ)
read_to_end limit r = elim r.failure [
  | none ↦ ok (take limit r.bytes)
  | some e ↦ fail_if (ltb (length r.bytes) limit) (ReadError.inner e) >> ok (take limit r.bytes)
]

unfoldable pub read_encoded :
    {E : Type 0} → ResourceLimits → Reader E → Outcome (ReadError E) (List ℕ)
read_encoded limits r = do
  bytes ← read_to_end (saturating_add limits.max_encoded_bytes 1) r
  fail_if (ltb limits.max_encoded_bytes (length bytes))
      (ReadError.invalid_data "encoded resource limit exceeded")
  ok bytes
