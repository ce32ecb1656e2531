-- ===== src/Storage.antt =====
-- `try_vec` of crates/rusttorch-data/src/sampler.rs. Whether memory can be had is the allocator's
-- answer, an argument of every call that asks for some.
use rust_torch.Base.{
  ℕ, Bool, String, ◌≡◌, Option, none, some, List, [], ◌∷◌, ◌*◌, leb, i64_max, if◌then◌else◌,
}
use rust_torch.Error.{Arg, RustTorchError, invalid_configuration}
use rust_torch.Outcome.{Outcome, ok, err, panic}

-- `Vec::try_reserve_exact`: element size in bytes and capacity to the text of the refusal, if any.
abbrev pub Allocator : Type 0
Allocator = ℕ → ℕ → Option String

-- `size_of::<usize>()` and `size_of::<(usize, f64)>()`.
abbrev pub usize_size : ℕ
usize_size = 8

abbrev pub pair_size : ℕ
pair_size = 16

unfoldable pub try_vec {ℓ} :
    {A : Type ℓ} → Allocator → ℕ → ℕ → String → Outcome RustTorchError (List A)
try_vec alloc size capacity field = elim (alloc size capacity) [
  | none ↦ ok []
  | some error ↦ err (
      invalid_configuration field (record {
        template = "cannot reserve requested storage: {error}";
        arguments = Arg.text error ∷ [];
      }))
]

-- `Vec::with_capacity`, also that of `collect` where the length is known: more bytes than `isize::MAX` are
-- a panic. Memory that cannot be had aborts the process, which no statement speaks of.
abbrev pub fits_vector : (size capacity : ℕ) → Bool
fits_vector size capacity = leb (capacity * size) i64_max

abbrev pub overflow_message : String
overflow_message = "capacity overflow"

abbrev pub with_capacity {κ} : {E : Type κ} → (size capacity : ℕ) → Outcome E (Unit {0})
with_capacity size capacity = if fits_vector size capacity then ok tt else panic overflow_message

-- Where the allocator grants the request, the vector is there.
pub try_vec_granted {ℓ} :
    {A : Type ℓ} (alloc : Allocator) (size capacity : ℕ) (field : String)
    → alloc size capacity ≡ none
    → try_vec {A = A} alloc size capacity field ≡ ok []
unfolding try_vec
try_vec_granted alloc size capacity field h = rw (h, try_vec)
