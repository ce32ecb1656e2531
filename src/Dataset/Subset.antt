-- ===== src/Dataset/Subset.antt =====
-- `Subset` of crates/rusttorch-data/src/dataset.rs.
use rust_torch.Base.{
  ℕ, ◌≡◌, refl, Option, none, some, List, [], ◌∷◌, leb, if◌then◌else◌, length, AllBelow, arith,
}
use rust_torch.Error.{RustTorchError, Arg}
use rust_torch.Outcome.{Outcome, ok, err, ◌>>=◌, index}
use rust_torch.Sampler.Validate.{invalid_configuration}
use rust_torch.Dataset.{Dataset}

pub record Subset {ℓ κ} (S : Type ℓ) (E : Type κ) : Type (ℓ ⊔ κ) where
  pub dataset : Dataset S E
  pub indices : List ℕ

-- `indices.iter().find(|&&index| index >= len)`.
unfoldable pub find_out_of_range : List ℕ → ℕ → Option ℕ
find_out_of_range [] len = none
find_out_of_range (i ∷ is) len = if leb len i then some i else find_out_of_range is len

module _ {ℓ κ} {S : Type ℓ} {E : Type κ} where
  unfoldable pub new : Dataset S E → List ℕ → Outcome RustTorchError (Subset S E)
  new d indices = elim (find_out_of_range indices d.len) [
    | some i ↦ err (
        invalid_configuration "indices" (record {
          template = "index {index} is out of range for length {}";
          arguments = Arg.number i ∷ Arg.number d.len ∷ [];
        }))
    | none ↦ ok (record { dataset = d; indices = indices })
  ]

  unfoldable pub len : Subset S E → ℕ
  len s = length s.indices

  unfoldable pub get : Subset S E → ℕ → Outcome E S
  get s i = do j ← index s.indices i; s.dataset.get j

pub find_out_of_range-none :
    (is : List ℕ) (len : ℕ) → AllBelow len is → find_out_of_range is len ≡ none
unfolding find_out_of_range
find_out_of_range-none [] len h = refl
find_out_of_range-none (i ∷ is) len h = ground (arith, find_out_of_range-none is len h.1, h.0)

pub AllBelow-find_out_of_range :
    (is : List ℕ) (len : ℕ) → find_out_of_range is len ≡ none → AllBelow len is
unfolding find_out_of_range
AllBelow-find_out_of_range [] len h = tt
AllBelow-find_out_of_range (i ∷ is) len h =
    (ground arith, AllBelow-find_out_of_range is len (ground arith))

module _ {ℓ κ} {S : Type ℓ} {E : Type κ} where
  pub new-AllBelow :
      (d : Dataset S E) (is : List ℕ)
      → AllBelow d.len is
      → new d is ≡ ok (record { dataset = d; indices = is })
  unfolding new
  new-AllBelow d is h = rw (find_out_of_range-none is d.len h, new) refl
