-- ===== src/Memory/Footprint.antt =====
-- The trait `MemoryFootprint` of crates/rusttorch-data/src/memory.rs: sizes that saturate at
-- `usize::MAX`. A footprint is the function `resident_bytes` of a type.
use rust_torch.Base.{
  sum, ℕ, ◌+◌, ◌≤◌, ◌≡◌, ap, ◌∙◌, Option, none, some, List, [], ◌∷◌, map, arith, checked_add,
  checked_mul, usize_max, min,
}

abbrev pub Footprint : Type 0 → Type 0
Footprint A = A → ℕ

-- The loop of `saturating_sum`, over what is left and the total so far.
unfoldable pub sum_loop : ℕ → List ℕ → ℕ
sum_loop total [] = total
sum_loop total (value ∷ rest) = elim (checked_add total value) [
  | none ↦ usize_max
  | some next ↦ sum_loop next rest
]

unfoldable pub saturating_sum : List ℕ → ℕ
unfolding sum_loop
saturating_sum values = sum_loop 0 values

-- `size_of` of a scalar type.
unfoldable pub scalar : {A : Type 0} → ℕ → Footprint A
scalar size a = size

-- `numel` and the element size are LibTorch's.
unfoldable pub tensor : ℕ → ℕ → ℕ
tensor numel elt_size = elim (checked_mul numel elt_size) [ none ↦ usize_max | some bytes ↦ bytes ]

unfoldable pub vec : {A : Type 0} → Footprint A → Footprint (List A)
vec f values = saturating_sum (map f values)

unfoldable pub option : {A : Type 0} → Footprint A → Footprint (Option A)
option f none = 0
option f (some a) = f a

-- The sizes of an ordered map's entries, key and value in turn.
unfoldable pub entry_sizes : {K V : Type 0} → Footprint K → Footprint V → List (K × V) → List ℕ
entry_sizes f g [] = []
entry_sizes f g ((k, v) ∷ rest) = f k ∷ g v ∷ entry_sizes f g rest

unfoldable pub btree_map : {K V : Type 0} → Footprint K → Footprint V → Footprint (List (K × V))
unfolding entry_sizes
btree_map f g entries = saturating_sum (entry_sizes f g entries)

-- Tuples of two to eight: here by the list of the sizes of their parts.
unfoldable pub pair : {A B : Type 0} → Footprint A → Footprint B → Footprint (A × B)
pair f g (a, b) = saturating_sum (f a ∷ g b ∷ [])

unfoldable pub triple :
    {A B C : Type 0} → Footprint A → Footprint B → Footprint C → Footprint (A × B × C)
triple f g h (a, b, c) = saturating_sum (f a ∷ g b ∷ h c ∷ [])

sum_loop-min :
    (total : ℕ) (values : List ℕ)
    → total ≤ usize_max
    → sum_loop total values ≡ min (total + sum values) usize_max
unfolding sum_loop
sum_loop-min total [] h = omega arith
sum_loop-min total (value ∷ rest) h = ground (arith, sum_loop-min (total + value) rest)

-- The saturating sum is the sum, cut off at `usize::MAX`.
pub saturating_sum-min : (values : List ℕ) → saturating_sum values ≡ min (sum values) usize_max
unfolding saturating_sum
saturating_sum-min values = ground (arith, sum_loop-min 0 values)

sum-entry_sizes :
    {K V : Type 0} (f : Footprint K) (g : Footprint V) (entries : List (K × V))
    → sum (entry_sizes f g entries)
      ≡ sum (map (λ e. f e.0) entries) + sum (map (λ e. g e.1) entries)
unfolding entry_sizes
sum-entry_sizes f g [] = omega arith
sum-entry_sizes f g ((k, v) ∷ rest) = omega (arith, sum-entry_sizes f g rest)

-- The footprint of a vector and of a map is the sum of those of the parts, or `usize::MAX` where
-- that sum is larger: it never wraps to a smaller size.
pub containers_saturate :
    {K V : Type 0} (f : Footprint K) (g : Footprint V) (keys : List K) (entries : List (K × V))
    → (vec f keys ≡ min (sum (map f keys)) usize_max)
      × (btree_map f g entries
          ≡ min (sum (map (λ e. f e.0) entries) + sum (map (λ e. g e.1) entries)) usize_max)
unfolding vec btree_map
containers_saturate f g keys entries = (
  saturating_sum-min (map f keys),
  saturating_sum-min (entry_sizes f g entries)
      ∙ ap (λ n. min n usize_max) (sum-entry_sizes f g entries),
)
