-- ===== src/Dataset/Split/Partition.antt =====
-- What `random_split` returns: subsets that share out the samples.
use rust_torch.Base.{
  ℕ, ◌*◌, ◌<◌, ◌⊎◌, inl, inr, leb, le→leb, i64_max, zero, suc, ◌+◌, ◌-◌, ◌≤◌, ◌≡◌, refl, sym, ap,
  ◌∙◌, false, List, [], ◌∷◌, ◌++◌, map, flatten, Perm, All, AllBelow, arith, length, take, drop,
  sum, range, usize_max, ltb, subst, length-map, length-take, length-drop, length-perm,
  length-range_from, AllBelow-perm, AllBelow-range_from, take-append-drop, All-take, drop-drop,
  drop_of_length-le, String,
}
use mathlib.Core.Path.{ap₂}
use mathlib.Core.List.Perm
use native.Mathlib.Decide.{dec_lt}
use rust_torch.Error.{RustTorchError}
use rust_torch.Storage.{with_capacity, usize_size}
use rust_torch.Outcome.{Outcome, ok, panic, ◌>>◌}
use rust_torch.Rng.{Rng, IsLawful}
use rust_torch.Float.{F64}
use rust_torch.Dataset.{Dataset}
use rust_torch.Dataset.Subset.{Subset, new-AllBelow}
use rust_torch.Dataset.Split.{slice, SplitLength, count, subsets, random_split}
use rust_torch.Dataset.Split.Counts.{Ends, gives, Ends->>=, Ends-split_counts, split_counts-count}

All-drop {ℓ κ} : {A : Type ℓ} (P : A → Type κ) (n : ℕ) (xs : List A) → All P xs → All P (drop n xs)
All-drop P zero xs h = h
All-drop P (suc n) [] h = tt
All-drop P (suc n) (x ∷ xs) h = All-drop P n xs h.1

slice_inside :
    (indices : List ℕ) (start n : ℕ)
    → start + n ≤ length indices
    → slice indices start (start + n) ≡ ok (take n (drop start indices))
unfolding slice
slice_inside indices start n h =
    let e : ltb (start + n) start ≡ false = ground arith in
    let e' : ltb (length indices) (start + n) ≡ false = ground arith in
    let k : start + n - start ≡ n = omega arith in rw (e, e', k, slice) refl

module _ {ℓ κ} {S : Type ℓ} {E : Type κ} where
  -- The subsets of `d` with these numbers of samples share out the indices from `offset` on, in order.
  record IsShared (d : Dataset S E) (indices : List ℕ) (offset : ℕ) (counts : List ℕ)
      (ss : List (Subset S E)) : Type (ℓ ⊔ κ) where
    joined : flatten (map (λ s. s.indices) ss) ≡ drop offset indices
    counted : map (λ s. length s.indices) ss ≡ counts
    of_dataset : All (λ s. s.dataset ≡ d) ss

  subsets-IsShared :
      (d : Dataset S E) (indices : List ℕ) (offset : ℕ) (counts : List ℕ)
      → length indices ≤ usize_max
      → AllBelow d.len indices
      → offset + sum counts ≡ length indices
      → (ss : List (Subset S E)) × (subsets d indices offset counts ≡ ok ss)
        × IsShared d indices offset counts ss
  unfolding subsets flatten
  subsets-IsShared d indices offset [] h below fits = (
    [],
    refl,
    record {
      joined = sym (drop_of_length-le offset indices (omega (arith, fits)));
      counted = refl;
      of_dataset = tt;
    },
  )
  subsets-IsShared d indices offset (n ∷ counts) h below fits =
      let (ss, e, v) =
        subsets-IsShared d indices (offset + n) counts h below (omega (arith, fits)) in
      let part = take n (drop offset indices) in
      let z : ltb usize_max (offset + n) ≡ false = ground (arith, fits) in
      let within : AllBelow d.len part =
        All-take _ n (drop offset indices) (All-drop _ offset indices below) in
      let l : length part ≡ n =
        omega (arith, fits, length-take n (drop offset indices), length-drop offset indices) in
      (
        record { dataset = d; indices = part } ∷ ss,
        rw
            (
              z,
              slice_inside indices offset n (omega (arith, fits)),
              new-AllBelow d part within,
              e,
              subsets,
            )
            refl,
        record {
          joined =
              ap (λ (xs : List ℕ). part ++ xs) (v.joined ∙ sym (drop-drop n offset indices))
              ∙ take-append-drop n (drop offset indices);
          counted = ap₂ (λ (a : ℕ) (b : List ℕ). a ∷ b) l v.counted;
          of_dataset = (refl, v.of_dataset);
        },
      )

-- The vector of the indices.
collects {ℓ} :
    {A : Type ℓ} (len : ℕ)
    → len * usize_size ≤ i64_max
    → (rest : Outcome RustTorchError A) → (with_capacity usize_size len >> rest) ≡ rest
collects len fits rest = rw (le→leb (len * usize_size) i64_max fits) refl

overflows {ℓ} :
    {A : Type ℓ} (len : ℕ)
    → i64_max < len * usize_size
    → (rest : Outcome RustTorchError A)
    → (with_capacity usize_size len >> rest) ≡ panic "capacity overflow"
overflows len large rest =
    let e : leb (len * usize_size) i64_max ≡ false = ground arith in rw e refl

module _ {ℓ κ} {S : Type ℓ} {E : Type κ} (f : F64) where
  -- A split of a dataset into non-overlapping subsets: as many as lengths were asked for, each of that
  -- dataset, whose indices together are a permutation of the dataset's.
  pub record IsSplit (d : Dataset S E) (lengths : List (SplitLength f)) (ss : List (Subset S E))
      : Type (ℓ ⊔ κ) where
    pub permuted : Perm (flatten (map (λ s. s.indices) ss)) (range d.len)
    pub as_many : length ss ≡ length lengths
    pub of_dataset : All (λ s. s.dataset ≡ d) ss

module _ {ℓ κ} {S : Type ℓ} {E : Type κ} (f : F64) (display : f.Float → String) (rng : Rng)
    (lawful : IsLawful rng) where
  shuffled : Dataset S E → ℕ → List ℕ
  shuffled d seed = (rng.shuffle (range d.len) (rng.seed_from_u64 seed)).0

  shuffled-perm : (d : Dataset S E) (seed : ℕ) → Perm (shuffled d seed) (range d.len)
  unfolding shuffled
  shuffled-perm d seed = lawful.shuffle-perm (range d.len) (rng.seed_from_u64 seed)

  length-shuffled : (d : Dataset S E) (seed : ℕ) → length (shuffled d seed) ≡ d.len
  length-shuffled d seed = length-perm (shuffled-perm d seed) ∙ length-range_from 0 d.len

  split_at :
      (d : Dataset S E) (seed : ℕ) (counts : List ℕ)
      → d.len ≤ usize_max
      → sum counts ≡ d.len
      → (ss : List (Subset S E)) × (subsets d (shuffled d seed) 0 counts ≡ ok ss)
        × IsShared d (shuffled d seed) 0 counts ss
  split_at d seed counts h total =
      let l = length-shuffled d seed in
      subsets-IsShared d (shuffled d seed) 0 counts (omega (arith, l))
        (AllBelow-perm d.len (Perm.symm (shuffled-perm d seed))
          (AllBelow-range_from 0 d.len d.len (omega arith)))
        (omega (arith, l, total))

  -- With a lawful generator, for a dataset whose indices fit a vector, 8 bytes each within
  -- `isize::MAX`, and every list of lengths, `random_split` ends in an error or in a split of the
  -- dataset. It does not panic: the leftovers of the fractions are handed out within bounds, and the
  -- slices fit.
  pub random_split-IsSplit :
      (d : Dataset S E) (lengths : List (SplitLength f)) (seed : ℕ)
      → d.len * usize_size ≤ i64_max
      → Ends (IsSplit f d lengths) (random_split f display rng d lengths seed)
  unfolding random_split shuffled
  random_split-IsSplit d lengths seed fits =
      let h : d.len ≤ usize_max = omega arith in
      Ends->>= _ (Ends-split_counts f display lengths d.len h) (λ counts v.
        let (ss, e, w) = split_at d seed counts h v.0 in
        subst (Ends _) (sym (collects d.len fits _ ∙ e)) (
          gives ss (record {
            permuted = rw w.joined (shuffled-perm d seed);
            as_many = sym (length-map ss _) ∙ ap length w.counted ∙ v.1;
            of_dataset = w.of_dataset;
          })))

  -- With a lawful generator, exact counts that use up a dataset of at most `usize::MAX` samples give a
  -- split, with so many samples in each subset, where the indices of the dataset fit a vector, 8 bytes
  -- each within `isize::MAX`; for a larger dataset `random_split` panics.
  pub random_split-count :
      (d : Dataset S E) (counts : List ℕ) (seed : ℕ)
      → d.len ≤ usize_max
      → sum counts ≡ d.len
      → ((d.len * usize_size ≤ i64_max)
          × ((ss : List (Subset S E)) × (random_split f display rng d (map count counts) seed
                ≡ ok ss)
              × (map (λ s. length s.indices) ss ≡ counts)))
        ⊎ ((i64_max < d.len * usize_size)
            × (random_split f display rng d (map count counts) seed ≡ panic "capacity overflow"))
  unfolding random_split shuffled
  random_split-count d counts seed h total =
      let (ss, e, w) = split_at d seed counts h total in
      let counted = split_counts-count f display counts d.len h total in
      elim (dec_lt i64_max (d.len * usize_size)) [
        | yes large ↦ inr (large, rw counted (overflows d.len large _))
        | no fits ↦
            inl (omega arith, (ss, rw counted (collects d.len (omega arith) _ ∙ e), w.counted))
      ]
