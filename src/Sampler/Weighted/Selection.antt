-- ===== src/Sampler/Weighted/Selection.antt =====
-- What a weighted sampler without replacement selects: its entries, its zero weights and its storage.
use mathlib.Core.List.Perm
use rust_torch.Base.{
  ℕ, suc, ◌-◌, ◌≤◌, ◌<◌, ◌≡◌, refl, ap, false, none, List, [], ◌∷◌, ◌++◌, Perm, map, arith, length,
  take, count-perm, count-append, count-take-le, count-range_from-le, AllBelow-perm, length-take,
  length-map, length-append, length-perm, take-append, map-take, take_of_length-le, subst, All,
  All-append, All-take, le→not-ltb, lt→ltb,
}
use native.Mathlib.Decide.{dec_lt}
use mathlib.Core.List.{append-nil}
use rust_torch.Outcome.{ok}
use rust_torch.Storage.{Allocator, usize_size, pair_size, try_vec, try_vec_granted}
use rust_torch.Rng.{Rng, IsLawful}
use rust_torch.Float.{F64, HasSigns}
use rust_torch.Sampler.Weighted.{
  WeightedRng, sort_by, keyed, zero_weights, fill_zero, weighted_indices,
}
use rust_torch.Sampler.Weighted.Positions.{
  sort_by-perm, positive_weights, IsWeight, length-weights, count-weights, positive-below,
  zero-below, IsSelection,
}

module _ (alloc : Allocator) (f : F64) (rng : Rng) (law : IsLawful rng)
    (dist : WeightedRng f rng) where
  keyed-positive :
      (i : ℕ) (ws : List f.Float) (state : rng.State)
      → map (λ e. e.0) (keyed alloc f rng dist i ws state).0 ≡ positive_weights f i ws
  unfolding keyed positive_weights
  keyed-positive i [] state = refl
  keyed-positive i (w ∷ ws) state =
      ground
        (arith, keyed-positive (suc i) ws state, keyed-positive (suc i) ws (dist.open01 state).1)

  -- Zero weights extend a prefix of the positive ones to a prefix of both.
  fill_zero-take :
      (ws : List f.Float) (num : ℕ) (ps : List ℕ) (state : rng.State)
      → (length ps < num → alloc usize_size (length ws) ≡ none)
      → fill_zero alloc f rng dist ws num (take num ps) state
        ≡ ok (take num (ps ++ (rng.shuffle (zero_weights f 0 ws) state).0))
  unfolding fill_zero
  fill_zero-take ws num ps state g =
      let zs = (rng.shuffle (zero_weights f 0 ws) state).0 in
      elim (dec_lt (length ps) num) [
        | yes few ↦
            let all : take num ps ≡ ps = take_of_length-le num ps (omega arith) in
            rw (
              all,
              lt→ltb (length ps) num few,
              try_vec_granted {A = ℕ} alloc usize_size (length ws) "weights" (g few),
              take-append num ps zs,
              all,
            )
        | no many ↦
            let none_left : num - length ps ≡ 0 = omega arith in
            rw (
              le→not-ltb (length (take num ps)) num (omega (arith, length-take num ps)),
              take-append num ps zs,
              none_left,
              append-nil (take num ps),
            )
      ]

  select :
      (signs : HasSigns f) (ws : List f.Float) (num : ℕ) (ps zs : List ℕ)
      → All (IsWeight f) ws
      → num ≤ length ws
      → Perm ps (positive_weights f 0 ws)
      → Perm zs (zero_weights f 0 ws)
      → IsSelection f ws num (take num (ps ++ zs))
  select signs ws num ps zs valid h p z = record {
    positive = ps;
    zeros = zs;
    positive-perm = p;
    zeros-perm = z;
    chosen = refl;
    drawn = omega (
      arith,
      length-take num (ps ++ zs),
      length-append ps zs,
      length-perm p,
      length-perm z,
      length-weights f signs 0 ws valid,
    );
    distinct = λ a. omega (
      arith,
      count-take-le a num (ps ++ zs),
      count-append a ps zs,
      count-perm a p,
      count-perm a z,
      count-weights f signs a 0 ws valid,
      count-range_from-le a 0 (length ws),
    );
    below = All-take _ num (ps ++ zs) (
        All-append _ ps zs
          (AllBelow-perm _ (Perm.symm p) (positive-below f 0 (length ws) ws (omega arith)))
          (AllBelow-perm _ (Perm.symm z) (zero-below f 0 (length ws) ws (omega arith))));
  }

  fill_zero-granted :
      (ws : List f.Float) (num : ℕ) (output : List ℕ) (state : rng.State) {xs : List ℕ}
      → fill_zero alloc f rng dist ws num output state ≡ ok xs
      → length output < num
      → alloc usize_size (length ws) ≡ none
  unfolding fill_zero try_vec
  fill_zero-granted ws num output state h k = ground arith

  -- What a successful selection tells of the storage, whatever the seed.
  pub record Fits (ws : List f.Float) (num : ℕ) : Type 0 where
    pub entries : alloc pair_size (length ws) ≡ none
    pub output : alloc usize_size num ≡ none
    pub zeros : length (positive_weights f 0 ws) < num → alloc usize_size (length ws) ≡ none

  weighted_indices-filled :
      (ws : List f.Float) (num seed : ℕ) (d : dist.WeightedIndex) {xs : List ℕ}
      → weighted_indices alloc f rng dist ws num false seed d ≡ ok xs
      → (alloc pair_size (length ws) ≡ none)
        × (alloc usize_size num ≡ none)
        × (fill_zero alloc f rng dist ws num
              (map
                (λ e. e.0)
                (take num (sort_by f (keyed alloc f rng dist 0 ws (rng.seed_from_u64 seed)).0)))
              (keyed alloc f rng dist 0 ws (rng.seed_from_u64 seed)).1
            ≡ ok xs)
  unfolding weighted_indices try_vec
  weighted_indices-filled ws num seed d h = ground arith

  pub weighted_indices-Fits :
      (ws : List f.Float) (num seed : ℕ) (d : dist.WeightedIndex) {xs : List ℕ}
      → weighted_indices alloc f rng dist ws num false seed d ≡ ok xs
      → Fits ws num
  weighted_indices-Fits ws num seed d h =
      let entries = (keyed alloc f rng dist 0 ws (rng.seed_from_u64 seed)).0 in
      let (g, g', run) = weighted_indices-filled ws num seed d h in
      record {
        entries = g;
        output = g';
        zeros = λ few. fill_zero-granted ws num _ _ run (
            omega (
              arith,
              length-map (take num (sort_by f entries)) (λ (e : ℕ × f.Float). e.0),
              length-take num (sort_by f entries),
              length-perm (sort_by-perm f entries),
              length-map entries (λ (e : ℕ × f.Float). e.0),
              ap length (keyed-positive 0 ws (rng.seed_from_u64 seed)),
            ));
      }

  -- Without replacement, once its vectors are granted, `weighted_indices` selects from valid
  -- weights.
  pub weighted_indices-IsSelection :
      HasSigns f
      → (ws : List f.Float) (num seed : ℕ) (d : dist.WeightedIndex) → All (IsWeight f) ws
      → num ≤ length ws
      → alloc pair_size (length ws) ≡ none
      → alloc usize_size num ≡ none
      → (length (positive_weights f 0 ws) < num → alloc usize_size (length ws) ≡ none)
      → (xs : List ℕ) × (weighted_indices alloc f rng dist ws num false seed d ≡ ok xs)
        × IsSelection f ws num xs
  unfolding weighted_indices
  weighted_indices-IsSelection signs ws num seed d valid h g g' g'' =
      let (entries, state) = keyed alloc f rng dist 0 ws (rng.seed_from_u64 seed) in
      let ps = map (λ e. e.0) (sort_by f entries) in
      let zs = (rng.shuffle (zero_weights f 0 ws) state).0 in
      let p : Perm ps (positive_weights f 0 ws) =
        subst (Perm ps) (keyed-positive 0 ws (rng.seed_from_u64 seed))
          (Perm.map (λ e. e.0) (sort_by-perm f entries)) in
      (
        take num (ps ++ zs),
        rw
            (
              try_vec_granted {A = ℕ × f.Float} alloc pair_size (length ws) "weights" g,
              try_vec_granted {A = ℕ} alloc usize_size num "num_samples" g',
              map-take (λ (e : ℕ × f.Float). e.0) num (sort_by f entries),
            )
            (fill_zero-take ws num ps state (λ few. g'' (omega (arith, length-perm p)))),
        select signs ws num ps zs valid h p (law.shuffle-perm (zero_weights f 0 ws) state),
      )
