-- ===== src/Loader/Plan/Counts.antt =====
-- How many indices the first batches of a sequence have.
use rust_torch.Base.{
  ℕ, zero, suc, ◌≤◌, ◌<◌, ◌≡◌, ap, sym, ◌∙◌, inl, inr, Bool, false, List, [], ◌∷◌, arith, length,
  take, drop, sum, map, length-take, length-drop, Bool-cases,
}
use rust_torch.Sampler.Validate.{batch_count}
use rust_torch.Sampler.Batch.Slices.{
  batches, batches-nil, batches-step, batches_short_kept, batches_short_dropped, batch_count-step,
  batch_count_short, by_slices,
}
use rust_torch.Sampler.Checkpoint.Batch.Boundary.{IsBoundary}

module _ (size : ℕ) (drop_last : Bool) (pos : 0 < size) where
  -- After so many of these batches, which are not more than the indices, stands a boundary.
  abbrev CountedAs : List ℕ → List (List ℕ) → Type 0
  CountedAs xs parts =
      (length parts ≤ length xs)
      × ((n : ℕ)
          → n ≤ length parts
          → IsBoundary (length xs) size drop_last n (sum (map length (take n parts))))

  none_taken : (xs : List ℕ) → CountedAs xs []
  none_taken xs = (omega arith, λ n h. (inl (ground arith), ground arith))

  one_taken :
      (xs : List ℕ) → 0 < length xs → length xs < size → drop_last ≡ false → CountedAs xs (xs ∷ [])
  unfolding batch_count
  one_taken xs h k d = (omega arith, after)
    where
      after :
          (n : ℕ)
          → n ≤ 1
          → IsBoundary (length xs) size drop_last n (sum (map length (take n (xs ∷ []))))
      after zero le = (inl (omega arith), omega arith)
      after (suc zero) le =
          (inr (d, omega arith, sym (batch_count_short (length xs) size false h k)), omega arith)
      after (suc (suc n)) le = absurd (omega arith)

  short_taken : (xs : List ℕ) → length xs < size → CountedAs xs (batches size drop_last xs)
  short_taken [] h = rw (batches-nil {A = ℕ} size drop_last pos) (none_taken [])
  short_taken (x ∷ xs) h = elim (Bool-cases drop_last) [
    | inl e ↦
        rw (batches_short_dropped size drop_last pos (x ∷ xs) (omega arith) h e)
          (none_taken (x ∷ xs))
    | inr e ↦
        rw (batches_short_kept size drop_last pos (x ∷ xs) (omega arith) h e)
          (one_taken (x ∷ xs) (omega arith) h e)
  ]

  step_taken :
      (xs : List ℕ) (parts : List (List ℕ))
      → size ≤ length xs
      → CountedAs (drop size xs) parts
      → CountedAs xs (take size xs ∷ parts)
  step_taken xs parts h (few, counted) = (omega (arith, length-drop size xs, few), after)
    where
      after :
          (n : ℕ)
          → n ≤ suc (length parts)
          → IsBoundary
              (length xs)
              size
              drop_last
              n
              (sum (map length (take n (take size xs ∷ parts))))
      after zero le = (inl (omega arith), omega arith)
      after (suc n) le =
          let l : length (take size xs) ≡ size = omega (arith, length-take size xs) in
          let (stands, inside) = counted n (omega arith) in
          let rest = length-drop size xs in
          elim stands [
            | inl e ↦ (inl (omega (arith, l, e)), omega (arith, l, rest, inside))
            | inr (d, e, b) ↦ (
              inr (
                d,
                omega (arith, l, rest, e),
                ap suc (b ∙ ap (λ m. batch_count m size false) rest)
                    ∙ sym (batch_count-step (length xs) size false pos h),
              ),
              omega (arith, l, rest, inside),
            )
          ]

  pub batches-CountedAs : (xs : List ℕ) → CountedAs xs (batches size drop_last xs)
  batches-CountedAs xs =
      by_slices size drop_last pos (λ ys. CountedAs ys (batches size drop_last ys)) short_taken
        (λ ys h ih. rw (batches-step size drop_last pos ys h) (step_taken ys _ h ih))
        (suc (length xs)) xs (omega arith)
