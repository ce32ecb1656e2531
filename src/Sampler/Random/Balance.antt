-- ===== src/Sampler/Random/Balance.antt =====
-- What `random_indices` yields: how often each index is drawn.
use mathlib.Core.List.Perm
use mathlib.Core.List.{append-nil, append_assoc}
use native.Mathlib.Decide.{dec_lt}
use rust_torch.Base.{
  ℕ, zero, suc, ◌+◌, ◌-◌, ◌*◌, ◌≤◌, ◌<◌, ◌≡◌, refl, sym, ap, List, [], ◌∷◌, ◌++◌, Perm, arith,
  length, take, range, count, count-perm, count-append, count-take-le, count-range_from, AllBelow,
  AllBelow-perm, AllBelow-range_from, All-append, All-take, length-perm, length-append, length-take,
  length-range_from, none, count-le-length, take_of_length-le, subst, le→not-ltb, lt→ltb,
}
use rust_torch.Outcome.{ok}
use rust_torch.Storage.{Allocator, usize_size, try_vec_granted}
use rust_torch.Rng.{Rng, IsLawful}
use rust_torch.Sampler.Random.{
  draws, permutations, random_indices, with_replacement, without_replacement,
}

-- `n` indices below `len`, each drawn `n / len` times, rounded down or up.
pub record IsBalanced (len n : ℕ) (xs : List ℕ) : Type 0 where
  pub drawn : length xs ≡ n
  pub below : AllBelow len xs
  pub at_most : (a : ℕ) → a < len → count a xs * len < n + len
  pub at_least : (a : ℕ) → a < len → n < (count a xs + 1) * len

few_bounds :
    (c len n : ℕ) → 0 < len → c ≤ 1 → c ≤ n → n < len → (c * len < n + len) × (n < (c + 1) * len)
few_bounds zero len n pos h k m = omega arith
few_bounds (suc zero) len n pos h k m = omega arith
few_bounds (suc (suc c)) len n pos h k m = absurd (omega arith)

nil_of_length : (xs : List ℕ) → length xs ≡ 0 → xs ≡ []
nil_of_length [] h = refl
nil_of_length (x ∷ xs) h = absurd (omega arith)

module _ (len : ℕ) (pos : 0 < len) where
  -- A complete permutation in front keeps the balance.
  IsBalanced-append :
      (n : ℕ) (p xs : List ℕ)
      → Perm p (range len)
      → IsBalanced len n xs
      → IsBalanced len (len + n) (p ++ xs)
  IsBalanced-append n p xs h b = record {
    drawn = omega (arith, length-append p xs, length-perm h, length-range_from 0 len, b.drawn);
    below =
        All-append _ p xs
          (AllBelow-perm len (Perm.symm h) (AllBelow-range_from 0 len len (omega arith))) b.below;
    at_most = λ a k. omega (arith, ap (λ (c : ℕ). c * len) (once a k), b.at_most a k);
    at_least = λ a k. omega (arith, ap (λ (c : ℕ). c * len) (once a k), b.at_least a k);
  }
    where
      once : (a : ℕ) → a < len → count a (p ++ xs) ≡ 1 + count a xs
      once a k = omega (
        arith,
        count-append a p xs,
        count-perm a h,
        count-range_from a 0 len (omega arith) (omega arith),
      )

  -- So does a prefix of a permutation on its own.
  IsBalanced-take :
      (n : ℕ) (p : List ℕ) → Perm p (range len) → n < len → IsBalanced len n (take n p)
  IsBalanced-take n p h k = record {
    drawn = omega (arith, length-take n p, length-perm h, length-range_from 0 len);
    below =
        All-take _ n p
          (AllBelow-perm len (Perm.symm h) (AllBelow-range_from 0 len len (omega arith)));
    at_most = λ a m. (bounds a m).0;
    at_least = λ a m. (bounds a m).1;
  }
    where
      bounds :
          (a : ℕ)
          → a < len
          → (count a (take n p) * len < n + len) × (n < (count a (take n p) + 1) * len)
      bounds a m =
          few_bounds (count a (take n p)) len n pos
            (omega (
              arith,
              count-take-le a n p,
              count-perm a h,
              count-range_from a 0 len (omega arith) (omega arith),
            ))
            (omega (arith, count-le-length a (take n p), length-take n p)) k

  -- One round of the loop: as much of a permutation as is still wanted, then the rest.
  IsBalanced-round :
      (n : ℕ) (p xs : List ℕ)
      → Perm p (range len)
      → IsBalanced len (n - len) xs
      → IsBalanced len n (take n p ++ xs)
  IsBalanced-round n p xs h b = elim (dec_lt n len) [
    | yes few ↦
        rw (nil_of_length xs (omega (arith, b.drawn)), append-nil (take n p))
          (IsBalanced-take n p h few)
    | no many ↦
        let whole : take n p ≡ p =
          take_of_length-le n p (omega (arith, length-perm h, length-range_from 0 len)) in
        let e : len + (n - len) ≡ n = omega arith in
        rw whole (subst (λ m. IsBalanced len m (p ++ xs)) e (IsBalanced-append (n - len) p xs h b))
  ]

module _ (rng : Rng) (law : IsLawful rng) (alloc : Allocator) (len : ℕ) (pos : 0 < len) where
  -- What the loop adds to an output that lacks `n` indices.
  Adds : ℕ → ℕ → List ℕ → List ℕ → rng.State → ℕ → Type 0
  Adds fuel num p output state n =
      (xs : List ℕ) × (permutations alloc rng fuel num p output state ≡ ok (output ++ xs))
      × IsBalanced len n xs

  Adds-round :
      (fuel num n : ℕ) (p output : List ℕ) (state : rng.State)
      → length output + suc n ≡ num
      → Perm p (range len)
      → let (shuffled, state') = rng.shuffle p state in
        Adds fuel num shuffled (output ++ take (suc n) shuffled) state' (suc n - len)
        → Adds (suc fuel) num p output state (suc n)
  unfolding permutations Adds
  Adds-round fuel num n p output state e q (xs, run, b) =
      let shuffled = (rng.shuffle p state).0 in
      let wanted : num - length output ≡ suc n = omega arith in
      (
        take (suc n) shuffled ++ xs,
        rw (lt→ltb (length output) num (omega arith), wanted, run)
            (ap ok (append_assoc output (take (suc n) shuffled) xs)),
        IsBalanced-round len pos (suc n) shuffled xs (Perm.trans (law.shuffle-perm p state) q) b,
      )

  permutations-IsBalanced :
      (fuel num n : ℕ) (p output : List ℕ) (state : rng.State)
      → length output + n ≡ num
      → n < fuel
      → Perm p (range len)
      → Adds fuel num p output state n
  unfolding permutations Adds
  permutations-IsBalanced zero num n p output state e h q = absurd (omega arith)
  permutations-IsBalanced (suc fuel) num zero p output state e h q = (
    [],
    rw (le→not-ltb (length output) num (omega arith)) (ap ok (sym (append-nil output))),
    IsBalanced-take len pos 0 p q pos,
  )
  permutations-IsBalanced (suc fuel) num (suc n) p output state e h q =
      let shuffled = (rng.shuffle p state).0 in
      let again : Perm shuffled (range len) = Perm.trans (law.shuffle-perm p state) q in
      Adds-round fuel num n p output state e q (
        permutations-IsBalanced fuel num (suc n - len) shuffled (output ++ take (suc n) shuffled)
          (rng.shuffle p state).1
          (omega (
            arith,
            length-append output (take (suc n) shuffled),
            length-take (suc n) shuffled,
            length-perm again,
            length-range_from 0 len,
          ))
          (omega arith) again)

  -- Without replacement, once its two vectors are granted, `random_indices` yields `num_samples`
  -- indices below `length`; each of them is drawn `num_samples / length` times, rounded down or up.
  pub random_indices-IsBalanced :
      (num seed : ℕ)
      → alloc usize_size len ≡ none
      → alloc usize_size num ≡ none
      → (xs : List ℕ) × (random_indices alloc rng len num without_replacement seed ≡ ok xs)
        × IsBalanced len num xs
  unfolding random_indices Adds
  random_indices-IsBalanced num seed g g' =
      let (xs, run, b) =
        permutations-IsBalanced (suc num) num num (range len) [] (rng.seed_from_u64 seed)
          (omega arith) (omega arith) (Perm.refl (range len)) in
      (
        xs,
        rw
            (
              try_vec_granted {A = ℕ} alloc usize_size len "length" g,
              try_vec_granted {A = ℕ} alloc usize_size num "num_samples" g',
            )
            run,
        b,
      )

  draws-below :
      (n : ℕ) (state : rng.State)
      → (length (draws alloc rng n len state) ≡ n) × AllBelow len (draws alloc rng n len state)
  unfolding draws
  draws-below zero state = (refl, tt)
  draws-below (suc n) state =
      let (k, below) = draws-below n (rng.gen_range 0 len state).1 in
      (ap suc k, ((law.gen_range_bounds 0 len state pos).1, below))

  -- With replacement, it yields `num_samples` indices below `length`.
  pub random_indices-below :
      (num seed : ℕ)
      → alloc usize_size num ≡ none
      → (xs : List ℕ) × (random_indices alloc rng len num with_replacement seed ≡ ok xs)
        × (length xs ≡ num)
        × AllBelow len xs
  unfolding random_indices
  random_indices-below num seed g =
      let (k, below) = draws-below num (rng.seed_from_u64 seed) in
      (
        draws alloc rng num len (rng.seed_from_u64 seed),
        rw (try_vec_granted {A = ℕ} alloc usize_size num "num_samples" g),
        k,
        below,
      )
