-- ===== src/Sampler/Batch/Slices.antt =====
-- Consecutive slices of a sequence: the specification of the batches of a `BatchSampler`.
use native.Mathlib.Nat.{div-eq-sub-div, mod-eq-sub-mod, div-eq_of_lt, mod-eq_of_lt}
use mathlib.Core.Path.{ap₂}
use native.Mathlib.Decide.{dec_lt}
use mathlib.Core.Bool.{false≢true}
use mathlib.Core.List.{append-nil}
use rust_torch.Base.{
  ℕ, zero, suc, ◌+◌, ◌-◌, ◌*◌, ◌/◌, ◌%◌, ◌≤◌, ◌<◌, ◌≡◌, refl, ap, ◌∙◌, sym, Bool, true, false, not,
  List, [], ◌∷◌, ◌++◌, map, arith, length, take, drop, take_of_length-le, if◌then◌else◌, flatten,
  take-add, take-append-drop, All, range, range_from, drop-drop, length-take, length-drop,
  Bool-cases, inl, inr, from_bool,
}
use rust_torch.Sampler.Validate.{batch_count}

-- The `k`-th slice of `size` indices.
abbrev pub batch_at {ℓ} : {A : Type ℓ} → ℕ → List A → ℕ → List A
batch_at size xs k = take size (drop (k * size) xs)

batch_at-suc {ℓ} :
    {A : Type ℓ} (size : ℕ) (xs : List A) (k : ℕ)
    → batch_at size (drop size xs) k ≡ batch_at size xs (suc k)
batch_at-suc size xs k =
    ap (take size) (drop-drop (k * size) size xs ∙ ap (λ n. drop n xs) (omega arith))

map-batch_at-suc {ℓ} :
    {A : Type ℓ} (size : ℕ) (xs : List A) (s n : ℕ)
    → map (batch_at size (drop size xs)) (range_from s n)
      ≡ map (batch_at size xs) (range_from (suc s) n)
map-batch_at-suc size xs s zero = refl
map-batch_at-suc size xs s (suc n) = cc (batch_at-suc size xs s, map-batch_at-suc size xs (suc s) n)

pub batch_count-step :
    (n size : ℕ) (drop_last : Bool)
    → 0 < size
    → size ≤ n
    → batch_count n size drop_last ≡ suc (batch_count (n - size) size drop_last)
unfolding batch_count
batch_count-step n size drop_last p h = ground (arith, d, m)
  where
    d : n / size ≡ suc ((n - size) / size)
    d =
        div-eq-sub-div p h
        ∙ (let e : (n - size) / size + 1 ≡ suc ((n - size) / size) = omega arith in e)

    m : n % size ≡ (n - size) % size
    m = mod-eq-sub-mod h

pub batch_count_short :
    (n size : ℕ) (drop_last : Bool)
    → 0 < n
    → n < size
    → batch_count n size drop_last ≡ from_bool (not drop_last)
unfolding batch_count
batch_count_short n size drop_last p h =
    ground (arith, div-eq_of_lt {n = n} {m = size} h, mod-eq_of_lt {n = n} {m = size} h)

batch_count_zero : (size : ℕ) (drop_last : Bool) → 0 < size → batch_count 0 size drop_last ≡ 0
unfolding batch_count
batch_count_zero size drop_last p =
    ground (arith, div-eq_of_lt {n = 0} {m = size} p, mod-eq_of_lt {n = 0} {m = size} p)

-- The slices that `collect` yields.
abbrev pub batches {ℓ} : {A : Type ℓ} → ℕ → Bool → List A → List (List A)
batches size drop_last xs = map (batch_at size xs) (range (batch_count (length xs) size drop_last))

module _ {ℓ} {A : Type ℓ} (size : ℕ) (drop_last : Bool) (pos : 0 < size) where
  pub batches-nil : batches {A = A} size drop_last [] ≡ []
  batches-nil =
      ap (λ n. map (batch_at {A = A} size []) (range n)) (batch_count_zero size drop_last pos)

  batch_at-zero : (xs : List A) → batch_at size xs 0 ≡ take size xs
  batch_at-zero xs = ap (λ n. take size (drop n xs)) (let e : 0 * size ≡ 0 = omega arith in e)

  pub batches-step :
      (xs : List A)
      → size ≤ length xs
      → batches size drop_last xs ≡ take size xs ∷ batches size drop_last (drop size xs)
  batches-step xs h =
      rw (batch_count-step (length xs) size drop_last pos h, length-drop size xs)
        (ap₂ ◌∷◌ (batch_at-zero xs)
          (sym (map-batch_at-suc size xs 0 (batch_count (length xs - size) size drop_last))))

  pub batches_short_kept :
      (xs : List A)
      → 0 < length xs
      → length xs < size
      → drop_last ≡ false
      → batches size drop_last xs ≡ xs ∷ []
  batches_short_kept xs h k e =
      rw (batch_count_short (length xs) size drop_last h k, e)
        (ap (λ b. b ∷ []) (batch_at-zero xs ∙ take_of_length-le size xs (omega arith)))

  pub batches_short_dropped :
      (xs : List A)
      → 0 < length xs
      → length xs < size
      → drop_last ≡ true
      → batches size drop_last xs ≡ []
  batches_short_dropped xs h k e = rw (batch_count_short (length xs) size drop_last h k, e)

-- A batch has an index, at most `size`, and exactly that many where short ones are dropped.
abbrev pub IsBatch {ℓ} : {A : Type ℓ} → ℕ → Bool → List A → Type 0
IsBatch size drop_last batch =
    (0 < length batch) × (length batch ≤ size) × (drop_last ≡ true → length batch ≡ size)

module _ {ℓ} {A : Type ℓ} (size : ℕ) (drop_last : Bool) (pos : 0 < size) where
  -- The indices that some batch holds.
  abbrev pub covered : List A → List A
  covered xs = if drop_last then take (length xs / size * size) xs else xs

  covered-step :
      (xs : List A) → size ≤ length xs → covered xs ≡ take size xs ++ covered (drop size xs)
  covered-step xs h = elim (Bool-cases drop_last) [
    | inl e ↦ rw e (ap (λ n. take n xs) blocks ∙ take-add size _ xs)
    | inr e ↦ rw e (sym (take-append-drop size xs))
  ]
    where
      blocks : length xs / size * size ≡ size + length (drop size xs) / size * size
      blocks = rw (length-drop size xs, div-eq-sub-div pos h) (omega arith)

  covered_short : (xs : List A) → length xs < size → covered xs ≡ (if drop_last then [] else xs)
  covered_short xs h = rw (div-eq_of_lt h) (ground arith)

  -- Induction on the number of full slices.
  pub by_slices {κ} :
      (P : List A → Type κ)
      → ((xs : List A) → length xs < size → P xs)
      → ((xs : List A) → size ≤ length xs → P (drop size xs) → P xs)
      → (fuel : ℕ) (xs : List A) → length xs < fuel
      → P xs
  by_slices P short full zero xs h = absurd (omega arith)
  by_slices P short full (suc fuel) xs h = elim (dec_lt (length xs) size) [
    | yes few ↦ short xs few
    | no many ↦
        full xs (omega arith)
          (by_slices P short full fuel (drop size xs) (omega (arith, length-drop size xs)))
  ]

  flatten_short :
      (xs : List A) → length xs < size → flatten (batches size drop_last xs) ≡ covered xs
  unfolding flatten
  flatten_short [] h =
      rw (batches-nil {A = A} size drop_last pos, covered_short [] h) (ground arith)
  flatten_short (x ∷ xs) h = elim (Bool-cases drop_last) [
    | inl e ↦ rw (
      batches_short_dropped size drop_last pos (x ∷ xs) (omega arith) h e,
      covered_short (x ∷ xs) h,
      e,
    )
    | inr e ↦
        rw
          (
            batches_short_kept size drop_last pos (x ∷ xs) (omega arith) h e,
            covered_short (x ∷ xs) h,
            e,
          )
          (append-nil (x ∷ xs))
  ]

  pub flatten-batches : (xs : List A) → flatten (batches size drop_last xs) ≡ covered xs
  unfolding flatten
  flatten-batches xs =
      by_slices (λ ys. flatten (batches size drop_last ys) ≡ covered ys) flatten_short
        (λ ys h ih.
          rw (batches-step size drop_last pos ys h, covered-step ys h)
            (ap (◌++◌ (take size ys)) ih))
        (suc (length xs)) xs (omega arith)

  batches_short-IsBatch :
      (xs : List A) → length xs < size → All (IsBatch size drop_last) (batches size drop_last xs)
  batches_short-IsBatch [] h = rw (batches-nil {A = A} size drop_last pos) tt
  batches_short-IsBatch (x ∷ xs) h = elim (Bool-cases drop_last) [
    | inl e ↦ rw (batches_short_dropped size drop_last pos (x ∷ xs) (omega arith) h e) tt
    | inr e ↦
        rw (batches_short_kept size drop_last pos (x ∷ xs) (omega arith) h e)
          ((omega arith, omega arith, λ t. absurd (false≢true (sym e ∙ t))), tt)
  ]

  pub batches-IsBatch : (xs : List A) → All (IsBatch size drop_last) (batches size drop_last xs)
  batches-IsBatch xs =
      by_slices (λ ys. All (IsBatch size drop_last) (batches size drop_last ys))
        batches_short-IsBatch
        (λ ys h ih.
          rw (batches-step size drop_last pos ys h) (omega (arith, length-take size ys), ih))
        (suc (length xs)) xs (omega arith)

  -- Dropping whole slices from the sequence drops as many batches.
  pub batches-drop :
      (k : ℕ) (xs : List A)
      → k * size ≤ length xs
      → batches size drop_last (drop (k * size) xs) ≡ drop k (batches size drop_last xs)
  batches-drop zero xs h =
      let e : zero * size ≡ 0 = omega arith in ap (λ n. batches size drop_last (drop n xs)) e
  batches-drop (suc k) xs h =
      let e : suc k * size ≡ size + k * size = omega arith in
      rw (batches-step size drop_last pos xs (omega arith), e, ← drop-drop (k * size) size xs)
        (batches-drop k (drop size xs) (omega (arith, length-drop size xs)))
