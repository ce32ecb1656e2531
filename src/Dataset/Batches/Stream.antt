-- ===== src/Dataset/Batches/Stream.antt =====
-- What batching a fallible stream yields, against the slices of its samples.
use native.Mathlib.Decide.{dec_lt}
use mathlib.Core.List.{append-nil, append_assoc}
use rust_torch.Base.{
  ℕ, zero, suc, ◌+◌, ◌-◌, ◌≤◌, ◌<◌, ◌≡◌, refl, sym, ap, ◌∙◌, Bool, true, false, none, some, List,
  [], ◌∷◌, ◌++◌, map, arith, length, take, drop, length-drop, if◌then◌else◌, Bool-cases, inl, inr,
  ◌==◌, ◌*◌, i64_max, le→leb,
}
use rust_torch.Outcome.{Outcome, ok, err, panic}
use rust_torch.Sampler.Batch.Slices.{
  batches, batches-nil, batches-step, batches_short_kept, batches_short_dropped,
}
use rust_torch.Dataset.Batches.{
  BatchIterator, Next, full, ended, failed, gather, new, is_err, finish, after_gather, first_sample,
  next, drain,
}

module _ {ℓ μ} {T : Type ℓ} {E : Type μ} where
  -- A source that yields these samples, and then the rest.
  abbrev pub samples_then : List T → List (Outcome E T) → List (Outcome E T)
  samples_then xs rest = map ok xs ++ rest

  gather_full :
      (n : ℕ) (samples xs : List T) (rest : List (Outcome E T))
      → n ≤ length xs
      → gather n samples (samples_then xs rest)
        ≡ full (samples ++ take n xs) (samples_then (drop n xs) rest)
  unfolding gather
  gather_full zero samples xs rest h =
      ap (λ ys. full ys (samples_then xs rest)) (sym (append-nil samples))
  gather_full (suc n) samples [] rest h = absurd (omega arith)
  gather_full (suc n) samples (x ∷ xs) rest h =
      gather_full n (samples ++ x ∷ []) xs rest (omega arith)
      ∙ ap (λ ys. full ys (samples_then (drop n xs) rest))
          (append_assoc samples (x ∷ []) (take n xs))

  gather_ended :
      (n : ℕ) (samples xs : List T)
      → length xs < n
      → gather n samples (samples_then xs []) ≡ ended (samples ++ xs)
  unfolding gather
  gather_ended zero samples xs h = absurd (omega arith)
  gather_ended (suc n) samples [] h = ap ended (sym (append-nil samples))
  gather_ended (suc n) samples (x ∷ xs) h =
      gather_ended n (samples ++ x ∷ []) xs (omega arith)
      ∙ ap ended (append_assoc samples (x ∷ []) xs)

  gather_failed :
      (n : ℕ) (samples xs : List T) (e : E) (rest : List (Outcome E T))
      → length xs < n
      → gather n samples (samples_then xs (err e ∷ rest)) ≡ failed e rest
  unfolding gather
  gather_failed zero samples xs e rest h = absurd (omega arith)
  gather_failed (suc n) samples [] e rest h = refl
  gather_failed (suc n) samples (x ∷ xs) e rest h =
      gather_failed n (samples ++ x ∷ []) xs e rest (omega arith)

module _ {ℓ κ μ} {T : Type ℓ} {B : Type κ} {E : Type μ} (f : List T → B) (size : ℕ)
    (drop_last : Bool) (pos : 0 < size) (sample_size : ℕ)
    (fits : size * sample_size ≤ i64_max) where
  -- The iterator over a source, with a collation that cannot fail.
  abbrev over : List (Outcome E T) → Bool → BatchIterator T B E
  over source exhausted = record {
    source = source;
    batch_size = size;
    drop_last = drop_last;
    collate = λ samples. ok (f samples);
    exhausted = exhausted;
  }

  next_full :
      (x : T) (xs : List T) (rest : List (Outcome E T))
      → size ≤ length (x ∷ xs)
      → next sample_size (over (samples_then (x ∷ xs) rest) false)
        ≡ (some (ok (f (take size (x ∷ xs)))), over (samples_then (drop size (x ∷ xs)) rest) false)
  unfolding next first_sample after_gather finish is_err
  next_full x xs rest h =
      let e : size ≡ suc (size - 1) = omega arith in
      rw
        (
          le→leb (size * sample_size) i64_max fits,
          gather_full (size - 1) (x ∷ []) xs rest (omega arith),
        )
        (ap
          (λ n. (some (ok (f (take n (x ∷ xs)))), over (samples_then (drop n (x ∷ xs)) rest) false))
          (sym e))

  next_ended :
      (x : T) (xs : List T)
      → length (x ∷ xs) < size
      → next sample_size (over (samples_then (x ∷ xs) []) false)
        ≡ (if drop_last then none else some (ok (f (x ∷ xs))), over [] true)
  unfolding next first_sample after_gather finish is_err
  next_ended x xs h =
      rw
        (
          le→leb (size * sample_size) i64_max fits,
          gather_ended {E = E} (size - 1) (x ∷ []) xs (omega arith),
        )
        (ground arith)

  next_failed :
      (x : T) (xs : List T) (e : E) (rest : List (Outcome E T))
      → length (x ∷ xs) < size
      → next sample_size (over (samples_then (x ∷ xs) (err e ∷ rest)) false)
        ≡ (some (err e), over rest true)
  unfolding next first_sample after_gather
  next_failed x xs e rest h =
      rw
        (
          le→leb (size * sample_size) i64_max fits,
          gather_failed (size - 1) (x ∷ []) xs e rest (omega arith),
        )
        refl

  next_at_end : next sample_size (over [] false) ≡ (none, over [] true)
  unfolding next first_sample
  next_at_end = refl

  next_at_error :
      (e : E) (rest : List (Outcome E T))
      → next sample_size (over (err e ∷ rest) false) ≡ (some (err e), over rest true)
  unfolding next first_sample
  next_at_error e rest = refl

  -- What collating each of these slices yields.
  abbrev collated : List (List T) → List (Outcome E B)
  collated parts = map (λ part. ok (f part)) parts

  drain-exhausted :
      (fuel : ℕ) (source : List (Outcome E T))
      → drain sample_size (suc fuel) (over source true) ≡ []
  unfolding drain next
  drain-exhausted fuel source = refl

  -- What `drain` makes of a step.
  abbrev after_step : ℕ → Next T B E → List (Outcome E B)
  after_step fuel (item, it') =
      let rest = drain sample_size fuel it' in
      elim item [
        | none ↦ []
        | some (panic m) ↦ panic m ∷ []
        | some (ok b) ↦ ok b ∷ rest
        | some (err e) ↦ err e ∷ rest
      ]

  drain-after_step :
      (fuel : ℕ) (it : BatchIterator T B E) {step : Next T B E}
      → next sample_size it ≡ step
      → drain sample_size (suc fuel) it ≡ after_step fuel step
  unfolding drain
  drain-after_step fuel it h = ap (after_step fuel) h

  drain_short :
      (fuel : ℕ) (x : T) (xs : List T)
      → length (x ∷ xs) < size
      → drain sample_size (suc (suc fuel)) (over (samples_then (x ∷ xs) []) false)
        ≡ collated (batches size drop_last (x ∷ xs))
  drain_short fuel x xs h = elim (Bool-cases drop_last) [
    | inl t ↦
        drain-after_step (suc fuel) _ {step = (none, over [] true)} (next_ended x xs h ∙ rw t refl)
        ∙ sym (ap collated (batches_short_dropped size drop_last pos (x ∷ xs) (omega arith) h t))
    | inr k ↦
        drain-after_step (suc fuel) _ {step = (some (ok (f (x ∷ xs))), over [] true)}
          (next_ended x xs h ∙ rw k refl)
        ∙ ap (λ ys. ok (f (x ∷ xs)) ∷ ys) (drain-exhausted fuel [])
        ∙ sym (ap collated (batches_short_kept size drop_last pos (x ∷ xs) (omega arith) h k))
  ]

  drain-over :
      (fuel : ℕ) (xs : List T)
      → length xs < fuel
      → drain sample_size fuel (over (samples_then xs []) false)
        ≡ collated (batches size drop_last xs)
  drain-over zero xs h = absurd (omega arith)
  drain-over (suc fuel) [] h =
      drain-after_step fuel _ next_at_end
      ∙ sym (ap collated (batches-nil {A = T} size drop_last pos))
  drain-over (suc (suc fuel)) (x ∷ xs) h = elim (dec_lt (length (x ∷ xs)) size) [
    | yes few ↦ drain_short fuel x xs few
    | no many ↦
        drain-after_step (suc fuel) _ (next_full x xs [] (omega arith))
        ∙ ap (λ ys. ok (f (take size (x ∷ xs))) ∷ ys)
            (drain-over (suc fuel) (drop size (x ∷ xs)) (omega (arith, length-drop size (x ∷ xs))))
        ∙ sym (ap collated (batches-step size drop_last pos (x ∷ xs) (omega arith)))
  ]
  drain-over (suc zero) (x ∷ xs) h = absurd (omega arith)

  drain-failing :
      (fuel : ℕ) (xs : List T) (e : E) (rest : List (Outcome E T))
      → length xs + 1 < fuel
      → drain sample_size fuel (over (samples_then xs (err e ∷ rest)) false)
        ≡ collated (batches size true xs) ++ err e ∷ []
  drain-failing zero xs e rest h = absurd (omega arith)
  drain-failing (suc zero) xs e rest h = absurd (omega arith)
  drain-failing (suc (suc fuel)) [] e rest h =
      drain-after_step (suc fuel) _ (next_at_error e rest)
      ∙ ap (λ ys. err e ∷ ys) (drain-exhausted fuel rest)
      ∙ sym (ap (λ ps. collated ps ++ err e ∷ []) (batches-nil {A = T} size true pos))
  drain-failing (suc (suc fuel)) (x ∷ xs) e rest h = elim (dec_lt (length (x ∷ xs)) size) [
    | yes few ↦
        drain-after_step (suc fuel) _ (next_failed x xs e rest few)
        ∙ ap (λ ys. err e ∷ ys) (drain-exhausted fuel rest)
        ∙ sym (
            ap (λ ps. collated ps ++ err e ∷ [])
              (batches_short_dropped size true pos (x ∷ xs) (omega arith) few refl))
    | no many ↦
        drain-after_step (suc fuel) _ (next_full x xs (err e ∷ rest) (omega arith))
        ∙ ap (λ ys. ok (f (take size (x ∷ xs))) ∷ ys)
            (drain-failing (suc fuel) (drop size (x ∷ xs)) e rest
              (omega (arith, length-drop size (x ∷ xs))))
        ∙ sym (
            ap (λ ps. collated ps ++ err e ∷ [])
              (batches-step size true pos (x ∷ xs) (omega arith)))
  ]

module _ {ℓ κ μ} {T : Type ℓ} {B : Type κ} {E : Type μ} where
  new-positive :
      (source : List (Outcome E T)) (size : ℕ) (drop_last : Bool) (collate : List T → Outcome E B)
      {it : BatchIterator T B E}
      → new source size drop_last collate ≡ ok it
      → (0 < size)
        × (it ≡ record {
          source = source;
          batch_size = size;
          drop_last = drop_last;
          collate = collate;
          exhausted = false;
        })
  unfolding new
  new-positive source size drop_last collate h = elim (Bool-cases (size == 0)) [
    | inl z ↦ absurd (let e = rw z at h in cc e)
    | inr p ↦ (ground arith, ground arith)
  ]

  -- An accepted iterator over a stream without failures, whose collation cannot fail and whose batches of
  -- samples of `sample_size` bytes each are within `isize::MAX` bytes, yields the collated slices of `size` samples, the last one short or left out as `drop_last` says, and
  -- ends. A failure of a sample instead is yielded after the whole slices before it, and ends the
  -- iterator: the samples of the open batch and what the stream holds after the failure are lost.
  pub drain-batches :
      (f : List T → B) (size : ℕ) (drop_last : Bool) (xs : List T) (e : E)
      (rest : List (Outcome E T)) (sample_size : ℕ) {whole cut : BatchIterator T B E}
      → size * sample_size ≤ i64_max
      → new (samples_then xs []) size drop_last (λ samples. ok (f samples)) ≡ ok whole
      → new (samples_then xs (err e ∷ rest)) size drop_last (λ samples. ok (f samples)) ≡ ok cut
      → (drain sample_size (suc (length xs)) whole
          ≡ map (λ part. ok (f part)) (batches size drop_last xs))
        × (drain sample_size (suc (suc (length xs))) cut
            ≡ map (λ part. ok (f part)) (batches size true xs) ++ err e ∷ [])
  drain-batches f size drop_last xs e rest sample_size fits h k =
      let (pos, w) = new-positive _ size drop_last _ h in
      let (_, c) = new-positive _ size drop_last _ k in
      (
        ap (drain sample_size (suc (length xs))) w
            ∙ drain-over f size drop_last pos sample_size fits (suc (length xs)) xs (omega arith),
        ap (drain sample_size (suc (suc (length xs)))) c
            ∙ drain-failing f size drop_last pos sample_size fits (suc (suc (length xs))) xs e rest
                (omega arith),
      )
