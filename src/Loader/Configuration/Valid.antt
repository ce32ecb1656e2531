-- ===== src/Loader/Configuration/Valid.antt =====
-- The options that `validate_configuration` accepts.
use rust_torch.Base.{
  ℕ, ◌<◌, ◌≡◌, refl, Bool, true, false, ◌&&◌, ◌||◌, ◌↔◌, ◌⊎◌, inl, inr, Bool-cases, Option, none,
  some, arith, ◌==◌,
}
use rust_torch.Error.{RustTorchError}
use rust_torch.Outcome.{Outcome, ok, ◌>>=◌, fail_if}
use rust_torch.Loader.Configuration.{
  ExplicitArguments, BuilderConfiguration, Platform, validate_configuration, is_some, too_long,
  is_zero,
}

pub passed-then :
    (t : Bool) (e : RustTorchError) (rest : Outcome RustTorchError (Unit {0}))
    → (fail_if t e >>= λ _. rest) ≡ ok tt
    → (t ≡ false) × (rest ≡ ok tt)
passed-then true e rest h = cc
passed-then false e rest h = (refl, h)

then-passed :
    (t : Bool) (e : RustTorchError) (rest : Outcome RustTorchError (Unit {0}))
    → t ≡ false
    → rest ≡ ok tt
    → (fail_if t e >>= λ _. rest) ≡ ok tt
then-passed true e rest h k = cc
then-passed false e rest h k = k

pub passed : (t : Bool) (e : RustTorchError) → fail_if t e ≡ ok tt → t ≡ false
passed true e h = cc
passed false e h = refl

and-false : (a b : Bool) → (a && b) ≡ false → (a ≡ false) ⊎ (b ≡ false)
and-false true b h = inr h
and-false false b h = inl refl

false-and : (a b : Bool) → (a ≡ false) ⊎ (b ≡ false) → (a && b) ≡ false
false-and a b h = ground (arith, h)

or-false : (a b : Bool) → (a || b) ≡ false → (a ≡ false) × (b ≡ false)
or-false true b h = cc
or-false false b h = (refl, h)

positive : (n : ℕ) → (n == 0) ≡ false → 0 < n
positive n h = ground (arith, h)

-- No option stands that another one rules out.
pub record IsConsistent {Device Duration : Type 0} (platform : Platform Device Duration)
    (configuration : BuilderConfiguration Device Duration) (given : ExplicitArguments)
    : Type 0 where
  pub batches : 0 < configuration.batch_size
  pub one_order : (given.sampler ≡ false) ⊎ (given.shuffle ≡ false)
  pub own_batches :
      (given.batch_sampler ≡ false)
      ⊎ ((given.batch_size ≡ false)
          × ((given.shuffle ≡ false)
              × ((given.sampler ≡ false)
                  × ((given.drop_last ≡ false) × (given.without_batching ≡ false)))))
  pub whole :
      (given.without_batching ≡ false)
      ⊎ ((given.drop_last ≡ false) ⊎ (configuration.drop_last ≡ false))
  pub workers :
      (0 < configuration.workers)
      ⊎ ((configuration.timeout ≡ none)
          × ((given.prefetch_factor ≡ false)
              × ((given.prefetch_bytes ≡ false) × (configuration.persistent_workers ≡ false))))
  pub timeout :
      (configuration.timeout ≡ none)
      ⊎ ((t : Duration) × (configuration.timeout ≡ some t) × (platform.can_represent t ≡ true))
  pub prefetch :
      (configuration.prefetch_factor ≡ none)
      ⊎ ((n : ℕ) × (configuration.prefetch_factor ≡ some n) × (0 < n))

module _ {Device Duration : Type 0} (platform : Platform Device Duration) where
  timeout-cases :
      (o : Option Duration)
      → too_long platform o ≡ false
      → (o ≡ none) ⊎ ((t : Duration) × (o ≡ some t) × (platform.can_represent t ≡ true))
  timeout-cases none h = inl refl
  timeout-cases (some t) h = inr (t, refl, ground (arith, h))

  cases-timeout :
      (o : Option Duration)
      → (o ≡ none) ⊎ ((t : Duration) × (o ≡ some t) × (platform.can_represent t ≡ true))
      → too_long platform o ≡ false
  cases-timeout o (inl e) = rw e
  cases-timeout o (inr (t, e, h)) = rw (e, h)

  prefetch-cases :
      (o : Option ℕ) → is_zero platform o ≡ false → (o ≡ none) ⊎ ((n : ℕ) × (o ≡ some n) × (0 < n))
  prefetch-cases none h = inl refl
  prefetch-cases (some n) h = inr (n, refl, ground (arith, h))

  cases-prefetch :
      (o : Option ℕ) → (o ≡ none) ⊎ ((n : ℕ) × (o ≡ some n) × (0 < n)) → is_zero platform o ≡ false
  cases-prefetch o (inl e) = rw e
  cases-prefetch o (inr (n, e, h)) = rw e (ground arith)

  none-of_is_some : (o : Option Duration) → is_some o ≡ false → o ≡ none
  none-of_is_some none h = refl
  none-of_is_some (some t) h = cc

  workers-cases :
      (workers : ℕ) (o : Option Duration) (factor bytes persistent : Bool)
      → ((workers == 0) && is_some o) ≡ false
      → (factor && (workers == 0)) ≡ false
      → (bytes && (workers == 0)) ≡ false
      → (persistent && (workers == 0)) ≡ false
      → (0 < workers) ⊎ ((o ≡ none) × ((factor ≡ false) × ((bytes ≡ false) × (persistent ≡ false))))
  workers-cases workers o factor bytes persistent h1 h2 h3 h4 = elim (Bool-cases (workers == 0)) [
    | inl z ↦ inr (
      none-of_is_some o (rw z at h1),
      (ground (arith, h2, z), (ground (arith, h3, z), ground (arith, h4, z))),
    )
    | inr p ↦ inl (ground (arith, p))
  ]

  workers-free :
      (n : ℕ) (o : Option Duration) (factor bytes persistent : Bool)
      → (0 < n) ⊎ ((o ≡ none) × ((factor ≡ false) × ((bytes ≡ false) × (persistent ≡ false))))
      → (((n == 0) && is_some o) ≡ false)
        × (((factor && (n == 0)) ≡ false)
            × (((bytes && (n == 0)) ≡ false) × ((persistent && (n == 0)) ≡ false)))
  workers-free n o factor bytes persistent (inl p) =
      let z : (n == 0) ≡ false = ground arith in
      (
        rw z,
        (false-and factor _ (inr z), (false-and bytes _ (inr z), false-and persistent _ (inr z))),
      )
  workers-free n o factor bytes persistent (inr (e, (f, (b, q)))) = (
    rw e (false-and (n == 0) false (inr refl)),
    (false-and factor _ (inl f), (false-and bytes _ (inl b), false-and persistent _ (inl q))),
  )

  own-cases :
      (a b c d e f : Bool)
      → (a && (b || (c || (d || (e || f))))) ≡ false
      → (a ≡ false) ⊎ ((b ≡ false) × ((c ≡ false) × ((d ≡ false) × ((e ≡ false) × (f ≡ false)))))
  own-cases false b c d e f h = inl refl
  own-cases true b c d e f h =
      let (hb, h1) = or-false b _ h in
      let (hc, h2) = or-false c _ h1 in
      let (hd, h3) = or-false d _ h2 in
      let (he, hf) = or-false e f h3 in inr (hb, (hc, (hd, (he, hf))))

  cases-own :
      (a b c d e f : Bool)
      → (a ≡ false) ⊎ ((b ≡ false) × ((c ≡ false) × ((d ≡ false) × ((e ≡ false) × (f ≡ false)))))
      → (a && (b || (c || (d || (e || f))))) ≡ false
  cases-own a b c d e f (inl h) = rw h
  cases-own a b c d e f (inr (hb, (hc, (hd, (he, hf))))) =
      rw (hb, hc, hd, he, hf) (false-and a false (inr refl))

  whole-cases : (a b c : Bool) → (a && (b && c)) ≡ false → (a ≡ false) ⊎ ((b ≡ false) ⊎ (c ≡ false))
  whole-cases false b c h = inl refl
  whole-cases true b c h = inr (and-false b c h)

  cases-whole : (a b c : Bool) → (a ≡ false) ⊎ ((b ≡ false) ⊎ (c ≡ false)) → (a && (b && c)) ≡ false
  cases-whole a b c (inl h) = rw h
  cases-whole a b c (inr h) = false-and a _ (inr (false-and b c h))

  accepted-IsConsistent :
      (configuration : BuilderConfiguration Device Duration) (given : ExplicitArguments)
      → validate_configuration platform configuration given ≡ ok tt
      → IsConsistent platform configuration given
  unfolding validate_configuration
  accepted-IsConsistent configuration given h0 =
      let (a1, r1) = passed-then _ _ _ h0 in
      let (a2, r2) = passed-then _ _ _ r1 in
      let (a3, r3) = passed-then _ _ _ r2 in
      let (a4, r4) = passed-then _ _ _ r3 in
      let (a5, r5) = passed-then _ _ _ r4 in
      let (a6, r6) = passed-then _ _ _ r5 in
      let (a7, r7) = passed-then _ _ _ r6 in
      let (a8, r8) = passed-then _ _ _ r7 in
      let (a9, r9) = passed-then _ _ _ r8 in
      let (a10, r10) = passed-then _ _ _ r9 in
      record {
        batches = positive configuration.batch_size a1;
        one_order = and-false given.sampler given.shuffle a2;
        own_batches = own-cases given.batch_sampler _ _ _ _ _ a3;
        whole = whole-cases given.without_batching _ _ a4;
        workers =
            workers-cases configuration.workers configuration.timeout given.prefetch_factor
              given.prefetch_bytes configuration.persistent_workers a5 a7 a8 a10;
        timeout = timeout-cases configuration.timeout a6;
        prefetch = prefetch-cases configuration.prefetch_factor a9;
      }

  consistent-ok :
      (configuration : BuilderConfiguration Device Duration) (given : ExplicitArguments)
      → IsConsistent platform configuration given
      → validate_configuration platform configuration given ≡ ok tt
  unfolding validate_configuration
  consistent-ok configuration given v =
      let (a5, (a7, (a8, a10))) =
        workers-free configuration.workers configuration.timeout given.prefetch_factor
          given.prefetch_bytes configuration.persistent_workers v.workers in
      let a1 : (configuration.batch_size == 0) ≡ false = ground (arith, v.batches) in
      then-passed _ _ _ a1 (
        then-passed _ _ _ (false-and given.sampler given.shuffle v.one_order) (
          then-passed _ _ _ (cases-own given.batch_sampler _ _ _ _ _ v.own_batches) (
            then-passed _ _ _ (cases-whole given.without_batching _ _ v.whole) (
              then-passed _ _ _ a5 (
                then-passed _ _ _ (cases-timeout configuration.timeout v.timeout) (
                  then-passed _ _ _ a7 (
                    then-passed _ _ _ a8 (
                      then-passed _ _ _ (cases-prefetch configuration.prefetch_factor v.prefetch)
                        (then-passed _ _ _ a10 refl)))))))))

  -- `validate_configuration` accepts exactly the options that are consistent: a batch holds a sample,
  -- one thing decides the order and one the batches, options of workers come with a worker, a timeout
  -- can be represented, and a prefetch factor is not zero.
  pub validate_configuration-IsConsistent :
      (configuration : BuilderConfiguration Device Duration) (given : ExplicitArguments)
      → (validate_configuration platform configuration given ≡ ok tt)
        ↔ IsConsistent platform configuration given
  validate_configuration-IsConsistent configuration given =
      (accepted-IsConsistent configuration given, consistent-ok configuration given)
