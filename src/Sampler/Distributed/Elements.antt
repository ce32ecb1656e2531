-- ===== src/Sampler/Distributed/Elements.antt =====
-- The indices of one rank in closed form.
use mathlib.Core.List.Perm
use native.Mathlib.Nat.{mod-eq_of_lt, mod-lt, le_refl, mod-add-div'}
use native.Mathlib.Decide.{dec_lt}
use rust_torch.Base.{
  ℕ, zero, suc, ◌+◌, ◌-◌, ◌*◌, ◌/◌, ◌%◌, ◌≤◌, ◌<◌, ◌≡◌, refl, sym, ap, ◌∙◌, Bool, true, false, not,
  ◌||◌, List, Perm, arith, length, get_elem?, drop, take, range, length-take, length-drop,
  length-perm, length-range_from, get_elem?-range_from, get_elem?-take, get_elem?-drop,
  if◌then◌else◌, inl, inr, ◌⊎◌, ◌==◌,
}
use rust_torch.Outcome.{ok}
use rust_torch.Storage.{Allocator}
use rust_torch.Rng.{Rng, IsLawful}
use rust_torch.Sampler.Distributed.{pad, step_from, distributed_sample_count, extend_global}
use rust_torch.Sampler.Distributed.Stride.{
  IsCyclic, pad-IsCyclic, get_elem?-step_from, length-step_from,
}

-- The order in which an epoch visits the dataset, before padding: the same for every rank.
pub order : Rng → ℕ → Bool → ℕ → List ℕ
order rng length shuffle seed =
    if shuffle then (rng.shuffle (range length) (rng.seed_from_u64 seed)).0 else range length

pub order-perm :
    (rng : Rng)
    → IsLawful rng
    → (length : ℕ) (shuffle : Bool) (seed : ℕ) → Perm (order rng length shuffle seed) (range length)
unfolding order
order-perm rng law length true seed = law.shuffle-perm (range length) (rng.seed_from_u64 seed)
order-perm rng law length false seed = Perm.refl (range length)

count_cases :
    (length replicas : ℕ) (drop_last : Bool) {n : ℕ}
    → distributed_sample_count length replicas drop_last ≡ ok n
    → ((drop_last ≡ true) × (n ≡ length / replicas))
      ⊎ (((drop_last ≡ false) × (n ≡ length / replicas) × (length % replicas ≡ 0))
          ⊎ ((drop_last ≡ false) × (n ≡ length / replicas + 1) × (0 < length % replicas)))
unfolding distributed_sample_count
count_cases length replicas drop_last h = ground arith

-- What `distributed_sample_count` grants each rank: with `drop_last` the whole rounds, and
-- otherwise the least count whose rounds hold the dataset.
abbrev pub CountBounds : ℕ → ℕ → Bool → ℕ → Type 0
CountBounds length replicas true n = (n * replicas ≤ length) × (length < n * replicas + replicas)
CountBounds length replicas false n = (length ≤ n * replicas) × (n * replicas < length + replicas)

pub sample-CountBounds :
    (length replicas : ℕ) (drop_last : Bool) {n : ℕ}
    → 0 < replicas
    → distributed_sample_count length replicas drop_last ≡ ok n
    → CountBounds length replicas drop_last n
sample-CountBounds length replicas drop_last {n} pos h =
    elim (count_cases length replicas drop_last h) [
      | inl (d, e) ↦ rw (d, e) (omega (arith, facts))
      | inr (inl (d, e, r)) ↦ rw (d, e) (omega (arith, facts))
      | inr (inr (d, e, r)) ↦ rw (d, e) (omega (arith, facts))
    ]
  where
    facts :
        (length % replicas + length / replicas * replicas ≡ length) × (length % replicas < replicas)
    facts = (mod-add-div' length replicas, mod-lt length pos)

abbrev pub materialized : ℕ → Bool → Bool → ℕ → ℕ
materialized length shuffle drop_last total = if shuffle || not drop_last then length else total

no_rounds : (n replicas : ℕ) → n * replicas < replicas → n * replicas ≡ 0
no_rounds zero replicas h = omega arith
no_rounds (suc n) replicas h = absurd (omega arith)

pub slot-lt : (rank k n replicas : ℕ) → rank < replicas → k < n → rank + k * replicas < n * replicas
slot-lt rank k n replicas h m = grind arith

module _ (rng : Rng) (law : IsLawful rng) (alloc : Allocator) (len replicas seed n : ℕ)
    (pos : 0 < replicas) where
  length-order : (shuffle : Bool) → length (order rng len shuffle seed) ≡ len
  length-order shuffle = length-perm (order-perm rng law len shuffle seed) ∙ length-range_from 0 len

  -- The extended global sequence exists, and repeats the order cyclically.
  abbrev pub Extends : Bool → Bool → Type 0
  Extends shuffle drop_last =
      (g : List ℕ) × (extend_global alloc rng len shuffle seed drop_last (n * replicas)
          (range (materialized len shuffle drop_last (n * replicas)))
        ≡ ok g)
      × IsCyclic (order rng len shuffle seed) len (n * replicas) g

  truncated : (shuffle : Bool) → n * replicas ≤ len → Extends shuffle true
  unfolding extend_global order
  truncated true h = (
    take (n * replicas) (order rng len true seed),
    refl,
    record {
      size = omega (arith, length-take (n * replicas) (order rng len true seed), length-order true);
      at = λ p k.
          get_elem?-take (n * replicas) (order rng len true seed) p k
          ∙ sym (ap (get_elem? (order rng len true seed)) (mod-eq_of_lt (omega arith)));
    },
  )
  truncated false h = (
    take (n * replicas) (range (n * replicas)),
    refl,
    record {
      size = omega (
        arith,
        length-take (n * replicas) (range (n * replicas)),
        length-range_from 0 (n * replicas),
      );
      at = λ p k.
          get_elem?-take (n * replicas) (range (n * replicas)) p k
          ∙ get_elem?-range_from 0 (n * replicas) p k
          ∙ sym (
              ap (get_elem? (range len)) (mod-eq_of_lt (omega arith))
              ∙ get_elem?-range_from 0 len p (omega arith));
    },
  )

  -- The padding step on a sequence of the whole dataset.
  pads :
      (xs : List ℕ)
      → length xs ≡ len
      → len ≤ n * replicas
      → n * replicas < len + replicas
      → (g : List ℕ) × ((if not (len == 0) then pad (n * replicas - len) len len xs else ok xs)
          ≡ ok g)
        × IsCyclic xs len (n * replicas) g
  pads xs e h k = elim (dec_lt 0 len) [
    | yes some_left ↦
        let (g, run, c) =
          pad-IsCyclic xs len some_left e (n * replicas - len) len xs (le_refl len)
            (record { size = e; at = λ p m. sym (ap (get_elem? xs) (mod-eq_of_lt m)) }) in
        let total : len + (n * replicas - len) ≡ n * replicas = omega arith in
        (g, ground (arith, run), rw total at c)
    | no empty ↦
        let none_left : n * replicas ≡ 0 = no_rounds n replicas (omega arith) in
        (xs, ground arith, record { size = omega arith; at = λ p m. absurd (omega arith) })
  ]

  padded :
      (shuffle : Bool) → len ≤ n * replicas → n * replicas < len + replicas → Extends shuffle false
  unfolding extend_global order
  padded true h k = pads (order rng len true seed) (length-order true) h k
  padded false h k = pads (range len) (length-range_from 0 len) h k

  pub extends :
      (shuffle drop_last : Bool) → CountBounds len replicas drop_last n → Extends shuffle drop_last
  extends shuffle true b = truncated shuffle b.0
  extends shuffle false b = padded shuffle b.0 b.1

  -- The share of a rank in a cyclic global sequence.
  pub share :
      (base g : List ℕ) (rank : ℕ)
      → rank < replicas
      → IsCyclic base len (n * replicas) g
      → (length (step_from replicas 0 (drop rank g)) ≡ n)
        × ((k : ℕ)
            → k < n
            → get_elem? (step_from replicas 0 (drop rank g)) k
              ≡ get_elem? base ((rank + k * replicas) % len))
  share base g rank h c = (
    length_share n (c.size),
    λ k m.
        get_elem?-step_from replicas pos 0 (drop rank g) k
        ∙ get_elem?-drop rank g (0 + k * replicas)
        ∙ (let e : rank + (0 + k * replicas) ≡ rank + k * replicas = omega arith in
            ap (get_elem? g) e)
        ∙ c.at (rank + k * replicas) (slot-lt rank k n replicas h m),
  )
    where
      length_share :
          (m : ℕ) → length g ≡ m * replicas → length (step_from replicas 0 (drop rank g)) ≡ m
      length_share zero e =
          length-step_from replicas pos 0 0 (drop rank g) 0 (omega (arith, length-drop rank g)) pos
      length_share (suc m) e =
          length-step_from replicas pos 0 rank (drop rank g) (suc m)
            (omega (arith, length-drop rank g)) h
