-- ===== src/Sampler/Checkpoint/Batch/Boundary.antt =====
-- The boundaries between batches, and resumption at one of them.
use native.Mathlib.Nat.{div-add-mod', mul-mod_left, mul-div_cancel}
use native.Mathlib.Decide.{dec_lt}
use rust_torch.Base.{
  ℕ, suc, ◌*◌, ◌/◌, ◌%◌, ◌≤◌, ◌<◌, ◌≡◌, sym, ap, ◌∙◌, ◌⊎◌, ◌↔◌, inl, inr, Bool, false, none, some,
  List, arith, length, drop, drop_of_length-le, length-map, length-range_from, range, u64_max,
  eq_bool_refl,
}
use rust_torch.Outcome.{ok}
use rust_torch.Storage.{Allocator, usize_size}
use rust_torch.Sampler.Validate.{validate_batch_boundary, batch_count}
use rust_torch.Sampler.Traits.{Sampler}
use rust_torch.Sampler.Batch.{BatchSampler, collect, new, batch_source, from_validated}
use rust_torch.Sampler.Batch.Slices.{batches, batches-drop, batches-nil, batch_at}
use rust_torch.Sampler.Batch.Partition.{new-eq-ok, new_granted, collect-over, over}
use rust_torch.Sampler.Checkpoint.{SamplerCheckpoint, Resumed, IsResumable}
use rust_torch.Sampler.Checkpoint.Batch.{
  BatchSamplerState, checkpoint_state, validate_checkpoint_state, restore_checkpoint_iter_validated,
}

-- A position that has the indices of whole batches before it, or is the end of a sequence whose short
-- last batch is kept; and the number of batches before it. It may lie beyond the end.
abbrev pub IsAligned : ℕ → ℕ → Bool → ℕ → ℕ → Type 0
IsAligned len size drop_last next_batch position =
    (position ≡ next_batch * size)
    ⊎ ((drop_last ≡ false) × (position ≡ len) × (next_batch ≡ batch_count len size false))

-- A boundary between the batches of a sequence, or at its end.
abbrev pub IsBoundary : ℕ → ℕ → Bool → ℕ → ℕ → Type 0
IsBoundary len size drop_last next_batch position =
    IsAligned len size drop_last next_batch position × (position ≤ len)

pub IsAligned-of_ok :
    (len size : ℕ) (drop_last : Bool) (next_batch position : ℕ)
    → validate_batch_boundary (some len) size drop_last next_batch position ≡ ok tt
    → (0 < size) × IsAligned len size drop_last next_batch position
unfolding validate_batch_boundary batch_count
IsAligned-of_ok len size drop_last next_batch position h =
    ground (arith, div-add-mod' position size)

pub IsAligned-ok :
    (len size : ℕ) (drop_last : Bool) (next_batch position : ℕ)
    → 0 < size
    → size ≤ u64_max
    → len ≤ u64_max
    → IsAligned len size drop_last next_batch position
    → validate_batch_boundary (some len) size drop_last next_batch position ≡ ok tt
unfolding validate_batch_boundary batch_count
IsAligned-ok len size drop_last next_batch position h' h k (inl e) = ground (
  arith,
  ap (λ (p : ℕ). p % size) e ∙ mul-mod_left next_batch size,
  ap (λ (p : ℕ). p / size) e ∙ mul-div_cancel next_batch h',
)
IsAligned-ok len size drop_last next_batch position pos h k (inr (d, e, n)) = ground (arith)

-- A cursor beyond the end that has the indices of whole batches before it.
abbrev pub IsBeyond : ℕ → ℕ → ℕ → ℕ → Type 0
IsBeyond len size next_batch position = (len < position) × (position ≡ next_batch * size)

IsAligned-cases :
    (len size : ℕ) (drop_last : Bool) (next_batch position : ℕ)
    → IsAligned len size drop_last next_batch position
      ↔ (IsBoundary len size drop_last next_batch position ⊎ IsBeyond len size next_batch position)
IsAligned-cases len size drop_last next_batch position = (
  λ stands. elim (dec_lt len position) [
    | yes beyond ↦ elim stands [ inl e ↦ inr (beyond, e) | inr (_, e, _) ↦ absurd (omega arith) ]
    | no inside ↦ inl (stands, omega arith)
  ],
  λ found. elim found [ inl b ↦ b.0 | inr (_, e) ↦ inl e ],
)

-- For a sampler of known length and a batch size above 0, both within `u64`, `validate_batch_boundary`
-- accepts exactly the boundaries within the sequence and, since it does not compare the position with
-- the length, the cursors beyond its end that count whole batches.
pub validate_batch_boundary-IsBoundary :
    (len size : ℕ) (drop_last : Bool) (next_batch position : ℕ)
    → 0 < size
    → size ≤ u64_max
    → len ≤ u64_max
    → (validate_batch_boundary (some len) size drop_last next_batch position ≡ ok tt)
      ↔ (IsBoundary len size drop_last next_batch position ⊎ IsBeyond len size next_batch position)
validate_batch_boundary-IsBoundary len size drop_last next_batch position pos h k =
    let cases = IsAligned-cases len size drop_last next_batch position in
    (
      λ e. cases.0 ((IsAligned-of_ok len size drop_last next_batch position e).1),
      λ found. IsAligned-ok len size drop_last next_batch position pos h k (cases.1 found),
    )

-- Dropping what lies before a boundary leaves the batches from it on.
pub batches-resume :
    (size : ℕ) (drop_last : Bool) (xs : List ℕ) (next_batch position : ℕ)
    → 0 < size
    → position ≤ length xs
    → IsAligned (length xs) size drop_last next_batch position
    → batches size drop_last (drop position xs) ≡ drop next_batch (batches size drop_last xs)
batches-resume size drop_last xs next_batch position pos h (inl e) =
    rw e (batches-drop size drop_last pos next_batch xs (omega arith))
batches-resume size drop_last xs next_batch position pos h (inr (d, e, n)) =
    ap (batches size drop_last) (drop_of_length-le position xs (omega arith))
    ∙ batches-nil {A = ℕ} size drop_last pos
    ∙ sym (drop_of_length-le next_batch (batches size drop_last xs) (rw d (omega (arith, counted))))
  where
    counted : length (batches size false xs) ≡ next_batch
    counted =
        length-map (range (batch_count (length xs) size false)) (batch_at size xs)
        ∙ length-range_from 0 (batch_count (length xs) size false)
        ∙ sym n

module _ {S State : Type 0} (alloc : Allocator) (sampler : Sampler S)
    (c : SamplerCheckpoint S State) (s : S) (len : ℕ) (law : IsResumable sampler c s len) (size : ℕ)
    (drop_last : Bool) where
  -- What restoring a state comes to: the batch sampler `b'` at the epoch, the batches `all` of its
  -- uninterrupted iteration, and an iterator of those after the first `next_batch`.
  abbrev pub RestoredAt : BatchSampler S → BatchSamplerState State → ℕ → ℕ → Type 0
  RestoredAt b state epoch next_batch =
      (b' : BatchSampler S) × (it : BatchSampler (List ℕ)) × (all : List (List ℕ)) × ((batch_source
            alloc sampler).set_epoch
          b epoch
        ≡ ok b')
      × ((batch_source alloc sampler).iter b' ≡ ok all)
      × (restore_checkpoint_iter_validated sampler c b state ≡ ok (it, b'))
      × (collect alloc (suc (length it.sampler)) it ≡ ok (drop next_batch all))

  literal : S → BatchSampler S
  literal inner = record { sampler = inner; batch_size = size; drop_last = drop_last }

  accepted :
      (state : BatchSamplerState State) (epoch next_batch position : ℕ)
      → validate_checkpoint_state sampler c (literal s) state epoch next_batch position ≡ ok tt
      → (validate_batch_boundary (sampler.exact_len s) size drop_last next_batch position ≡ ok tt)
        × (c.validate_checkpoint_state s state.sampler epoch position ≡ ok tt)
  unfolding validate_checkpoint_state literal
  accepted state epoch next_batch position h = ground arith

  restored :
      (state : BatchSamplerState State) (epoch next_batch position : ℕ)
      → 0 < size
      → alloc usize_size size ≡ none
      → validate_batch_boundary (some len) size drop_last next_batch position ≡ ok tt
      → Resumed sampler s len epoch position (c.restore_checkpoint_iter_validated s state.sampler)
      → RestoredAt (literal s) state epoch next_batch
  unfolding batch_source restore_checkpoint_iter_validated from_validated literal
  restored state epoch next_batch position pos g h (s', xs, at, run, whole, inside, back) =
      let (_, boundary) = IsAligned-of_ok len size drop_last next_batch position h in
      let cut =
        batches-resume size drop_last xs next_batch position pos (omega arith)
          (rw whole boundary) in
      (
        literal s',
        over size drop_last pos (drop position xs),
        batches size drop_last xs,
        rw at,
        rw (run, new_granted alloc xs size drop_last pos g)
            (collect-over alloc size drop_last pos g (suc (length xs)) xs (omega arith)),
        rw back,
        collect-over alloc size drop_last pos g (suc (length (drop position xs))) (drop position xs)
              (omega arith)
            ∙ ap ok cut,
      )

  -- Over a resumable sampler, a state that the batch sampler accepts restores, without a panic, the
  -- batches that the uninterrupted iteration of the state's epoch yields after the first
  -- `next_batch`, and leaves the batch sampler at that epoch.
  pub restore_resumes :
      {b : BatchSampler S} (state : BatchSamplerState State) (epoch next_batch position : ℕ)
      → new alloc s size drop_last ≡ ok b
      → validate_checkpoint_state sampler c b state epoch next_batch position ≡ ok tt
      → RestoredAt b state epoch next_batch
  unfolding literal
  restore_resumes state epoch next_batch position built h =
      let (pos, g, e) = new-eq-ok alloc s size drop_last built in
      let (boundary, inner) = accepted state epoch next_batch position (rw e at h) in
      rw e (
        restored state epoch next_batch position pos g (rw law.exact at boundary)
          (law.resumes state.sampler epoch position inner))

  accepts_saved :
      (inner : State) (next_batch position : ℕ)
      → size ≤ u64_max
      → validate_batch_boundary (sampler.exact_len s) size drop_last next_batch position ≡ ok tt
      → c.checkpoint_state s position ≡ ok inner
      → validate_checkpoint_state sampler c
          (literal s)
          (record {
            sampler = inner;
            batch_size = size;
            drop_last = drop_last;
            next_batch = next_batch;
            next_logical_sample = position;
          })
          (sampler.epoch s)
          next_batch
          position
        ≡ ok tt
  unfolding validate_checkpoint_state literal
  accepts_saved inner next_batch position small boundary h =
      ground (arith, eq_bool_refl drop_last, law.accepts position inner h)

  saved :
      (state : BatchSamplerState State) (next_batch position : ℕ)
      → checkpoint_state sampler c (literal s) next_batch position ≡ ok state
      → (c.checkpoint_state s position ≡ ok state.sampler)
        × (validate_batch_boundary (sampler.exact_len s) size drop_last next_batch position ≡ ok tt)
        × (size ≤ u64_max)
        × (state ≡ record {
          sampler = state.sampler;
          batch_size = size;
          drop_last = drop_last;
          next_batch = next_batch;
          next_logical_sample = position;
        })
  unfolding checkpoint_state literal
  saved state next_batch position h = ground arith

  -- Over a resumable sampler, a state that the batch sampler saves it accepts at its own epoch, and
  -- restoring it yields the batches from the saved boundary on.
  pub checkpoint_round_trip :
      {b : BatchSampler S} (state : BatchSamplerState State) (next_batch position : ℕ)
      → new alloc s size drop_last ≡ ok b
      → checkpoint_state sampler c b next_batch position ≡ ok state
      → (validate_checkpoint_state sampler c b state (sampler.epoch s) next_batch position ≡ ok tt)
        × RestoredAt b state (sampler.epoch s) next_batch
  unfolding literal
  checkpoint_round_trip {b} state next_batch position built h =
      let (_, _, e) = new-eq-ok alloc s size drop_last built in
      let (inner, boundary, small, fields) = saved state next_batch position (rw e at h) in
      let valid : validate_checkpoint_state sampler c b state (sampler.epoch s) next_batch position
          ≡ ok tt =
        rw (e, fields) (accepts_saved state.sampler next_batch position small boundary inner) in
      (valid, restore_resumes state (sampler.epoch s) next_batch position built valid)
