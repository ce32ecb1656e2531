-- ===== src/Loader/Serial/Resume/Boundary.antt =====
-- A checkpoint between two batches, and what the resumed pass yields.
use mathlib.Core.Path.{ap₂}
use rust_torch.Base.{
  ℕ, ◌+◌, suc, ◌≤◌, ◌<◌, ◌≡◌, refl, sym, ap, ◌∙◌, subst, Bool, true, Option, none, some, List, map,
  arith, length, take, take_of_length-le, drop, length-drop, u64_max, sum, All,
}
use rust_torch.Outcome.{ok}
use rust_torch.Loader.{Pipeline}
use rust_torch.Loader.Tasks.{numbered, Loads, until_failure, item}
use rust_torch.Loader.Configuration.Envelope.{LoaderState}
use rust_torch.Loader.Serial.{LoaderIter, drain, start}
use rust_torch.Loader.Serial.Pass.{at, drain-at}
use rust_torch.Loader.Serial.Resume.{
  Parts, Origin, PendingSerial, checkpoint, loader_state, pending, exact_iter, advance,
}
use rust_torch.Loader.Serial.Resume.Advance.{taken, reached, drop-numbered, sum-split}
use rust_torch.Loader.Serial.Resume.{yielded, fresh_batches}
use rust_torch.Storage.{Allocator, usize_size}
use rust_torch.Sampler.Traits.{Sampler}
use rust_torch.Sampler.Batch.{from_validated}
use rust_torch.Sampler.Batch.Slices.{batches}
use rust_torch.Sampler.Batch.Partition.{collect-over}
use rust_torch.Sampler.Checkpoint.{SamplerCheckpoint, IsPrepared}
use rust_torch.Loader.Plan
use rust_torch.Loader.Plan.{AutoBatch, restore_plan}
use rust_torch.Loader.Plan.Boundary.{validate_auto_batch_boundary-IsBoundary}
use rust_torch.Loader.Plan.Counts.{batches-CountedAs}
use rust_torch.Loader.Plan.Resume.{restore_plan-ResumesAt}

-- The plan of the pass.
abbrev pub own_plan : {S : Type 0} → S → ℕ → Bool → AutoBatch S
own_plan s size drop_last = record { sampler = s; batch_size = size; drop_last = drop_last }

module _ {S V : Type 0} (alloc : Allocator) (sampler : Sampler S) (c : SamplerCheckpoint S V)
    (s : S) (len : ℕ) (law : IsPrepared sampler c s len) (size : ℕ) (drop_last : Bool)
    (pos : 0 < size) (small : size ≤ u64_max) (granted : alloc usize_size size ≡ none) where
  indices_of : (xs : List ℕ) × (sampler.iter s ≡ ok xs) × (length xs ≡ len)
  indices_of =
      let (cursor, saved) = law.saves 0 (omega arith) in
      let (s', xs, at, run, whole, _, _) =
        law.resumable.resumes cursor (sampler.epoch s) 0 (law.resumable.accepts 0 cursor saved) in
      let same : s' ≡ s = (let e = sym law.stands ∙ at in cc e) in (xs, (rw same at run), whole)

  fresh_batches-ok :
      (xs : List ℕ)
      → sampler.iter s ≡ ok xs
      → fresh_batches alloc sampler (own_plan s size drop_last) ≡ ok (batches size drop_last xs)
  unfolding fresh_batches yielded Plan.iter from_validated
  fresh_batches-ok xs run =
      rw run (collect-over alloc size drop_last pos granted (suc (length xs)) xs (omega arith))

  saves_at :
      (n position : ℕ)
      → Plan.validate_auto_batch_boundary (some len) size drop_last n position ≡ ok tt
      → position ≤ len
      → (cursor : V) × (Plan.checkpoint_state sampler c (own_plan s size drop_last) n position
          ≡ ok cursor)
  unfolding Plan.checkpoint_state
  saves_at n position accepted inside =
      let (cursor, saved) = law.saves position inside in
      (cursor, rw (law.resumable.exact, accepted) saved)

  -- The batches are not more than the indices, and at each of them the cursor can be saved.
  saves_after :
      {parts : List (List ℕ)} (n : ℕ)
      → fresh_batches alloc sampler (own_plan s size drop_last) ≡ ok parts
      → n ≤ length parts
      → (length parts ≤ len)
        × (sum (map length (take n parts)) ≤ len)
        × (cursor : V) × (Plan.checkpoint_state sampler c
              (own_plan s size drop_last)
              n
              (sum (map length (take n parts)))
            ≡ ok cursor)
  saves_after {parts} n fresh le =
      let (xs, run, whole) = indices_of in
      let same : parts ≡ batches size drop_last xs =
        (let e = sym fresh ∙ fresh_batches-ok xs run in cc e) in
      let (few, counted) = batches-CountedAs size drop_last pos xs in
      let boundary = counted n (rw same at le) in
      let accepted =
        (validate_auto_batch_boundary-IsBoundary (length xs) size drop_last n _ pos small
            (omega (arith, whole, law.bounded))).1
          boundary in
      let accepted' =
        subst
          (λ m.
            Plan.validate_auto_batch_boundary (some m) size drop_last n
              (sum (map length (take n (batches size drop_last xs))))
            ≡ ok tt)
          whole accepted in
      let (cursor, saved) = saves_at n _ accepted' (omega (arith, boundary.1, whole)) in
      rw same (omega (arith, few, whole), omega (arith, boundary.1, whole), cursor, saved)

  -- The resumed loader over the same sampler, whatever its options were, keeps what is left.
  resumes_after :
      (plan : AutoBatch S) {parts : List (List ℕ)} (n position : ℕ) (cursor : V)
      → plan.sampler ≡ s
      → fresh_batches alloc sampler (own_plan s size drop_last) ≡ ok parts
      → Plan.checkpoint_state sampler c (own_plan s size drop_last) n position ≡ ok cursor
      → {D T C : Type 0} (parts' : Parts D T C) (origin : Origin)
      → pending alloc sampler c plan
          (loader_state sampler c (own_plan s size drop_last) parts' origin n position cursor)
          size
          drop_last
        ≡ ok (
          record { batches = drop n parts; next_batch = n; next_logical_sample = position },
          (own_plan s size drop_last),
        )
  unfolding pending loader_state yielded fresh_batches Plan.set_epoch Plan.apply_batch_options
  resumes_after plan {parts} n position cursor same fresh saved parts' origin =
      let (plan', whole, rest, all, at, run, yields, restored, left) =
        restore_plan-ResumesAt alloc sampler c s len law.resumable size drop_last pos granted plan
          cursor n position same saved in
      let set : Plan.set_epoch sampler (Plan.apply_batch_options plan size drop_last)
            (sampler.epoch s)
          ≡ ok (own_plan s size drop_last) =
        rw (same, law.stands) refl in
      let own : plan' ≡ (own_plan s size drop_last) = (let e = sym at ∙ set in cc e) in
      let whole_run : Plan.iter sampler (own_plan s size drop_last) ≡ ok whole = (rw own at run) in
      let whole_yields : fresh_batches alloc sampler (own_plan s size drop_last) ≡ ok all =
        rw whole_run yields in
      let every : parts ≡ all = (let e = sym fresh ∙ whole_yields in cc e) in
      rw (restored, left, own, every) refl

checkpoint-at :
    {S V D T C E : Type 0} (sampler : Sampler S) (c : SamplerCheckpoint S V) (plan : AutoBatch S)
    (parts : Parts D T C) (origin : Origin) (n l : ℕ) (bs : List (List ℕ)) (cursor : V)
    → Plan.checkpoint_state sampler c plan n l ≡ ok cursor
    → checkpoint sampler c plan parts origin (at {E = E} n l bs true)
      ≡ ok (loader_state sampler c plan parts origin n l cursor)
unfolding checkpoint
checkpoint-at sampler c plan parts origin n l bs cursor saved = rw saved refl

-- What a pass yields after its first batches.
drain-rest :
    {S T B E : Type 0} (p : Pipeline S T B E) (calls g n : ℕ) (batches : List (List ℕ))
    → length batches < calls
    → n + length (drop n batches) ≤ u64_max
    → sum (map length batches) ≤ u64_max
    → drain p calls (at n (taken p n batches) (drop n batches) true)
      ≡ until_failure (map (item p) (drop n (numbered g 0 0 batches)))
drain-rest p calls g n batches more few fits =
    drain-at p calls g n (taken p n batches) (drop n batches) true
      (omega (arith, length-drop n batches)) few (omega (arith, sum-split p n batches))
    ∙ ap (λ ts. until_failure (map (item p) ts))
        (ap₂ (λ x y. numbered g x y (drop n batches)) (omega arith) (omega arith)
          ∙ sym (drop-numbered p g n 0 0 batches))

-- A pass on the calling thread over automatic batches of a sampler at the start of its epoch can be
-- checkpointed after any number of batches that were yielded, and resumed by a new loader over the same
-- sampler, whatever the batch options of its plan were: its plan accepts the cursor, its first pass
-- yields exactly what the pass itself goes on to yield, the items of the tasks from there on under their
-- own sequences and logical samples, and it keeps no cursor for another pass. The batch size is above
-- 0, fits `u64` and its storage is granted, and the passes are drained by more calls than there are
-- batches.
pub checkpoint_resumes :
    {S V A B F E D T C : Type 0} (alloc : Allocator) (sampler : Sampler S)
    (c : SamplerCheckpoint S V) (s : S) (len : ℕ) (law : IsPrepared sampler c s len) (size : ℕ)
    (drop_last : Bool) (p : Pipeline A B F E) (parts : Parts D T C) (origin : Origin)
    (plan : AutoBatch S) (generation : ℕ) (fresh : List (List ℕ)) (create_error : Option E)
    (n calls : ℕ) {batches : List (List ℕ)} (pos : 0 < size) (small : size ≤ u64_max)
    (granted : alloc usize_size size ≡ none)
    → fresh_batches alloc sampler (own_plan s size drop_last) ≡ ok batches
    → plan.sampler ≡ s
    → n ≤ length batches
    → All (Loads p) (take n (numbered generation 0 0 batches))
    → length batches < calls
    → (state : LoaderState D V T C) × (checkpoint sampler c
          (own_plan s size drop_last)
          parts
          origin
          (advance p n (start batches))
        ≡ ok state)
      × (kept : PendingSerial) × (pending alloc sampler c plan state size drop_last
          ≡ ok (kept, own_plan s size drop_last))
      × (resumed : LoaderIter E) × (exact_iter (some kept) create_error fresh ≡ (resumed, none))
      × (drain p calls resumed ≡ drain p calls (advance p n (start batches)))
      × (drain p calls resumed
          ≡ until_failure (map (item p) (drop n (numbered generation 0 0 batches))))
unfolding exact_iter
checkpoint_resumes alloc sampler c s len law size drop_last p parts origin plan generation fresh
      create_error n calls {batches} pos small granted whole same le loads more =
    let own = own_plan s size drop_last in
    let (few, inside, _, _) =
      saves_after alloc sampler c s len law size drop_last pos small granted (length batches) whole
        (omega arith) in
    let (_, _, cursor, saved) =
      saves_after alloc sampler c s len law size drop_last pos small granted n whole le in
    let all : sum (map length batches) ≤ len =
      subst (λ xs. sum (map length xs) ≤ len)
        (take_of_length-le (length batches) batches (omega arith)) inside in
    let bound = law.bounded in
    let stands : advance p n (start batches) ≡ at n (taken p n batches) (drop n batches) true =
      reached p generation n batches le (omega arith) (omega arith) loads in
    (
      loader_state sampler c own parts origin n (taken p n batches) cursor,
      ap (checkpoint sampler c own parts origin) stands
          ∙ checkpoint-at sampler c own parts origin n (taken p n batches) (drop n batches) cursor
              saved,
      record { batches = drop n batches; next_batch = n; next_logical_sample = taken p n batches },
      resumes_after alloc sampler c s len law size drop_last pos small granted plan n
          (taken p n batches) cursor same whole saved parts origin,
      at n (taken p n batches) (drop n batches) true,
      refl,
      ap (drain p calls) (sym stands),
      drain-rest p calls generation n batches more (omega (arith, length-drop n batches))
          (omega arith),
    )
