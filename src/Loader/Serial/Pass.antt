-- ===== src/Loader/Serial/Pass.antt =====
-- What a pass on the calling thread yields, against the items of its tasks.
use mathlib.Core.Path.{ap₂}
use mathlib.Core.List.{append_assoc, append-nil}
use rust_torch.Base.{
  ℕ, String, zero, suc, ◌+◌, ◌≤◌, ◌<◌, ◌≡◌, refl, sym, ap, ◌∙◌, Bool, true, false, none, some, List,
  [], ◌∷◌, ◌++◌, map, arith, length, ◌==◌, u64_max, sum, range_from, Bool-cases, inl, inr, eq_of_==,
}
use rust_torch.Outcome.{Outcome, Outcome-cases, ok, err, panic, ◌>>=◌}
use rust_torch.Loader.{PipelineError, LoaderError, Pipeline, map_err}
use rust_torch.Loader.Tasks.{task_of, numbered, until_failure, transforms, samples, conclude, item}
use rust_torch.Loader.Serial.{
  LoaderIter, checked_next, Turn, visible, fails, transform_loop, load, next_indices, first_error,
  next, emit, drain, iter, start,
}

-- A pass that has these batches left.
abbrev pub at : {E : Type 0} → (sequence logical : ℕ) → List (List ℕ) → Bool → LoaderIter E
at k l batches valid = record {
  batches = some batches;
  has_transform = true;
  transform_error = none;
  next_batch = k;
  next_logical_sample = l;
  exhausted = false;
  boundary_valid = valid;
}

pub checked_next_lem : (n : ℕ) → n < u64_max → checked_next n ≡ some (suc n)
checked_next_lem n h = ground arith

map_err-cons :
    {T C E F : Type 0} (o : Outcome E (List T)) (f : E → F) (t : T) (done : List T)
    (k : List T → Outcome F C)
    → (map_err f (o >>= λ ts. ok (t ∷ ts)) >>= λ ts. k (done ++ ts))
      ≡ (map_err f o >>= λ ts. k ((done ++ t ∷ []) ++ ts))
map_err-cons (ok ts) f t done k = ap k (sym (append_assoc done (t ∷ []) ts))
map_err-cons (err e) f t done k = refl
map_err-cons (panic m) f t done k = refl

module _ {S T B E : Type 0} (p : Pipeline S T B E) where
  abbrev follow : ℕ → Turn p → List (Outcome (LoaderError E) B)
  follow calls (i, it) = emit p i (drain p calls it)

  drain-exhausted : (calls : ℕ) (it : LoaderIter E) → it.exhausted ≡ true → drain p calls it ≡ []
  unfolding drain next emit
  drain-exhausted zero it h = refl
  drain-exhausted (suc calls) it h = rw h refl

  follow-fails :
      (calls : ℕ) (e : LoaderError E) (it : LoaderIter E) → follow calls (fails p e it) ≡ err e ∷ []
  unfolding emit
  follow-fails calls e it =
      ap (◌∷◌ (err e)) (drain-exhausted calls (record it { exhausted = true }) refl)

  follow-visible_err :
      (calls : ℕ) (e : LoaderError E) (it : LoaderIter E)
      → follow calls (visible p (err e) it) ≡ err e ∷ []
  unfolding visible
  follow-visible_err calls e it = follow-fails calls e it

  follow-visible_panic :
      (calls : ℕ) (m : String) (it it' : LoaderIter E)
      → follow calls (some (panic m), it) ≡ follow calls (visible p (panic m) it')
  unfolding visible emit
  follow-visible_panic calls m it it' = refl

  -- The loop and the reference transformation of the samples.
  follow-transform_loop :
      (calls k l : ℕ) (ss : List S) (done : List T) (bs : List (List ℕ)) (v : Bool)
      → l + length ss ≤ u64_max
      → follow calls (transform_loop p k ss done (at k l bs v))
        ≡ follow calls (
            visible p
              (map_err
                  (λ e. LoaderError.pipeline (some k) none (PipelineError.transform e))
                  (transforms p (range_from l (length ss)) ss)
                >>= λ ts. conclude p k (done ++ ts))
              (at k (l + length ss) bs v))
  unfolding transform_loop transforms
  follow-transform_loop calls k l [] done bs v h =
      ap (λ ts. follow calls (visible p (conclude p k ts) (at k l bs v))) (sym (append-nil done))
      ∙ ap (λ n. follow calls (visible p (conclude p k (done ++ [])) (at k n bs v))) (omega arith)
  follow-transform_loop calls k l (s ∷ ss) done bs v h = elim (Outcome-cases (p.transform l s)) [
    | inl (t, e) ↦
        rw (e, checked_next_lem l (omega arith))
          (follow-transform_loop calls k (suc l) ss (done ++ t ∷ []) bs v (omega arith)
            ∙ ap₂
                (λ (o : Outcome (LoaderError E) B) (n : ℕ).
                  follow calls (visible p o (at k n bs v)))
                (sym (
                  map_err-cons (transforms p (range_from (suc l) (length ss)) ss) _ t done
                    (conclude p k)))
                (omega arith))
    | inr (inl (e, h')) ↦ rw h' (
        follow-fails calls _ (at k l bs v)
        ∙ sym (follow-visible_err calls _ (at k (l + length (s ∷ ss)) bs v)))
    | inr (inr (m, e)) ↦ rw e (follow-visible_panic calls m _ _)
  ]

  -- A batch and the reference of its task.
  follow-load :
      (calls g k l : ℕ) (indices : List ℕ) (bs : List (List ℕ)) (v : Bool)
      → l + length indices ≤ u64_max
      → follow calls (load p indices (p.get_batch indices) (at k l bs v))
        ≡ follow calls (visible p (item p (task_of g k l indices)) (at k (l + length indices) bs v))
  unfolding load item samples
  follow-load calls g k l indices bs v h = elim (Outcome-cases (p.get_batch indices)) [
    | inl (ss, e) ↦ elim (Bool-cases (length ss == length indices)) [
      | inl t ↦
          let n : length ss ≡ length indices = eq_of_== _ _ t in
          rw (e, t, sym n) (follow-transform_loop calls k l ss [] bs v (omega arith))
      | inr f ↦
          rw (e, f)
            (follow-fails calls _ (at k l bs v)
              ∙ sym (follow-visible_err calls _ (at k (l + length indices) bs v)))
    ]
    | inr (inl (e, h')) ↦ rw h' (
        follow-fails calls _ (at k l bs v)
        ∙ sym (follow-visible_err calls _ (at k (l + length indices) bs v)))
    | inr (inr (m, e)) ↦ rw e (follow-visible_panic calls m _ _)
  ]

  follow-visible :
      (calls k l : ℕ) (o : Outcome (LoaderError E) B) (bs : List (List ℕ))
      (rest : List (Outcome (LoaderError E) B))
      → k < u64_max
      → drain p calls (at (suc k) l bs true) ≡ until_failure rest
      → follow calls (visible p o (at k l bs false)) ≡ until_failure (o ∷ rest)
  unfolding visible emit until_failure
  follow-visible calls k l (ok a) bs rest h ih =
      rw (visible, checked_next_lem k h) (ap (◌∷◌ (ok a)) ih)
  follow-visible calls k l (err e) bs rest h ih = follow-fails calls e (at k l bs false)
  follow-visible calls k l (panic m) bs rest h ih = refl

  pub drain-at :
      (calls g k l : ℕ) (bs : List (List ℕ)) (v : Bool)
      → length bs < calls
      → k + length bs ≤ u64_max
      → l + sum (map length bs) ≤ u64_max
      → drain p calls (at k l bs v) ≡ until_failure (map (item p) (numbered g k l bs))
  unfolding drain next first_error next_indices until_failure emit
  drain-at zero g k l bs v hc hk hl = absurd (omega arith)
  drain-at (suc calls) g k l [] v hc hk hl = refl
  drain-at (suc calls) g k l (b ∷ bs) v hc hk hl =
      follow-load calls g k l b bs false (omega arith)
      ∙ follow-visible calls k (l + length b) (item p (task_of g k l b)) bs _ (omega arith) (
          drain-at calls g (suc k) (l + length b) bs true (omega arith) (omega arith) (omega arith))

-- A fresh pass on the calling thread, drained by more calls than it has batches, yields exactly the
-- items of the tasks of its batches, each loaded by itself under its sequence and its logical
-- samples, up to and with the first failure; the batches and the samples fit `u64`.
pub drain_pass :
    {S T B E : Type 0} (p : Pipeline S T B E) (calls generation : ℕ) (batches : List (List ℕ))
    → length batches < calls
    → length batches ≤ u64_max
    → sum (map length batches) ≤ u64_max
    → drain p calls (start batches) ≡ until_failure (map (item p) (numbered generation 0 0 batches))
unfolding iter
drain_pass p calls generation batches more fits samples =
    drain-at p calls generation 0 0 batches true more (omega arith) (omega arith)
