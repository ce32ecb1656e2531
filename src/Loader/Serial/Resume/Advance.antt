-- ===== src/Loader/Serial/Resume/Advance.antt =====
-- A pass of which the first batches were yielded.
use mathlib.Core.Path.{ap₂}
use mathlib.Core.List.{append_assoc, append-nil}
use rust_torch.Base.{
  ℕ, zero, suc, ◌+◌, ◌≤◌, ◌<◌, ◌≡◌, refl, sym, ap, ◌∙◌, subst, Bool, true, false, none, some, List,
  [], ◌∷◌, ◌++◌, map, arith, length, take, drop, ◌==◌, if◌then◌else◌, u64_max, sum, range_from,
  eq_of_==, All,
}
use rust_torch.Outcome.{Outcome, ok, err, panic, >>=-eq-ok}
use rust_torch.Loader.{PipelineError, LoaderError, Pipeline, map_err}
use rust_torch.Loader.Tasks.{task_of, numbered, Loads, transforms, samples, conclude, item}
use rust_torch.Loader.Serial.{
  visible, transform_loop, load, next_indices, first_error, next, iter, start,
}
use rust_torch.Loader.Serial.Pass.{at, checked_next_lem}
use rust_torch.Loader.Serial.Resume.{advance}

module _ {S T B E : Type 0} (p : Pipeline S T B E) where
  transform_loop-ok :
      (k l : ℕ) (ss : List S) (done : List T) (bs : List (List ℕ)) (v : Bool) {ts : List T}
      → l + length ss ≤ u64_max
      → transforms p (range_from l (length ss)) ss ≡ ok ts
      → transform_loop p k ss done (at k l bs v)
        ≡ visible p (conclude p k (done ++ ts)) (at k (l + length ss) bs v)
  unfolding transform_loop transforms
  transform_loop-ok k l [] done bs v {ts} h e =
      ap₂ (λ xs n. visible p (conclude p k xs) (at k n bs v))
        (sym (append-nil done) ∙ ap (λ xs. done ++ xs) (cc e)) (omega arith)
  transform_loop-ok k l (s ∷ ss) done bs v {ts} h e =
      let (t, e1, h1) = >>=-eq-ok (p.transform l s) _ e in
      let (us, e2, h2) = >>=-eq-ok (transforms p (range_from (suc l) (length ss)) ss) _ h1 in
      let made : t ∷ us ≡ ts = cc h2 in
      rw (transform_loop, e1, checked_next_lem l (omega arith))
        (transform_loop-ok k (suc l) ss (done ++ t ∷ []) bs v (omega arith) e2
          ∙ ap₂ (λ xs n. visible p (conclude p k xs) (at k n bs v))
              (append_assoc done (t ∷ []) us ∙ ap (λ xs. done ++ xs) made) (omega arith))

  map_err-ok :
      {A F G : Type 0} (f : F → G) (o : Outcome F A) {a : A} → map_err f o ≡ ok a → o ≡ ok a
  map_err-ok f (ok x) h = cc
  map_err-ok f (err e) h = cc
  map_err-ok f (panic m) h = cc

  if-then :
      {A F : Type 0} (b : Bool) (o : Outcome F A) (e : F) {a : A}
      → (if b then o else err e) ≡ ok a
      → (b ≡ true) × (o ≡ ok a)
  if-then true o e h = (refl, h)
  if-then false o e h = cc

  -- A call that yields the batch of a task, and the boundary after it.
  next-at :
      (g k l : ℕ) (b : List ℕ) (bs : List (List ℕ)) (v : Bool) {a : B}
      → l + length b ≤ u64_max
      → k < u64_max
      → item p (task_of g k l b) ≡ ok a
      → next p (at k l (b ∷ bs) v) ≡ (some (ok a), at (suc k) (l + length b) bs true)
  unfolding next first_error next_indices load visible item samples
  next-at g k l b bs v {a} fits lt h =
      let (ts, had, concludes) = >>=-eq-ok (samples p (task_of g k l b)) _ h in
      let (ss, got, rest) =
        >>=-eq-ok
          (map_err (λ e. LoaderError.pipeline (some k) none (PipelineError.dataset e))
            (p.get_batch b))
          _ had in
      let got' : p.get_batch b ≡ ok ss = map_err-ok _ (p.get_batch b) got in
      let (test, loaded) = if-then (length ss == length b) _ _ rest in
      let n : length ss ≡ length b = eq_of_== _ _ test in
      let loaded' : transforms p (range_from l (length ss)) ss ≡ ok ts =
        subst (λ m. transforms p (range_from l m) ss ≡ ok ts) (sym n) (map_err-ok _ _ loaded) in
      rw (next, got', test)
        (transform_loop-ok k l ss [] bs false (omega arith) loaded'
          ∙ ap (λ (m : ℕ). visible p (conclude p k ts) (at k (l + m) bs false)) n
          ∙ rw (concludes, visible, checked_next_lem k lt))

  -- The samples of the first batches.
  abbrev pub taken : ℕ → List (List ℕ) → ℕ
  taken n batches = sum (map length (take n batches))

  advance-at :
      (g n k l : ℕ) (bs : List (List ℕ))
      → n ≤ length bs
      → k + n ≤ u64_max
      → l + taken n bs ≤ u64_max
      → All (Loads p) (take n (numbered g k l bs))
      → advance p n (at k l bs true) ≡ at (k + n) (l + taken n bs) (drop n bs) true
  unfolding advance
  advance-at g zero k l bs le hk hl h = ap₂ (λ a b. at a b bs true) (omega arith) (omega arith)
  advance-at g (suc n) k l [] le hk hl h = absurd (omega arith)
  advance-at g (suc n) k l (b ∷ bs) le hk hl ((a, e), h) =
      rw (advance, next-at g k l b bs true (omega arith) (omega arith) e)
        (advance-at g n (suc k) (l + length b) bs (omega arith) (omega arith) (omega arith) h
          ∙ ap₂ (λ x y. at x y (drop n bs) true) (omega arith) (omega arith))

  pub drop-numbered :
      (g n k l : ℕ) (bs : List (List ℕ))
      → drop n (numbered g k l bs) ≡ numbered g (k + n) (l + taken n bs) (drop n bs)
  drop-numbered g zero k l bs = ap₂ (λ a b. numbered g a b bs) (omega arith) (omega arith)
  drop-numbered g (suc n) k l [] = refl
  drop-numbered g (suc n) k l (b ∷ bs) =
      drop-numbered g n (suc k) (l + length b) bs
      ∙ ap₂ (λ x y. numbered g x y (drop n bs)) (omega arith) (omega arith)

  pub sum-split :
      (n : ℕ) (bs : List (List ℕ)) → taken n bs + sum (map length (drop n bs)) ≡ sum (map length bs)
  sum-split zero bs = omega arith
  sum-split (suc n) [] = omega arith
  sum-split (suc n) (b ∷ bs) = omega (arith, sum-split n bs)

-- A pass of which the first batches were yielded stands at the boundary after them.
pub reached :
    {S T B E : Type 0} (p : Pipeline S T B E) (g n : ℕ) (batches : List (List ℕ))
    → n ≤ length batches
    → length batches ≤ u64_max
    → sum (map length batches) ≤ u64_max
    → All (Loads p) (take n (numbered g 0 0 batches))
    → advance p n (start batches) ≡ at n (taken p n batches) (drop n batches) true
unfolding iter
reached p g n batches le bound fits loads =
    advance-at p g n 0 0 batches le (omega arith) (omega (arith, sum-split p n batches)) loads
    ∙ ap₂ (λ x y. at x y (drop n batches) true) (omega arith) (omega arith)
