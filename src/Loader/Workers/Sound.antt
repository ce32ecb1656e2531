-- ===== src/Loader/Workers/Sound.antt =====
-- What holds of a `WorkerLoaderIter` whatever its pool does: each task in flight, each batch kept and
-- each submission to come is the one that the plan has under its sequence.
use mathlib.Core.Bool.{true≢false}
use rust_torch.Base.{
  subst, ℕ, zero, suc, ◌+◌, ◌-◌, ◌≡◌, refl, sym, ap, ◌∙◌, true, false, Option, none, some, List, [],
  ◌∷◌, arith, length, get_elem?, drop, All, All-append, drop-drop, get_elem?-drop, Bool-cases, ◌⊎◌,
  leb, Option-cases, inl, inr, checked_add, usize_max,
}
use rust_torch.Outcome.{ok}
use rust_torch.Loader.{Pipeline}
use rust_torch.Loader.Tasks.{WorkerTask, numbered}
use rust_torch.Loader.Workers.{WorkerBatch, WorkerMessage, run_task}
use rust_torch.Loader.Workers.Submit.{
  PendingSubmission, Answer, accepts, rejects, disconnected, Settings, Iter, submit, after_submit,
  try_submit, submit_new, submit_next, submit_one, has_room, fill, fill_available,
}

-- The batches that the plan yields before it panics.
unfoldable pub up_to_panic : List (Option (List ℕ)) → List (List ℕ)
up_to_panic [] = []
up_to_panic (none ∷ rest) = []
up_to_panic (some indices ∷ rest) = indices ∷ up_to_panic rest

-- The task that stands at its sequence.
abbrev pub IsTask : List WorkerTask → ℕ × WorkerTask → Type 0
IsTask tasks (worker, t) = get_elem? tasks t.batch_sequence ≡ some t

pub checked_add-cases : (a b : ℕ) → (checked_add a b ≡ none) ⊎ (checked_add a b ≡ some (a + b))
checked_add-cases a b = elim (Bool-cases (leb (a + b) usize_max)) [
  | inl h ↦ inr (rw h)
  | inr h ↦ inl (rw h)
]

module _ {S T B E : Type 0} (p : Pipeline S T B E) (c : Settings) where
  -- What a submission keeps, when there is room for it, the loop keeps.
  pub fill-keeps :
      (P : Iter p c → Type 0)
      → ((s : Iter p c) → has_room p c s ≡ true → P s → P (submit_one p c s).1)
      → (rounds : ℕ) (s : Iter p c) → P s
      → P (fill p c rounds s)
  unfolding fill
  fill-keeps P k zero s h = h
  fill-keeps P k (suc rounds) s h = elim (Bool-cases (has_room p c s)) [
    | inl r ↦ elim (Bool-cases (submit_one p c s).0) [
      | inl b ↦ rw (fill, r, b) (fill-keeps P k rounds (submit_one p c s).1 (k s r h))
      | inr b ↦ rw (fill, r, b) (k s r h)
    ]
    | inr r ↦ rw (fill, r) h
  ]

  pub open-of_has_room : (s : Iter p c) → has_room p c s ≡ true → s.submission_closed ≡ false
  unfolding has_room
  open-of_has_room s h = ground (arith, h)

module _ {S T B E : Type 0} (p : Pipeline S T B E) (c : Settings) where
  pub record IsKept (tasks : List WorkerTask) (k : ℕ) (b : WorkerBatch T) : Type 0 where
    pub task : WorkerTask
    pub at_key : get_elem? tasks k ≡ some task
    pub key : b.batch_sequence ≡ k
    pub ran : run_task p task ≡ ok (WorkerMessage.batch b)

  abbrev pub IsEntry : List WorkerTask → ℕ × (ℕ × WorkerBatch T) → Type 0
  IsEntry tasks (k, (worker, b)) = IsKept tasks k b

  -- The tasks from a sequence on are those still to be submitted.
  abbrev pub IsAhead : List WorkerTask → Option PendingSubmission → ℕ → ℕ → List (List ℕ) → Type 0
  IsAhead tasks none n l batches = drop n tasks ≡ numbered c.generation n l batches
  IsAhead tasks (some q) n l batches =
      (q.next_submission ≡ suc n)
      × (q.task.batch_sequence ≡ n)
      × (drop n tasks ≡ q.task ∷ numbered c.generation q.next_submission q.logical_end batches)

  abbrev pub Ahead : List WorkerTask → Iter p c → Type 0
  Ahead tasks s =
      IsAhead tasks s.pending_submission s.next_submission s.next_logical_sample
        (up_to_panic s.batches)

  pub record IsSound (tasks : List WorkerTask) (s : Iter p c) : Type 0 where
    pub flying : All (IsTask tasks) s.in_flight
    pub kept : All (IsEntry tasks) s.completed
    pub ahead : s.submission_closed ≡ false → Ahead tasks s

  module _ (tasks : List WorkerTask) where
    first_ahead :
        (n : ℕ) (t : WorkerTask) {rest : List WorkerTask}
        → drop n tasks ≡ t ∷ rest
        → (get_elem? tasks n ≡ some t) × (drop (suc n) tasks ≡ rest)
    first_ahead n t h = (
      (let e : n ≡ n + 0 = omega arith in
          ap (get_elem? tasks) e ∙ sym (get_elem?-drop n tasks 0) ∙ ap (λ xs. get_elem? xs 0) h),
      (let e : suc n ≡ n + 1 = omega arith in
          ap (λ m. drop m tasks) e ∙ sym (drop-drop 1 n tasks) ∙ ap (drop 1) h),
    )

    after_submit-IsSound :
        (answer : Answer) (q : PendingSubmission) (s : Iter p c)
        → All (IsTask tasks) s.in_flight
        → All (IsEntry tasks) s.completed
        → s.pending_submission ≡ none
        → IsAhead tasks (some q) s.next_submission s.next_logical_sample (up_to_panic s.batches)
        → IsSound tasks (after_submit p c (submit answer q.task) q s).1
    unfolding after_submit
    after_submit-IsSound accepts q s f k e (hn, ht, hd) = record {
      flying =
          let flies : IsTask tasks (q.worker, q.task) =
            ap (get_elem? tasks) ht ∙ (first_ahead s.next_submission q.task hd).0 in
          All-append (IsTask tasks) s.in_flight _ f (flies, tt);
      kept = k;
      ahead = λ closed.
          subst (λ o. IsAhead tasks o q.next_submission q.logical_end (up_to_panic s.batches))
            (sym e) (ap (λ m. drop m tasks) hn ∙ (first_ahead s.next_submission q.task hd).1);
    }
    after_submit-IsSound rejects q s f k e a = record { flying = f; kept = k; ahead = λ closed. a }
    after_submit-IsSound disconnected q s f k e a = record {
      flying = f;
      kept = k;
      ahead = λ closed. absurd (true≢false closed);
    }

    try_submit-IsSound :
        (q : PendingSubmission) (s : Iter p c)
        → All (IsTask tasks) s.in_flight
        → All (IsEntry tasks) s.completed
        → s.pending_submission ≡ none
        → IsAhead tasks (some q) s.next_submission s.next_logical_sample (up_to_panic s.batches)
        → IsSound tasks (try_submit p c q s).1
    unfolding try_submit
    try_submit-IsSound q s f k e a = after_submit-IsSound _ q (record s { answers = _ }) f k e a

    closed-IsSound :
        (s : Iter p c)
        → All (IsTask tasks) s.in_flight
        → All (IsEntry tasks) s.completed
        → s.submission_closed ≡ true
        → IsSound tasks s
    closed-IsSound s f k e = record {
      flying = f;
      kept = k;
      ahead = λ closed. absurd (true≢false (sym e ∙ closed));
    }

    submit_new-IsSound :
        (indices : List ℕ) (s : Iter p c)
        → All (IsTask tasks) s.in_flight
        → All (IsEntry tasks) s.completed
        → s.pending_submission ≡ none
        → drop s.next_submission tasks
          ≡ numbered c.generation s.next_submission s.next_logical_sample
              (indices ∷ up_to_panic s.batches)
        → IsSound tasks (submit_new p c indices s).1
    unfolding submit_new
    submit_new-IsSound indices s f k e a = elim (checked_add-cases s.next_submission 1) [
      | inl h ↦
          rw (submit_new, h)
            (closed-IsSound (record s { pending_error = _; submission_closed = true }) f k refl)
      | inr h ↦ elim (checked_add-cases s.next_logical_sample (length indices)) [
        | inl h' ↦
            rw (submit_new, h, h')
              (closed-IsSound (record s { pending_error = _; submission_closed = true }) f k refl)
        | inr h' ↦
            rw (submit_new, h, h')
              (try_submit-IsSound _ s f k e (omega arith, refl, rw (logical, sequence) a))
      ]
    ]
      where
        logical : s.next_logical_sample + length indices - s.next_logical_sample ≡ length indices
        logical = omega arith

        sequence : s.next_submission + 1 ≡ suc s.next_submission
        sequence = omega arith

    submit_next-IsSound :
        (batches : List (Option (List ℕ))) (s : Iter p c)
        → All (IsTask tasks) s.in_flight
        → All (IsEntry tasks) s.completed
        → s.pending_submission ≡ none
        → s.batches ≡ batches
        → drop s.next_submission tasks
          ≡ numbered c.generation s.next_submission s.next_logical_sample (up_to_panic batches)
        → IsSound tasks (submit_next p c batches s).1
    unfolding submit_next up_to_panic
    submit_next-IsSound [] s f k e eb a = record {
      flying = f;
      kept = k;
      ahead = λ closed. rw (e, eb) a;
    }
    submit_next-IsSound (none ∷ rest) s f k e eb a =
        closed-IsSound (record s { batches = rest; pending_error = _; submission_closed = true }) f
          k refl
    submit_next-IsSound (some indices ∷ rest) s f k e eb a =
        submit_new-IsSound indices (record s { batches = rest }) f k e a

    submit_one-IsSound :
        (s : Iter p c)
        → IsSound tasks s
        → s.submission_closed ≡ false
        → IsSound tasks (submit_one p c s).1
    unfolding submit_one
    submit_one-IsSound s v open' = elim (Option-cases s.pending_submission) [
      | inl e ↦
          rw (submit_one, e)
            (submit_next-IsSound s.batches s v.flying v.kept e refl (rw e at v.ahead open'))
      | inr (q, e) ↦
          rw (submit_one, e)
            (try_submit-IsSound q (record s { pending_submission = none }) v.flying v.kept refl
              (rw e at v.ahead open'))
    ]

    pub fill-IsSound : (s : Iter p c) → IsSound tasks s → IsSound tasks (fill_available p c s)
    unfolding fill_available
    fill-IsSound s v =
        fill-keeps p c (IsSound tasks) (λ u r w. submit_one-IsSound u w (open-of_has_room p c u r))
          c.capacity s v
