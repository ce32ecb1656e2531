-- ===== src/Loader/Workers/Live.antt =====
-- A `WorkerLoaderIter` whose pool accepts every task: each task from the next visible one to the last
-- that was submitted is in flight or kept.
use native.Mathlib.Decide.{dec_lt}
use mathlib.Core.Bool.{true≢false}
use rust_torch.Base.{
  ℕ, suc, ◌+◌, ◌-◌, ◌%◌, ◌≤◌, ◌<◌, ◌≡◌, refl, sym, ap, ◌∙◌, subst, Bool, true, false, none, some,
  List, [], ◌∷◌, ◌++◌, map, sum, arith, length, All, All-append, All-imp, inl, inr, ◌⊎◌,
  checked_add, checked_add-eq-some, range_from, usize_max, length-append,
}
use rust_torch.Loader.{Pipeline}
use rust_torch.Loader.Tasks.{WorkerTask}
use rust_torch.Loader.Workers.{Flight, WorkerBatch}
use rust_torch.Loader.Workers.Submit.{
  Settings, Iter, after_submit, try_submit, submit_new, submit_next, submit_one, has_room,
  fill_available,
}
use rust_torch.Loader.Workers.Entries.{Flies, Holds, append-Flies}
use rust_torch.Loader.Workers.Sound.{fill-keeps}
use rust_torch.Loader.Workers.Fill.{has_room-fill}

list-cases : {A : Type 0} (xs : List A) → (xs ≡ []) ⊎ ((x : A) × (rest : List A) × (xs ≡ x ∷ rest))
list-cases [] = inl refl
list-cases (x ∷ xs) = inr (x, xs, refl)

module _ {S T B E : Type 0} (p : Pipeline S T B E) (c : Settings) where
  abbrev pub FliesBelow : ℕ → ℕ × WorkerTask → Type 0
  FliesBelow n (worker, t) = t.batch_sequence < n

  abbrev pub KeptBelow : ℕ → ℕ × (ℕ × WorkerBatch T) → Type 0
  KeptBelow n (k, entry) = k < n

  -- With `budget` more tasks to finish at most, of `total` in all.
  pub record IsLive (total budget : ℕ) (s : Iter p c) : Type 0 where
    pub rest : List (List ℕ)
    pub plan : s.batches ≡ map some rest
    pub accepting : s.answers ≡ []
    pub no_pending : s.pending_submission ≡ none
    pub no_error : s.pending_error ≡ none
    pub is_open : s.submission_closed ≡ false
    pub running : s.exhausted ≡ false
    pub count : s.next_submission + length rest ≡ total
    pub balance : s.next_submission ≡ s.next_visible + s.outstanding
    pub fits : s.next_logical_sample + sum (map length rest) ≤ usize_max
    pub flying_below : All (FliesBelow s.next_submission) s.in_flight
    pub kept_below : All (KeptBelow s.next_submission) s.completed
    pub covered :
        (q : ℕ)
        → s.next_visible ≤ q
        → q < s.next_submission
        → Flies q s.in_flight ⊎ Holds q s.completed
    pub drained : s.source_exhausted ≡ true → rest ≡ []
    pub enough : length s.in_flight + length rest ≤ budget

  -- Another account of what is in flight, kept and outstanding.
  pub with-IsLive :
      (total : ℕ) (s : Iter p c) (flight : Flight) (entries : List (ℕ × (ℕ × WorkerBatch T)))
      (visible outstanding budget budget' : ℕ) (v : IsLive total budget s)
      → s.next_submission ≡ visible + outstanding
      → All (FliesBelow s.next_submission) flight
      → All (KeptBelow s.next_submission) entries
      → ((q : ℕ) → visible ≤ q → q < s.next_submission → Flies q flight ⊎ Holds q entries)
      → length flight + length v.rest ≤ budget'
      → IsLive total budget' (record s {
        in_flight = flight;
        completed = entries;
        next_visible = visible;
        outstanding = outstanding;
      })
  with-IsLive total s flight entries visible outstanding budget budget' v balance fb kb covers
        enough =
      record {
        rest = v.rest;
        plan = v.plan;
        accepting = v.accepting;
        no_pending = v.no_pending;
        no_error = v.no_error;
        is_open = v.is_open;
        running = v.running;
        count = v.count;
        balance = balance;
        fits = v.fits;
        flying_below = fb;
        kept_below = kb;
        covered = covers;
        drained = v.drained;
        enough = enough;
      }

  module _ (total budget : ℕ) (bound : total ≤ usize_max) where
    live-of_room : (s : Iter p c) → has_room p c s ≡ true → s.source_exhausted ≡ false
    unfolding has_room
    live-of_room s h = ground (arith, h)

    no_room : (s : Iter p c) → has_room p c (record s { source_exhausted = true }) ≡ false
    unfolding has_room
    no_room s = ground arith

    -- The state after the submission of a batch.
    abbrev submitted_state : List ℕ → List (List ℕ) → Iter p c → Iter p c
    submitted_state b rest s = record s {
      batches = map some rest;
      in_flight =
          s.in_flight
          ++ (
            s.next_submission % c.workers,
            record {
              generation = c.generation;
              batch_sequence = s.next_submission;
              logical_samples =
                  range_from s.next_logical_sample
                    (s.next_logical_sample + length b - s.next_logical_sample);
              indices = b;
            },
          )
            ∷ [];
      answers = [];
      next_submission = s.next_submission + 1;
      next_logical_sample = s.next_logical_sample + length b;
      outstanding = suc s.outstanding;
    }

    submit_one-some :
        (s : Iter p c) (v : IsLive total budget s) (b : List ℕ) (rest : List (List ℕ))
        → v.rest ≡ b ∷ rest
        → submit_one p c s ≡ (true, submitted_state b rest s)
    unfolding submit_one submit_next submit_new try_submit after_submit
    submit_one-some s v b rest e = rw (
      submit_one, v.no_pending, v.plan, e, submit_next, submit_new, sequence_fits, logical_fits,
      try_submit, v.accepting, after_submit, v.no_pending,
    )
      where
        sequence_fits : checked_add s.next_submission 1 ≡ some (s.next_submission + 1)
        sequence_fits =
            checked_add-eq-some s.next_submission 1 (omega (arith, v.count, bound, ap length e))

        logical_fits :
            checked_add s.next_logical_sample (length b) ≡ some (s.next_logical_sample + length b)
        logical_fits =
            checked_add-eq-some s.next_logical_sample (length b)
              (omega (arith, v.fits, ap (λ (bs : List (List ℕ)). sum (map length bs)) e))

    submit_one-none :
        (s : Iter p c) (v : IsLive total budget s)
        → v.rest ≡ []
        → submit_one p c s ≡ (false, record s { source_exhausted = true })
    unfolding submit_one submit_next
    submit_one-none s v e = rw (submit_one, v.no_pending, v.plan, e, submit_next, v.no_pending)

    submitted_state-IsLive :
        (s : Iter p c) (v : IsLive total budget s) (b : List ℕ) (rest : List (List ℕ))
        → s.source_exhausted ≡ false
        → v.rest ≡ b ∷ rest
        → IsLive total budget (submitted_state b rest s)
    submitted_state-IsLive s v b rest live e =
        let n : length v.rest ≡ suc (length rest) = ap length e in
        record {
          rest = rest;
          plan = refl;
          accepting = refl;
          no_pending = v.no_pending;
          no_error = v.no_error;
          is_open = v.is_open;
          running = v.running;
          count = omega (arith, v.count, n);
          balance = omega (arith, v.balance);
          fits = omega (arith, v.fits, ap (λ (bs : List (List ℕ)). sum (map length bs)) e);
          flying_below =
              All-append (FliesBelow (s.next_submission + 1)) s.in_flight _
                (All-imp (λ f h. omega (arith, h)) s.in_flight v.flying_below) (omega arith, tt);
          kept_below = All-imp (λ f h. omega (arith, h)) s.completed v.kept_below;
          covered = covered-submitted;
          drained = λ x. absurd (true≢false (sym x ∙ live));
          enough = omega (arith, v.enough, n, length-append s.in_flight (_ ∷ []));
        }
      where
        covered-submitted :
            (q : ℕ)
            → s.next_visible ≤ q
            → q < s.next_submission + 1
            → Flies q (submitted_state b rest s).in_flight ⊎ Holds q s.completed
        covered-submitted q lo hi = elim (dec_lt q s.next_submission) [
          | yes lt ↦ elim (v.covered q lo lt) [
            | inl f ↦ inl (append-Flies q s.in_flight _ (inl f))
            | inr k ↦ inr k
          ]
          | no ge ↦ inl (append-Flies q s.in_flight _ (inr (inl (omega (arith, ge, hi)))))
        ]

    submit_one-IsLive :
        (s : Iter p c)
        → has_room p c s ≡ true
        → IsLive total budget s
        → IsLive total budget (submit_one p c s).1
    submit_one-IsLive s room v = elim (list-cases v.rest) [
      | inl e ↦
          subst (λ (q : Bool × Iter p c). IsLive total budget q.1) (sym (submit_one-none s v e))
            (record {
              rest = v.rest;
              plan = v.plan;
              accepting = v.accepting;
              no_pending = v.no_pending;
              no_error = v.no_error;
              is_open = v.is_open;
              running = v.running;
              count = v.count;
              balance = v.balance;
              fits = v.fits;
              flying_below = v.flying_below;
              kept_below = v.kept_below;
              covered = v.covered;
              drained = λ x. e;
              enough = v.enough;
            })
      | inr (b, rest, e) ↦
          subst (λ (q : Bool × Iter p c). IsLive total budget q.1)
            (sym (submit_one-some s v b rest e))
            (submitted_state-IsLive s v b rest (live-of_room s room) e)
    ]

    -- After the submissions the pass is live still, and there is no room.
    pub fill_available-IsLive :
        (s : Iter p c)
        → IsLive total budget s
        → IsLive total budget (fill_available p c s) × (has_room p c (fill_available p c s) ≡ false)
    unfolding fill_available
    fill_available-IsLive s v = (
      fill-keeps p c (IsLive total budget) submit_one-IsLive c.capacity s v,
      has_room-fill p c (IsLive total budget) submit_one-IsLive stops c.capacity s v (omega arith),
    )
      where
        stops :
            (u : Iter p c)
            → has_room p c u ≡ true
            → IsLive total budget u
            → (submit_one p c u).0 ≡ false
            → has_room p c (submit_one p c u).1 ≡ false
        stops u room w h = elim (list-cases w.rest) [
          | inl e ↦
              subst (λ (q : Bool × Iter p c). has_room p c q.1 ≡ false)
                (sym (submit_one-none u w e)) (no_room u)
          | inr (b, rest, e) ↦ absurd (
              true≢false
                (sym (ap (λ (q : Bool × Iter p c). q.0) (submit_one-some u w b rest e)) ∙ h))
        ]
