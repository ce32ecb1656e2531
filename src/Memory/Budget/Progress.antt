-- ===== src/Memory/Budget/Progress.antt =====
-- When a request is granted, refused, or left waiting.
use rust_torch.Base.{
  sum, ℕ, ◌+◌, ◌≤◌, ◌<◌, ◌≡◌, refl, ap, ◌∙◌, true, false, Option, none, some, ◌∷◌, ◌++◌, arith,
  u64_max, usize_max, length, length-append,
}
use rust_torch.Memory.Budget.{
  BudgetState, is_cancelled, Request, granted, refused, attempt, cancel, resume, release,
}
use rust_torch.Memory.Budget.System.{
  System, start, enter, Step, call, wake, drop_permit, cancels, Reach, here, next,
}
use rust_torch.Memory.Budget.Safety.{Reach-IsSafe, Reach-limit, sum-middle}

-- A request's turn has come: it is unordered, or the next of the ordered ones and sequence numbers
-- are left.
abbrev pub IsTurn : Option ℕ → ℕ → Type 0
IsTurn none upcoming = Unit
IsTurn (some sequence) upcoming = (sequence ≡ upcoming) × (upcoming < u64_max)

abbrev pub taken : Option ℕ → ℕ → BudgetState → BudgetState
taken none bytes s = record s { used = s.used + bytes }
taken (some sequence) bytes s = record s {
  used = s.used + bytes;
  next_ordered = s.next_ordered + 1;
}

used-taken :
    (sequence : Option ℕ) (bytes : ℕ) (s : BudgetState)
    → (taken sequence bytes s).used ≡ s.used + bytes
used-taken none bytes s = refl
used-taken (some sequence) bytes s = refl

limit-start : (limit : ℕ) → (start limit).limit ≡ limit
unfolding start
limit-start limit = refl

attempt_ready :
    (limit : ℕ) (sequence : Option ℕ) (bytes : ℕ) (s : BudgetState)
    → limit ≤ usize_max
    → s.cancelled ≡ false
    → s.used + bytes ≤ limit
    → IsTurn sequence s.next_ordered
    → attempt limit (record { sequence = sequence; bytes = bytes }) s
      ≡ granted (taken sequence bytes s)
unfolding attempt
attempt_ready limit none bytes s h live fits turn = ground arith
attempt_ready limit (some sequence) bytes s h live fits turn = ground arith

-- For a limit within `usize`, in every reachable state that is not cancelled and has sequence
-- numbers left, a request whose turn it is and which fits beside the permits that are out gets its
-- permit in one round; `used` is then the sum of all of them.
pub fitting_grants :
    (limit : ℕ) {t : System} (r : Request)
    → limit ≤ usize_max
    → Reach (start limit) t
    → t.state.cancelled ≡ false
    → t.state.next_ordered < u64_max
    → sum t.permits + r.bytes ≤ t.limit
    → IsTurn r.sequence t.state.next_ordered
    → (attempt t.limit r t.state ≡ granted (taken r.sequence r.bytes t.state))
      × ((taken r.sequence r.bytes t.state).used ≡ sum t.permits + r.bytes)
fitting_grants limit {t} r h reach live left fits turn =
    let v = Reach-IsSafe limit h reach in
    let e : t.state.used ≡ sum t.permits = v.exact left in
    (
      attempt_ready t.limit r.sequence r.bytes t.state
          (omega (arith, Reach-limit reach, limit-start limit)) live (omega arith) turn,
      used-taken r.sequence r.bytes t.state ∙ ap (λ (n : ℕ). n + r.bytes) e,
    )

-- Nothing is admitted and nobody new waits between two states.
record IsDraining (s t : System) : Type 0 where
  stopped : t.state.cancelled ≡ true
  fewer : length t.waiting ≤ length s.waiting
  none_admitted : t.admitted ≡ s.admitted
  no_growth : sum t.permits ≤ sum s.permits

-- A round of a cancelled budget refuses.
enter-cancelled : (s : System) (r : Request) → s.state.cancelled ≡ true → enter s r ≡ s
unfolding enter attempt
enter-cancelled s r h = ground arith

Step-IsDraining : {s t u : System} → Step t u → IsDraining s t → IsDraining s u
unfolding resume cancel release
Step-IsDraining {s} {t} (call r) d = rw (enter-cancelled t r d.stopped) d
Step-IsDraining {s} {t} (wake before after r e) d =
    rw
      (enter-cancelled (record t { waiting = before ++ after; state = resume t.state }) r d.stopped)
      (record {
        stopped = d.stopped;
        fewer = omega (
          arith,
          ap length e,
          length-append before (r ∷ after),
          length-append before after,
          d.fewer,
        );
        none_admitted = d.none_admitted;
        no_growth = d.no_growth;
      })
Step-IsDraining (drop_permit before after bytes e) d = record {
  stopped = d.stopped;
  fewer = d.fewer;
  none_admitted = d.none_admitted;
  no_growth = omega (arith, ap sum e, sum-middle before after bytes, d.no_growth);
}
Step-IsDraining cancels d = record {
  stopped = refl;
  fewer = d.fewer;
  none_admitted = d.none_admitted;
  no_growth = d.no_growth;
}

Reach-IsDraining : {s t : System} → s.state.cancelled ≡ true → Reach s t → IsDraining s t
Reach-IsDraining h here = record {
  stopped = h;
  fewer = omega arith;
  none_admitted = refl;
  no_growth = omega arith;
}
Reach-IsDraining h (next r st) = Step-IsDraining st (Reach-IsDraining h r)

attempt-cancelled :
    (limit : ℕ) (r : Request) (s : BudgetState)
    → s.cancelled ≡ true
    → attempt limit r s ≡ refused is_cancelled s
unfolding attempt
attempt-cancelled limit r s h = rw h

-- Once cancelled, a budget stays so in every execution: no permit is granted, no sequence number
-- admitted, the number of waiting threads never grows, and each round of a request is refused.
pub cancelled_drains :
    {s t : System} (r : Request)
    → s.state.cancelled ≡ true
    → Reach s t
    → (attempt t.limit r t.state ≡ refused is_cancelled t.state)
      × (length t.waiting ≤ length s.waiting)
      × (t.admitted ≡ s.admitted)
      × (sum t.permits ≤ sum s.permits)
cancelled_drains {s} {t} r h reach =
    let d = Reach-IsDraining h reach in
    (attempt-cancelled t.limit r t.state d.stopped, d.fewer, d.none_admitted, d.no_growth)
