-- ===== src/Memory/Budget/Safety.antt =====
-- What holds of a `ByteBudget` in every execution.
use rust_torch.Base.{
  sum, ℕ, zero, suc, ◌+◌, ◌≤◌, ◌<◌, ◌≡◌, refl, ap, ◌∙◌, List, [], ◌∷◌, ◌++◌, arith, u64_max,
  usize_max,
}
use rust_torch.Memory.Budget.{Request, attempt, resume, release, cancel}
use rust_torch.Memory.Budget.System.{
  System, start, enter, Step, call, wake, drop_permit, cancels, Reach, here, next,
}

-- The sequence numbers below `n`, the last one first.
unfoldable pub descending : ℕ → List ℕ
descending zero = []
descending (suc n) = n ∷ descending n

-- `used` is the sum of the permits that are out, and within the limit; the exception is a budget
-- that has run out of sequence numbers, where `used` may be more. Ordered permits were granted in
-- the order of their numbers, with no gap and no repetition.
pub record IsSafe (s : System) : Type 0 where
  pub accounted : sum s.permits ≤ s.state.used
  pub exact : s.state.next_ordered < u64_max → s.state.used ≡ sum s.permits
  pub within : s.state.used ≤ s.limit
  pub counter : s.state.next_ordered ≤ u64_max
  pub in_order : s.admitted ≡ descending s.state.next_ordered

pub start-IsSafe : (limit : ℕ) → IsSafe (start limit)
unfolding start descending
start-IsSafe limit = ground arith

pub sum-middle :
    (before after : List ℕ) (x : ℕ) → sum (before ++ x ∷ after) ≡ x + sum (before ++ after)
sum-middle [] after x = refl
sum-middle (y ∷ before) after x = omega (arith, sum-middle before after x)

descending-suc : (n : ℕ) → descending (n + 1) ≡ n ∷ descending n
unfolding descending
descending-suc n = let e : n + 1 ≡ suc n = omega arith in ap descending e

enter-IsSafe : (s : System) (r : Request) → s.limit ≤ usize_max → IsSafe s → IsSafe (enter s r)
unfolding enter attempt
enter-IsSafe s r h v = ground (arith, descending-suc s.state.next_ordered)

limit-enter : (s : System) (r : Request) → (enter s r).limit ≡ s.limit
unfolding enter attempt
limit-enter s r = ground arith

Step-limit : {s t : System} → Step s t → t.limit ≡ s.limit
Step-limit {s} (call r) = limit-enter s r
Step-limit (wake before after r e) = limit-enter _ r
Step-limit (drop_permit before after bytes e) = refl
Step-limit cancels = refl

release-IsSafe :
    (s : System) (before after : List ℕ) (bytes : ℕ)
    → s.permits ≡ before ++ bytes ∷ after
    → IsSafe s
    → IsSafe (record s { permits = before ++ after; state = release bytes s.state })
unfolding release
release-IsSafe s before after bytes e v =
    let total : sum s.permits ≡ bytes + sum (before ++ after) =
      ap sum e ∙ sum-middle before after bytes in
    record {
      accounted = omega (arith, v.accounted);
      exact = λ h. omega (arith, v.exact h);
      within = omega (arith, v.within);
      counter = v.counter;
      in_order = v.in_order;
    }

Step-IsSafe : {s t : System} → s.limit ≤ usize_max → Step s t → IsSafe s → IsSafe t
unfolding resume cancel
Step-IsSafe {s} h (call r) v = enter-IsSafe s r h v
Step-IsSafe {s} h (wake before after r e) v =
    enter-IsSafe (record s { waiting = before ++ after; state = resume s.state }) r h
      (record {
        accounted = v.accounted;
        exact = v.exact;
        within = v.within;
        counter = v.counter;
        in_order = v.in_order;
      })
Step-IsSafe {s} h (drop_permit before after bytes e) v = release-IsSafe s before after bytes e v
Step-IsSafe h cancels v = record {
  accounted = v.accounted;
  exact = v.exact;
  within = v.within;
  counter = v.counter;
  in_order = v.in_order;
}

pub Reach-limit : {s t : System} → Reach s t → t.limit ≡ s.limit
Reach-limit here = refl
Reach-limit (next r st) = Step-limit st ∙ Reach-limit r

-- For a limit within `usize`, in every state that any interleaving of calls, wake-ups, drops and
-- cancellations reaches from a new budget: `used` is at least the sum of the permits that are out
-- and exactly that sum while sequence numbers are left, `used` is within the limit, and the ordered
-- permits were granted in the order of their numbers 0, 1, 2, ..., each once.
pub Reach-IsSafe : (limit : ℕ) {t : System} → limit ≤ usize_max → Reach (start limit) t → IsSafe t
unfolding start
Reach-IsSafe limit h here = start-IsSafe limit
Reach-IsSafe limit h (next r st) =
    Step-IsSafe (omega (arith, Reach-limit r)) st (Reach-IsSafe limit h r)
