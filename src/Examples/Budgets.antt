-- ===== src/Examples/Budgets.antt =====
-- Runs of the byte budget, and sizes of small values.
use rust_torch.Base.{
  ℕ, ◌+◌, ◌≤◌, ◌≡◌, refl, none, some, [], ◌∷◌, arith, min, sum, length, usize_max, u64_max,
}
use rust_torch.Memory.Footprint.{vec, btree_map, containers_saturate}
use rust_torch.Memory.Budget.{
  Request, granted, refused, is_cancelled, sequence_already_admitted, admit, attempt, cancel,
}
use rust_torch.Memory.Budget.System.{System, start, after_round, enter, call, Reach, here, next}
use rust_torch.Memory.Budget.Safety.{IsSafe, Reach-IsSafe}
use rust_torch.Memory.Budget.Progress.{taken, fitting_grants, cancelled_drains}
use rust_torch.Memory.Budget.Leak.{last_request, counted, exhausted_leaks, counted-Reach}

abbrev first : Request
first = record { sequence = some 0; bytes = 4 }

abbrev second : Request
second = record { sequence = some 1; bytes = 5 }

abbrev third : Request
third = record { sequence = none; bytes = 2 }

-- A budget of eight bytes, with one ordered permit of four out and an ordered request of five waiting.
abbrev one_waits : System
one_waits = enter (enter (start 8) first) second

one_waits-Reach : Reach (start 8) one_waits
one_waits-Reach = next (next here (call first)) (call second)

Reach-IsSafe_example : IsSafe one_waits
Reach-IsSafe_example = Reach-IsSafe 8 (omega arith) one_waits-Reach

fitting_grants_example :
    (attempt one_waits.limit third one_waits.state
      ≡ granted (taken third.sequence third.bytes one_waits.state))
    × ((taken third.sequence third.bytes one_waits.state).used
        ≡ sum one_waits.permits + third.bytes)
unfolding start enter after_round attempt admit
fitting_grants_example =
    fitting_grants 8 third (omega arith) one_waits-Reach refl (omega arith) (omega arith) tt

abbrev stopped : System
stopped = record one_waits { state = cancel one_waits.state }

cancelled_drains_example :
    (attempt (enter stopped third).limit third (enter stopped third).state
      ≡ refused is_cancelled (enter stopped third).state)
    × (length (enter stopped third).waiting ≤ length stopped.waiting)
    × ((enter stopped third).admitted ≡ stopped.admitted)
    × (sum (enter stopped third).permits ≤ sum stopped.permits)
unfolding cancel
cancelled_drains_example = cancelled_drains third refl (next here (call third))

-- The sequence numbers have run out, and a request of five bytes is made for the last one.
exhausted_leaks_example :
    (attempt 8 (last_request 5) (counted 8 u64_max).state
      ≡ refused sequence_already_admitted (record (counted 8 u64_max).state { used = 0 + 5 }))
    × (5 + sum (enter (counted 8 u64_max) (last_request 5)).permits
        ≤ (enter (counted 8 u64_max) (last_request 5)).state.used)
unfolding counted
exhausted_leaks_example =
    exhausted_leaks 8 5 (omega arith) (counted-Reach 8 u64_max (omega arith)) refl refl
      (omega arith) here

containers_saturate_example :
    (vec (λ (n : ℕ). n) (usize_max ∷ 7 ∷ []) ≡ min (sum (usize_max ∷ 7 ∷ [])) usize_max)
    × (btree_map (λ (n : ℕ). n) (λ (n : ℕ). n) ((1, 2) ∷ (3, 4) ∷ [])
        ≡ min (sum (1 ∷ 3 ∷ []) + sum (2 ∷ 4 ∷ [])) usize_max)
containers_saturate_example =
    containers_saturate (λ (n : ℕ). n) (λ (n : ℕ). n) (usize_max ∷ 7 ∷ []) ((1, 2) ∷ (3, 4) ∷ [])
