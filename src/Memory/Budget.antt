-- ===== src/Memory/Budget.antt =====
-- `ByteBudget` of crates/rusttorch-data/src/memory.rs: the state under the lock, and each critical
-- section as a function of it.
pub mod System
pub mod Safety
pub mod Progress
pub mod Leak
use rust_torch.Base.{
  ℕ, zero, suc, ◌+◌, ◌-◌, Bool, true, false, not, ◌&&◌, Option, none, some, ltb, leb, ◌==◌,
  if◌then◌else◌, saturating_add, saturating_sub, u64_max,
}

pub data BudgetError : Type 0 where
  oversize : ℕ → ℕ → BudgetError
  is_cancelled : BudgetError
  sequence_already_admitted : BudgetError

pub record BudgetState : Type 0 where
  pub used : ℕ
  pub next_ordered : ℕ
  pub waiters : ℕ
  pub cancelled : Bool

abbrev pub initial : BudgetState
initial = record { used = 0; next_ordered = 0; waiters = 0; cancelled = false }

-- The arguments of `acquire_inner`; `acquire` passes no sequence number.
pub record Request : Type 0 where
  pub sequence : Option ℕ
  pub bytes : ℕ

-- What one round of the loop comes to, with the state that it leaves: a permit, an error, or a wait
-- on the condition variable.
pub data Round : Type 0 where
  granted : BudgetState → Round
  refused : BudgetError → BudgetState → Round
  waits : BudgetState → Round

-- `sequence.is_some_and(|sequence| sequence < state.next_ordered)`.
abbrev pub is_past : Option ℕ → ℕ → Bool
is_past none next = false
is_past (some sequence) next = ltb sequence next

-- `sequence.is_none_or(|sequence| sequence == state.next_ordered)`.
abbrev pub is_ready : Option ℕ → ℕ → Bool
is_ready none next = true
is_ready (some sequence) next = sequence == next

-- The admission: `used` grows before the sequence number is advanced, which may fail.
unfoldable pub admit : Option ℕ → ℕ → BudgetState → Round
admit none bytes s = granted (record s { used = saturating_add s.used bytes })
admit (some sequence) bytes s =
    let taken = record s { used = saturating_add s.used bytes } in
    if ltb s.next_ordered u64_max
    then granted (record taken { next_ordered = s.next_ordered + 1 })
    else refused sequence_already_admitted taken

-- One round of the loop of `acquire_inner`. `limit - used` does not wrap: `used` stays within the
-- limit.
unfoldable pub attempt : ℕ → Request → BudgetState → Round
unfolding admit
attempt limit r s =
    if s.cancelled
    then refused is_cancelled s
    else if ltb limit r.bytes
    then refused (oversize limit r.bytes) s
    else if is_past r.sequence s.next_ordered
    then refused sequence_already_admitted s
    else if is_ready r.sequence s.next_ordered && leb r.bytes (limit - s.used)
    then admit r.sequence r.bytes s
    else waits (record s { waiters = saturating_add s.waiters 1 })

-- After `wait` returns, before the next round.
unfoldable pub resume : BudgetState → BudgetState
resume s = record s { waiters = saturating_sub s.waiters 1 }

-- `Drop for BytePermit`.
unfoldable pub release : ℕ → BudgetState → BudgetState
release bytes s = record s { used = saturating_sub s.used bytes }

unfoldable pub cancel : BudgetState → BudgetState
cancel s = record s { cancelled = true }
