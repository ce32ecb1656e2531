-- ===== src/Memory/Budget/System.antt =====
-- The threads that share a `ByteBudget`. Every critical section runs under the lock, so an execution
-- is a sequence of them: calls of `acquire`, wake-ups (also spurious ones), drops of permits and
-- cancellations, in any order.
use rust_torch.Base.{ℕ, ◌≡◌, Option, none, some, List, [], ◌∷◌, ◌++◌}
use rust_torch.Memory.Budget.{
  BudgetState, initial, Request, Round, granted, refused, waits, attempt, resume, release, cancel,
}

-- `waiting` holds the requests inside `wait`, `permits` the sizes of the permits not yet dropped,
-- and `admitted` the sequence numbers of the permits granted so far, the last one first.
pub record System : Type 0 where
  pub limit : ℕ
  pub state : BudgetState
  pub waiting : List Request
  pub permits : List ℕ
  pub admitted : List ℕ

unfoldable pub start : ℕ → System
start limit = record { limit = limit; state = initial; waiting = []; permits = []; admitted = [] }

abbrev pub log : Option ℕ → List ℕ → List ℕ
log none seen = seen
log (some sequence) seen = sequence ∷ seen

-- A round of a request, and what becomes of the thread.
unfoldable pub after_round : System → Request → Round → System
after_round s r (granted state) = record s {
  state = state;
  permits = r.bytes ∷ s.permits;
  admitted = log r.sequence s.admitted;
}
after_round s r (refused e state) = record s { state = state }
after_round s r (waits state) = record s { state = state; waiting = r ∷ s.waiting }

unfoldable pub enter : System → Request → System
unfolding after_round
enter s r = after_round s r (attempt s.limit r s.state)

pub data Step (s : System) : System → Type 0 where
  call : (r : Request) → Step s (enter s r)
  wake :
      (before after : List Request) (r : Request)
      → s.waiting ≡ before ++ r ∷ after
      → Step s (enter (record s { waiting = before ++ after; state = resume s.state }) r)
  drop_permit :
      (before after : List ℕ) (bytes : ℕ)
      → s.permits ≡ before ++ bytes ∷ after
      → Step s (record s { permits = before ++ after; state = release bytes s.state })
  cancels : Step s (record s { state = cancel s.state })

pub data Reach (s : System) : System → Type 0 where
  here : Reach s s
  next : {t u : System} → Reach s t → Step t u → Reach s u
