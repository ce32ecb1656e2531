-- ===== src/Loader/Workers/Iter.antt =====
-- `next` of `WorkerLoaderIter` of crates/rusttorch-data/src/loader.rs, and the calls of a consumer. What
-- the pool sends is a script of the environment.
use rust_torch.Base.{
  ℕ, zero, suc, ◌-◌, Bool, true, false, not, ◌&&◌, ◌||◌, Option, none, some, List, [], ◌∷◌, ◌==◌,
  if◌then◌else◌, saturating_add,
}
use rust_torch.Outcome.{Outcome, ok, err, panic, ◌>>=◌}
use rust_torch.Loader.{PipelineError, LoaderError, Pipeline, pinned}
use rust_torch.Loader.Workers.{
  WorkerBatch, WorkerFailure, WorkerMessage, WorkerCompletion, WorkerReceive, Event, receive,
}
use rust_torch.Loader.Workers.Submit.{Answer, Settings, remove, insert, Iter, fill_available}

module _ {S T B E : Type 0} (p : Pipeline S T B E) (c : Settings) where
  -- `stop_inner`: the pool is dropped, or emptied and kept. The cancellation of the run's context, and the
  -- poisoning of a persistent pool that does not come to rest, are left out.
  unfoldable pub stop_inner : Bool → Iter p c → Iter p c
  stop_inner poisoned s = record s {
    exhausted = true;
    in_flight = [];
    poisoned = s.poisoned || poisoned;
    completed = [];
    pending_submission = none;
  }

  unfoldable pub map_failure : ℕ → Option ℕ → WorkerFailure E → Iter p c → LoaderError E
  map_failure worker b (WorkerFailure.dataset e) s =
      LoaderError.pipeline b (some worker) (PipelineError.dataset e)
  map_failure worker b (WorkerFailure.transform e) s =
      LoaderError.pipeline b (some worker) (PipelineError.transform e)
  map_failure worker b (WorkerFailure.transform_init e) s =
      LoaderError.pipeline b (some worker) (PipelineError.transform_init e)
  map_failure worker b (WorkerFailure.worker_init e) s =
      LoaderError.pipeline b (some worker) (PipelineError.worker_init e)
  map_failure worker b (WorkerFailure.invalid_batch_cardinality expected actual) s =
      LoaderError.invalid_batch_cardinality (elim b [ some n ↦ n | none ↦ s.next_visible ])
        (some worker) expected actual
  map_failure worker b (WorkerFailure.memory_limit limit actual) s =
      LoaderError.memory_limit b (some worker) none none limit actual
  map_failure worker b WorkerFailure.panics s = LoaderError.worker_panic worker b

  abbrev poisons_pool : WorkerFailure E → Bool
  poisons_pool (WorkerFailure.transform_init e) = true
  poisons_pool (WorkerFailure.worker_init e) = true
  poisons_pool WorkerFailure.panics = true
  poisons_pool failure = false

  -- What a call of `next` comes to: an item, a panic of the call standing as its item, the end, or a
  -- wait for a message that does not come.
  pub data Turn : Type 0 where
    yields : Outcome (LoaderError E) B → Iter p c → Turn
    ends : Iter p c → Turn
    waits : Iter p c → Turn

  unfoldable pub collate : ℕ → Outcome E B → Outcome (LoaderError E) B
  collate sequence (ok value) = ok value
  collate sequence (err e) =
      err (LoaderError.pipeline (some sequence) none (PipelineError.collate e))
  collate sequence (panic m) =
      err (LoaderError.coordinator_panic c.finish_panic_stage (some sequence))

  unfoldable pub after_finish : Outcome (LoaderError E) B → Iter p c → Turn
  unfolding fill_available stop_inner
  after_finish (ok value) s =
      yields (ok value)
        (fill_available p c (record s { next_visible = saturating_add s.next_visible 1 }))
  after_finish (err e) s = yields (err e) (stop_inner false s)
  after_finish (panic m) s = yields (panic m) s

  unfoldable pub publish : WorkerBatch T → Iter p c → Turn
  unfolding pinned collate after_finish
  publish batch s =
      after_finish
        (collate batch.batch_sequence (p.finish batch.samples) >>= pinned p batch.batch_sequence)
        (record s { outstanding = s.outstanding - 1 })

  -- One round of the loop of `next`: before a message, and with one.
  unfoldable pub look_end : Iter p c → Option Turn
  unfolding stop_inner
  look_end s =
      if s.outstanding == 0 && s.source_exhausted then some (ends (stop_inner false s)) else none

  unfoldable pub look_completed :
      Option (ℕ × WorkerBatch T) × List (ℕ × (ℕ × WorkerBatch T)) → Iter p c → Option Turn
  unfolding publish look_end
  look_completed (some (worker, batch), others) s =
      some (publish batch (record s { completed = others }))
  look_completed (none, others) s = look_end s

  unfoldable pub look : Iter p c → Option Turn
  unfolding remove look_completed look_end
  look s = if c.ordered then look_completed (remove s.next_visible s.completed) s else look_end s

  pub data Round : Type 0 where
    returns : Turn → Round
    continues : Iter p c → Round

  unfoldable pub on_result :
      WorkerCompletion T E → Outcome (WorkerFailure E) (WorkerMessage T) → Iter p c → Round
  unfolding publish map_failure stop_inner insert
  on_result m (err failure) s = returns (
      yields (err (map_failure m.worker m.batch_sequence failure s))
        (stop_inner (poisons_pool failure) s))
  on_result m (ok (WorkerMessage.batch batch)) s =
      if c.ordered && not (batch.batch_sequence == s.next_visible)
      then continues
          (record s { completed = insert batch.batch_sequence (m.worker, batch) s.completed })
      else returns (publish batch s)
  on_result m (ok WorkerMessage.quiesced) s = continues s
  on_result m (panic m') s = returns (yields (panic m') s)

  unfoldable pub on_receive : WorkerReceive T E → Iter p c → Round
  unfolding on_result stop_inner
  on_receive (WorkerReceive.completion m) s =
      if m.generation == c.generation then on_result m m.result s else continues s
  on_receive WorkerReceive.timeout s =
      returns (yields (err (LoaderError.timeout s.next_visible)) (stop_inner false s))
  on_receive WorkerReceive.cancelled s =
      returns (yields (err LoaderError.cancelled) (stop_inner false s))
  on_receive WorkerReceive.channel_closed s =
      returns (yields (err (LoaderError.channel_closed s.next_visible)) (stop_inner true s))

  -- No message leaves the iterator waiting.
  unfoldable pub on_message : Option (WorkerReceive T E) → Iter p c → Round
  unfolding on_receive
  on_message none s = continues s
  on_message (some m) s = on_receive m s

  -- The loop of `next`, and the events that are left after it.
  unfoldable pub loop : List (Event T E) → Iter p c → Turn × List (Event T E)
  unfolding look receive on_message
  loop [] s = elim (look s) [ some turn ↦ (turn, []) | none ↦ (waits s, []) ]
  loop (event ∷ events) s =
      let (message, flight) = receive p c.generation event s.in_flight in
      let round = on_message message (record s { in_flight = flight }) in
      let rest = λ (u : Iter p c). loop events u in
      elim (look s) [
        | some turn ↦ (turn, event ∷ events)
        | none ↦ elim round [ returns turn ↦ (turn, events) | continues u ↦ rest u ]
      ]

  unfoldable pub next : List (Event T E) → Iter p c → Turn × List (Event T E)
  unfolding loop stop_inner
  next events s = if s.exhausted then (ends s, events) else elim s.pending_error [
    | some e ↦ (yields (err e) (stop_inner false (record s { pending_error = none })), events)
    | none ↦ loop events s
  ]

  -- How a sequence of calls closes: `next` yields nothing, waits or panics, or the calls are used up.
  pub data Ending : Type 0 where
    finished blocked panicked more : Ending

  abbrev pub Seen : Type 0
  Seen = List (Outcome (LoaderError E) B) × Ending

  abbrev before : Outcome (LoaderError E) B → Seen → Seen
  before item (items, ending) = (item ∷ items, ending)

  -- A result of `next`, and what the calls after it show.
  unfoldable pub note : Turn → (Iter p c → Seen) → Seen
  note (yields (ok b) u) rest = before (ok b) (rest u)
  note (yields (err e) u) rest = before (err e) (rest u)
  note (yields (panic m) u) rest = (panic m ∷ [], panicked)
  note (ends u) rest = ([], finished)
  note (waits u) rest = ([], blocked)

  unfoldable pub drain : ℕ → List (Event T E) → Iter p c → Seen
  unfolding next note
  drain zero events s = ([], more)
  drain (suc calls) events s =
      let (turn, events') = next events s in note turn (λ u. drain calls events' u)

  -- A pass over these batches, and with the first submissions made.
  abbrev pub fresh : List Answer → List (Option (List ℕ)) → Iter p c
  fresh answers batches = record {
    batches = batches;
    in_flight = [];
    answers = answers;
    poisoned = false;
    completed = [];
    pending_error = none;
    next_submission = 0;
    next_visible = 0;
    next_logical_sample = 0;
    pending_submission = none;
    outstanding = 0;
    source_exhausted = false;
    submission_closed = false;
    exhausted = false;
  }

  unfoldable pub start : List Answer → List (Option (List ℕ)) → Iter p c
  unfolding fill_available
  start answers batches = fill_available p c (fresh answers batches)
