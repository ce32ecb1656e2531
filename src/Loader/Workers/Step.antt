-- ===== src/Loader/Workers/Step.antt =====
-- A call of `next` of an ordered `WorkerLoaderIter`, whatever its pool does: it yields the batch of the
-- task whose turn it is, or a failure, which ends the pass.
use mathlib.Core.Bool.{true≢false}
use rust_torch.Base.{
  ℕ, suc, ◌-◌, ◌≤◌, ◌≡◌, refl, sym, ap, ◌∙◌, subst, true, not, ◌&&◌, Option, none, some, List, [],
  ◌∷◌, arith, length, get_elem?, lt_of_get_elem?, All, Bool-cases, Option-cases, inl, inr, ◌==◌,
  eq_of_==, ==_refl, u64_max,
}
use rust_torch.Outcome.{Outcome, ok, err, panic, ◌>>=◌}
use rust_torch.Loader.{LoaderError, Pipeline, pinned}
use rust_torch.Loader.Tasks.{WorkerTask, item}
use rust_torch.Loader.Workers.{
  WorkerBatch, WorkerFailure, WorkerMessage, WorkerCompletion, WorkerReceive, Event, arrives,
  reports, strays, times_out, is_cancelled, closes, Flight, pick, completes, stray, receive,
}
use rust_torch.Loader.Workers.Submit.{Settings, Iter, remove, insert}
use rust_torch.Loader.Workers.Iter.{
  Turn, yields, ends, waits, collate, after_finish, publish, look_end, look_completed, look,
  on_message, Round, returns, continues, on_result, on_receive, loop, next, stop_inner,
}
use rust_torch.Loader.Workers.Task.{err-not-ok, samples-of_run_task, conclude-of_collate}
use rust_torch.Loader.Workers.Entries.{remove-found, remove-All, pick-All}
use rust_torch.Loader.Workers.Sound.{IsTask, IsKept, IsEntry, IsSound, fill-IsSound}
use rust_torch.Loader.Workers.Visible.{
  saturating_add-one, next_visible-fill_available, Round-cases, look-ordered,
}

module _ {S T B E : Type 0} (p : Pipeline S T B E) (c : Settings) where
  module _ (tasks : List WorkerTask) where
    -- An item is that of the task at its place, or a failure, which ends the pass.
    unfoldable pub IsGood : ℕ → Turn p c → Type 0
    IsGood k (yields (ok b) u) =
        (t : WorkerTask) × (get_elem? tasks k ≡ some t)
        × (item p t ≡ ok b)
        × (u.next_visible ≡ suc k)
        × IsSound p c tasks u
    IsGood k (yields (err e) u) = u.exhausted ≡ true
    IsGood k (yields (panic m) u) = Unit
    IsGood k (ends u) = Unit
    IsGood k (waits u) = Unit

    after_finish-IsGood :
        (o : Outcome (LoaderError E) B) (s : Iter p c) {t : WorkerTask}
        → length tasks ≤ u64_max
        → IsSound p c tasks s
        → get_elem? tasks s.next_visible ≡ some t
        → ((b : B) → o ≡ ok b → item p t ≡ ok b)
        → IsGood s.next_visible (after_finish p c o s)
    unfolding after_finish stop_inner IsGood
    after_finish-IsGood (ok b) s {t} fits v e h = (
      t,
      e,
      h b refl,
      next_visible-fill_available p c _
          ∙ saturating_add-one _ (omega (arith, lt_of_get_elem? tasks _ e)),
      fill-IsSound p c tasks _ (record { flying = v.flying; kept = v.kept; ahead = v.ahead }),
    )
    after_finish-IsGood (err x) s fits v e h = refl
    after_finish-IsGood (panic m) s fits v e h = tt

    publish-IsGood :
        (b : WorkerBatch T) (s : Iter p c)
        → length tasks ≤ u64_max
        → IsSound p c tasks s
        → IsKept p c tasks s.next_visible b
        → IsGood s.next_visible (publish p c b s)
    unfolding publish item
    publish-IsGood b s fits v k =
        after_finish-IsGood _ (record s { outstanding = s.outstanding - 1 }) fits
          (record { flying = v.flying; kept = v.kept; ahead = v.ahead }) k.at_key
          (λ a h. item-of_kept a h)
      where
        item-of_kept :
            (a : B)
            → (collate p c b.batch_sequence (p.finish b.samples) >>= pinned p b.batch_sequence)
              ≡ ok a
            → item p k.task ≡ ok a
        item-of_kept a h =
            let (had, key) = samples-of_run_task p k.task k.ran in
            rw (item, had)
              (conclude-of_collate p c k.task.batch_sequence b.samples
                (subst (λ n. (collate p c n (p.finish b.samples) >>= pinned p n) ≡ ok a) key h))

    -- A message is good where the batch that it may bring is that of a task.
    IsHonest : WorkerCompletion T E → Type 0
    IsHonest m =
        (b : WorkerBatch T)
        → m.result ≡ ok (WorkerMessage.batch b)
        → IsKept p c tasks b.batch_sequence b

    RoundIsGood : ℕ → Round p c → Type 0
    RoundIsGood k (returns turn) = IsGood k turn
    RoundIsGood k (continues u) = (u.next_visible ≡ k) × IsSound p c tasks u

    test :
        (b : WorkerBatch T) (s : Iter p c)
        → c.ordered ≡ true
        → (c.ordered && not (b.batch_sequence == s.next_visible))
          ≡ not (b.batch_sequence == s.next_visible)
    test b s o = ap (λ r. r && not (b.batch_sequence == s.next_visible)) o

    on_result-IsGood :
        (m : WorkerCompletion T E) (o : Outcome (WorkerFailure E) (WorkerMessage T)) (s : Iter p c)
        → c.ordered ≡ true
        → length tasks ≤ u64_max
        → ((b : WorkerBatch T)
            → o ≡ ok (WorkerMessage.batch b)
            → IsKept p c tasks b.batch_sequence b)
        → IsSound p c tasks s
        → RoundIsGood s.next_visible (on_result p c m o s)
    unfolding on_result RoundIsGood IsGood stop_inner insert
    on_result-IsGood m (err failure) s o fits h v = refl
    on_result-IsGood m (ok (WorkerMessage.batch b)) s o fits h v =
        elim (Bool-cases (b.batch_sequence == s.next_visible)) [
          | inl t ↦
              rw (on_result, test b s o ∙ ap not t)
                (publish-IsGood b s fits v
                  (subst (λ n. IsKept p c tasks n b) (eq_of_== _ _ t) (h b refl)))
          | inr t ↦
              rw (on_result, test b s o ∙ ap not t)
                (
                  refl,
                  record {
                    flying = v.flying;
                    kept = (h b refl, remove-All _ (IsEntry p c tasks) s.completed v.kept);
                    ahead = v.ahead;
                  },
                )
        ]
    on_result-IsGood m (ok WorkerMessage.quiesced) s o fits h v = (refl, v)
    on_result-IsGood m (panic m') s o fits h v = tt

    on_receive-IsGood :
        (r : WorkerReceive T E) (s : Iter p c)
        → c.ordered ≡ true
        → length tasks ≤ u64_max
        → ((m : WorkerCompletion T E)
            → r ≡ WorkerReceive.completion m
            → m.generation ≡ c.generation
            → IsHonest m)
        → IsSound p c tasks s
        → RoundIsGood s.next_visible (on_receive p c r s)
    unfolding on_receive RoundIsGood IsGood stop_inner IsHonest
    on_receive-IsGood (WorkerReceive.completion m) s o fits h v =
        elim (Bool-cases (m.generation == c.generation)) [
          | inl t ↦
              rw (on_receive, t)
                (on_result-IsGood m m.result s o fits (h m refl (eq_of_== _ _ t)) v)
          | inr t ↦ rw (on_receive, t) (refl, v)
        ]
    on_receive-IsGood WorkerReceive.timeout s o fits h v = refl
    on_receive-IsGood WorkerReceive.cancelled s o fits h v = refl
    on_receive-IsGood WorkerReceive.channel_closed s o fits h v = refl

    completes-IsHonest :
        (f : ℕ × WorkerTask) → IsTask tasks f → IsHonest (completes p c.generation f)
    unfolding completes IsHonest
    completes-IsHonest (worker, t) h b e =
        let (had, key) = samples-of_run_task p t e in
        record { task = t; at_key = ap (get_elem? tasks) key ∙ h; key = refl; ran = e }

    stray-IsHonest :
        (m : WorkerCompletion T E)
        → (stray p c.generation m).generation ≡ c.generation
        → IsHonest (stray p c.generation m)
    unfolding stray IsHonest
    stray-IsHonest m g b e = elim (Bool-cases (m.generation == c.generation)) [
      | inl t ↦
          let k : ok WorkerMessage.quiesced ≡ ok (WorkerMessage.batch b) = rw (stray, t) at e in cc
      | inr t ↦
          let k : m.generation ≡ c.generation = rw (stray, t) at g in
          absurd (true≢false (sym (rw k (==_refl c.generation)) ∙ t))
    ]

    completion-inj :
        {m n : WorkerCompletion T E}
        → some (WorkerReceive.completion m) ≡ some (WorkerReceive.completion n)
        → m ≡ n
    completion-inj h = cc

    -- A message of the pool is honest, and leaves the tasks that are still in flight.
    receive-IsHonest :
        (event : Event T E) (flight : Flight)
        → All (IsTask tasks) flight
        → All (IsTask tasks) (receive p c.generation event flight).1
          × ((m : WorkerCompletion T E)
              → (receive p c.generation event flight).0 ≡ some (WorkerReceive.completion m)
              → m.generation ≡ c.generation
              → IsHonest m)
    unfolding receive IsHonest
    receive-IsHonest (arrives n) [] h = (h, λ m e g. cc)
    receive-IsHonest (arrives n) (x ∷ xs) h =
        let (found, others) = pick-All (IsTask tasks) n x xs h.0 h.1 in
        (
          others,
          λ m e g. subst IsHonest (completion-inj e) (completes-IsHonest (pick n x xs).0 found),
        )
    receive-IsHonest (reports worker b failure) flight h = (
      h,
      λ m e g. subst IsHonest (completion-inj e) (λ b' k. absurd (err-not-ok _ failure _ refl k)),
    )
    receive-IsHonest (strays m) flight h = (
      h,
      λ m' e g.
          let same : stray p c.generation m ≡ m' = completion-inj e in
          subst IsHonest same
            (stray-IsHonest m (ap (λ (q : WorkerCompletion T E). q.generation) same ∙ g)),
    )
    receive-IsHonest times_out flight h = (h, λ m e g. cc)
    receive-IsHonest is_cancelled flight h = (h, λ m e g. cc)
    receive-IsHonest closes flight h = (h, λ m e g. cc)

    LookIsGood : ℕ → Option (Turn p c) → Type 0
    LookIsGood k none = Unit
    LookIsGood k (some turn) = IsGood k turn

    look_completed-IsGood :
        (found : Option (ℕ × WorkerBatch T) × List (ℕ × (ℕ × WorkerBatch T))) (s : Iter p c)
        → length tasks ≤ u64_max
        → IsSound p c tasks s
        → remove s.next_visible s.completed ≡ found
        → LookIsGood s.next_visible (look_completed p c found s)
    unfolding look_completed look_end LookIsGood IsGood
    look_completed-IsGood (some (w, b), others) s fits v e =
        publish-IsGood b (record s { completed = others }) fits
          (record {
            flying = v.flying;
            kept =
                subst (All (IsEntry p c tasks)) (ap (λ (q : _). q.1) e)
                  (remove-All s.next_visible (IsEntry p c tasks) s.completed v.kept);
            ahead = v.ahead;
          })
          (remove-found s.next_visible (IsEntry p c tasks) s.completed v.kept
            (ap (λ (q : _). q.0) e))
    look_completed-IsGood (none, others) s fits v e =
        elim (Bool-cases (s.outstanding == 0 && s.source_exhausted)) [
          | inl t ↦ rw (look_end, t) tt
          | inr t ↦ rw (look_end, t) tt
        ]

    look-IsGood :
        (s : Iter p c)
        → c.ordered ≡ true
        → length tasks ≤ u64_max
        → IsSound p c tasks s
        → LookIsGood s.next_visible (look p c s)
    unfolding look
    look-IsGood s o fits v =
        subst (LookIsGood s.next_visible) (sym (look-ordered p c s o))
          (look_completed-IsGood _ s fits v refl)

    on_message-IsGood :
        (m : Option (WorkerReceive T E)) (s : Iter p c)
        → c.ordered ≡ true
        → length tasks ≤ u64_max
        → ((n : WorkerCompletion T E)
            → m ≡ some (WorkerReceive.completion n)
            → n.generation ≡ c.generation
            → IsHonest n)
        → IsSound p c tasks s
        → RoundIsGood s.next_visible (on_message p c m s)
    unfolding on_message RoundIsGood
    on_message-IsGood none s o fits h v = (refl, v)
    on_message-IsGood (some r) s o fits h v =
        on_receive-IsGood r s o fits (λ n e. h n (ap some e)) v

    abbrev round : Event T E → Iter p c → Round p c
    round event s =
        let (message, flight) = receive p c.generation event s.in_flight in
        on_message p c message (record s { in_flight = flight })

    loop-IsGood :
        (events : List (Event T E)) (s : Iter p c)
        → c.ordered ≡ true
        → length tasks ≤ u64_max
        → IsSound p c tasks s
        → IsGood s.next_visible (loop p c events s).0
    unfolding loop IsGood LookIsGood RoundIsGood
    loop-IsGood [] s o fits v = elim (Option-cases (look p c s)) [
      | inl e ↦ rw (loop, e) tt
      | inr (turn, e) ↦ rw (loop, e) (subst (LookIsGood s.next_visible) e (look-IsGood s o fits v))
    ]
    loop-IsGood (event ∷ events) s o fits v = elim (Option-cases (look p c s)) [
      | inl e ↦
          let (flight, honest) = receive-IsHonest event s.in_flight v.flying in
          let good : RoundIsGood s.next_visible (round event s) =
            on_message-IsGood (receive p c.generation event s.in_flight).0
              (record s { in_flight = (receive p c.generation event s.in_flight).1 }) o fits honest
              (record { flying = flight; kept = v.kept; ahead = v.ahead }) in
          elim (Round-cases p c (round event s)) [
            | inl (turn, r) ↦ rw (loop, e, r) (subst (RoundIsGood s.next_visible) r good)
            | inr (u, r) ↦
                let (same, sound) = subst (RoundIsGood s.next_visible) r good in
                rw (loop, e, r)
                  (subst (λ k. IsGood k (loop p c events u).0) same
                    (loop-IsGood events u o fits sound))
          ]
      | inr (turn, e) ↦ rw (loop, e) (subst (LookIsGood s.next_visible) e (look-IsGood s o fits v))
    ]

    pub next-IsGood :
        (events : List (Event T E)) (s : Iter p c)
        → c.ordered ≡ true
        → length tasks ≤ u64_max
        → IsSound p c tasks s
        → IsGood s.next_visible (next p c events s).0
    unfolding next IsGood stop_inner
    next-IsGood events s o fits v = elim (Bool-cases s.exhausted) [
      | inl e ↦ rw (next, e) tt
      | inr e ↦ elim (Option-cases s.pending_error) [
        | inl q ↦ rw (next, e, q) (loop-IsGood events s o fits v)
        | inr (x, q) ↦ rw (next, e, q) refl
      ]
    ]
