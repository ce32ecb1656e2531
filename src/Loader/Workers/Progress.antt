-- ===== src/Loader/Workers/Progress.antt =====
-- One call of `next` of an ordered `WorkerLoaderIter` whose pool accepts and finishes every task, in any
-- order: it goes on to the next batch, or ends after the last.
use rust_torch.Base.{
  ℕ, suc, ◌-◌, ◌≤◌, ◌<◌, ◌≡◌, refl, sym, ap, ◌∙◌, subst, Bool, true, false, not, ◌&&◌, none, some,
  List, [], ◌∷◌, map, arith, length, get_elem?, All, Bool-cases, Option-cases, inl, inr, usize_max,
  ◌==◌, eq_of_==, ==_refl,
}
use rust_torch.Outcome.{ok, ◌>>=◌, >>=-eq-ok}
use rust_torch.Loader.{Pipeline, pinned}
use rust_torch.Loader.Tasks.{WorkerTask, item, samples, conclude}
use rust_torch.Loader.Workers.{
  WorkerBatch, WorkerMessage, WorkerCompletion, WorkerReceive, Event, arrives, Flight, pick,
  completes, receive,
}
use rust_torch.Loader.Workers.Submit.{Settings, Iter, remove, insert, has_room, fill_available}
use rust_torch.Loader.Workers.Iter.{
  Turn, yields, ends, collate, after_finish, publish, look_end, look, returns, continues, on_result,
  on_receive, on_message, loop, stop_inner,
}
use rust_torch.Loader.Workers.Task.{
  run_task-of_samples, samples-of_run_task, collate-of_conclude, batch_of,
}
use rust_torch.Loader.Workers.Entries.{
  Flies, pick-Flies, length-pick, remove-Holds, remove-not_none, remove-found, remove-All, pick-All,
  insert-Holds, insert-All,
}
use rust_torch.Loader.Workers.Sound.{IsTask, IsKept, IsEntry, IsSound}
use rust_torch.Loader.Workers.Visible.{saturating_add-one, look-ordered}
use rust_torch.Loader.Workers.Live.{
  with-IsLive, IsLive, KeptBelow, FliesBelow, fill_available-IsLive,
}
use rust_torch.Loader.Workers.Loop.{look_completed-some, look_completed-none, loop-some, loop-round}

module _ {S T B E : Type 0} (p : Pipeline S T B E) (c : Settings) (tasks : List WorkerTask) where
  -- The pool does its part: every task loads by itself.
  pub record IsLoadable : Type 0 where
    pub ordered : c.ordered ≡ true
    pub capacity : 0 < c.capacity
    pub bound : length tasks ≤ usize_max
    pub loads : (k : ℕ) (t : WorkerTask) → get_elem? tasks k ≡ some t → (b : B) × (item p t ≡ ok b)
    pub current :
        (k : ℕ) (t : WorkerTask) → get_elem? tasks k ≡ some t → t.generation ≡ c.generation

  -- A state between two calls: no room is left for a submission.
  pub record IsReady (budget : ℕ) (s : Iter p c) : Type 0 where
    pub live : IsLive p c (length tasks) budget s
    pub sound : IsSound p c tasks s
    pub full : has_room p c s ≡ false

  -- The next call goes on: to the next task, or to the end after the last.
  pub data Progress (k : ℕ) : Turn p c × List (Event T E) → Type 0 where
    goes :
        (b : B) (u : Iter p c) (picks : List ℕ)
        → IsLive p c (length tasks) (length picks) u
        → has_room p c u ≡ false
        → Progress k (yields (ok b) u, map arrives picks)
    stops :
        (u : Iter p c) (events : List (Event T E)) → k ≡ length tasks → Progress k (ends u, events)

  module _ (h : IsLoadable) where
    samples-some :
        (k : ℕ) (t : WorkerTask)
        → get_elem? tasks k ≡ some t
        → (xs : List T) × (samples p t ≡ ok xs)
    unfolding item
    samples-some k t e =
        let (b, loads) = h.loads k t e in
        let (xs, had, r) = >>=-eq-ok (samples p t) (conclude p t.batch_sequence) loads in (xs, had)

    -- A batch whose turn it is.
    publish-goes :
        (s : Iter p c) (picks : List ℕ) (b : WorkerBatch T)
        → IsKept p c tasks s.next_visible b
        → IsLive p c
            (length tasks)
            (length picks)
            (record s { outstanding = s.outstanding - 1; next_visible = suc s.next_visible })
        → s.next_visible < usize_max
        → (a : B) × (u : Iter p c) × (publish p c b s ≡ yields (ok a) u)
          × IsLive p c (length tasks) (length picks) u
          × (has_room p c u ≡ false)
    unfolding publish after_finish item
    publish-goes s picks b k live lt =
        let (a, loads) = h.loads s.next_visible k.task k.at_key in
        let (had, key) = samples-of_run_task p k.task k.ran in
        let concludes : conclude p k.task.batch_sequence b.samples ≡ ok a =
          rw (item, had) at loads in
        let collates : (collate p c b.batch_sequence (p.finish b.samples)
              >>= pinned p b.batch_sequence)
            ≡ ok a =
          subst (λ n. (collate p c n (p.finish b.samples) >>= pinned p n) ≡ ok a) (sym key)
            (collate-of_conclude p c _ b.samples concludes) in
        let (live', full) =
          fill_available-IsLive p c (length tasks) (length picks) h.bound _ live in
        (
          a,
          fill_available p c
              (record s { outstanding = s.outstanding - 1; next_visible = suc s.next_visible }),
          ap (λ o. after_finish p c o (record s { outstanding = s.outstanding - 1 })) collates
              ∙ ap
                  (λ n. yields (ok a) (
                    fill_available p c
                      (record s { outstanding = s.outstanding - 1; next_visible = n })))
                  (saturating_add-one s.next_visible lt),
          live',
          full,
        )

    some-outstanding :
        (s : Iter p c)
        → has_room p c s ≡ false
        → s.submission_closed ≡ false
        → (s.outstanding == 0 && s.source_exhausted) ≡ false
        → 0 < s.outstanding
    unfolding has_room
    some-outstanding s full o e = ground (arith, h.capacity)

    -- The batch under the next sequence is kept.
    goes_on_kept :
        (picks : List ℕ) (s : Iter p c) {w : ℕ} {b : WorkerBatch T}
        → IsReady (length picks) s
        → (remove s.next_visible s.completed).0 ≡ some (w, b)
        → Progress s.next_visible (loop p c (map arrives picks) s)
    goes_on_kept picks s {w} {b} r e =
        let v = r.live in
        let lt : s.next_visible < s.next_submission =
          remove-found s.next_visible (KeptBelow p c s.next_submission) s.completed v.kept_below
            e in
        let (a, u, shows, live, full) =
          publish-goes (record s { completed = (remove s.next_visible s.completed).1 }) picks b
            (remove-found s.next_visible (IsEntry p c tasks) s.completed r.sound.kept e)
            (with-IsLive p c (length tasks) s s.in_flight (remove s.next_visible s.completed).1
              (suc s.next_visible) (s.outstanding - 1) (length picks) (length picks) v
              (omega (arith, v.balance)) v.flying_below
              (remove-All s.next_visible (KeptBelow p c s.next_submission) s.completed v.kept_below)
              (λ q lo hi. elim (v.covered q (omega arith) hi) [
                | inl f ↦ inl f
                | inr k ↦ inr (remove-Holds q s.next_visible s.completed (λ same. omega arith) k)
              ])
              v.enough)
            (omega (arith, v.count, h.bound)) in
        subst (Progress s.next_visible)
          (sym (
            loop-some p c (map arrives picks) s
              (look-ordered p c s h.ordered ∙ look_completed-some p c _ _ s e ∙ ap some shows)))
          (goes a u picks live full)

    -- The end: nothing is outstanding, and the plan is used up.
    stops_at_end :
        (events : List (Event T E)) (s : Iter p c) (budget : ℕ)
        → IsReady budget s
        → (remove s.next_visible s.completed).0 ≡ none
        → (s.outstanding == 0 && s.source_exhausted) ≡ true
        → Progress s.next_visible (loop p c events s)
    unfolding look_end
    stops_at_end events s budget r e ended =
        let v = r.live in
        let none_left : length v.rest ≡ 0 = ap length (v.drained (ground (arith, ended))) in
        let nothing_out : s.outstanding ≡ 0 = ground (arith, ended) in
        subst (Progress s.next_visible)
          (sym (
            loop-some p c events s (
              look-ordered p c s h.ordered
              ∙ look_completed-none p c _ _ s e
              ∙ rw (look_end, ended))))
          (stops (stop_inner p c false s) events (omega (arith, v.count, v.balance)))

    -- A task that is finished, and the message of its worker.
    heard_batch :
        (s : Iter p c) (w : ℕ) (t : WorkerTask) (xs : List T)
        → t.generation ≡ c.generation
        → samples p t ≡ ok xs
        → on_message p c (some (WorkerReceive.completion (completes p c.generation (w, t)))) s
          ≡ on_result p c
              (completes p c.generation (w, t))
              (ok (WorkerMessage.batch (batch_of p t xs)))
              s
    unfolding on_message on_receive completes
    heard_batch s w t xs current had =
        let same : (t.generation == c.generation) ≡ true = rw current (==_refl c.generation) in
        rw (on_receive, same, run_task-of_samples p t had)

    abbrev early : WorkerBatch T → Iter p c → Bool
    early b s = c.ordered && not (b.batch_sequence == s.next_visible)

    on_result-turn :
        (m : WorkerCompletion T E) (b : WorkerBatch T) (s : Iter p c)
        → (b.batch_sequence == s.next_visible) ≡ true
        → on_result p c m (ok (WorkerMessage.batch b)) s ≡ returns (publish p c b s)
    unfolding on_result
    on_result-turn m b s t =
        let now : early b s ≡ false =
          ap (λ r. r && not (b.batch_sequence == s.next_visible)) h.ordered ∙ ap not t in
        rw (on_result, now)

    on_result-later :
        (m : WorkerCompletion T E) (b : WorkerBatch T) (s : Iter p c)
        → (b.batch_sequence == s.next_visible) ≡ false
        → on_result p c m (ok (WorkerMessage.batch b)) s
          ≡ continues (record s { completed = insert b.batch_sequence (m.worker, b) s.completed })
    unfolding on_result
    on_result-later m b s t =
        let later : early b s ≡ true =
          ap (λ r. r && not (b.batch_sequence == s.next_visible)) h.ordered ∙ ap not t in
        rw (on_result, later)

    -- A message of a worker comes in.
    goes_on_arrival :
        (n : ℕ) (picks : List ℕ) (s : Iter p c) (x : ℕ × WorkerTask) (xs : Flight)
        → IsReady (suc (length picks)) s
        → s.in_flight ≡ x ∷ xs
        → look p c s ≡ none
        → ((u : Iter p c)
            → IsReady (length picks) u
            → u.next_visible ≡ s.next_visible
            → Progress s.next_visible (loop p c (map arrives picks) u))
        → Progress s.next_visible (loop p c (arrives n ∷ map arrives picks) s)
    unfolding receive has_room
    goes_on_arrival n picks s x xs r fe e rec =
        let v = r.live in
        let found = (pick n x xs).0 in
        let others = (pick n x xs).1 in
        let flown : All (IsTask tasks) (x ∷ xs) = subst (All (IsTask tasks)) fe r.sound.flying in
        let below : All (FliesBelow p c s.next_submission) (x ∷ xs) =
          subst (All (FliesBelow p c s.next_submission)) fe v.flying_below in
        let (is_task, others_tasks) = pick-All (IsTask tasks) n x xs flown.0 flown.1 in
        let (is_below, others_below) =
          pick-All (FliesBelow p c s.next_submission) n x xs below.0 below.1 in
        let (ys, had) = samples-some found.1.batch_sequence found.1 is_task in
        let kept : IsKept p c tasks found.1.batch_sequence (batch_of p found.1 ys) = record {
          task = found.1;
          at_key = is_task;
          key = refl;
          ran = run_task-of_samples p found.1 had;
        } in
        elim (Bool-cases (found.1.batch_sequence == s.next_visible)) [
          | inl t ↦
              let now : found.1.batch_sequence ≡ s.next_visible = eq_of_== _ _ t in
              let (a, u, shows, live, full) =
                publish-goes (record s { in_flight = others }) picks (batch_of p found.1 ys)
                  (subst (λ k. IsKept p c tasks k (batch_of p found.1 ys)) now kept)
                  (with-IsLive p c (length tasks) s others s.completed (suc s.next_visible)
                    (s.outstanding - 1) _ (length picks) v (omega (arith, v.balance, is_below, now))
                    others_below v.kept_below
                    (λ q lo hi. elim (v.covered q (omega arith) hi) [
                      | inl f ↦ elim (pick-Flies q n x xs (subst (Flies q) fe f)) [
                        | inl same ↦ absurd (omega (arith, same, now, lo))
                        | inr f' ↦ inl f'
                      ]
                      | inr k ↦ inr k
                    ])
                    (omega (arith, v.enough, ap length fe, length-pick n x xs)))
                  (omega (arith, v.count, h.bound, is_below, now)) in
              subst (Progress s.next_visible)
                (sym (
                  loop-round p c (arrives n) (map arrives picks) s (returns (yields (ok a) u)) e
                    (ap (receive p c.generation (arrives n)) fe)
                    (heard_batch _ found.0 found.1 ys (h.current _ found.1 is_task) had
                      ∙ on_result-turn _ (batch_of p found.1 ys) _ t
                      ∙ ap returns shows)))
                (goes a u picks live full)
          | inr t ↦
              let later : Iter p c = record s {
                in_flight = others;
                completed =
                    insert found.1.batch_sequence (found.0, batch_of p found.1 ys) s.completed;
              } in
              subst (Progress s.next_visible)
                (sym (
                  loop-round p c (arrives n) (map arrives picks) s (continues later) e
                    (ap (receive p c.generation (arrives n)) fe)
                    (heard_batch _ found.0 found.1 ys (h.current _ found.1 is_task) had
                      ∙ on_result-later _ (batch_of p found.1 ys) _ t)))
                (rec later
                  (record {
                    live =
                        with-IsLive p c (length tasks) s others later.completed s.next_visible
                          s.outstanding _ (length picks) v v.balance others_below
                          (insert-All (KeptBelow p c s.next_submission) _ _ s.completed is_below
                            v.kept_below)
                          (λ q lo hi. elim (v.covered q lo hi) [
                            | inl f ↦ elim (pick-Flies q n x xs (subst (Flies q) fe f)) [
                              | inl same ↦ inr (insert-Holds q _ _ s.completed (inl same))
                              | inr f' ↦ inl f'
                            ]
                            | inr k ↦ inr (insert-Holds q _ _ s.completed (inr k))
                          ])
                          (omega (arith, v.enough, ap length fe, length-pick n x xs));
                    sound = record {
                      flying = others_tasks;
                      kept = insert-All (IsEntry p c tasks) _ _ s.completed kept r.sound.kept;
                      ahead = r.sound.ahead;
                    };
                    full = r.full;
                  })
                  refl)
        ]

    flying_cons :
        (q : ℕ) (flight : Flight)
        → Flies q flight
        → (x : ℕ × WorkerTask) × (xs : Flight) × (flight ≡ x ∷ xs)
    flying_cons q [] f = absurd f
    flying_cons q (x ∷ xs) f = (x, xs, refl)

    -- Where the next batch is not kept and something is outstanding, its task is in flight.
    next_flies :
        (s : Iter p c) (budget : ℕ)
        → IsReady budget s
        → (remove s.next_visible s.completed).0 ≡ none
        → (s.outstanding == 0 && s.source_exhausted) ≡ false
        → (x : ℕ × WorkerTask) × (xs : Flight) × (s.in_flight ≡ x ∷ xs)
    next_flies s budget r e more =
        let v = r.live in
        let out : 0 < s.outstanding = some-outstanding s r.full v.is_open more in
        elim (v.covered s.next_visible (omega arith) (omega (arith, v.balance, out))) [
          | inl f ↦ flying_cons s.next_visible s.in_flight f
          | inr k ↦ absurd (remove-not_none s.next_visible s.completed k e)
        ]

    look-none :
        (s : Iter p c)
        → (remove s.next_visible s.completed).0 ≡ none
        → (s.outstanding == 0 && s.source_exhausted) ≡ false
        → look p c s ≡ none
    unfolding look_end
    look-none s e more =
        look-ordered p c s h.ordered ∙ look_completed-none p c _ _ s e ∙ rw (look_end, more)

    -- What a call comes to where the messages are those of finished tasks, in any order.
    pub loop-Progress :
        (picks : List ℕ) (s : Iter p c)
        → IsReady (length picks) s
        → Progress s.next_visible (loop p c (map arrives picks) s)
    loop-Progress [] s r = elim (Option-cases (remove s.next_visible s.completed).0) [
      | inr ((w, b), e) ↦ goes_on_kept [] s r e
      | inl e ↦ elim (Bool-cases (s.outstanding == 0 && s.source_exhausted)) [
        | inl ended ↦ stops_at_end [] s 0 r e ended
        | inr more ↦
            let (x, xs, fe) = next_flies s 0 r e more in
            absurd (omega (arith, r.live.enough, ap length fe))
      ]
    ]
    loop-Progress (n ∷ picks) s r = elim (Option-cases (remove s.next_visible s.completed).0) [
      | inr ((w, b), e) ↦ goes_on_kept (n ∷ picks) s r e
      | inl e ↦ elim (Bool-cases (s.outstanding == 0 && s.source_exhausted)) [
        | inl ended ↦ stops_at_end (map arrives (n ∷ picks)) s _ r e ended
        | inr more ↦
            let (x, xs, fe) = next_flies s _ r e more in
            goes_on_arrival n picks s x xs r fe (look-none s e more) (λ u ru same.
              subst (λ k. Progress k (loop p c (map arrives picks) u)) same
                (loop-Progress picks u ru))
      ]
    ]
