-- ===== src/Loader/Workers/Completion.antt =====
-- An ordered `WorkerLoaderIter` whose pool accepts and finishes every task, in any order: its pass ends,
-- and yields what a pass on the calling thread yields.
use mathlib.Core.Path.{ap₂}
use mathlib.Core.Bool.{true≢false}
use rust_torch.Base.{
  ℕ, zero, suc, ◌+◌, ◌≤◌, ◌<◌, ◌≡◌, refl, sym, ap, ◌∙◌, true, some, List, [], ◌∷◌, map, sum, arith,
  length, drop, drop_of_length-le, All, All-get_elem?, usize_max, u64_max,
}
use rust_torch.Outcome.{Outcome, ok}
use rust_torch.Loader.{LoaderError, Pipeline}
use rust_torch.Loader.Serial
use rust_torch.Loader.Serial.Pass.{drain_pass}
use rust_torch.Loader.Tasks.{Loads, WorkerTask, item, numbered, length-numbered, until_failure}
use rust_torch.Loader.Workers.{Event, arrives}
use rust_torch.Loader.Workers.Submit.{Settings, Iter}
use rust_torch.Loader.Workers.Iter.{Turn, next, finished, Seen, note, drain, fresh, start}
use rust_torch.Loader.Workers.Sound.{up_to_panic, fill-IsSound, IsSound}
use rust_torch.Loader.Workers.Step.{IsGood, next-IsGood}
use rust_torch.Loader.Workers.Visible.{next_visible-fill_available}
use rust_torch.Loader.Workers.Live.{IsLive, fill_available-IsLive}
use rust_torch.Loader.Workers.Progress.{IsLoadable, IsReady, Progress, goes, stops, loop-Progress}
use rust_torch.Loader.Workers.Delivery.{drop-step}

module _ {S T B E : Type 0} (p : Pipeline S T B E) (c : Settings) (tasks : List WorkerTask)
    (h : IsLoadable p c tasks) where
  next-Progress :
      (picks : List ℕ) (s : Iter p c)
      → IsReady p c tasks (length picks) s
      → Progress p c tasks s.next_visible (next p c (map arrives picks) s)
  unfolding next
  next-Progress picks s r =
      rw (next, r.live.running, r.live.no_error) (loop-Progress p c tasks h picks s r)

  -- All the items from a task on, and the end.
  abbrev all_from : ℕ → Seen p c
  all_from k = (map (item p) (drop k tasks), finished)

  abbrev before_item : B → Seen p c → Seen p c
  before_item b (items, ending) = (ok b ∷ items, ending)

  note-Progress :
      (calls k : ℕ) {step : Turn p c × List (Event T E)}
      → Progress p c tasks k step
      → IsGood p c tasks k step.0
      → ((picks : List ℕ) (u : Iter p c)
          → IsReady p c tasks (length picks) u
          → u.next_visible ≡ suc k
          → drain p c calls (map arrives picks) u ≡ all_from (suc k))
      → note p c step.0 (λ u. drain p c calls step.1 u) ≡ all_from k
  unfolding note IsGood
  note-Progress calls k (goes b u picks live full) (t, here, loads, moved, sound) rec =
      ap (before_item b) (rec picks u (record { live = live; sound = sound; full = full }) moved)
      ∙ ap₂
          (λ (o : Outcome (LoaderError E) B) (os : List (Outcome (LoaderError E) B)).
            (o ∷ os, finished))
          (sym loads) refl
      ∙ ap (λ ts. (map (item p) ts, finished)) (sym (drop-step k tasks here))
  note-Progress calls k (stops u events e) good rec =
      ap (λ ts. (map (item p) ts, finished)) (sym (drop_of_length-le k tasks (omega arith)))

  drain-all_from :
      (calls : ℕ) (picks : List ℕ) (s : Iter p c)
      → IsReady p c tasks (length picks) s
      → length tasks < calls + s.next_visible
      → drain p c calls (map arrives picks) s ≡ all_from s.next_visible
  unfolding drain
  drain-all_from zero picks s r more = absurd (omega (arith, r.live.count, r.live.balance))
  drain-all_from (suc calls) picks s r more =
      note-Progress calls s.next_visible (next-Progress picks s r)
        (next-IsGood p c tasks (map arrives picks) s h.ordered h.bound r.sound)
        (λ picks' u ru moved.
          drain-all_from calls picks' u ru (omega (arith, moved, more)) ∙ ap all_from moved)

up_to_panic-some : (batches : List (List ℕ)) → up_to_panic (map some batches) ≡ batches
unfolding up_to_panic
up_to_panic-some [] = refl
up_to_panic-some (b ∷ bs) = ap (◌∷◌ b) (up_to_panic-some bs)

generation-numbered :
    (g k l : ℕ) (bs : List (List ℕ)) → All (λ t. t.generation ≡ g) (numbered g k l bs)
generation-numbered g k l [] = tt
generation-numbered g k l (b ∷ bs) = (refl, generation-numbered g (suc k) (l + length b) bs)

until_failure-loads :
    {A E : Type 0} (items : List (Outcome E A))
    → All (λ o. (a : A) × (o ≡ ok a)) items
    → until_failure items ≡ items
unfolding until_failure
until_failure-loads [] h = refl
until_failure-loads (o ∷ os) ((a, e), h) =
    rw (until_failure, e) (ap (◌∷◌ (ok a)) (until_failure-loads os h))

module _ {S T B E : Type 0} (p : Pipeline S T B E) (c : Settings) (batches : List (List ℕ))
    (picks : List ℕ) where
  abbrev tasks : List WorkerTask
  tasks = numbered c.generation 0 0 batches

  fresh-IsLive :
      length batches ≤ length picks
      → sum (map length batches) ≤ u64_max
      → IsLive p c (length tasks) (length picks) (fresh p c [] (map some batches))
  fresh-IsLive enough fits = record {
    rest = batches;
    plan = refl;
    accepting = refl;
    no_pending = refl;
    no_error = refl;
    is_open = refl;
    running = refl;
    count = omega (arith, length-numbered c.generation 0 0 batches);
    balance = refl;
    fits = omega (arith, fits);
    flying_below = tt;
    kept_below = tt;
    covered = λ q lo hi. absurd (omega arith);
    drained = λ f. absurd (true≢false (sym f));
    enough = omega (arith, enough);
  }

  fresh-IsSound : IsSound p c tasks (fresh p c [] (map some batches))
  fresh-IsSound = record {
    flying = tt;
    kept = tt;
    ahead = λ closed. ap (numbered c.generation 0 0) (sym (up_to_panic-some batches));
  }

  start-IsReady :
      length batches ≤ u64_max
      → length batches ≤ length picks
      → sum (map length batches) ≤ u64_max
      → IsReady p c tasks (length picks) (start p c [] (map some batches))
  unfolding start
  start-IsReady bound enough fits =
      let n : length tasks ≤ usize_max =
        omega (arith, length-numbered c.generation 0 0 batches, bound) in
      let (live, full) =
        fill_available-IsLive p c (length tasks) (length picks) n _ (fresh-IsLive enough fits) in
      record { live = live; sound = fill-IsSound p c tasks _ fresh-IsSound; full = full }

All-map :
    {A B : Type 0} (P : B → Type 0) (f : A → B) (xs : List A)
    → All (λ x. P (f x)) xs
    → All P (map f xs)
All-map P f [] h = tt
All-map P f (x ∷ xs) h = (h.0, All-map P f xs h.1)

-- When every batch of the plan loads by itself and the pool accepts each task and finishes it, in
-- whatever order, an ordered worker pass with room for a task ends, and its consumer sees exactly what
-- a pass on the calling thread shows. There are at least as many arrivals as batches, more calls of
-- `next` than batches, and the batches and samples fit `u64`.
pub workers_match_serial :
    {S T B E : Type 0} (p : Pipeline S T B E) (c : Settings) (batches : List (List ℕ))
    (picks : List ℕ) (calls : ℕ)
    → c.ordered ≡ true
    → 0 < c.capacity
    → length batches ≤ u64_max
    → sum (map length batches) ≤ u64_max
    → All (Loads p) (numbered c.generation 0 0 batches)
    → length batches ≤ length picks
    → length batches < calls
    → drain p c calls (map arrives picks) (start p c [] (map some batches))
      ≡ (Serial.drain p calls (Serial.start batches), finished)
unfolding start
workers_match_serial p c batches picks calls o room bound fits loads enough more =
    drain-all_from p c plan loadable calls picks _
      (start-IsReady p c batches picks bound enough fits)
      (omega (arith, length-numbered c.generation 0 0 batches, more))
    ∙ ap (all_from p c plan loadable)
        (next_visible-fill_available p c (fresh p c [] (map some batches)))
    ∙ ap (λ items. (items, finished))
        (sym (
          drain_pass p calls c.generation batches more bound fits
          ∙ until_failure-loads (map (item p) plan) (All-map _ (item p) plan loads)))
  where
    plan : List WorkerTask
    plan = numbered c.generation 0 0 batches

    loadable : IsLoadable p c plan
    loadable = record {
      ordered = o;
      capacity = room;
      bound = omega (arith, length-numbered c.generation 0 0 batches, bound);
      loads = λ k t e. All-get_elem? (Loads p) plan k loads e;
      current = λ k t e.
          All-get_elem? (λ u. u.generation ≡ c.generation) plan k
            (generation-numbered c.generation 0 0 batches) e;
    }
