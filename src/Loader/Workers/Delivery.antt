-- ===== src/Loader/Workers/Delivery.antt =====
-- What an ordered `WorkerLoaderIter` delivers, whatever its pool does: the batches of the plan in their
-- order, up to a failure.
use mathlib.Core.Path.{ap₂}
use rust_torch.Base.{
  ℕ, zero, suc, ◌≤◌, ◌≡◌, refl, sym, ap, subst, true, Option, some, List, [], ◌∷◌, ◌++◌, map, arith,
  length, get_elem?, take, drop, u64_max, String,
}
use rust_torch.Outcome.{Outcome, ok, err, panic}
use rust_torch.Loader.{LoaderError, Pipeline}
use rust_torch.Loader.Tasks.{WorkerTask, numbered, length-numbered, item}
use rust_torch.Loader.Workers.{Event}
use rust_torch.Loader.Workers.Submit.{Answer, Settings, Iter}
use rust_torch.Loader.Workers.Iter.{
  Turn, yields, ends, waits, next, Seen, note, drain, fresh, start,
}
use rust_torch.Loader.Workers.Sound.{up_to_panic, IsSound, fill-IsSound}
use rust_torch.Loader.Workers.Step.{IsGood, next-IsGood}
use rust_torch.Loader.Workers.Visible.{next_visible-fill_available}

pub drop-step :
    (n : ℕ) (tasks : List WorkerTask) {t : WorkerTask}
    → get_elem? tasks n ≡ some t
    → drop n tasks ≡ t ∷ drop (suc n) tasks
drop-step n [] h = cc
drop-step zero (x ∷ xs) h = ap (λ y. y ∷ xs) (cc)
drop-step (suc n) (x ∷ xs) h = drop-step n xs h

-- The end of a delivery: nothing more, or a failure.
pub data Closes {E B : Type 0} : List (Outcome E B) → Type 0 where
  nothing : Closes []
  fails : (e : E) → Closes (err e ∷ [])
  panics : (m : String) → Closes (panic m ∷ [])

-- The items of the first of these tasks, all of them batches, and then at most one failure.
pub record IsDelivery {S T B E : Type 0} (p : Pipeline S T B E) (tasks : List WorkerTask)
    (items : List (Outcome (LoaderError E) B)) : Type 0 where
  pub count : ℕ
  pub closing : List (Outcome (LoaderError E) B)
  pub loaded : List B
  pub bound : count ≤ length tasks
  pub are_loaded : map (item p) (take count tasks) ≡ map ok loaded
  pub are_delivered : items ≡ map ok loaded ++ closing
  pub closes_once : Closes closing

module _ {S T B E : Type 0} (p : Pipeline S T B E) where
  closing-IsDelivery :
      (tasks : List WorkerTask) {items : List (Outcome (LoaderError E) B)}
      → Closes items
      → IsDelivery p tasks items
  closing-IsDelivery tasks {items} h = record {
    count = 0;
    closing = items;
    loaded = [];
    bound = omega arith;
    are_loaded = refl;
    are_delivered = refl;
    closes_once = h;
  }

  cons-IsDelivery :
      (tasks : List WorkerTask) (t : WorkerTask) {b : B} {items : List (Outcome (LoaderError E) B)}
      → item p t ≡ ok b
      → IsDelivery p tasks items
      → IsDelivery p (t ∷ tasks) (ok b ∷ items)
  cons-IsDelivery tasks t {b} h d = record {
    count = suc d.count;
    closing = d.closing;
    loaded = b ∷ d.loaded;
    bound = omega (arith, d.bound);
    are_loaded = ap₂ ◌∷◌ h d.are_loaded;
    are_delivered = ap (◌∷◌ (ok b)) d.are_delivered;
    closes_once = d.closes_once;
  }

  module _ (c : Settings) (o : c.ordered ≡ true) (tasks : List WorkerTask)
      (fits : length tasks ≤ u64_max) where
    drain-exhausted :
        (calls : ℕ) (events : List (Event T E)) (s : Iter p c)
        → s.exhausted ≡ true
        → (drain p c calls events s).0 ≡ []
    unfolding drain next
    drain-exhausted zero events s e = refl
    drain-exhausted (suc calls) events s e = rw (drain, next, e)

    note-IsDelivery :
        (k : ℕ) (turn : Turn p c) (rest : Iter p c → Seen p c)
        → IsGood p c tasks k turn
        → ((u : Iter p c)
            → IsSound p c tasks u
            → IsDelivery p (drop u.next_visible tasks) (rest u).0)
        → ((u : Iter p c) → u.exhausted ≡ true → (rest u).0 ≡ [])
        → IsDelivery p (drop k tasks) (note p c turn rest).0
    unfolding note IsGood
    note-IsDelivery k (yields (ok b) u) rest (t, here, loads, moved, sound) more stops =
        subst (λ ts. IsDelivery p ts (ok b ∷ (rest u).0)) (sym (drop-step k tasks here))
          (cons-IsDelivery (drop (suc k) tasks) t loads
            (subst (λ n. IsDelivery p (drop n tasks) (rest u).0) moved (more u sound)))
    note-IsDelivery k (yields (err e) u) rest ended more stops =
        closing-IsDelivery _ (subst Closes (ap (◌∷◌ (err e)) (sym (stops u ended))) (fails e))
    note-IsDelivery k (yields (panic m) u) rest good more stops = closing-IsDelivery _ (panics m)
    note-IsDelivery k (ends u) rest good more stops = closing-IsDelivery _ nothing
    note-IsDelivery k (waits u) rest good more stops = closing-IsDelivery _ nothing

    drain-IsDelivery :
        (calls : ℕ) (events : List (Event T E)) (s : Iter p c)
        → IsSound p c tasks s
        → IsDelivery p (drop s.next_visible tasks) (drain p c calls events s).0
    unfolding drain
    drain-IsDelivery zero events s v = closing-IsDelivery _ nothing
    drain-IsDelivery (suc calls) events s v =
        note-IsDelivery s.next_visible (next p c events s).0 _
          (next-IsGood p c tasks events s o fits v) (λ u w. drain-IsDelivery calls _ u w)
          (λ u e. drain-exhausted calls _ u e)

-- Whatever an ordered worker pass is answered and sent by its pool, failures, lost workers, timeouts
-- and messages in any order included, its consumer sees the items of the first tasks of the plan in
-- their order, each of which has loaded as it does by itself, and then at most one failure. The plan
-- has fewer batches than `u64` has numbers.
pub ordered-IsDelivery :
    {S T B E : Type 0} (p : Pipeline S T B E) (c : Settings) (answers : List Answer)
    (batches : List (Option (List ℕ))) (calls : ℕ) (events : List (Event T E))
    → c.ordered ≡ true
    → length (up_to_panic batches) ≤ u64_max
    → IsDelivery p
        (numbered c.generation 0 0 (up_to_panic batches))
        (drain p c calls events (start p c answers batches)).0
unfolding start
ordered-IsDelivery p c answers batches calls events o fits =
    let plan = numbered c.generation 0 0 (up_to_panic batches) in
    let fresh-IsSound : IsSound p c plan (fresh p c answers batches) = record {
      flying = tt;
      kept = tt;
      ahead = λ closed. refl;
    } in
    subst (λ n. IsDelivery p (drop n plan) (drain p c calls events (start p c answers batches)).0)
      (next_visible-fill_available p c (fresh p c answers batches))
      (drain-IsDelivery p c o plan
        (omega (arith, length-numbered c.generation 0 0 (up_to_panic batches), fits)) calls events _
        (fill-IsSound p c plan (fresh p c answers batches) fresh-IsSound))
