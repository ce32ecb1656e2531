-- ===== src/Loader/Workers/Visible.antt =====
-- What a submission leaves as it is, and the cases of a round of `next`.
use rust_torch.Base.{
  ℕ, suc, ◌<◌, ◌≡◌, refl, ap, ◌∙◌, true, Option, none, some, List, [], ◌∷◌, arith, length,
  Option-cases, inl, inr, ◌⊎◌, saturating_add, u64_max, if◌then◌else◌,
}
use rust_torch.Loader.{Pipeline}
use rust_torch.Loader.Workers.Submit.{
  PendingSubmission, Answer, accepts, rejects, disconnected, submit, Settings, Iter, remove,
  after_submit, try_submit, submit_new, submit_next, submit_one, fill_available,
}
use rust_torch.Loader.Workers.Iter.{Turn, look_end, look_completed, look, Round, returns, continues}
use rust_torch.Loader.Workers.Sound.{checked_add-cases, fill-keeps}

pub saturating_add-one : (n : ℕ) → n < u64_max → saturating_add n 1 ≡ suc n
saturating_add-one n h = ground arith

module _ {S T B E : Type 0} (p : Pipeline S T B E) (c : Settings) where
  next_visible-after_submit :
      (answer : Answer) (q : PendingSubmission) (s : Iter p c)
      → (after_submit p c (submit answer q.task) q s).1.next_visible ≡ s.next_visible
  unfolding after_submit
  next_visible-after_submit accepts q s = refl
  next_visible-after_submit rejects q s = refl
  next_visible-after_submit disconnected q s = refl

  next_visible-try_submit :
      (q : PendingSubmission) (s : Iter p c) → (try_submit p c q s).1.next_visible ≡ s.next_visible
  unfolding try_submit
  next_visible-try_submit q s = next_visible-after_submit _ q (record s { answers = _ })

  next_visible-submit_new :
      (indices : List ℕ) (s : Iter p c) → (submit_new p c indices s).1.next_visible ≡ s.next_visible
  unfolding submit_new
  next_visible-submit_new indices s = elim (checked_add-cases s.next_submission 1) [
    | inl h ↦ rw (submit_new, h)
    | inr h ↦ elim (checked_add-cases s.next_logical_sample (length indices)) [
      | inl h' ↦ rw (submit_new, h, h')
      | inr h' ↦ rw (submit_new, h, h') (next_visible-try_submit _ s)
    ]
  ]

  next_visible-submit_next :
      (batches : List (Option (List ℕ))) (s : Iter p c)
      → (submit_next p c batches s).1.next_visible ≡ s.next_visible
  unfolding submit_next
  next_visible-submit_next [] s = refl
  next_visible-submit_next (none ∷ rest) s = refl
  next_visible-submit_next (some indices ∷ rest) s =
      next_visible-submit_new indices (record s { batches = rest })

  next_visible-submit_one : (s : Iter p c) → (submit_one p c s).1.next_visible ≡ s.next_visible
  unfolding submit_one
  next_visible-submit_one s = elim (Option-cases s.pending_submission) [
    | inl e ↦ rw (submit_one, e) (next_visible-submit_next s.batches s)
    | inr (q, e) ↦
        rw (submit_one, e) (next_visible-try_submit q (record s { pending_submission = none }))
  ]

  pub next_visible-fill_available :
      (s : Iter p c) → (fill_available p c s).next_visible ≡ s.next_visible
  unfolding fill_available
  next_visible-fill_available s =
      fill-keeps p c (λ u. u.next_visible ≡ s.next_visible) (λ u r h. next_visible-submit_one u ∙ h)
        c.capacity s refl

  pub Round-cases :
      (r : Round p c)
      → ((turn : Turn p c) × (r ≡ returns turn)) ⊎ ((u : Iter p c) × (r ≡ continues u))
  Round-cases (returns turn) = inl (turn, refl)
  Round-cases (continues u) = inr (u, refl)

  pub look-ordered :
      (s : Iter p c)
      → c.ordered ≡ true
      → look p c s ≡ look_completed p c (remove s.next_visible s.completed) s
  unfolding look
  look-ordered s o =
      ap
        (λ r.
          if r then look_completed p c (remove s.next_visible s.completed) s else look_end p c s)
        o
