-- ===== src/Loader/Workers/Fill.antt =====
-- The loop of `fill_available` ends by itself: it makes no round after as many as the capacity.
use rust_torch.Base.{
  ℕ, zero, suc, ◌+◌, ◌≤◌, ◌<◌, ◌≡◌, refl, Bool, true, false, Option, none, some, List, [], ◌∷◌,
  arith, length, Bool-cases, Option-cases, inl, inr,
}
use rust_torch.Loader.{Pipeline}
use rust_torch.Loader.Workers.Submit.{
  PendingSubmission, Answer, accepts, rejects, disconnected, submit, Settings, Iter, after_submit,
  try_submit, submit_new, submit_next, submit_one, has_room, fill, fill_available,
}
use rust_torch.Loader.Workers.Sound.{checked_add-cases}

module _ {S T B E : Type 0} (p : Pipeline S T B E) (c : Settings) where
  -- What one submission counts: nothing where it is not made.
  abbrev Counts : Iter p c → Bool × Iter p c → Type 0
  Counts s (b, u) = b ≡ true → u.outstanding ≡ suc s.outstanding

  after_submit-Counts :
      (answer : Answer) (q : PendingSubmission) (s : Iter p c)
      → Counts s (after_submit p c (submit answer q.task) q s)
  unfolding after_submit
  after_submit-Counts accepts q s = λ h. refl
  after_submit-Counts rejects q s = λ h. cc
  after_submit-Counts disconnected q s = λ h. cc

  try_submit-Counts : (q : PendingSubmission) (s : Iter p c) → Counts s (try_submit p c q s)
  unfolding try_submit
  try_submit-Counts q s = after_submit-Counts _ q (record s { answers = _ })

  submit_new-Counts : (indices : List ℕ) (s : Iter p c) → Counts s (submit_new p c indices s)
  unfolding submit_new
  submit_new-Counts indices s = elim (checked_add-cases s.next_submission 1) [
    | inl h ↦ rw (submit_new, h) (λ h. cc)
    | inr h ↦ elim (checked_add-cases s.next_logical_sample (length indices)) [
      | inl h' ↦ rw (submit_new, h, h') (λ h. cc)
      | inr h' ↦ rw (submit_new, h, h') (try_submit-Counts _ s)
    ]
  ]

  submit_next-Counts :
      (batches : List (Option (List ℕ))) (s : Iter p c) → Counts s (submit_next p c batches s)
  unfolding submit_next
  submit_next-Counts [] s = λ h. cc
  submit_next-Counts (none ∷ rest) s = λ h. cc
  submit_next-Counts (some indices ∷ rest) s =
      submit_new-Counts indices (record s { batches = rest })

  pub submit_one-Counts : (s : Iter p c) → Counts s (submit_one p c s)
  unfolding submit_one
  submit_one-Counts s = elim (Option-cases s.pending_submission) [
    | inl e ↦ rw (submit_one, e) (submit_next-Counts s.batches s)
    | inr (q, e) ↦ rw (submit_one, e) (try_submit-Counts q (record s { pending_submission = none }))
  ]

  room-lt : (s : Iter p c) → has_room p c s ≡ true → s.outstanding < c.capacity
  unfolding has_room
  room-lt s h = ground (arith, h)

  -- From rounds that the room does not outnumber, no further round is made.
  fill-more :
      (n rounds : ℕ) (s : Iter p c)
      → rounds ≤ n
      → c.capacity ≤ s.outstanding + rounds
      → fill p c n s ≡ fill p c rounds s
  unfolding fill
  fill-more zero zero s le h = refl
  fill-more zero (suc rounds) s le h = absurd (omega arith)
  fill-more (suc n) zero s le h = elim (Bool-cases (has_room p c s)) [
    | inl r ↦ absurd (omega (arith, room-lt s r))
    | inr r ↦ rw (fill, r)
  ]
  fill-more (suc n) (suc rounds) s le h = elim (Bool-cases (has_room p c s)) [
    | inl r ↦ elim (Bool-cases (submit_one p c s).0) [
      | inl b ↦
          rw (fill, r, b)
            (fill-more n rounds (submit_one p c s).1 (omega arith)
              (omega (arith, submit_one-Counts s b)))
      | inr b ↦ rw (fill, r, b)
    ]
    | inr r ↦ rw (fill, r)
  ]

  -- The loop of `fill_available` ends in every state, whatever the pool answers: as many rounds as the
  -- capacity are enough, and with any greater number it comes to the same state.
  pub fill_ends :
      (rounds : ℕ) (s : Iter p c) → c.capacity ≤ rounds → fill p c rounds s ≡ fill_available p c s
  unfolding fill_available
  fill_ends rounds s h = fill-more rounds c.capacity s h (omega arith)

  -- A loop that has made its submissions has no room left, unless one was not made.
  pub has_room-fill :
      (P : Iter p c → Type 0)
      → ((s : Iter p c) → has_room p c s ≡ true → P s → P (submit_one p c s).1)
      → ((s : Iter p c)
          → has_room p c s ≡ true
          → P s
          → (submit_one p c s).0 ≡ false
          → has_room p c (submit_one p c s).1 ≡ false)
      → (rounds : ℕ) (s : Iter p c) → P s
      → c.capacity ≤ s.outstanding + rounds
      → has_room p c (fill p c rounds s) ≡ false
  unfolding fill
  has_room-fill P k stop zero s h cap = elim (Bool-cases (has_room p c s)) [
    | inl r ↦ absurd (omega (arith, room-lt s r))
    | inr r ↦ r
  ]
  has_room-fill P k stop (suc rounds) s h cap = elim (Bool-cases (has_room p c s)) [
    | inl r ↦ elim (Bool-cases (submit_one p c s).0) [
      | inl b ↦
          rw (fill, r, b)
            (has_room-fill P k stop rounds (submit_one p c s).1 (k s r h)
              (omega (arith, submit_one-Counts s b)))
      | inr b ↦ rw (fill, r, b) (stop s r h b)
    ]
    | inr r ↦ rw (fill, r) r
  ]
