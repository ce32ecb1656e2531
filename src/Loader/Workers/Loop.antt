-- ===== src/Loader/Workers/Loop.antt =====
-- The loop of `next`, by what it finds before a message and makes of one.
use rust_torch.Base.{ℕ, ◌≡◌, refl, sym, ◌∙◌, subst, Option, none, some, List, [], ◌∷◌, inl, inr}
use rust_torch.Loader.{Pipeline}
use rust_torch.Loader.Workers.{WorkerBatch, WorkerReceive, Event, Flight, receive}
use rust_torch.Loader.Workers.Submit.{Settings, Iter}
use rust_torch.Loader.Workers.Iter.{
  Turn, publish, look_end, look_completed, look, Round, returns, continues, on_message, loop,
}
use rust_torch.Loader.Workers.Visible.{Round-cases}

module _ {S T B E : Type 0} (p : Pipeline S T B E) (c : Settings) where
  pub look_completed-some :
      (found : Option (ℕ × WorkerBatch T)) (others : List (ℕ × (ℕ × WorkerBatch T))) (s : Iter p c)
      {w : ℕ} {b : WorkerBatch T}
      → found ≡ some (w, b)
      → look_completed p c (found, others) s
        ≡ some (publish p c b (record s { completed = others }))
  unfolding look_completed
  look_completed-some found others s {w} {b} e =
      subst
        (λ o.
          look_completed p c (o, others) s ≡ some (publish p c b (record s { completed = others })))
        (sym e) refl

  pub look_completed-none :
      (found : Option (ℕ × WorkerBatch T)) (others : List (ℕ × (ℕ × WorkerBatch T))) (s : Iter p c)
      → found ≡ none
      → look_completed p c (found, others) s ≡ look_end p c s
  unfolding look_completed
  look_completed-none found others s e =
      subst (λ o. look_completed p c (o, others) s ≡ look_end p c s) (sym e) refl

  pub loop-some :
      (events : List (Event T E)) (s : Iter p c) {turn : Turn p c}
      → look p c s ≡ some turn
      → loop p c events s ≡ (turn, events)
  unfolding loop
  loop-some [] s e = rw (loop, e)
  loop-some (x ∷ events) s e = rw (loop, e)

  abbrev pub after_round : List (Event T E) → Round p c → Turn p c × List (Event T E)
  after_round events (returns turn) = (turn, events)
  after_round events (continues u) = loop p c events u

  pub loop-round :
      (event : Event T E) (events : List (Event T E)) (s : Iter p c)
      {m : Option (WorkerReceive T E)} {flight : Flight} (r : Round p c)
      → look p c s ≡ none
      → receive p c.generation event s.in_flight ≡ (m, flight)
      → on_message p c m (record s { in_flight = flight }) ≡ r
      → loop p c (event ∷ events) s ≡ after_round events r
  unfolding loop
  loop-round event events s {m} {flight} r e er eo = elim (Round-cases p c r) [
    | inl (turn, same) ↦ rw (loop, e, heard ∙ same, same)
    | inr (u, same) ↦ rw (loop, e, heard ∙ same, same)
  ]
    where
      heard :
          on_message p c
            (receive p c.generation event s.in_flight).0
            (record s { in_flight = (receive p c.generation event s.in_flight).1 })
          ≡ r
      heard =
          subst
            (λ (z : Option (WorkerReceive T E) × Flight).
              on_message p c z.0 (record s { in_flight = z.1 }) ≡ r)
            (sym er) eo
