-- ===== src/Loader/Workers/Entries.antt =====
-- The entries of the map of finished batches, and the choice of a task in flight.
use mathlib.Core.Path.{ap₂}
use mathlib.Core.Bool.{true≢false}
use rust_torch.Base.{
  refl, zero, suc, ==_refl, none, ◌≢◌, ◌⊎◌, ◌++◌, length, ℕ, ◌≡◌, sym, ap, ◌∙◌, subst, true, false,
  some, List, [], ◌∷◌, All, Bool-cases, inl, inr, ◌==◌, eq_of_==,
}
use rust_torch.Loader.Tasks.{WorkerTask}
use rust_torch.Loader.Workers.{Flight, pick}
use rust_torch.Loader.Workers.Submit.{remove, insert}

module _ {V : Type 0} (n : ℕ) where
  pub remove-hit :
      (k : ℕ) (v : V) (rest : List (ℕ × V))
      → (k == n) ≡ true
      → remove n ((k, v) ∷ rest) ≡ (some v, (remove n rest).1)
  unfolding remove
  remove-hit k v rest h = rw (remove, h)

  pub remove-miss :
      (k : ℕ) (v : V) (rest : List (ℕ × V))
      → (k == n) ≡ false
      → remove n ((k, v) ∷ rest) ≡ ((remove n rest).0, (k, v) ∷ (remove n rest).1)
  unfolding remove
  remove-miss k v rest h = rw (remove, h)

  module _ (P : ℕ × V → Type 0) where
    -- What holds of every entry holds of the one that is removed, and of the others.
    pub remove-found :
        (entries : List (ℕ × V)) {v : V} → All P entries → (remove n entries).0 ≡ some v → P (n, v)
    unfolding remove
    remove-found [] h e = cc
    remove-found ((k, u) ∷ rest) {v} h e = elim (Bool-cases (k == n)) [
      | inl t ↦
          let same : u ≡ v = cc (sym (ap (λ (q : _). q.0) (remove-hit k u rest t)) ∙ e) in
          subst P (ap₂ (λ a b. (a, b)) (eq_of_== k n t) same) h.0
      | inr t ↦ remove-found rest h.1 (sym (ap (λ (q : _). q.0) (remove-miss k u rest t)) ∙ e)
    ]

    pub remove-All : (entries : List (ℕ × V)) → All P entries → All P (remove n entries).1
    unfolding remove
    remove-All [] h = tt
    remove-All ((k, v) ∷ rest) h = elim (Bool-cases (k == n)) [
      | inl t ↦ rw (remove, t) (remove-All rest h.1)
      | inr t ↦ rw (remove, t) (h.0, remove-All rest h.1)
    ]

pub pick-All :
    (P : ℕ × WorkerTask → Type 0) (n : ℕ) (x : ℕ × WorkerTask) (xs : Flight)
    → P x
    → All P xs
    → P (pick n x xs).0 × All P (pick n x xs).1
unfolding pick
pick-All P zero x [] hx h = (hx, tt)
pick-All P (suc n) x [] hx h = (hx, tt)
pick-All P zero x (y ∷ ys) hx h = (hx, h)
pick-All P (suc n) x (y ∷ ys) hx h =
    let (found, others) = pick-All P n y ys h.0 h.1 in (found, (hx, others))

-- A task of this sequence is in flight, and a batch is kept under it.
abbrev pub Flies : ℕ → Flight → Type 0
Flies q [] = ⊥
Flies q ((w, t) ∷ rest) = (t.batch_sequence ≡ q) ⊎ Flies q rest

abbrev pub Holds {ℓ} : {V : Type ℓ} → ℕ → List (ℕ × V) → Type 0
Holds q [] = ⊥
Holds q ((k, v) ∷ rest) = (k ≡ q) ⊎ Holds q rest

pub append-Flies : (q : ℕ) (xs ys : Flight) → Flies q xs ⊎ Flies q ys → Flies q (xs ++ ys)
append-Flies q [] ys (inl h) = absurd h
append-Flies q [] ys (inr h) = h
append-Flies q (x ∷ xs) ys (inl (inl h)) = inl h
append-Flies q (x ∷ xs) ys (inl (inr h)) = inr (append-Flies q xs ys (inl h))
append-Flies q (x ∷ xs) ys (inr h) = inr (append-Flies q xs ys (inr h))

pub pick-Flies :
    (q n : ℕ) (x : ℕ × WorkerTask) (xs : Flight)
    → Flies q (x ∷ xs)
    → ((pick n x xs).0.1.batch_sequence ≡ q) ⊎ Flies q (pick n x xs).1
unfolding pick
pick-Flies q zero x [] h = h
pick-Flies q (suc n) x [] h = h
pick-Flies q zero x (y ∷ ys) h = h
pick-Flies q (suc n) x (y ∷ ys) (inl h) = inr (inl h)
pick-Flies q (suc n) x (y ∷ ys) (inr h) = elim (pick-Flies q n y ys h) [
  | inl e ↦ inl e
  | inr e ↦ inr (inr e)
]

pub length-pick : (n : ℕ) (x : ℕ × WorkerTask) (xs : Flight) → length (pick n x xs).1 ≡ length xs
unfolding pick
length-pick zero x [] = refl
length-pick (suc n) x [] = refl
length-pick zero x (y ∷ ys) = refl
length-pick (suc n) x (y ∷ ys) = ap suc (length-pick n y ys)

some-not-none : {V : Type 0} {v : V} → some v ≢ none
some-not-none h = cc

module _ {V : Type 0} where
  pub remove-Holds :
      (q n : ℕ) (entries : List (ℕ × V)) → n ≢ q → Holds q entries → Holds q (remove n entries).1
  unfolding remove
  remove-Holds q n [] other h = absurd h
  remove-Holds q n ((k, v) ∷ rest) other h = elim (Bool-cases (k == n)) [
    | inl t ↦
        rw (remove, t)
          (elim h [
            | inl same ↦ absurd (other (sym (eq_of_== k n t) ∙ same))
            | inr h' ↦ remove-Holds q n rest other h'
          ])
    | inr t ↦
        rw (remove, t)
          (elim h [ inl same ↦ inl same | inr h' ↦ inr (remove-Holds q n rest other h') ])
  ]

  pub remove-not_none :
      (n : ℕ) (entries : List (ℕ × V)) → Holds n entries → (remove n entries).0 ≢ none
  unfolding remove
  remove-not_none n [] h e = absurd h
  remove-not_none n ((k, v) ∷ rest) h e = elim (Bool-cases (k == n)) [
    | inl t ↦ absurd (some-not-none (sym (ap (λ (q : _). q.0) (remove-hit n k v rest t)) ∙ e))
    | inr t ↦ elim h [
      | inl same ↦ absurd (true≢false (sym (rw same (==_refl n)) ∙ t))
      | inr h' ↦
          remove-not_none n rest h' (sym (ap (λ (q : _). q.0) (remove-miss n k v rest t)) ∙ e)
    ]
  ]

  pub insert-Holds :
      (q n : ℕ) (v : V) (entries : List (ℕ × V))
      → (n ≡ q) ⊎ Holds q entries
      → Holds q (insert n v entries)
  unfolding insert
  insert-Holds q n v entries (inl same) = inl same
  insert-Holds q n v entries (inr h) = elim (Bool-cases (n == q)) [
    | inl t ↦ inl (eq_of_== n q t)
    | inr t ↦ inr (remove-Holds q n entries (λ e. true≢false (sym (rw e (==_refl q)) ∙ t)) h)
  ]

  pub insert-All :
      (P : ℕ × V → Type 0) (n : ℕ) (v : V) (entries : List (ℕ × V))
      → P (n, v)
      → All P entries
      → All P (insert n v entries)
  unfolding insert
  insert-All P n v entries hv h = (hv, remove-All n P entries h)
