-- ===== src/Outcome.antt =====
-- What a call comes to: a value, an error of Rust's `Result`, or a panic with its message.
use rust_torch.Base.{
  ℕ, zero, suc, String, ◌≡◌, refl, ◌⊎◌, inl, inr, Bool, true, false, Option, none, some, List, [],
  ◌∷◌, get_elem?,
}

pub data Outcome {ℓ κ} (E : Type κ) (A : Type ℓ) : Type (ℓ ⊔ κ) where
  ok : A → Outcome E A
  err : E → Outcome E A
  panic : String → Outcome E A

infixl 5 ◌>>=◌ ◌>>◌
abbrev pub ◌>>=◌ {ℓ κ μ} :
    {E : Type κ} {A : Type ℓ} {B : Type μ} → Outcome E A → (A → Outcome E B) → Outcome E B
ok a >>= f = f a
err e >>= f = err e
panic m >>= f = panic m

abbrev pub ◌>>◌ {κ μ} : {E : Type κ} {B : Type μ} → Outcome E (Unit {0}) → Outcome E B → Outcome E B
m >> k = m >>= λ _. k

-- `if test { return Err(e) }`.
abbrev pub fail_if {κ} : {E : Type κ} → Bool → E → Outcome E (Unit {0})
fail_if true e = err e
fail_if false e = ok tt

-- `Option::ok_or_else`.
abbrev pub ok_or {ℓ κ} : {E : Type κ} {A : Type ℓ} → Option A → E → Outcome E A
ok_or none e = err e
ok_or (some a) e = ok a

-- `Result::expect`, in a function of any error type.
abbrev pub expect {ℓ κ μ} :
    {E : Type κ} {F : Type μ} {A : Type ℓ} → Outcome E A → String → Outcome F A
expect (ok a) m = ok a
expect (err e) m = panic m
expect (panic m') m = panic m'

-- `xs[i]`.
abbrev pub index {ℓ κ} : {E : Type κ} {A : Type ℓ} → List A → ℕ → Outcome E A
index [] i = panic "index out of bounds"
index (x ∷ xs) zero = ok x
index (x ∷ xs) (suc i) = index xs i

-- `iter().map(f).collect::<Result<Vec<_>>>()`: stops at the first failure.
abbrev pub traverse {ℓ κ μ} :
    {E : Type κ} {A : Type ℓ} {B : Type μ} → (A → Outcome E B) → List A → Outcome E (List B)
traverse f [] = ok []
traverse f (x ∷ xs) = do y ← f x; ys ← traverse f xs; ok (y ∷ ys)

pub Outcome-cases {ℓ κ} :
    {E : Type κ} {A : Type ℓ} (o : Outcome E A)
    → ((a : A) × (o ≡ ok a)) ⊎ (((e : E) × (o ≡ err e)) ⊎ ((m : String) × (o ≡ panic m)))
Outcome-cases (ok a) = inl (a, refl)
Outcome-cases (err e) = inr (inl (e, refl))
Outcome-cases (panic m) = inr (inr (m, refl))

pub >>=-eq-ok {ℓ κ μ} :
    {E : Type κ} {A : Type ℓ} {B : Type μ} (call : Outcome E A) (rest : A → Outcome E B) {b : B}
    → (call >>= rest) ≡ ok b
    → (a : A) × (call ≡ ok a) × (rest a ≡ ok b)
>>=-eq-ok (panic message) rest h = cc
>>=-eq-ok (err e) rest h = cc
>>=-eq-ok (ok value) rest h = (value, refl, h)

module _ {ℓ κ} {E : Type κ} {A : Type ℓ} where
  pub index_of_get_elem? :
      (xs : List A) (i : ℕ) {a : A} → get_elem? xs i ≡ some a → index {E = E} xs i ≡ ok a
  index_of_get_elem? [] i h = cc
  index_of_get_elem? (x ∷ xs) zero h = cc
  index_of_get_elem? (x ∷ xs) (suc i) h = index_of_get_elem? xs i h
