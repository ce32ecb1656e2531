-- ===== src/Base/Tests.antt =====
-- Boolean tests on the native numbers, the conditional, and case splits that keep an equation.
use Prim.Native.Nat.{ℕ, ◌≤◌, ◌<◌, compare, Ordering}
use mathlib.Core.Path.{◌≡◌, refl}
use mathlib.Core.Logic.{◌⊎◌, inl, inr}
use mathlib.Core.Bool.{Bool, true, false, ◌&&◌}
use mathlib.Core.List.{List, [], ◌∷◌}
use mathlib.Core.Option.{Option, none, some}
use native.Mathlib.Omega.{arith}

abbrev pub ltb : ℕ → ℕ → Bool
ltb a b = elim (compare a b) [ Ordering.lt ↦ true | _ ↦ false ]

abbrev pub leb : ℕ → ℕ → Bool
leb a b = elim (compare a b) [ Ordering.gt ↦ false | _ ↦ true ]

infix 50 ◌==◌
abbrev pub ◌==◌ : ℕ → ℕ → Bool
a == b = elim (compare a b) [ Ordering.eq ↦ true | _ ↦ false ]

infix 1 if◌then◌else◌
abbrev pub if◌then◌else◌ {ℓ} : {A : Type ℓ} → Bool → A → A → A
if true then x else y = x
if false then x else y = y

-- `usize::from(bool)`.
abbrev pub from_bool : Bool → ℕ
from_bool true = 1
from_bool false = 0

-- `==` on `bool`.
abbrev pub eq_bool : Bool → Bool → Bool
eq_bool true b = b
eq_bool false true = false
eq_bool false false = true

pub ltb→lt : (a b : ℕ) → ltb a b ≡ true → a < b
ltb→lt a b h = ground arith

pub lt→ltb : (a b : ℕ) → a < b → ltb a b ≡ true
lt→ltb a b h = ground arith

pub le→not-ltb : (a b : ℕ) → b ≤ a → ltb a b ≡ false
le→not-ltb a b h = ground arith

pub leb→le : (a b : ℕ) → leb a b ≡ true → a ≤ b
leb→le a b h = ground arith

pub le→leb : (a b : ℕ) → a ≤ b → leb a b ≡ true
le→leb a b h = ground arith

pub ==_refl : (a : ℕ) → (a == a) ≡ true
==_refl a = ground arith

pub eq_of_== : (a b : ℕ) → (a == b) ≡ true → a ≡ b
eq_of_== a b h = ground arith

pub eq_bool_refl : (b : Bool) → eq_bool b b ≡ true
eq_bool_refl true = refl
eq_bool_refl false = refl

pub eq_of_eq_bool : (a b : Bool) → eq_bool a b ≡ true → a ≡ b
eq_of_eq_bool a b h = ground arith

pub Bool-cases : (b : Bool) → (b ≡ true) ⊎ (b ≡ false)
Bool-cases true = inl refl
Bool-cases false = inr refl

pub Option-cases {ℓ} : {A : Type ℓ} (o : Option A) → (o ≡ none) ⊎ ((a : A) × (o ≡ some a))
Option-cases none = inl refl
Option-cases (some a) = inr (a, refl)

-- `==` on vectors of numbers.
unfoldable pub eq_numbers : List ℕ → List ℕ → Bool
eq_numbers [] [] = true
eq_numbers [] (y ∷ ys) = false
eq_numbers (x ∷ xs) [] = false
eq_numbers (x ∷ xs) (y ∷ ys) = (x == y) && eq_numbers xs ys

pub eq_numbers_refl : (xs : List ℕ) → eq_numbers xs xs ≡ true
unfolding eq_numbers
eq_numbers_refl [] = refl
eq_numbers_refl (x ∷ xs) = ground (arith, eq_numbers_refl xs)

pub eq_of_eq_numbers : (xs ys : List ℕ) → eq_numbers xs ys ≡ true → xs ≡ ys
unfolding eq_numbers
eq_of_eq_numbers [] [] h = refl
eq_of_eq_numbers [] (y ∷ ys) h = cc
eq_of_eq_numbers (x ∷ xs) [] h = cc
eq_of_eq_numbers (x ∷ xs) (y ∷ ys) h = ground (arith, eq_of_eq_numbers xs ys)
