-- ===== src/Base/Perms.antt =====
-- Occurrences counted over the native numbers, and what a permutation keeps.
use Prim.Native.Nat.{ℕ, zero, suc, ◌+◌, ◌≤◌, ◌<◌}
use mathlib.Core.Path.{◌≡◌, refl, ap, ◌∙◌}
use mathlib.Core.Logic.{∥∥₁_elim}
use mathlib.Core.List.{List, [], ◌∷◌, ◌++◌, Perm, Permᴰ}
use mathlib.Core.HLevel.{×_prop}
use native.Mathlib.Nat.{ℕ_set}
use native.Mathlib.Bridge.{le_prop}
use native.Mathlib.Decide.{ℕ_discrete}
use mathlib.Core.Option.{some}
use native.Mathlib.Omega.{arith}
use rust_torch.Base.Tests.{◌==◌, if◌then◌else◌}
use rust_torch.Base.Lists.{get_elem?, length, All, range_from, take}

abbrev pub count : ℕ → List ℕ → ℕ
count a [] = 0
count a (x ∷ xs) = (if x == a then 1 else 0) + count a xs

pub count-append :
    (value : ℕ) (left right : List ℕ)
    → count value (left ++ right) ≡ count value left + count value right
count-append value [] right = omega arith
count-append value (first ∷ left) right = omega (arith, count-append value left right)

count-Permᴰ : (a : ℕ) {xs ys : List ℕ} → Permᴰ xs ys → count a xs ≡ count a ys
count-Permᴰ a Permᴰ.nil = refl
count-Permᴰ a (Permᴰ.cons e p) = ground (arith, count-Permᴰ a p)
count-Permᴰ a (Permᴰ.swap e f) = ground arith
count-Permᴰ a (Permᴰ.trans p q) = count-Permᴰ a p ∙ count-Permᴰ a q

pub count-perm : (a : ℕ) {xs ys : List ℕ} → Perm xs ys → count a xs ≡ count a ys
count-perm a p = ∥∥₁_elim p (ℕ_set _ _) (count-Permᴰ a)

length-Permᴰ {ℓ} : {A : Type ℓ} {xs ys : List A} → Permᴰ xs ys → length xs ≡ length ys
length-Permᴰ Permᴰ.nil = refl
length-Permᴰ (Permᴰ.cons _ p) = omega (arith, length-Permᴰ p)
length-Permᴰ (Permᴰ.swap _ _) = refl
length-Permᴰ (Permᴰ.trans p q) = length-Permᴰ p ∙ length-Permᴰ q

pub length-perm {ℓ} : {A : Type ℓ} {xs ys : List A} → Perm xs ys → length xs ≡ length ys
length-perm p = ∥∥₁_elim p (ℕ_set _ _) length-Permᴰ

-- Every element is less than `n`.
abbrev pub AllBelow : ℕ → List ℕ → Type 0
AllBelow n = All (λ x. x < n)

AllBelow-Permᴰ : (n : ℕ) {xs ys : List ℕ} → Permᴰ xs ys → AllBelow n xs → AllBelow n ys
AllBelow-Permᴰ n Permᴰ.nil h = tt
AllBelow-Permᴰ n (Permᴰ.cons e p) h = (omega (arith, h.0), AllBelow-Permᴰ n p h.1)
AllBelow-Permᴰ n (Permᴰ.swap e f) h = (omega (arith, h.1), (omega (arith, h.0), h.1.1))
AllBelow-Permᴰ n (Permᴰ.trans p q) h = AllBelow-Permᴰ n q (AllBelow-Permᴰ n p h)

AllBelow-prop : (n : ℕ) (xs : List ℕ) → IsProp (AllBelow n xs)
AllBelow-prop n [] = hlevel
AllBelow-prop n (x ∷ xs) = ×_prop le_prop (AllBelow-prop n xs)

pub AllBelow-perm : (n : ℕ) {xs ys : List ℕ} → Perm xs ys → AllBelow n xs → AllBelow n ys
AllBelow-perm n {ys = ys} p h = ∥∥₁_elim p (AllBelow-prop n ys) (λ d. AllBelow-Permᴰ n d h)

pub AllBelow-range_from : (s n m : ℕ) → s + n ≤ m → AllBelow m (range_from s n)
AllBelow-range_from s zero m h = tt
AllBelow-range_from s (suc n) m h = (omega arith, AllBelow-range_from (suc s) n m (omega arith))

pub count-range_from_lt : (a s n : ℕ) → a < s → count a (range_from s n) ≡ 0
count-range_from_lt a s zero h = refl
count-range_from_lt a s (suc n) h = ground (arith, count-range_from_lt a (suc s) n)

pub count-range_from : (a s n : ℕ) → s ≤ a → a < s + n → count a (range_from s n) ≡ 1
count-range_from a s zero h k = absurd (omega arith)
count-range_from a s (suc n) h k =
    ground (arith, count-range_from_lt a (suc s) n, count-range_from a (suc s) n)

pub count-take-le : (a n : ℕ) (xs : List ℕ) → count a (take n xs) ≤ count a xs
count-take-le a zero xs = omega arith
count-take-le a (suc n) [] = omega arith
count-take-le a (suc n) (x ∷ xs) = omega (arith, count-take-le a n xs)

-- No element of a list below `n` stands outside `0..n`.
pub count-AllBelow : (a n : ℕ) (xs : List ℕ) → AllBelow n xs → n ≤ a → count a xs ≡ 0
count-AllBelow a n [] h k = refl
count-AllBelow a n (x ∷ xs) h k = ground (arith, count-AllBelow a n xs h.1 k, h.0)

pub count-le-length : (a : ℕ) (xs : List ℕ) → count a xs ≤ length xs
count-le-length a [] = omega arith
count-le-length a (x ∷ xs) = ground (arith, count-le-length a xs)

-- An element that is counted stands at some place.
pub get_elem?_of_count-pos :
    (a : ℕ) (xs : List ℕ) → 0 < count a xs → (i : ℕ) × (get_elem? xs i ≡ some a)
get_elem?_of_count-pos a [] h = absurd (omega arith)
get_elem?_of_count-pos a (x ∷ xs) h = elim (ℕ_discrete x a) [
  | yes e ↦ (0, ap some e)
  | no ne ↦ let (i, at) = get_elem?_of_count-pos a xs (ground arith) in (suc i, at)
]

count-pos_of_get_elem? : (a : ℕ) (xs : List ℕ) (i : ℕ) → get_elem? xs i ≡ some a → 0 < count a xs
count-pos_of_get_elem? a [] i h = cc
count-pos_of_get_elem? a (x ∷ xs) zero h = ground arith
count-pos_of_get_elem? a (x ∷ xs) (suc i) h = omega (arith, count-pos_of_get_elem? a xs i h)

-- An element that is counted at most once stands at one place.
pub get_elem?-injective :
    (a : ℕ) (xs : List ℕ) (i j : ℕ)
    → count a xs ≤ 1
    → get_elem? xs i ≡ some a
    → get_elem? xs j ≡ some a
    → i ≡ j
get_elem?-injective a [] i j h p q = cc
get_elem?-injective a (x ∷ xs) zero zero h p q = refl
get_elem?-injective a (x ∷ xs) zero (suc j) h p q =
    absurd (ground (arith, count-pos_of_get_elem? a xs j q))
get_elem?-injective a (x ∷ xs) (suc i) zero h p q =
    absurd (ground (arith, count-pos_of_get_elem? a xs i p))
get_elem?-injective a (x ∷ xs) (suc i) (suc j) h p q =
    ap suc (get_elem?-injective a xs i j (omega arith) p q)

pub count-range_from-le : (a s n : ℕ) → count a (range_from s n) ≤ 1
count-range_from-le a s zero = omega arith
count-range_from-le a s (suc n) =
    ground (arith, count-range_from_lt a (suc s) n, count-range_from-le a (suc s) n)
