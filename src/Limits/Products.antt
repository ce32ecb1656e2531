-- ===== src/Limits/Products.antt =====
-- What a shape must satisfy for its number of elements to be returned.
use rust_torch.Base.{
  String, ℕ, ◌*◌, ◌≤◌, ◌≡◌, refl, sym, ap, ◌∙◌, ◌↔◌, ◌≢◌, false, Option, none, some, List, [], ◌∷◌,
  All, arith, min, usize_max, i64_max, leb, Bool-cases, leb→le, inl, inr, checked_mul-eq-some,
}
use rust_torch.Error.{RustTorchError}
use rust_torch.Outcome.{ok, >>=-eq-ok, ok_or}
use rust_torch.Limits.{ResourceLimits, check, check_dimensions, fold_checked_mul, tensor_elements}

abbrev pub product : List ℕ → ℕ
product [] = 1
product (d ∷ ds) = d * product ds

-- Every product of the first dimensions, from `n` on, is a `usize`.
abbrev pub PrefixesFit : ℕ → List ℕ → Type 0
PrefixesFit n [] = Unit
PrefixesFit n (d ∷ ds) = (n * d ≤ usize_max) × PrefixesFit (n * d) ds

-- A shape within the limits.
pub record IsAllowed (limits : ResourceLimits) (dimensions : List ℕ) : Type 0 where
  pub signed : All (λ d. d ≤ i64_max) dimensions
  pub prefixes : PrefixesFit 1 dimensions
  pub elements : product dimensions ≤ min limits.max_tensor_elements i64_max

check-eq-ok : (field : String) (n m : ℕ) → check field n m ≡ ok tt → n ≤ m
unfolding check
check-eq-ok field n m h = ground arith

check_le : (field : String) (n m : ℕ) → n ≤ m → check field n m ≡ ok tt
unfolding check
check_le field n m h = ground arith

check_dimensions-eq-ok : (ds : List ℕ) → check_dimensions ds ≡ ok tt → All (λ d. d ≤ i64_max) ds
unfolding check_dimensions
check_dimensions-eq-ok [] h = tt
check_dimensions-eq-ok (d ∷ ds) h =
    let (_, e, k) = >>=-eq-ok (check "tensor dimension" d i64_max) _ h in
    (check-eq-ok "tensor dimension" d i64_max e, check_dimensions-eq-ok ds k)

check_dimensions-All : (ds : List ℕ) → All (λ d. d ≤ i64_max) ds → check_dimensions ds ≡ ok tt
unfolding check_dimensions
check_dimensions-All [] h = refl
check_dimensions-All (d ∷ ds) h =
    rw (check_le "tensor dimension" d i64_max h.0) (check_dimensions-All ds h.1)

mul_assoc : (a b c : ℕ) → a * b * c ≡ a * (b * c)
mul_assoc a b c = omega arith

fold_checked_mul_fits :
    (n : ℕ) (ds : List ℕ) → PrefixesFit n ds → fold_checked_mul n ds ≡ some (n * product ds)
unfolding fold_checked_mul
fold_checked_mul_fits n [] h = ap some (omega arith)
fold_checked_mul_fits n (d ∷ ds) h =
    rw (checked_mul-eq-some n d h.0, fold_checked_mul)
      (fold_checked_mul_fits (n * d) ds h.1 ∙ ap some (mul_assoc n d (product ds)))

overflow-none :
    (n d : ℕ) (ds : List ℕ) {m : ℕ}
    → leb (n * d) usize_max ≡ false
    → fold_checked_mul n (d ∷ ds) ≢ some m
unfolding fold_checked_mul
overflow-none n d ds f h =
    let e : fold_checked_mul n (d ∷ ds) ≡ none = rw (f, fold_checked_mul) refl in cc (e, h)

ok_or-eq-ok {ℓ} :
    {A : Type ℓ} (e : RustTorchError) (o : Option A) {a : A} → ok_or o e ≡ ok a → o ≡ some a
ok_or-eq-ok e none h = cc
ok_or-eq-ok e (some x) h = cc

fold_checked_mul-eq-some :
    (n : ℕ) (ds : List ℕ) {m : ℕ}
    → fold_checked_mul n ds ≡ some m
    → PrefixesFit n ds × (m ≡ n * product ds)
unfolding fold_checked_mul
fold_checked_mul-eq-some n [] h = (tt, ground arith)
fold_checked_mul-eq-some n (d ∷ ds) {m = m} h = elim (Bool-cases (leb (n * d) usize_max)) [
  | inl t ↦
      let le = leb→le (n * d) usize_max t in
      let e : fold_checked_mul n (d ∷ ds) ≡ fold_checked_mul (n * d) ds =
        rw (checked_mul-eq-some n d le, fold_checked_mul) refl in
      let (fits, v) = fold_checked_mul-eq-some (n * d) ds (sym e ∙ h) in
      ((le, fits), v ∙ mul_assoc n d (product ds))
  | inr f ↦ absurd (overflow-none n d ds f h)
]

accepted :
    (limits : ResourceLimits) (ds : List ℕ) {n : ℕ}
    → tensor_elements limits ds ≡ ok n
    → IsAllowed limits ds × (n ≡ product ds)
unfolding tensor_elements
accepted limits ds {n = n} h =
    let (_, e, k) = >>=-eq-ok (check_dimensions ds) _ h in
    let (m, e', k') = >>=-eq-ok (ok_or (fold_checked_mul 1 ds) _) _ k in
    let (_, e'', k'') =
      >>=-eq-ok (check "tensor elements" m (min limits.max_tensor_elements i64_max)) _ k' in
    let f : fold_checked_mul 1 ds ≡ some m = ok_or-eq-ok _ _ e' in
    let (fits, v) = fold_checked_mul-eq-some 1 ds f in
    let z : m ≡ product ds = omega (arith, v) in
    (
      record {
        signed = check_dimensions-eq-ok ds e;
        prefixes = fits;
        elements = omega (
          arith,
          check-eq-ok "tensor elements" m (min limits.max_tensor_elements i64_max) e'',
          z,
        );
      },
      cc (k'', z),
    )

accepts :
    (limits : ResourceLimits) (ds : List ℕ) {n : ℕ}
    → IsAllowed limits ds × (n ≡ product ds)
    → tensor_elements limits ds ≡ ok n
unfolding tensor_elements
accepts limits ds {n = n} (h, z) =
    let p : 1 * product ds ≡ n = omega (arith, z) in
    let f : fold_checked_mul 1 ds ≡ some n = fold_checked_mul_fits 1 ds h.prefixes ∙ ap some p in
    rw
      (
        check_dimensions-All ds h.signed,
        f,
        check_le "tensor elements" n (min limits.max_tensor_elements i64_max)
            (omega (arith, h.elements, z)),
        tensor_elements,
      )
      refl

-- A shape's elements are counted exactly when the shape is allowed: each dimension is an `i64`, no
-- product of the first dimensions leaves `usize` (whatever zeros follow), and the whole product is
-- within the ceiling. The result is that product.
pub tensor_elements-IsAllowed :
    (limits : ResourceLimits) (ds : List ℕ) (n : ℕ)
    → (tensor_elements limits ds ≡ ok n) ↔ (IsAllowed limits ds × (n ≡ product ds))
tensor_elements-IsAllowed limits ds n = (accepted limits ds, accepts limits ds)
