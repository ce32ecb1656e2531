-- ===== src/Dataset/Split/Counts.antt =====
-- How many samples each split gets: the counts are as many as the lengths and use up the dataset.
use rust_torch.Base.{
  ℕ, zero, suc, ◌+◌, ◌%◌, ◌≤◌, ◌<◌, ◌≡◌, refl, sym, ap, ◌∙◌, inl, inr, Bool, true, false, Option,
  none, some, List, [], ◌∷◌, map, arith, length, sum, usize_max, leb, ◌==◌, subst, not, ◌&&◌, ◌||◌,
  if◌then◌else◌, Bool-cases, length-map, checked_add-eq-some, checked_sub, String,
}
use rust_torch.Error.{RustTorchError}
use rust_torch.Outcome.{Outcome, ok, err, ◌>>=◌, fail_if, ok_or, traverse}
use rust_torch.Float.{F64}
use rust_torch.Dataset.Split.{
  fold_checked_add, increment, distribute, SplitLength, count, fraction, any_fraction, count_of,
  fraction_of, exact_counts, fractional_counts, split_counts,
}

-- `m` ends in an error of the split, or in a value with `P`; never in a panic.
pub data Ends {ℓ κ} {A : Type ℓ} (P : A → Type κ) : Outcome RustTorchError A → Type (ℓ ⊔ κ) where
  fails : (e : RustTorchError) → Ends P (err e)
  gives : (a : A) → P a → Ends P (ok a)

pub Ends->>= {ℓ κ μ ν} :
    {A : Type ℓ} {B : Type μ} {P : A → Type κ} {Q : B → Type ν} {m : Outcome RustTorchError A}
    (f : A → Outcome RustTorchError B)
    → Ends P m
    → ((a : A) → P a → Ends Q (f a))
    → Ends Q (m >>= f)
Ends->>= f (fails e) k = fails e
Ends->>= f (gives a p) k = k a p

Ends-if {ℓ κ} :
    {A : Type ℓ} {P : A → Type κ} (b : Bool) {m n : Outcome RustTorchError A}
    → Ends P m
    → Ends P n
    → Ends P (if b then m else n)
Ends-if true h k = h
Ends-if false h k = k

Ends-fail_if : (b : Bool) (e : RustTorchError) → Ends (λ _. b ≡ false) (fail_if b e)
Ends-fail_if true e = fails e
Ends-fail_if false e = gives tt refl

Ends-ok_or {ℓ} :
    {A : Type ℓ} (o : Option A) (e : RustTorchError) → Ends (λ a. o ≡ some a) (ok_or o e)
Ends-ok_or none e = fails e
Ends-ok_or (some a) e = gives a refl

fold_checked_add-eq-some :
    (total : ℕ) (ns : List ℕ) {t : ℕ} → fold_checked_add total ns ≡ some t → t ≡ total + sum ns
unfolding fold_checked_add
fold_checked_add-eq-some total [] h = ground arith
fold_checked_add-eq-some total (n ∷ ns) {t = t} h = elim (Bool-cases (leb (total + n) usize_max)) [
  | inl b ↦
      let e : fold_checked_add total (n ∷ ns) ≡ fold_checked_add (total + n) ns =
        rw (b, fold_checked_add) refl in
      omega (arith, fold_checked_add-eq-some (total + n) ns (sym e ∙ h))
  | inr b ↦
      let e : fold_checked_add total (n ∷ ns) ≡ none = rw (b, fold_checked_add) refl in
      absurd (let no : some t ≡ none = sym h ∙ e in cc no)
]

fold_checked_add_fits :
    (total : ℕ) (ns : List ℕ)
    → total + sum ns ≤ usize_max
    → fold_checked_add total ns ≡ some (total + sum ns)
unfolding fold_checked_add
fold_checked_add_fits total [] h = ap some (omega arith)
fold_checked_add_fits total (n ∷ ns) h =
    let e : total + n + sum ns ≡ total + (n + sum ns) = omega arith in
    rw (checked_add-eq-some total n (omega arith), fold_checked_add)
      (fold_checked_add_fits (total + n) ns (omega arith) ∙ ap some e)

eq_of_not : {a b : ℕ} → not (a == b) ≡ false → a ≡ b
eq_of_not h = ground arith

checked_sub-eq-some : (a b : ℕ) {c : ℕ} → checked_sub a b ≡ some c → c + b ≡ a
checked_sub-eq-some a b h = ground arith

-- One more sample for a split that is there, when the counts sum to less than `usize::MAX`.
increment_sum :
    (ns : List ℕ) (i : ℕ)
    → i < length ns
    → sum ns < usize_max
    → (ns' : List ℕ) × (increment ns i ≡ ok ns')
      × (sum ns' ≡ suc (sum ns))
      × (length ns' ≡ length ns)
unfolding increment
increment_sum [] i h k = absurd (omega arith)
increment_sum (n ∷ ns) zero h k =
    let e : (n == usize_max) ≡ false = ground arith in
    (suc n ∷ ns, rw (e, increment) refl, omega arith, refl)
increment_sum (n ∷ ns) (suc i) h k =
    let (ns', e, s, l) = increment_sum ns i (omega arith) (omega arith) in
    (n ∷ ns', rw (e, increment) refl, omega (arith, s), ap suc l)

distribute_sum :
    (start remainder : ℕ) (ns : List ℕ)
    → 0 < length ns
    → sum ns + remainder ≤ usize_max
    → (ns' : List ℕ) × (distribute (length ns) start remainder ns ≡ ok ns')
      × (sum ns' ≡ sum ns + remainder)
      × (length ns' ≡ length ns)
unfolding distribute
distribute_sum start zero ns h k = (ns, refl, omega arith, refl)
distribute_sum start (suc remainder) ns h k =
    let (ns', e, s, l) = increment_sum ns (start % length ns) (omega arith) (omega arith) in
    let (ns'', e', s', l') =
      distribute_sum (suc start) remainder ns' (omega (arith, l)) (omega (arith, s)) in
    let z : (length ns == 0) ≡ false = ground arith in
    (
      ns'',
      rw (z, e, distribute) (ap (λ c. distribute c (suc start) remainder ns') (sym l) ∙ e'),
      omega (arith, s, s'),
      l' ∙ l,
    )

module _ (f : F64) where
  counts_of_exact :
      (lengths : List (SplitLength f))
      → any_fraction f lengths ≡ false
      → (ns : List ℕ) × (traverse (count_of f) lengths ≡ ok ns) × (length ns ≡ length lengths)
  unfolding any_fraction count_of
  counts_of_exact [] h = ([], refl, refl)
  counts_of_exact (count n ∷ lengths) h =
      let (ns, e, l) = counts_of_exact lengths h in (n ∷ ns, rw (e, count_of) refl, ap suc l)
  counts_of_exact (fraction x ∷ lengths) h = cc

  Ends-fraction_of : (l : SplitLength f) → Ends (λ (x : f.Float). Unit {0}) (fraction_of f l)
  unfolding fraction_of
  Ends-fraction_of (count n) = fails _
  Ends-fraction_of (fraction x) =
      Ends-if (f.is_finite x && (f.le f.zero x && f.le x f.one)) (gives x tt) (fails _)

  Ends-traverse :
      (lengths : List (SplitLength f))
      → Ends (λ (xs : List f.Float). length xs ≡ length lengths) (traverse (fraction_of f) lengths)
  Ends-traverse [] = gives [] refl
  Ends-traverse (l ∷ lengths) =
      Ends->>= _ (Ends-fraction_of l)
        (λ x _. Ends->>= _ (Ends-traverse lengths) (λ xs e. gives (x ∷ xs) (ap suc e)))

  -- Counts for so many splits that use up the samples.
  abbrev pub SumsTo : ℕ → List (SplitLength f) → List ℕ → Type 0
  SumsTo len lengths ns = (sum ns ≡ len) × (length ns ≡ length lengths)

  Ends-exact_counts :
      (lengths : List (SplitLength f)) (len : ℕ)
      → Ends (SumsTo len lengths) (exact_counts f lengths len)
  unfolding exact_counts
  Ends-exact_counts lengths len = Ends->>= _ (Ends-fail_if _ _) (λ _ none_left.
      let (ns, e, l) = counts_of_exact lengths none_left in
      Ends->>= _ (subst (Ends (λ ms. ms ≡ ns)) (sym e) (gives ns refl)) (λ ms same.
        Ends->>= _ (Ends-ok_or (fold_checked_add 0 ms) _) (λ total t.
          Ends->>= _ (Ends-fail_if (not (total == len)) _) (λ _ b.
            gives ms
              (omega (arith, fold_checked_add-eq-some 0 ms t, eq_of_not b), ap length same ∙ l)))))

  Ends-fractional_counts :
      (display : f.Float → String) (lengths : List (SplitLength f)) (len : ℕ)
      → 0 < length lengths
      → len ≤ usize_max
      → Ends (SumsTo len lengths) (fractional_counts f display lengths len)
  unfolding fractional_counts
  Ends-fractional_counts display lengths len some_left h =
      Ends->>= _ (Ends-traverse lengths) (λ xs l.
        let total = f.sum xs in
        let rejected = f.lt f.one total || f.lt f.tolerance (f.abs (f.sub total f.one)) in
        Ends->>= _ (Ends-fail_if rejected _) (λ _ _.
          let ns = map (λ x. f.to_usize (f.floor (f.mul x (f.from_usize len)))) xs in
          Ends->>= _ (Ends-ok_or (fold_checked_add 0 ns) _) (λ assigned a.
            Ends->>= _ (Ends-ok_or (checked_sub len assigned) _) (λ remainder r.
              let m : length ns ≡ length xs = length-map xs _ in
              let v = fold_checked_add-eq-some 0 ns a in
              let w = checked_sub-eq-some len assigned r in
              let (ns', e, t, l') =
                distribute_sum 0 remainder ns (omega (arith, m, l)) (omega (arith, v, w)) in
              subst (Ends _) (sym e) (gives ns' (omega (arith, t, v, w), l' ∙ m ∙ l))))))

  pub Ends-split_counts :
      (display : f.Float → String) (lengths : List (SplitLength f)) (len : ℕ)
      → len ≤ usize_max
      → Ends (SumsTo len lengths) (split_counts f display lengths len)
  unfolding split_counts
  Ends-split_counts display [] len h = Ends-exact_counts [] len
  Ends-split_counts display (count n ∷ lengths) len h = Ends-exact_counts (count n ∷ lengths) len
  Ends-split_counts display (fraction x ∷ lengths) len h =
      Ends-fractional_counts display (fraction x ∷ lengths) len (omega arith) h

module _ (f : F64) where
  any_fraction-count : (ns : List ℕ) → any_fraction f (map count ns) ≡ false
  unfolding any_fraction
  any_fraction-count [] = refl
  any_fraction-count (n ∷ ns) = any_fraction-count ns

  count_of-count : (ns : List ℕ) → traverse (count_of f) (map count ns) ≡ ok ns
  unfolding count_of
  count_of-count [] = refl
  count_of-count (n ∷ ns) = rw (count_of-count ns, count_of) refl

  exact_counts-count :
      (ns : List ℕ) (len : ℕ)
      → len ≤ usize_max
      → sum ns ≡ len
      → exact_counts f (map count ns) len ≡ ok ns
  unfolding exact_counts
  exact_counts-count ns len h total =
      let t : not (len == len) ≡ false = ground arith in
      let z : 0 + sum ns ≡ len = omega (arith, total) in
      let a : fold_checked_add 0 ns ≡ some len =
        fold_checked_add_fits 0 ns (omega (arith, total)) ∙ ap some z in
      rw (any_fraction-count ns, count_of-count ns, a, t, exact_counts) refl

  pub split_counts-count :
      (display : f.Float → String) (ns : List ℕ) (len : ℕ)
      → len ≤ usize_max
      → sum ns ≡ len
      → split_counts f display (map count ns) len ≡ ok ns
  unfolding split_counts
  split_counts-count display [] len h total = exact_counts-count [] len h total
  split_counts-count display (n ∷ ns) len h total = exact_counts-count (n ∷ ns) len h total
