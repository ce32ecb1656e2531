-- ===== src/Dataset/Concat/Lookup.antt =====
-- What `ConcatDataset` gives at an index, against the samples of its children one after another.
use rust_torch.Base.{
  ℕ, zero, suc, ◌+◌, ◌-◌, ◌≤◌, ◌<◌, ◌≡◌, refl, sym, ap, ◌∙◌, inl, inr, false, true, checked_add,
  ◌==◌, none, some, List, [], ◌∷◌, ◌++◌, map, length, range, get_elem?, checked_sub, arith,
  length-map, length-range_from, length-append, get_elem?-range_from, get_elem?-append_left,
  Bool-cases, leb→le, leb, sum,
}
use mathlib.Core.Path.{ap₂}
use rust_torch.Outcome.{
  Outcome, ok, panic, ◌>>=◌, ok_or, fail_if, index, index_of_get_elem?, >>=-eq-ok,
}
use rust_torch.Dataset.{Dataset}
use rust_torch.Dataset.Concat.{
  ConcatDataset, partition_point, last, previous_size, cumulate, new, len, get,
}

-- What `get` gives at each index of a dataset.
abbrev pub lookups {ℓ κ} : {S : Type ℓ} {E : Type κ} → Dataset S E → List (Outcome E S)
lookups d = map d.get (range d.len)

abbrev pub all_lookups {ℓ κ} : {S : Type ℓ} {E : Type κ} → List (Dataset S E) → List (Outcome E S)
all_lookups [] = []
all_lookups (d ∷ ds) = lookups d ++ all_lookups ds

abbrev lens {ℓ κ} : {S : Type ℓ} {E : Type κ} → List (Dataset S E) → List ℕ
lens [] = []
lens (d ∷ ds) = d.len ∷ lens ds

sizes_from : ℕ → List ℕ → List ℕ
sizes_from base [] = []
sizes_from base (n ∷ ns) = (base + n) ∷ sizes_from (base + n) ns

last-sizes_from : (base : ℕ) (ns : List ℕ) → last (sizes_from base ns) base ≡ base + sum ns
unfolding last sizes_from
last-sizes_from base [] = omega arith
last-sizes_from base (n ∷ ns) = omega (arith, last-sizes_from (base + n) ns)

get_elem?-map {ℓ κ} :
    {A : Type ℓ} {B : Type κ} (f : A → B) (xs : List A) (i : ℕ) {a : A}
    → get_elem? xs i ≡ some a
    → get_elem? (map f xs) i ≡ some (f a)
get_elem?-map f [] i h = cc
get_elem?-map f (x ∷ xs) zero h = cc
get_elem?-map f (x ∷ xs) (suc i) h = get_elem?-map f xs i h

index-append_right {ℓ κ} :
    {E : Type κ} {A : Type ℓ} (xs ys : List A) (i : ℕ)
    → length xs ≤ i
    → index {E = E} (xs ++ ys) i ≡ index ys (i - length xs)
index-append_right [] ys i h = ap (index ys) (let e : i ≡ i - 0 = omega arith in e)
index-append_right (x ∷ xs) ys zero h = absurd (omega arith)
index-append_right (x ∷ xs) ys (suc i) h =
    let e : i - length xs ≡ suc i - suc (length xs) = omega arith in
    index-append_right xs ys i (omega arith) ∙ ap (index ys) e

-- The size before child `k`, when `base` stands before all of them.
before {κ} : {E : Type κ} → ℕ → List ℕ → ℕ → Outcome E ℕ
before base sizes zero = ok base
before base sizes (suc k) = index sizes k

before-suc {κ} :
    {E : Type κ} (base size : ℕ) (sizes : List ℕ) (k : ℕ)
    → before {E = E} base (size ∷ sizes) (suc k) ≡ before size sizes k
unfolding before
before-suc base size sizes zero = refl
before-suc base size sizes (suc k) = refl

previous_size-before {κ} :
    {E : Type κ} (sizes : List ℕ) (k : ℕ) → previous_size {E = E} sizes k ≡ before 0 sizes k
unfolding before previous_size
previous_size-before sizes zero = refl
previous_size-before sizes (suc k) =
    let e : checked_sub (suc k) 1 ≡ some k = ground arith in rw (e, previous_size) refl

module _ {ℓ κ} {S : Type ℓ} {E : Type κ} where
  cumulate-eq-ok :
      (base : ℕ) (ds : List (Dataset S E)) {sizes : List ℕ}
      → cumulate base ds ≡ ok sizes
      → sizes ≡ sizes_from base (lens ds)
  unfolding cumulate sizes_from
  cumulate-eq-ok base [] h = cc
  cumulate-eq-ok base (d ∷ ds) h =
      let (total, e, k) = >>=-eq-ok (ok_or (checked_add base d.len) _) _ h in
      let (sizes, e', k') = >>=-eq-ok (cumulate total ds) _ k in
      let t : total ≡ base + d.len = ground arith in
      let v : sizes ≡ sizes_from total (lens ds) = cumulate-eq-ok total ds e' in
      cc (ap₂ (λ (a : ℕ) (b : List ℕ). a ∷ b) t v, ap (λ n. sizes_from n (lens ds)) t)

  shifted : Dataset S E → ℕ → ℕ → Outcome E S
  shifted d i previous = elim (checked_sub i previous) [
    | none ↦ panic "attempt to subtract with overflow"
    | some j ↦ d.get j
  ]

  shifted_ge :
      (d : Dataset S E) (i previous : ℕ)
      → previous ≤ i
      → shifted d i previous ≡ d.get (i - previous)
  unfolding shifted
  shifted_ge d i previous h =
      let s : checked_sub i previous ≡ some (i - previous) = ground arith in rw (s, shifted) refl

  get_at : ℕ → List (Dataset S E) → List ℕ → ℕ → ℕ → Outcome E S
  get_at base ds sizes k i = do previous ← before base sizes k; d ← index ds k; shifted d i previous

  get_at_first :
      (base : ℕ) (d : Dataset S E) (ds : List (Dataset S E)) (i : ℕ)
      → base ≤ i
      → i < base + d.len
      → get_at base
          (d ∷ ds)
          (sizes_from base (lens (d ∷ ds)))
          (partition_point (sizes_from base (lens (d ∷ ds))) i)
          i
        ≡ (index (lookups d ++ all_lookups ds) (i - base) >>= λ r. r)
  unfolding get_at partition_point before sizes_from
  get_at_first base d ds i h lt =
      let e : leb (base + d.len) i ≡ false = ground arith in
      let at : get_elem? (lookups d) (i - base) ≡ some (d.get (0 + (i - base))) =
        get_elem?-map d.get (range d.len) (i - base)
          (get_elem?-range_from 0 d.len (i - base) (omega arith)) in
      let inside : i - base < length (lookups d) =
        omega (arith, length-map (range d.len) d.get, length-range_from 0 d.len) in
      let z : 0 + (i - base) ≡ i - base = omega arith in
      let r : index {E = E} (lookups d ++ all_lookups ds) (i - base) ≡ ok (d.get (0 + (i - base))) =
        index_of_get_elem? (lookups d ++ all_lookups ds) (i - base)
          (get_elem?-append_left (lookups d) (all_lookups ds) (i - base) inside ∙ at) in
      let k : partition_point (sizes_from base (lens (d ∷ ds))) i ≡ 0 =
        rw (e, partition_point) refl in
      ap (λ k. get_at base (d ∷ ds) (sizes_from base (lens (d ∷ ds))) k i) k
      ∙ shifted_ge d i base h
      ∙ ap d.get (sym z)
      ∙ sym (ap (λ (o : Outcome E (Outcome E S)). o >>= λ r. r) r)

  get_at_rest :
      (base : ℕ) (d : Dataset S E) (ds : List (Dataset S E)) (i : ℕ)
      → base + d.len ≤ i
      → get_at base
          (d ∷ ds)
          (sizes_from base (lens (d ∷ ds)))
          (partition_point (sizes_from base (lens (d ∷ ds))) i)
          i
        ≡ get_at
            (base + d.len)
            ds
            (sizes_from (base + d.len) (lens ds))
            (partition_point (sizes_from (base + d.len) (lens ds)) i)
            i
  unfolding get_at partition_point sizes_from
  get_at_rest base d ds i ge =
      let e : leb (base + d.len) i ≡ true = ground arith in
      let sizes = sizes_from (base + d.len) (lens ds) in
      rw (e, before-suc {E = E} base (base + d.len) sizes (partition_point sizes i)) refl

  index_rest :
      (base : ℕ) (d : Dataset S E) (ds : List (Dataset S E)) (i : ℕ)
      → base + d.len ≤ i
      → index {E = E} (all_lookups ds) (i - (base + d.len))
        ≡ index (lookups d ++ all_lookups ds) (i - base)
  index_rest base d ds i ge =
      let l : length (lookups d) ≡ d.len =
        length-map (range d.len) d.get ∙ length-range_from 0 d.len in
      let e : (i - base) - length (lookups d) ≡ i - (base + d.len) = omega (arith, l) in
      sym (
        index-append_right (lookups d) (all_lookups ds) (i - base) (omega (arith, l))
        ∙ ap (index (all_lookups ds)) e)

  get_at-lookups :
      (base : ℕ) (ds : List (Dataset S E)) (i : ℕ)
      → base ≤ i
      → get_at base ds (sizes_from base (lens ds)) (partition_point (sizes_from base (lens ds)) i) i
        ≡ (index (all_lookups ds) (i - base) >>= λ r. r)
  unfolding get_at partition_point before sizes_from
  get_at-lookups base [] i h = refl
  get_at-lookups base (d ∷ ds) i h = elim (Bool-cases (leb (base + d.len) i)) [
    | inr f ↦ get_at_first base d ds i h (ground arith)
    | inl t ↦
        let ge = leb→le (base + d.len) i t in
        (get_at_rest base d ds i ge
          ∙ get_at-lookups (base + d.len) ds i ge
          ∙ ap (λ (o : Outcome E (Outcome E S)). o >>= λ r. r) (index_rest base d ds i ge))
  ]

  get-get_at :
      (c : ConcatDataset S E) (i : ℕ)
      → get c i ≡ get_at 0 c.datasets c.cumulative_sizes (partition_point c.cumulative_sizes i) i
  unfolding get get_at shifted
  get-get_at c i =
      rw (previous_size-before {E = E} c.cumulative_sizes (partition_point c.cumulative_sizes i))
        refl

  new-eq-ok :
      (ds : List (Dataset S E)) {c : ConcatDataset S E}
      → new ds ≡ ok c
      → c ≡ record { datasets = ds; cumulative_sizes = sizes_from 0 (lens ds) }
  unfolding new
  new-eq-ok ds {c} h =
      let (_, _, k) = >>=-eq-ok (fail_if (length ds == 0) _) _ h in
      let (sizes, e, k') = >>=-eq-ok (cumulate 0 ds) _ k in
      let v = cumulate-eq-ok 0 ds e in
      cc (
        ap {B = ConcatDataset S E} (λ (n : List ℕ). record { datasets = ds; cumulative_sizes = n })
          v)

  length-all_lookups : (ds : List (Dataset S E)) → length (all_lookups ds) ≡ sum (lens ds)
  length-all_lookups [] = refl
  length-all_lookups (d ∷ ds) = omega (
    arith,
    length-append (lookups d) (all_lookups ds),
    length-map (range d.len) d.get,
    length-range_from 0 d.len,
    length-all_lookups ds,
  )

  -- At every index, `get` of an accepted concatenation gives what the child that holds the index gives
  -- at its place there: the answers are those of the children one after another, and past the last
  -- one the call panics as an index out of bounds does. `len` is the number of these answers.
  pub get-lookups :
      (ds : List (Dataset S E)) {c : ConcatDataset S E} (i : ℕ)
      → new ds ≡ ok c
      → (get c i ≡ (index (all_lookups ds) i >>= λ r. r)) × (len c ≡ length (all_lookups ds))
  unfolding len
  get-lookups ds {c} i h =
      let e = new-eq-ok ds h in
      let z : i - 0 ≡ i = omega arith in
      (
        ap (λ c. get c i) e
            ∙ get-get_at _ i
            ∙ get_at-lookups 0 ds i (omega arith)
            ∙ ap (λ j. index (all_lookups ds) j >>= λ r. r) z,
        ap len e ∙ omega (arith, last-sizes_from 0 (lens ds), length-all_lookups ds),
      )
