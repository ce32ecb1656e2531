-- ===== src/Sampler/Weighted/Positions.antt =====
-- Which indices a weighted sampler without replacement yields, and in what order.
use mathlib.Core.List.Perm
use rust_torch.Base.{
  ℕ, suc, ◌+◌, ◌≤◌, ◌≡◌, refl, Bool, true, false, not, List, [], ◌∷◌, ◌++◌, Perm, arith, length,
  take, range_from, count, AllBelow, if◌then◌else◌, All, Bool-cases, inl, inr,
}
use rust_torch.Outcome.{ok}
use rust_torch.Float.{F64, HasSigns}
use rust_torch.Sampler.Weighted.{precedes, insert_by, sort_by, zero_weights, any, validate_weights}

module _ (f : F64) where
  insert_by-perm : (x : ℕ × f.Float) (xs : List (ℕ × f.Float)) → Perm (insert_by f x xs) (x ∷ xs)
  unfolding insert_by
  insert_by-perm x [] = Perm.refl _
  insert_by-perm x (y ∷ ys) = elim (Bool-cases (precedes f x y)) [
    | inl e ↦ rw e (Perm.refl _)
    | inr e ↦ rw e (Perm.trans (Perm.cons y (insert_by-perm x ys)) (Perm.swap x y ys))
  ]

  pub sort_by-perm : (xs : List (ℕ × f.Float)) → Perm (sort_by f xs) xs
  unfolding sort_by
  sort_by-perm [] = Perm.refl _
  sort_by-perm (x ∷ xs) =
      Perm.trans (insert_by-perm x (sort_by f xs)) (Perm.cons x (sort_by-perm xs))

  -- The indices of the positive weights, from index `i`.
  unfoldable pub positive_weights : ℕ → List f.Float → List ℕ
  positive_weights i [] = []
  positive_weights i (w ∷ ws) =
      let rest = positive_weights (suc i) ws in if f.lt f.zero w then i ∷ rest else rest

  -- What `validate_weights` leaves of each weight.
  abbrev pub IsWeight : f.Float → Type 0
  IsWeight w = (f.is_finite w ≡ true) × (f.lt w f.zero ≡ false)

  any_none :
      (p : f.Float → Bool) (ws : List f.Float) → any f p ws ≡ false → All (λ w. p w ≡ false) ws
  unfolding any
  any_none p [] h = tt
  any_none p (w ∷ ws) h = (ground arith, any_none p ws (ground arith))

  both :
      (ws : List f.Float)
      → All (λ w. not (f.is_finite w) ≡ false) ws
      → All (λ w. f.lt w f.zero ≡ false) ws
      → All IsWeight ws
  both [] h k = tt
  both (w ∷ ws) h k = ((ground (arith, h.0), k.0), both ws h.1 k.1)

  pub validate_weights-IsWeight :
      (ws : List f.Float) → validate_weights f ws ≡ ok tt → All IsWeight ws
  unfolding validate_weights
  validate_weights-IsWeight ws h =
      both ws (any_none _ ws (ground arith)) (any_none _ ws (ground arith))

  -- Of every weight the sampler keeps the index exactly once, as positive or as zero.
  module _ (signs : HasSigns f) where
    pub count-weights :
        (a i : ℕ) (ws : List f.Float)
        → All IsWeight ws
        → count a (positive_weights i ws) + count a (zero_weights f i ws)
          ≡ count a (range_from i (length ws))
    unfolding positive_weights zero_weights
    count-weights a i [] h = refl
    count-weights a i (w ∷ ws) h =
        ground (arith, signs.eq-zero w h.0.0 h.0.1, count-weights a (suc i) ws h.1)

    pub length-weights :
        (i : ℕ) (ws : List f.Float)
        → All IsWeight ws
        → length (positive_weights i ws) + length (zero_weights f i ws) ≡ length ws
    unfolding positive_weights zero_weights
    length-weights i [] h = refl
    length-weights i (w ∷ ws) h =
        ground (arith, signs.eq-zero w h.0.0 h.0.1, length-weights (suc i) ws h.1)

  pub positive-below :
      (i n : ℕ) (ws : List f.Float) → i + length ws ≤ n → AllBelow n (positive_weights i ws)
  unfolding positive_weights
  positive-below i n [] h = tt
  positive-below i n (w ∷ ws) h = ground (arith, positive-below (suc i) n ws (omega arith))

  pub zero-below :
      (i n : ℕ) (ws : List f.Float) → i + length ws ≤ n → AllBelow n (zero_weights f i ws)
  unfolding zero_weights
  zero-below i n [] h = tt
  zero-below i n (w ∷ ws) h = ground (arith, zero-below (suc i) n ws (omega arith))

-- `num` distinct indices of the weights, those of positive weights before those of zero weights.
pub record IsSelection (f : F64) (ws : List f.Float) (num : ℕ) (xs : List ℕ) : Type 0 where
  pub positive : List ℕ
  pub zeros : List ℕ
  pub positive-perm : Perm positive (positive_weights f 0 ws)
  pub zeros-perm : Perm zeros (zero_weights f 0 ws)
  pub chosen : xs ≡ take num (positive ++ zeros)
  pub drawn : length xs ≡ num
  pub distinct : (a : ℕ) → count a xs ≤ 1
  pub below : AllBelow (length ws) xs
