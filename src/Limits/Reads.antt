-- ===== src/Limits/Reads.antt =====
-- What a bounded read gives, against what its reader holds.
use rust_torch.Base.{
  ℕ, suc, ◌≤◌, ◌<◌, ◌≡◌, refl, ap, true, false, none, some, List, arith, length, take, usize_max,
  saturating_add, length-take, take_of_length-le, Option-cases, ltb, ltb→lt, ◌⊎◌, Bool-cases, inl,
  inr,
}
use rust_torch.Outcome.{Outcome, ok, err, ◌>>=◌, ◌>>◌, fail_if}
use rust_torch.Limits.{ResourceLimits, Reader, ReadError, read_to_end, read_encoded}

module _ {E : Type 0} (r : Reader E) where
  read_to_end_full :
      (limit : ℕ) → limit ≤ length r.bytes → read_to_end limit r ≡ ok (take limit r.bytes)
  unfolding read_to_end
  read_to_end_full limit h =
      let t : ltb (length r.bytes) limit ≡ false = ground arith in
      elim (Option-cases r.failure) [
        | inl n ↦ rw (n, read_to_end) refl
        | inr (e, s) ↦ rw (s, t, read_to_end) refl
      ]

  read_to_end-none :
      (limit : ℕ) → length r.bytes ≤ limit → r.failure ≡ none → read_to_end limit r ≡ ok r.bytes
  unfolding read_to_end
  read_to_end-none limit h n = rw (n, take_of_length-le limit r.bytes h, read_to_end) refl

  read_to_end_failing :
      (limit : ℕ) (e : E)
      → length r.bytes < limit
      → r.failure ≡ some e
      → read_to_end limit r ≡ err (ReadError.inner e)
  unfolding read_to_end
  read_to_end_failing limit e h s =
      let t : ltb (length r.bytes) limit ≡ true = ground arith in rw (s, t, read_to_end) refl

  -- The test on the bytes that were read.
  judge : ResourceLimits → List ℕ → Outcome (ReadError E) (List ℕ)
  judge limits bytes =
      fail_if (ltb limits.max_encoded_bytes (length bytes))
        (ReadError.invalid_data "encoded resource limit exceeded")
      >> ok bytes

  read_encoded-judge :
      (limits : ResourceLimits)
      → limits.max_encoded_bytes < usize_max
      → read_encoded limits r ≡ (read_to_end (suc limits.max_encoded_bytes) r >>= judge limits)
  unfolding read_encoded judge
  read_encoded-judge limits h =
      let e : saturating_add limits.max_encoded_bytes 1 ≡ suc limits.max_encoded_bytes =
        ground arith in
      ap (λ n. read_to_end n r >>= judge limits) e

  too_long :
      (limits : ResourceLimits)
      → limits.max_encoded_bytes < usize_max
      → limits.max_encoded_bytes < length r.bytes
      → read_encoded limits r ≡ err (ReadError.invalid_data "encoded resource limit exceeded")
  unfolding judge
  too_long limits h long =
      let n : length (take (suc limits.max_encoded_bytes) r.bytes) ≡ suc limits.max_encoded_bytes =
        omega (arith, length-take (suc limits.max_encoded_bytes) r.bytes) in
      let u : ltb limits.max_encoded_bytes (length (take (suc limits.max_encoded_bytes) r.bytes))
          ≡ true =
        ground (arith, n) in
      rw
        (
          read_encoded-judge limits h,
          read_to_end_full (suc limits.max_encoded_bytes) (omega arith),
          judge,
          u,
        )
        refl

  whole :
      (limits : ResourceLimits)
      → limits.max_encoded_bytes < usize_max
      → length r.bytes ≤ limits.max_encoded_bytes
      → r.failure ≡ none
      → read_encoded limits r ≡ ok r.bytes
  unfolding judge
  whole limits h short n =
      let u : ltb limits.max_encoded_bytes (length r.bytes) ≡ false = ground arith in
      rw
        (
          read_encoded-judge limits h,
          read_to_end-none (suc limits.max_encoded_bytes) (omega arith) n,
          judge,
          u,
        )
        refl

  failing :
      (limits : ResourceLimits) (e : E)
      → limits.max_encoded_bytes < usize_max
      → length r.bytes ≤ limits.max_encoded_bytes
      → r.failure ≡ some e
      → read_encoded limits r ≡ err (ReadError.inner e)
  failing limits e h short s =
      rw
        (
          read_encoded-judge limits h,
          read_to_end_failing (suc limits.max_encoded_bytes) e (omega arith) s,
        )
        refl

-- With a ceiling below `usize::MAX`, a bounded read returns the whole of a reader within the
-- ceiling that does not fail, is refused past the ceiling, failure or not, and is otherwise the
-- reader's failure: no byte is dropped.
pub read_encoded-cases :
    {E : Type 0} (limits : ResourceLimits) (r : Reader E)
    → limits.max_encoded_bytes < usize_max
    → ((limits.max_encoded_bytes < length r.bytes)
        × (read_encoded limits r ≡ err (ReadError.invalid_data "encoded resource limit exceeded")))
      ⊎ ((length r.bytes ≤ limits.max_encoded_bytes)
          × (r.failure ≡ none)
          × (read_encoded limits r ≡ ok r.bytes))
      ⊎ ((length r.bytes ≤ limits.max_encoded_bytes)
          × ((e : E) × (r.failure ≡ some e) × (read_encoded limits r ≡ err (ReadError.inner e))))
read_encoded-cases limits r h = elim (Bool-cases (ltb limits.max_encoded_bytes (length r.bytes))) [
  | inl t ↦ let long = ltb→lt _ _ t in inl (long, too_long r limits h long)
  | inr f ↦
      let short : length r.bytes ≤ limits.max_encoded_bytes = ground arith in
      elim (Option-cases r.failure) [
        | inl n ↦ inr (inl (short, n, whole r limits h short n))
        | inr (e, s) ↦ inr (inr (short, (e, s, failing r limits e h short s)))
      ]
]
