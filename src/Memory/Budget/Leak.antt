-- ===== src/Memory/Budget/Leak.antt =====
-- What a `ByteBudget` loses when its sequence numbers have run out.
use rust_torch.Base.{
  sum, ℕ, zero, suc, ◌+◌, ◌≤◌, ◌<◌, ◌≡◌, refl, ap, false, some, subst, [], ◌∷◌, ◌++◌, arith,
  u64_max, usize_max,
}
use rust_torch.Memory.Budget.{
  initial, Request, refused, sequence_already_admitted, attempt, resume, release, cancel,
}
use rust_torch.Memory.Budget.System.{
  System, start, enter, after_round, Step, call, wake, drop_permit, cancels, Reach, here, next,
}
use rust_torch.Memory.Budget.Safety.{Reach-IsSafe, Reach-limit, descending, sum-middle}

-- So many bytes are taken beside the permits that are out.
record IsLeaking (bytes : ℕ) (s : System) : Type 0 where
  lost : bytes + sum s.permits ≤ s.state.used
  within : s.state.used ≤ s.limit
  bounded : s.limit ≤ usize_max

enter-IsLeaking :
    (bytes : ℕ) (s : System) (r : Request) → IsLeaking bytes s → IsLeaking bytes (enter s r)
unfolding enter after_round attempt
enter-IsLeaking bytes s r v = ground (arith, v.lost, v.within, v.bounded)

Step-IsLeaking : (bytes : ℕ) {s t : System} → Step s t → IsLeaking bytes s → IsLeaking bytes t
unfolding resume cancel release
Step-IsLeaking bytes {s} (call r) v = enter-IsLeaking bytes s r v
Step-IsLeaking bytes {s} (wake before after r e) v =
    enter-IsLeaking bytes (record s { waiting = before ++ after; state = resume s.state }) r
      (record { lost = v.lost; within = v.within; bounded = v.bounded })
Step-IsLeaking bytes (drop_permit before after size e) v = record {
  lost = omega (arith, v.lost, ap sum e, sum-middle before after size);
  within = omega (arith, v.within);
  bounded = v.bounded;
}
Step-IsLeaking bytes cancels v = record { lost = v.lost; within = v.within; bounded = v.bounded }

Reach-IsLeaking : (bytes : ℕ) {s t : System} → Reach s t → IsLeaking bytes s → IsLeaking bytes t
Reach-IsLeaking bytes here v = v
Reach-IsLeaking bytes (next r st) v = Step-IsLeaking bytes st (Reach-IsLeaking bytes r v)

-- The ordered request for the last sequence number.
abbrev pub last_request : ℕ → Request
last_request bytes = record { sequence = some u64_max; bytes = bytes }

refused_last :
    (limit bytes : ℕ) (t : System)
    → limit ≤ usize_max
    → t.limit ≡ limit
    → t.state.cancelled ≡ false
    → t.state.next_ordered ≡ u64_max
    → t.state.used + bytes ≤ limit
    → attempt t.limit (last_request bytes) t.state
      ≡ refused sequence_already_admitted (record t.state { used = t.state.used + bytes })
unfolding attempt
refused_last limit bytes t h same live last fits = ground arith

-- For a limit within `usize`, in a reachable state that is not cancelled and whose sequence numbers have
-- run out, an ordered request for the last number that fits is refused, and its bytes are lost: in every
-- state that any interleaving reaches from there, `used` exceeds the sum of the permits that are out by at least them.
pub exhausted_leaks :
    (limit bytes : ℕ) {t u : System}
    → limit ≤ usize_max
    → Reach (start limit) t
    → t.state.cancelled ≡ false
    → t.state.next_ordered ≡ u64_max
    → t.state.used + bytes ≤ limit
    → Reach (enter t (last_request bytes)) u
    → (attempt t.limit (last_request bytes) t.state
        ≡ refused sequence_already_admitted (record t.state { used = t.state.used + bytes }))
      × (bytes + sum u.permits ≤ u.state.used)
unfolding start enter after_round
exhausted_leaks limit bytes {t} h reach live last fits on =
    let same : t.limit ≡ limit = Reach-limit reach in
    let v = Reach-IsSafe limit h reach in
    let round = refused_last limit bytes t h same live last fits in
    let v' : IsLeaking bytes (enter t (last_request bytes)) = rw round (record {
      lost = omega (arith, v.accounted);
      within = omega (arith, same, fits);
      bounded = omega (arith, same);
    }) in
    (round, (Reach-IsLeaking bytes on v').lost)

-- A budget that has granted and got back so many ordered permits of no bytes.
unfoldable pub counted : ℕ → ℕ → System
counted limit n = record {
  limit = limit;
  state = record initial { next_ordered = n };
  waiting = [];
  permits = [];
  admitted = descending n;
}

-- With one of them out.
unfoldable holding : ℕ → ℕ → System
holding limit n = record {
  limit = limit;
  state = record initial { next_ordered = n };
  waiting = [];
  permits = 0 ∷ [];
  admitted = descending n;
}

enter-counted :
    (limit n : ℕ)
    → n < u64_max
    → enter (counted limit n) (record { sequence = some n; bytes = 0 }) ≡ holding limit (suc n)
unfolding counted holding enter after_round attempt descending
enter-counted limit n h = ground arith

pub counted-Reach : (limit n : ℕ) → n ≤ u64_max → Reach (start limit) (counted limit n)
unfolding counted start descending release holding
counted-Reach limit zero h = here
counted-Reach limit (suc n) h =
    let out : Reach (start limit) (holding limit (suc n)) =
      subst (Reach (start limit)) (enter-counted limit n (omega arith)) (
        next (counted-Reach limit n (omega arith))
          (call (record { sequence = some n; bytes = 0 }))) in
    next out (drop_permit [] [] 0 refl)
