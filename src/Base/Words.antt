-- ===== src/Base/Words.antt =====
-- `usize`, `u64` and `i64` on a 64-bit target: bounds, and the checked, saturating and wrapping
-- operations of the language over numbers that stand for such words.
use Prim.Native.Nat.{ℕ, ◌+◌, ◌-◌, ◌*◌, ◌%◌, ◌^◌, ◌≤◌}
use mathlib.Core.Path.{◌≡◌}
use mathlib.Core.Option.{Option, none, some}
use native.Mathlib.Omega.{arith}
use rust_torch.Base.Tests.{ltb, leb, if◌then◌else◌}

-- `usize::MAX`, which is `u64::MAX` on this target.
abbrev pub usize_max : ℕ
usize_max = 2 ^ 64 - 1

abbrev pub u64_max : ℕ
u64_max = 2 ^ 64 - 1

-- `isize::MAX` too.
abbrev pub i64_max : ℕ
i64_max = 2 ^ 63 - 1

abbrev pub checked_add : ℕ → ℕ → Option ℕ
checked_add a b = if leb (a + b) usize_max then some (a + b) else none

abbrev pub checked_mul : ℕ → ℕ → Option ℕ
checked_mul a b = if leb (a * b) usize_max then some (a * b) else none

abbrev pub checked_sub : ℕ → ℕ → Option ℕ
checked_sub a b = if ltb a b then none else some (a - b)

abbrev pub saturating_add : ℕ → ℕ → ℕ
saturating_add a b = if leb (a + b) usize_max then a + b else usize_max

-- Subtraction on ℕ stops at 0, as `saturating_sub` does.
abbrev pub saturating_sub : ℕ → ℕ → ℕ
saturating_sub a b = a - b

abbrev pub wrapping_add : ℕ → ℕ → ℕ
wrapping_add a b = (a + b) % 2 ^ 64

pub checked_add-eq-some : (a b : ℕ) → a + b ≤ usize_max → checked_add a b ≡ some (a + b)
checked_add-eq-some a b h = ground arith

pub checked_mul-eq-some : (a b : ℕ) → a * b ≤ usize_max → checked_mul a b ≡ some (a * b)
checked_mul-eq-some a b h = ground arith
