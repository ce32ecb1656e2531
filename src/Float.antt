-- ===== src/Float.antt =====
-- The `f64` operations that the code uses. Floats are an argument of the model.
use Prim.Native.Nat.{Ordering}
use rust_torch.Base.{ℕ, ◌≡◌, Bool, true, false, not, List}

pub record F64 : Type 1 where
  pub Float : Type 0
  pub zero : Float
  pub is_finite : Float → Bool
  -- IEEE `<` and `==`.
  pub lt : Float → Float → Bool
  pub eq : Float → Float → Bool
  pub sum : List Float → Float
  pub sub : Float → Float → Float
  pub neg : Float → Float
  pub ln : Float → Float
  pub total_cmp : Float → Float → Ordering
  pub to_bits : Float → ℕ
  -- The literals `1.0` and `1e-9`, IEEE `<=`, `as f64` and the saturating `as usize`.
  pub one : Float
  pub tolerance : Float
  pub le : Float → Float → Bool
  pub abs : Float → Float
  pub mul : Float → Float → Float
  pub floor : Float → Float
  pub from_usize : ℕ → Float
  pub to_usize : Float → ℕ

-- A finite number that is not below zero is zero or above it, and not both.
pub record HasSigns (f : F64) : Type 0 where
  pub eq-zero :
      (x : f.Float)
      → f.is_finite x ≡ true
      → f.lt x f.zero ≡ false
      → f.eq x f.zero ≡ not (f.lt f.zero x)
