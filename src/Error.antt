-- ===== src/Error.antt =====
-- crates/rusttorch-core/src/error.rs: the error values of the data crate.
-- A formatted text is kept as its template and the values put into it, in order.
use rust_torch.Base.{ℕ, String, List, []}

-- What a `format!` argument holds.
pub data Arg : Type 0 where
  number : ℕ → Arg
  numbers : List ℕ → Arg
  text : String → Arg

pub record Message : Type 0 where
  pub template : String
  pub arguments : List Arg

-- A text with nothing put into it.
abbrev pub plain : String → Message
plain s = record { template = s; arguments = [] }

-- The two variants of `RustTorchError` that the modelled code raises.
pub data RustTorchError : Type 0 where
  invalid_configuration : String → Message → RustTorchError
  invalid_dimensions : Message → Message → Message → RustTorchError
