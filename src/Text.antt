-- ===== src/Text.antt =====
-- Python's f-strings over texts and numbers.
pub mod Decimal
pub use Decimal.{decimal, decimal-injective}
use Prim.Native.String.{String}
use Prim.Native.String

infixl 65 ◌<>◌
-- f"{a}{b}"
abbrev pub ◌<>◌ : String → String → String
a <> b = String.◌++◌ a b
