-- ===== src/Bits.antt =====
-- Laws of the bit operations at variables and at every width: exclusive or is a commutative group
-- that goes through shifts and truncations, `|` of disjoint fields is a sum, `&` with a low mask is
-- a remainder.
mod Step
mod Xor
mod Mask
mod Digit
pub use Step.{bit_xor_step, bit_or_step, bit_and_step}
pub use Xor.*
pub use Mask.*
pub use Digit.*
