-- ===== src/Bits.antt =====
-- Laws of the bitwise operations at variables, from their binary digits.
mod Step
mod Digit
mod Mask
mod Powers
pub use Digit.*
pub use Mask.*
pub use Powers.*
pub use Step.{bit_and_step, bit_or_step}
