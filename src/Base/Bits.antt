-- ===== src/Base/Bits.antt =====
-- The bit operations at variables: one equation for the lowest digit, and the laws that the
-- components use.
mod Step
mod Xor
mod Mask
pub use Step.*
pub use Xor.*
pub use Mask.*
