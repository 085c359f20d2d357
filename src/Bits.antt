-- ===== src/Bits.antt =====
-- The bit operations of C on unsigned words: what they do to each bit, for words of any width.
mod Digits
mod Masks
mod Ones
unfoldable pub use Digits.*
unfoldable pub use Masks.*
unfoldable pub use Ones.*
