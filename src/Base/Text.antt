-- ===== src/Base/Text.antt =====
-- Texts as lists of bytes, and the operations of Rust's `str` that the source uses.
mod Split
mod Affix
mod Append
unfoldable pub use Split.*
unfoldable pub use Affix.*
unfoldable pub use Append.*
