-- ===== src/Text.antt =====
-- Rust's `str`: the bytes of a text, with the standard library's comparison, search in a slice of
-- texts, `core::str::from_utf8`, decimal numbers, and splitting.
mod Equality
mod Utf8
mod Decimal
mod Split
unfoldable pub use Equality.*
unfoldable pub use Utf8.*
unfoldable pub use Decimal.*
unfoldable pub use Split.*
