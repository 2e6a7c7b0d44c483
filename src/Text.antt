-- ===== src/Text.antt =====
-- The functions of Go's `strings` and `unicode` packages that the program calls. A text is the list
-- of its runes.
pub mod Runes
pub mod Fields
pub mod Trimmed
