-- ===== src/Strings.antt =====
-- kwctoolkit/strings: ASCII case and classes, trimming, and splitting of byte strings.
pub mod Ascii
pub mod Trim
pub mod Split
pub mod Unicode
