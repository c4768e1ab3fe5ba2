-- ===== src/File.antt =====
-- The part of kwctoolkit/file that is modelled.
pub mod Path
pub mod Directories
pub mod Descriptors
pub mod Enumerator
