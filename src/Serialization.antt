-- ===== src/Serialization.antt =====
-- kwctoolkit/serialization: readers and writers of byte streams.
pub mod Reader
pub mod InMemory
pub mod Writer
pub mod StringWriter
pub mod Istream
