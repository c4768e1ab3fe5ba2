-- ===== src/Base.antt =====
-- kwctoolkit/base: the parts that the other modules build on.
pub mod Status
pub mod Numbers
pub mod RefCount
pub mod Flags
pub mod CheckedInteger
pub mod Result
