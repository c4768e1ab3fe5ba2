-- ===== src/System.antt =====
-- The part of kwctoolkit/system that is modelled.
pub mod CommandLine
pub mod Features
pub mod Process
pub mod Thread
pub mod Memory
pub mod Environment
