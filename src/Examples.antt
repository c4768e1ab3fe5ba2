-- ===== src/Examples.antt =====
-- Runs of the program's functions on concrete data.
pub mod Strings
pub mod Encoding
pub mod Readers
pub mod Writers
pub mod CommandLines
pub mod Paths
pub mod Responses
pub mod Addresses
pub mod Counts
pub mod Values
pub mod Systems
pub mod Results
pub mod Sockets
pub mod Trees
pub mod Descriptors
