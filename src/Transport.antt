-- ===== src/Transport.antt =====
-- The part of kwctoolkit/transport that is modelled.
pub mod Response
pub mod Processor
pub mod Transaction
pub mod Socket
