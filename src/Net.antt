-- ===== src/Net.antt =====
-- The part of kwctoolkit/net that is modelled.
pub mod Address
