-- ===== src/Net/Address/Laws.antt =====
-- Comparing addresses.
