-- ===== src/Examples/Addresses.antt =====
-- Comparing some addresses.
use kwctoolkit.Prelude.{[], ◌∷◌}
use kwctoolkit.Net.Address.{AddressIpv6}

abbrev loopback : AddressIpv6
loopback = record { bytes = 0 ∷ 1 ∷ []; scope_id = 0 }

abbrev other_host : AddressIpv6
other_host = record { bytes = 0 ∷ 2 ∷ []; scope_id = 0 }
