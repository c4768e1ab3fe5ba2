-- ===== src/Net/Address.antt =====
-- Address, AddressIPv4 and AddressIPv6 of kwctoolkit/net. inet_pton and inet_ntop are parameters;
-- an error, whose trace is not modelled, is `none`.
pub mod Laws
use kwctoolkit.Prelude.{
  ℕ, Bool, true, false, not, ◌&&◌, ◌||◌, Option, none, some, List, [], ◌==◌, if◌then◌else◌, Bytes,
  bytes_eq, replicate,
}

-- inet_pton and inet_ntop for the two families.
pub record Inet : Type 0 where
  pub pton4 : Bytes → Option ℕ
  pub ntop4 : ℕ → Option Bytes
  pub pton6 : Bytes → Option Bytes
  pub ntop6 : Bytes → Option Bytes

pub record AddressIpv4 : Type 0 where
  pub word : ℕ

pub record AddressIpv6 : Type 0 where
  pub bytes : Bytes
  pub scope_id : ℕ

abbrev pub any_ipv4 : AddressIpv4
any_ipv4 = record { word = 0 }

abbrev pub any_ipv6 : AddressIpv6
any_ipv6 = record { bytes = replicate 16 0; scope_id = 0 }

abbrev pub ipv4_eq : AddressIpv4 → AddressIpv4 → Bool
ipv4_eq a b = a.word == b.word

abbrev pub ipv4_ne : AddressIpv4 → AddressIpv4 → Bool
ipv4_ne a b = not (a.word == b.word)

-- memcmp of the addresses, and the scopes.
unfoldable pub ipv6_eq : AddressIpv6 → AddressIpv6 → Bool
unfolding bytes_eq
ipv6_eq a b = bytes_eq a.bytes b.bytes && a.scope_id == b.scope_id

unfoldable pub ipv6_ne : AddressIpv6 → AddressIpv6 → Bool
unfolding bytes_eq
ipv6_ne a b = not (bytes_eq a.bytes b.bytes) || not (a.scope_id == b.scope_id)

pub data AddressType : Type 0 where
  type_ipv4 type_ipv6 : AddressType

pub record Address : Type 0 where
  pub kind : AddressType
  pub ipv4 : AddressIpv4
  pub ipv6 : AddressIpv6

-- Address(ipv4_addr) and Address(ipv6_addr), and the assignments from them.
abbrev pub of_ipv4 : AddressIpv4 → Address
of_ipv4 a = record { kind = type_ipv4; ipv4 = a; ipv6 = any_ipv6 }

abbrev pub of_ipv6 : AddressIpv6 → Address
of_ipv6 a = record { kind = type_ipv6; ipv4 = any_ipv4; ipv6 = a }

abbrev compare_kinds : {A : Type 0} → AddressType → AddressType → A → A → A → A
compare_kinds type_ipv4 type_ipv4 both4 both6 mixed = both4
compare_kinds type_ipv6 type_ipv6 both4 both6 mixed = both6
compare_kinds type_ipv4 type_ipv6 both4 both6 mixed = mixed
compare_kinds type_ipv6 type_ipv4 both4 both6 mixed = mixed

-- operator==, which compares the IPv4 parts in both branches.
unfoldable pub address_eq : Address → Address → Bool
address_eq a b = compare_kinds a.kind b.kind (ipv4_eq a.ipv4 b.ipv4) (ipv4_eq a.ipv4 b.ipv4) false

unfoldable pub address_ne : Address → Address → Bool
unfolding ipv6_ne
address_ne a b = compare_kinds a.kind b.kind (ipv4_ne a.ipv4 b.ipv4) (ipv6_ne a.ipv6 b.ipv6) true

module _ (inet : Inet) where
  open inet use {pton4, ntop4, pton6, ntop6}

  abbrev pub is_valid : Bytes → Bool
  is_valid text = elim (pton4 text) [
    | some w ↦ true
    | none ↦ elim (pton6 text) [ some b ↦ true | none ↦ false ]
  ]

  abbrev pub ipv4_from_string : Bytes → Option AddressIpv4
  ipv4_from_string text = elim (pton4 text) [ some w ↦ some (record { word = w }) | none ↦ none ]

  abbrev pub ipv6_from_string : Bytes → Option AddressIpv6
  ipv6_from_string text = elim (pton6 text) [
    | some b ↦ some (record { bytes = b; scope_id = 0 })
    | none ↦ none
  ]

  abbrev pub from_string : Bytes → Option Address
  from_string text = elim (ipv4_from_string text) [
    | some a ↦ some (of_ipv4 a)
    | none ↦ elim (ipv6_from_string text) [ some a ↦ some (of_ipv6 a) | none ↦ none ]
  ]

  -- The text is empty if inet_ntop fails.
  abbrev pub text_of : Option Bytes → Bytes
  text_of none = []
  text_of (some t) = t

  abbrev pub to_text : AddressType → AddressIpv4 → AddressIpv6 → Bytes
  to_text type_ipv4 a b = text_of (ntop4 a.word)
  to_text type_ipv6 a b = text_of (ntop6 b.bytes)

  abbrev pub address_to_string : Address → Bytes
  address_to_string a = to_text a.kind a.ipv4 a.ipv6
