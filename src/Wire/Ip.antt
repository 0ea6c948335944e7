-- ===== src/Wire/Ip.antt =====
-- wire/ip.rs: addresses, endpoints and the lowered IP representation, as far as TCP reads them.
use smoltcp.Prelude.{◌/◌, ◌^◌, ◌||◌, not, ℕ, Bool, true, false, ◌&&◌, Option, none, some, ◌==◌}

-- An address of either version is the number that its octets spell.
pub data IpAddress : Type 0 where
  ipv4 ipv6 : ℕ → IpAddress

-- The first octet of an IPv4 address is 0; an IPv6 address is 0.
abbrev pub is_unspecified : IpAddress → Bool
is_unspecified (ipv4 a) = a / 16777216 == 0
is_unspecified (ipv6 a) = a == 0

-- The IPv4 broadcast address is no unicast address, the multicast addresses begin with 1110 or 0xff.
abbrev pub is_unicast : IpAddress → Bool
is_unicast (ipv4 a) = not ((a == 4294967295) || (a / 268435456 == 14) || (a / 16777216 == 0))
is_unicast (ipv6 a) = not ((a / 2 ^ 120 == 255) || (a == 0))

abbrev pub addr_eq : IpAddress → IpAddress → Bool
addr_eq (ipv4 a) (ipv4 b) = a == b
addr_eq (ipv4 a) (ipv6 b) = false
addr_eq (ipv6 a) (ipv4 b) = false
addr_eq (ipv6 a) (ipv6 b) = a == b

abbrev pub same_version : IpAddress → IpAddress → Bool
same_version (ipv4 a) (ipv4 b) = true
same_version (ipv4 a) (ipv6 b) = false
same_version (ipv6 a) (ipv4 b) = false
same_version (ipv6 a) (ipv6 b) = true

-- The header's length, IPV4_HEADER_LEN or IPV6_HEADER_LEN.
abbrev pub ip_header_len : IpAddress → ℕ
ip_header_len (ipv4 a) = 20
ip_header_len (ipv6 a) = 40

pub record IpEndpoint : Type 0 where
  pub addr : IpAddress
  pub port : ℕ

pub record IpListenEndpoint : Type 0 where
  pub addr : Option IpAddress
  pub port : ℕ

abbrev pub listen_endpoint_eq : IpListenEndpoint → IpListenEndpoint → Bool
listen_endpoint_eq a b = opt_eq a.addr b.addr && (a.port == b.port)
  where
    opt_eq : Option IpAddress → Option IpAddress → Bool
    opt_eq none none = true
    opt_eq none (some y) = false
    opt_eq (some x) none = false
    opt_eq (some x) (some y) = addr_eq x y

pub record IpRepr : Type 0 where
  pub src_addr : IpAddress
  pub dst_addr : IpAddress
  pub payload_len : ℕ
  pub hop_limit : ℕ
