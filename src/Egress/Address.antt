-- ===== src/Egress/Address.antt =====
-- IP addresses, the tests of `std::net` on them, and the policy of the egress proxy,
-- services/clouddeskd/src/browser_egress_proxy.rs.
use Prim.Native.Nat.{bit_and}
use cloud_desk_os.Prelude.{
  ℕ, ◌/◌, ◌%◌, Bool, false, not, ◌&&◌, ◌||◌, List, ◌++◌, leb, ◌==◌, is_empty, any, all,
}

-- Four octets, eight segments of 16 bits.
pub record Ipv4Addr : Type 0 where
  pub a : ℕ
  pub b : ℕ
  pub c : ℕ
  pub d : ℕ

pub record Ipv6Addr : Type 0 where
  pub s0 : ℕ
  pub s1 : ℕ
  pub s2 : ℕ
  pub s3 : ℕ
  pub s4 : ℕ
  pub s5 : ℕ
  pub s6 : ℕ
  pub s7 : ℕ

pub data IpAddr : Type 0 where
  v4 : Ipv4Addr → IpAddr
  v6 : Ipv6Addr → IpAddr

pub record SocketAddr : Type 0 where
  pub ip : IpAddr
  pub port : ℕ

unfoldable pub v4_eq : Ipv4Addr → Ipv4Addr → Bool
v4_eq x y = x.a == y.a && x.b == y.b && x.c == y.c && x.d == y.d

-- `is_loopback`, `is_link_local`, `is_private`, `is_unspecified`, `is_broadcast` and
-- `is_documentation` of `Ipv4Addr`.
unfoldable pub is_loopback : Ipv4Addr → Bool
is_loopback ip = ip.a == 127

unfoldable pub is_link_local : Ipv4Addr → Bool
is_link_local ip = ip.a == 169 && ip.b == 254

unfoldable pub is_private : Ipv4Addr → Bool
is_private ip =
    ip.a == 10 || ip.a == 172 && leb 16 ip.b && leb ip.b 31 || ip.a == 192 && ip.b == 168

unfoldable pub is_unspecified : Ipv4Addr → Bool
is_unspecified ip = ip.a == 0 && ip.b == 0 && ip.c == 0 && ip.d == 0

unfoldable pub is_broadcast : Ipv4Addr → Bool
is_broadcast ip = ip.a == 255 && ip.b == 255 && ip.c == 255 && ip.d == 255

unfoldable pub is_documentation : Ipv4Addr → Bool
is_documentation ip =
    ip.a == 192 && ip.b == 0 && ip.c == 2
    || ip.a == 198 && ip.b == 51 && ip.c == 100
    || ip.a == 203 && ip.b == 0 && ip.c == 113

unfoldable pub is_blocked_v4 : Ipv4Addr → Bool
is_blocked_v4 ip =
    is_loopback ip
    || is_link_local ip
    || is_private ip
    || is_unspecified ip
    || is_broadcast ip
    || is_documentation ip
    || ip.a == 100 && (leb 64 ip.b && leb ip.b 127)

-- The first six segments of `Ipv6Addr` that its tests look at.
unfoldable pub zero_to_4 : Ipv6Addr → Bool
zero_to_4 ip = ip.s0 == 0 && ip.s1 == 0 && ip.s2 == 0 && ip.s3 == 0 && ip.s4 == 0

-- `is_loopback`, `is_unspecified` and `to_ipv4_mapped` of `Ipv6Addr`; the last as a test and the
-- address that it then gives.
unfoldable pub is_loopback_v6 : Ipv6Addr → Bool
unfolding zero_to_4
is_loopback_v6 ip = zero_to_4 ip && ip.s5 == 0 && ip.s6 == 0 && ip.s7 == 1

unfoldable pub is_unspecified_v6 : Ipv6Addr → Bool
unfolding zero_to_4
is_unspecified_v6 ip = zero_to_4 ip && ip.s5 == 0 && ip.s6 == 0 && ip.s7 == 0

unfoldable pub is_ipv4_mapped : Ipv6Addr → Bool
unfolding zero_to_4
is_ipv4_mapped ip = zero_to_4 ip && ip.s5 == 0xffff

abbrev pub mapped_v4 : Ipv6Addr → Ipv4Addr
mapped_v4 ip = record { a = ip.s6 / 256; b = ip.s6 % 256; c = ip.s7 / 256; d = ip.s7 % 256 }

unfoldable pub is_blocked_v6 : Ipv6Addr → Bool
unfolding is_loopback_v6 is_unspecified_v6 is_ipv4_mapped is_blocked_v4
is_blocked_v6 ip =
    is_loopback_v6 ip
    || is_unspecified_v6 ip
    || bit_and ip.s0 0xfe00 == 0xfc00
    || bit_and ip.s0 0xffc0 == 0xfe80
    || is_ipv4_mapped ip && is_blocked_v4 (mapped_v4 ip)

-- `TEST_ALLOWLIST`: the set of addresses that tests allow, empty in the product.
abbrev pub Allowlist : Type 0
Allowlist = List Ipv4Addr

unfoldable pub set_test_allowlist : List Ipv4Addr → Allowlist → Allowlist
set_test_allowlist addrs set = addrs ++ set

unfoldable pub is_test_allowed : Allowlist → IpAddr → Bool
unfolding any v4_eq
is_test_allowed set (v4 ip) = any (v4_eq ip) set
is_test_allowed set (v6 ip) = false

unfoldable pub is_blocked_destination : Allowlist → IpAddr → Bool
unfolding is_test_allowed is_blocked_v4 is_blocked_v6
is_blocked_destination set (v4 ip) = not (is_test_allowed set (v4 ip)) && is_blocked_v4 ip
is_blocked_destination set (v6 ip) = not (is_test_allowed set (v6 ip)) && is_blocked_v6 ip

unfoldable pub all_safe : Allowlist → List SocketAddr → Bool
unfolding all is_blocked_destination
all_safe set addrs =
    not (is_empty addrs) && all (λ (x : SocketAddr). not (is_blocked_destination set x.ip)) addrs
