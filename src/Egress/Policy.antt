-- ===== src/Egress/Policy.antt =====
-- What the policy of the egress proxy blocks, as ranges of addresses.
use Prim.Native.Nat.{bit_and}
use cloud_desk_os.Prelude.{
  ℕ, zero, suc, ◌+◌, ◌*◌, ◌<◌, ◌≤◌, Bool, true, not, ◌&&◌, ◌||◌, List, [], ◌∷◌, ltb, leb,
  if◌then◌else◌, ◌==◌, any, ◌≡◌, refl, arith, subst, Bool-cases, inl, inr,
}
use cloud_desk_os.Egress.Address.{
  Ipv4Addr, Ipv6Addr, IpAddr, v4, v6, is_blocked_destination, is_test_allowed, is_loopback,
  is_link_local, is_private, is_unspecified, is_broadcast, is_documentation, is_blocked_v4,
  is_blocked_v6, is_ipv4_mapped, is_loopback_v6, is_unspecified_v6, zero_to_4, mapped_v4,
}

-- An address as one number of 32 bits.
abbrev pub number : Ipv4Addr → ℕ
number ip = ((ip.a * 256 + ip.b) * 256 + ip.c) * 256 + ip.d

pub record IsIpv4 (ip : Ipv4Addr) : Type 0 where
  pub a_byte : ip.a < 256
  pub b_byte : ip.b < 256
  pub c_byte : ip.c < 256
  pub d_byte : ip.d < 256

-- A block of addresses: its first one, and how many it has.
unfoldable pub in_block : ℕ → ℕ × ℕ → Bool
in_block n block = leb block.0 n && ltb n (block.0 + block.1)

-- 127/8, 169.254/16, 10/8, 172.16/12, 192.168/16, 0.0.0.0/32, 255.255.255.255/32, 192.0.2/24,
-- 198.51.100/24, 203.0.113/24 and 100.64/10.
abbrev pub denied_blocks : List (ℕ × ℕ)
denied_blocks =
    (127 * 16777216, 16777216)
    ∷ (169 * 16777216 + 254 * 65536, 65536)
    ∷ (10 * 16777216, 16777216)
    ∷ (172 * 16777216 + 16 * 65536, 16 * 65536)
    ∷ (192 * 16777216 + 168 * 65536, 65536)
    ∷ (0, 1)
    ∷ (255 * 16777216 + 255 * 65536 + 255 * 256 + 255, 1)
    ∷ (192 * 16777216 + 2 * 256, 256)
    ∷ (198 * 16777216 + 51 * 65536 + 100 * 256, 256)
    ∷ (203 * 16777216 + 113 * 256, 256)
    ∷ (100 * 16777216 + 64 * 65536, 64 * 65536)
    ∷ []

module _ (ip : Ipv4Addr) (h : IsIpv4 ip) where
  block_of_a : (k : ℕ) → (ip.a == k) ≡ in_block (number ip) (k * 16777216, 16777216)
  unfolding in_block
  block_of_a k = let p = h.b_byte in let q = h.c_byte in let r = h.d_byte in ground arith

  block_of_b :
      (k m n : ℕ)
      → m < 256
      → n + m ≤ 256
      → (ip.a == k && (leb m ip.b && ltb ip.b (m + n)))
        ≡ in_block (number ip) (k * 16777216 + m * 65536, n * 65536)
  unfolding in_block
  block_of_b k m n x y = let p = h.b_byte in let q = h.c_byte in let r = h.d_byte in ground arith

  block_of_c :
      (k m n : ℕ)
      → m < 256
      → n < 256
      → (ip.a == k && ip.b == m && ip.c == n)
        ≡ in_block (number ip) (k * 16777216 + m * 65536 + n * 256, 256)
  unfolding in_block
  block_of_c k m n x y = let p = h.b_byte in let q = h.c_byte in let r = h.d_byte in ground arith

  block_of_d :
      (k l m n : ℕ)
      → l < 256
      → m < 256
      → n < 256
      → (ip.a == k && ip.b == l && ip.c == m && ip.d == n)
        ≡ in_block (number ip) (k * 16777216 + l * 65536 + m * 256 + n, 1)
  unfolding in_block
  block_of_d k l m n x y z =
      let p = h.b_byte in let q = h.c_byte in let r = h.d_byte in ground arith

  link_local_block :
      is_link_local ip ≡ in_block (number ip) (169 * 16777216 + 254 * 65536, 1 * 65536)
  unfolding is_link_local
  link_local_block = ground (arith, block_of_b 169 254 1 (omega arith) (omega arith))

  private_blocks : is_private ip ≡ (
      in_block (number ip) (10 * 16777216, 16777216)
      || in_block (number ip) (172 * 16777216 + 16 * 65536, 16 * 65536)
      || in_block (number ip) (192 * 16777216 + 168 * 65536, 1 * 65536))
  unfolding is_private
  private_blocks = ground (
    arith,
    block_of_a 10,
    block_of_b 172 16 16 (omega arith) (omega arith),
    block_of_b 192 168 1 (omega arith) (omega arith),
  )

  shared_block :
      (ip.a == 100 && (leb 64 ip.b && leb ip.b 127))
      ≡ in_block (number ip) (100 * 16777216 + 64 * 65536, 64 * 65536)
  shared_block = ground (arith, block_of_b 100 64 64 (omega arith) (omega arith))

  documentation_blocks : is_documentation ip ≡ (
      in_block (number ip) (192 * 16777216 + 0 * 65536 + 2 * 256, 256)
      || in_block (number ip) (198 * 16777216 + 51 * 65536 + 100 * 256, 256)
      || in_block (number ip) (203 * 16777216 + 0 * 65536 + 113 * 256, 256))
  unfolding is_documentation
  documentation_blocks = ground (
    arith,
    block_of_c 192 0 2 (omega arith) (omega arith),
    block_of_c 198 51 100 (omega arith) (omega arith),
    block_of_c 203 0 113 (omega arith) (omega arith),
  )

  unspecified_block : is_unspecified ip ≡ in_block (number ip) (0, 1)
  unfolding is_unspecified
  unspecified_block = block_of_d 0 0 0 0 (omega arith) (omega arith) (omega arith)

  broadcast_block :
      is_broadcast ip ≡ in_block (number ip) (255 * 16777216 + 255 * 65536 + 255 * 256 + 255, 1)
  unfolding is_broadcast
  broadcast_block = block_of_d 255 255 255 255 (omega arith) (omega arith) (omega arith)

  loopback_block : is_loopback ip ≡ in_block (number ip) (127 * 16777216, 16777216)
  unfolding is_loopback
  loopback_block = block_of_a 127

  pub is_blocked_v4_blocks : is_blocked_v4 ip ≡ any (in_block (number ip)) denied_blocks
  unfolding any
  is_blocked_v4_blocks =
      unfold is_blocked_v4 in
      ground (
        arith, loopback_block, link_local_block, private_blocks, unspecified_block, broadcast_block,
        documentation_blocks, shared_block,
      )

-- Two tests of a segment that agree on the numbers below a limit, by evaluation.
agree : ℕ → (f g : ℕ → Bool) → Bool
agree zero f g = true
agree (suc limit) f g =
    let rest = agree limit f g in if f limit then g limit && rest else not (g limit) && rest

agree_lem : (limit s : ℕ) (f g : ℕ → Bool) → s < limit → agree limit f g ≡ true → f s ≡ g s
unfolding agree
agree_lem zero s f g below h = absurd (omega arith)
agree_lem (suc limit) s f g below h =
    let before = agree_lem limit s f g in
    elim (Bool-cases (f limit)) [ inl e ↦ ground (arith, before) | inr e ↦ ground (arith, before) ]

abbrev unique_local : ℕ → Bool
unique_local s = bit_and s 0xfe00 == 0xfc00

abbrev link_local : ℕ → Bool
link_local s = bit_and s 0xffc0 == 0xfe80

abbrev in_unique_local : ℕ → Bool
in_unique_local s = leb 0xfc00 s && leb s 0xfdff

abbrev in_link_local : ℕ → Bool
in_link_local s = leb 0xfe80 s && leb s 0xfebf

unique_local_table : agree 65536 unique_local in_unique_local ≡ true
unfolding agree
unique_local_table = refl

link_local_table : agree 65536 link_local in_link_local ≡ true
unfolding agree
link_local_table = refl

unique_local_mask : (s : ℕ) → s < 65536 → unique_local s ≡ in_unique_local s
unique_local_mask s h = agree_lem 65536 s unique_local in_unique_local h unique_local_table

link_local_mask : (s : ℕ) → s < 65536 → link_local s ≡ in_link_local s
link_local_mask s h = agree_lem 65536 s link_local in_link_local h link_local_table

-- The last two segments as one number.
abbrev pub low_number : Ipv6Addr → ℕ
low_number ip = ip.s6 * 65536 + ip.s7

mapped_number : (ip : Ipv6Addr) → number (mapped_v4 ip) ≡ low_number ip
mapped_number ip = omega arith

-- The blocks that an IPv6 address is tested against: `::` and `::1`, fc00::/7, fe80::/10, and the
-- IPv4 ones below `::ffff:0:0`.
abbrev pub denied_v6 : Ipv6Addr → Bool
denied_v6 ip =
    zero_to_4 ip && ip.s5 == 0 && leb (low_number ip) 1
    || leb 0xfc00 ip.s0 && leb ip.s0 0xfdff
    || leb 0xfe80 ip.s0 && leb ip.s0 0xfebf
    || zero_to_4 ip && ip.s5 == 0xffff && any (in_block (low_number ip)) denied_blocks

module _ (ip : Ipv6Addr) (h0 : ip.s0 < 65536) (h6 : ip.s6 < 65536) (h7 : ip.s7 < 65536) where
  mapped_blocks : is_blocked_v4 (mapped_v4 ip) ≡ any (in_block (low_number ip)) denied_blocks
  mapped_blocks =
      subst (λ n. is_blocked_v4 (mapped_v4 ip) ≡ any (in_block n) denied_blocks) (mapped_number ip)
        (is_blocked_v4_blocks (mapped_v4 ip) record {
          a_byte = omega arith;
          b_byte = omega arith;
          c_byte = omega arith;
          d_byte = omega arith;
        })

  lowest_two :
      (is_loopback_v6 ip || is_unspecified_v6 ip)
      ≡ (zero_to_4 ip && ip.s5 == 0 && leb (low_number ip) 1)
  unfolding is_loopback_v6 is_unspecified_v6
  lowest_two = elim (Bool-cases (zero_to_4 ip)) [ inl e ↦ rw e (ground arith) | inr e ↦ rw e refl ]

  pub is_blocked_v6_blocks : is_blocked_v6 ip ≡ denied_v6 ip
  is_blocked_v6_blocks =
      unfold is_blocked_v6 is_ipv4_mapped in
      ground
        (arith, mapped_blocks, lowest_two, unique_local_mask ip.s0 h0, link_local_mask ip.s0 h0)

abbrev pub IsIp : IpAddr → Type 0
IsIp (v4 ip) = IsIpv4 ip
IsIp (v6 ip) = ip.s0 < 65536 × ip.s6 < 65536 × ip.s7 < 65536

abbrev pub denied : IpAddr → Bool
denied (v4 ip) = any (in_block (number ip)) denied_blocks
denied (v6 ip) = denied_v6 ip

-- With no address allowed to tests, as in the product, the policy blocks exactly the addresses of
-- the denied blocks: for IPv4 those of the eleven ranges, for IPv6 `::`, `::1`, fc00::/7, fe80::/10
-- and the addresses `::ffff:a.b.c.d` whose IPv4 address is in one of the eleven.
pub is_blocked_destination_blocks :
    (ip : IpAddr) → IsIp ip → is_blocked_destination [] ip ≡ denied ip
unfolding is_blocked_destination is_test_allowed any
is_blocked_destination_blocks (v4 ip) h = is_blocked_v4_blocks ip h
is_blocked_destination_blocks (v6 ip) h = is_blocked_v6_blocks ip h.0 h.1 h.2
