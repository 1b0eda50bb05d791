-- ===== src/Magic/RoundTrip.antt =====
-- nf-chain/src/main.c: `check_packet_magic` knows the packets of `create_latency_packet`.
use Prim.Native.String.{String}
use mathlib.Core.Path.{subst}
use mathlib.Core.Option.{get_or}
use queue_dpdk.Prelude.{
  ap, ℕ, ◌^◌, ◌<◌, ◌≡◌, ◌↔◌, Bool, true, false, some, ◌==◌, ==_iff, refl, arith,
}
use queue_dpdk.Magic.{
  UdpPacket, store_u32, load_u32, fill, create_udp_packet, create_latency_packet,
  check_packet_magic,
}

load_u32-store_u32 :
    (bytes : ℕ → ℕ) (at v : ℕ) → v < 2 ^ 32 → load_u32 (store_u32 bytes at v) at ≡ v
unfolding load_u32 store_u32
load_u32-store_u32 bytes at v h = ground (arith, h)

==_same : (a : ℕ) → (a == a) ≡ true
==_same a = (==_iff a a).1 refl

check_packet_magic-made :
    (inet_addr : String → ℕ) (alloc append : Bool) (room : ℕ → ℕ) (magic_value expected_magic : ℕ)
    (m : UdpPacket)
    → magic_value < 2 ^ 32
    → create_latency_packet inet_addr alloc append room magic_value ≡ some m
    → check_packet_magic inet_addr m expected_magic ≡ (magic_value == expected_magic)
unfolding create_latency_packet create_udp_packet check_packet_magic
check_packet_magic-made inet_addr false append room magic_value expected_magic m h e = cc e
check_packet_magic-made inet_addr true false room magic_value expected_magic m h e = cc e
check_packet_magic-made inet_addr true true room magic_value expected_magic m h e =
    subst (λ m. check_packet_magic inet_addr m expected_magic ≡ (magic_value == expected_magic))
      (ap (λ o. get_or o m) e)
      (rw (
        check_packet_magic,
        ==_same (inet_addr "192.168.0.1"),
        ==_same (inet_addr "192.168.1.1"),
        load_u32-store_u32 (fill 22 room) 6 magic_value h,
      ))

module _ (inet_addr : String → ℕ) (alloc append : Bool) (room : ℕ → ℕ) where
  -- When a buffer with enough room is had, the packet that `create_latency_packet` makes with one
  -- 32-bit magic number passes `check_packet_magic` with another just when the two are the same.
  pub check_packet_magic-create_latency_packet :
      (magic_value expected_magic : ℕ) (m : UdpPacket)
      → magic_value < 2 ^ 32
      → create_latency_packet inet_addr alloc append room magic_value ≡ some m
      → (check_packet_magic inet_addr m expected_magic ≡ true) ↔ (magic_value ≡ expected_magic)
  check_packet_magic-create_latency_packet magic_value expected_magic m h e =
      rw (check_packet_magic-made inet_addr alloc append room magic_value expected_magic m h e)
        (==_iff magic_value expected_magic)
