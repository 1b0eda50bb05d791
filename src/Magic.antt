-- ===== src/Magic.antt =====
-- nf-chain/src/main.c: the packets that carry a magic number, which start and stop a measurement.
pub mod RoundTrip
mod Tests
use Prim.Native.String.{String}
use queue_dpdk.Prelude.{
  ℕ, zero, suc, ◌+◌, ◌-◌, ◌*◌, ◌/◌, ◌%◌, ◌^◌, Bool, true, false, ◌&&◌, ◌||◌, not, Option, none,
  some, ◌==◌, if◌then◌else◌, update, u8,
}

-- The fields of a packet that is made here, as the CPU loads them, and its UDP payload.
pub record UdpPacket : Type 0 where
  pub d_addr : ℕ
  pub s_addr : ℕ
  pub ether_type : ℕ
  pub version_ihl : ℕ
  pub total_length : ℕ
  pub time_to_live : ℕ
  pub next_proto_id : ℕ
  pub src_addr : ℕ
  pub dst_addr : ℕ
  pub src_port : ℕ
  pub dst_port : ℕ
  pub dgram_len : ℕ
  pub payload : ℕ → ℕ

-- `rte_cpu_to_be_16` and `rte_be_to_cpu_16` on a little-endian machine.
abbrev pub be_16 : ℕ → ℕ
be_16 v = v % 256 * 256 + v / 256

abbrev pub pkt_size : ℕ
pkt_size = 64

-- The bytes of the Ethernet, IPv4 and UDP headers.
abbrev pub headers_size : ℕ
headers_size = 14 + 20 + 8

-- `(offset + 8) & ~7`: where the magic number stands in the packet.
abbrev pub magic_offset : ℕ
magic_offset = (headers_size + 8) / 8 * 8

-- `memcpy` of a uint32_t to and from four bytes, lowest first.
unfoldable pub store_u32 : (ℕ → ℕ) → ℕ → ℕ → ℕ → ℕ
store_u32 bytes at v =
    update
      (update (update (update bytes at (v % 256)) (at + 1) (v / 256 % 256)) (at + 2)
        (v / 65536 % 256))
      (at + 3) (v / 16777216 % 256)

unfoldable pub load_u32 : (ℕ → ℕ) → ℕ → ℕ
load_u32 bytes at =
    bytes at + bytes (at + 1) * 256 + bytes (at + 2) * 65536 + bytes (at + 3) * 16777216

-- The loop that fills the first `n` bytes.
unfoldable pub fill : ℕ → (ℕ → ℕ) → ℕ → ℕ
fill zero payload = payload
fill (suc n) payload = update (fill n payload) n (u8 n)

-- `alloc` and `append` say whether the buffer and its room are had. The header checksum, which
-- nothing here reads, is left out.
pub create_udp_packet : Bool → Bool → (ℕ → ℕ) → ℕ → ℕ → ℕ → ℕ → ℕ → ℕ → ℕ → Option UdpPacket
create_udp_packet alloc append room src_mac dst_mac src_ip dst_ip src_port dst_port magic_value =
    if not (alloc && append)
    then none
    else some (record {
      d_addr = dst_mac;
      s_addr = src_mac;
      ether_type = be_16 0x0800;
      version_ihl = 4 * 16 + 20 / 4;
      total_length = be_16 (pkt_size - 14);
      time_to_live = 64;
      next_proto_id = 17;
      src_addr = src_ip;
      dst_addr = dst_ip;
      src_port = be_16 src_port;
      dst_port = be_16 dst_port;
      dgram_len = be_16 (pkt_size - 14 - 20);
      payload =
          store_u32 (fill (pkt_size - headers_size) room) (magic_offset - headers_size) magic_value;
    })

-- `inet_addr` is a parameter.
module _ (inet_addr : String → ℕ) where
  pub create_latency_packet : Bool → Bool → (ℕ → ℕ) → ℕ → Option UdpPacket
  create_latency_packet alloc append room magic_value =
      create_udp_packet alloc append room 0x020000000001 0xe0ebd378958d (inet_addr "192.168.0.1")
        (inet_addr "192.168.1.1") 1234 1028 magic_value

  -- Whether it returns 0.
  unfoldable pub check_packet_magic : UdpPacket → ℕ → Bool
  check_packet_magic m expected_magic =
      if not (m.src_addr == inet_addr "192.168.0.1")
        || (not (m.dst_addr == inet_addr "192.168.1.1") || not (m.next_proto_id == 17))
      then false
      else if not (be_16 m.dst_port == 1028) || not (be_16 m.src_port == 1234)
      then false
      else load_u32 m.payload (magic_offset - headers_size) == expected_magic
