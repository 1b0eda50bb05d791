-- ===== src/Magic/Tests.antt =====
-- The packet that stops a measurement, with addresses in place of texts.
use Prim.Native.String.{String}
use text.Mathlib.Text.{◌==◌ as str_eq}
use queue_dpdk.Prelude.{ℕ, ◌≡◌, ◌↔◌, true, false, some, refl, arith, if◌then◌else◌}
use queue_dpdk.Magic.{
  UdpPacket, be_16, store_u32, fill, create_udp_packet, create_latency_packet, check_packet_magic,
}
use queue_dpdk.Magic.RoundTrip.{check_packet_magic-create_latency_packet}

abbrev addresses : String → ℕ
addresses s = if str_eq s "192.168.0.1" then 16820416 else 16885952

-- The bytes of STOP.
abbrev stop : ℕ
stop = 0x504f5453

abbrev stop_packet : UdpPacket
stop_packet = record {
  d_addr = 0xe0ebd378958d;
  s_addr = 0x020000000001;
  ether_type = 8;
  version_ihl = 69;
  total_length = be_16 50;
  time_to_live = 64;
  next_proto_id = 17;
  src_addr = 16820416;
  dst_addr = 16885952;
  src_port = be_16 1234;
  dst_port = be_16 1028;
  dgram_len = be_16 30;
  payload = store_u32 (fill 22 (λ _. 0)) 6 stop;
}

stop_packet_made : create_latency_packet addresses true true (λ _. 0) stop ≡ some stop_packet
unfolding create_latency_packet create_udp_packet
stop_packet_made = refl

other_port : check_packet_magic addresses (record stop_packet { src_port = 1234 }) stop ≡ false
unfolding check_packet_magic
other_port = refl

check_packet_magic-create_latency_packet_example :
    (check_packet_magic addresses stop_packet stop ≡ true) ↔ (stop ≡ stop)
check_packet_magic-create_latency_packet_example =
    check_packet_magic-create_latency_packet addresses true true (λ _. 0) stop stop stop_packet
      (omega arith) stop_packet_made
