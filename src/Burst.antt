-- ===== src/Burst.antt =====
-- nf-chain/src/main.c, `nf_process_burst`: what happens to the packets of a received burst, through
-- the stop test (Magic), the NAT (Translate) and the sketch (Sketch).
pub mod Cut
pub mod Keeps
mod Tests
use Prim.Native.String.{String}
use queue_dpdk.Prelude.{
  ℕ, ◌+◌, ◌*◌, ◌/◌, ◌%◌, ◌^◌, Bool, true, false, List, [], ◌∷◌, map, if◌then◌else◌,
}
use queue_dpdk.Poll.{Mode}
use queue_dpdk.Magic.{UdpPacket, be_16, check_packet_magic}
use queue_dpdk.Sketch.{Frame, FiveTuple, Counters, count_add}
use queue_dpdk.Translate.Containers.{Tables}
use queue_dpdk.Translate.{Packet, Headers, NfConfig, FlowManager, nf_process}

-- A packet of the burst, what `current_time` says when its turn comes, and what the variables of
-- `nf_process` hold when nothing has written them.
pub record Arrival : Type 0 where
  pub packet : UdpPacket
  pub now : ℕ
  pub junk_device : ℕ
  pub junk_port : ℕ

-- The flow table and the sketch that the burst is given.
pub record Core (T : Tables) : Type 0 where
  pub flow_manager : FlowManager T
  pub cms : Counters

-- `rte_be_to_cpu_32` on a little-endian machine.
abbrev pub be_32 : ℕ → ℕ
be_32 v = be_16 (v % 65536) * 65536 + be_16 (v / 65536)

-- The fields that `nf_process_burst` reads, in network order. The ports are read where a UDP header
-- has them, whatever the protocol.
abbrev pub packet_of : ℕ → UdpPacket → Packet
packet_of portid p = record {
  device = portid;
  ip_proto = p.next_proto_id;
  ip_src = p.src_addr;
  ip_dst = p.dst_addr;
  port_src = p.src_port;
  port_dst = p.dst_port;
}

-- The fields of the payload that `nf_process` writes in place.
abbrev pub headers_of : UdpPacket → Headers
headers_of p = record {
  src_addr = p.src_addr;
  dst_addr = p.dst_addr;
  src_port = p.src_port;
  dst_port = p.dst_port;
}

abbrev pub put_headers : Headers → UdpPacket → UdpPacket
put_headers h p = record p {
  src_addr = h.src_addr;
  dst_addr = h.dst_addr;
  src_port = h.src_port;
  dst_port = h.dst_port;
}

-- What `count_add` reads of a packet.
abbrev pub frame_of : UdpPacket → Frame
frame_of p = record {
  ether_type = be_16 p.ether_type;
  src_addr = be_32 p.src_addr;
  dst_addr = be_32 p.dst_addr;
  next_proto_id = p.next_proto_id;
  l4_src_port = be_16 p.src_port;
  l4_dst_port = be_16 p.dst_port;
}

-- `str_to_u32("STOP123456789")`: the first four bytes.
abbrev pub stop_magic : ℕ
stop_magic = 0x504f5453

module _ (T : Tables) (inet_addr : String → ℕ) (xxhash64 : FiveTuple → ℕ → ℕ) (mode : Mode)
    (config : NfConfig) (portid : ℕ) where
  -- One packet through the NAT, and then the sketch, which reads the packet that the NAT has
  -- rewritten.
  pub process_packet : Arrival → Core T → UdpPacket × Core T
  process_packet a s =
      let p = a.packet in
      let out =
        nf_process T config a.junk_device a.junk_port s.flow_manager (packet_of portid p)
          (headers_of p) a.now in
      let sent = put_headers out.1 p in
      (sent, record { flow_manager = out.2; cms = count_add xxhash64 mode (frame_of sent) s.cms })

  -- Whether it returns 1, the packets as they then are, and the table and the sketch.
  pub nf_process_burst : List Arrival → Core T → Bool × List UdpPacket × Core T
  nf_process_burst [] s = (false, [], s)
  nf_process_burst (a ∷ rest) s =
      let one = process_packet a s in
      let others = nf_process_burst rest one.1 in
      if check_packet_magic inet_addr a.packet stop_magic
      then (true, map (λ b. b.packet) (a ∷ rest), s)
      else (others.0, one.0 ∷ others.1, others.2)
