-- ===== src/Locality/Tests.antt =====
-- Two queues of one port, with a packet that is not IPv4 among those of the first.
use queue_dpdk.Prelude.{map, ℕ, ◌≡◌, refl, arith, List, [], ◌∷◌, ◌==◌, if◌then◌else◌, length}
use queue_dpdk.Locality.{RxPkt, Totals, poll_ports, poll_queues, poll_burst, handle_burst, handle}
use queue_dpdk.Locality.Trace.{Traces, Fits64, arrivals, trace_lines, lines, poll_ports-Traces}
use queue_dpdk.Locality.Pairs.{dst_ports, dst_ports-partners}

abbrev pkt : ℕ → ℕ → RxPkt
pkt mbuf ether_type = record {
  mbuf = mbuf;
  frame = record {
    ether_type = ether_type;
    src_addr = 10;
    dst_addr = 99;
    next_proto_id = 17;
    l4_src_port = 5000;
    l4_dst_port = 53;
  };
}

abbrev received : ℕ → ℕ → List RxPkt
received portid q = if q == 0 then pkt 7 0x0800 ∷ pkt 8 0x86dd ∷ [] else pkt 9 0x0800 ∷ []

abbrev start : Totals
start = record {
  rx = λ p q. 0;
  burst_id = 0;
  global_flow_blocks = 0;
  global_packets = 0;
  global_max_locality = 0;
  total_bursts = 0;
}

two_lines : length (lines (poll_ports received 2 (3 ∷ []) start).0) ≡ 2
unfolding poll_ports poll_queues poll_burst handle_burst handle
two_lines = refl

start-Fits64 : Fits64 start
start-Fits64 = record {
  packets = omega arith;
  id = omega arith;
  bursts = omega arith;
  blocks = omega arith;
}

poll_ports-Traces_example :
    Traces start 2
      (arrivals received 2 (3 ∷ []))
      (trace_lines received 2 (3 ∷ []))
      (poll_ports received 2 (3 ∷ []) start)
poll_ports-Traces_example = poll_ports-Traces received 2 (3 ∷ []) start start-Fits64

dst_ports-partners_example :
    map (dst_ports 29 (0 ∷ 1 ∷ 2 ∷ 3 ∷ [])) (0 ∷ 2 ∷ 3 ∷ []) ≡ 2 ∷ 0 ∷ 3 ∷ []
dst_ports-partners_example = dst_ports-partners 29 (0 ∷ 1 ∷ 2 ∷ 3 ∷ []) (
  (ground arith, (ground arith, (ground arith, tt))),
  ((ground arith, (ground arith, tt)), ((ground arith, tt), (tt, tt))),
)
