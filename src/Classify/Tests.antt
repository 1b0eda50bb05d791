-- ===== src/Classify/Tests.antt =====
-- A burst of four packets.
use queue_dpdk.Prelude.{ℕ, ◌≡◌, refl, List, [], ◌∷◌, ◌==◌}
use queue_dpdk.Classify.{
  Pkt, Ipv4Hdr, forwarded, is_valid_ipv4_pkt, prepare_acl_parameter, prepare_range,
  prepare_one_packet,
}

abbrev header : ℕ → ℕ → Ipv4Hdr
header version_ihl ttl = record {
  version_ihl = version_ihl;
  total_length = 40;
  time_to_live = ttl;
  hdr_checksum = 65535;
}

abbrev pkt : ℕ → ℕ → ℕ → ℕ → Pkt
pkt mbuf packet_type version_ihl ttl = record {
  mbuf = mbuf;
  packet_type = packet_type;
  pkt_len = 60;
  ipv4_hdr = header version_ihl ttl;
}

-- A valid IPv4 packet, an IPv6 packet, one of another type, and one with a short header.
abbrev burst : List Pkt
burst = pkt 1 16 69 64 ∷ pkt 2 64 96 0 ∷ pkt 3 1 0 0 ∷ pkt 4 16 68 64 ∷ []

burst_freed : (prepare_acl_parameter (◌==◌ 16) (◌==◌ 64) burst 4).freed ≡ 3 ∷ 4 ∷ []
unfolding prepare_acl_parameter prepare_range prepare_one_packet is_valid_ipv4_pkt
burst_freed = refl

-- The time to live of an expired packet wraps.
expired_wraps : (forwarded (pkt 1 16 69 0)).ipv4_hdr.time_to_live ≡ 255
unfolding forwarded
expired_wraps = refl
