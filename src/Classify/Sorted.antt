-- ===== src/Classify/Sorted.antt =====
-- nf-chain/src/main.c, `prepare_acl_parameter`: where each packet of a burst ends up.
use queue_dpdk.Prelude.{
  ℕ, ◌-◌, Bool, not, ◌&&◌, ◌||◌, none, some, List, [], ◌∷◌, ◌++◌, map, select, get_elem?, ◌==◌, ◌+◌,
  ◌/◌, ◌%◌, ◌<◌, leb, if◌then◌else◌,
}
use queue_dpdk.Classify.{Pkt, AclSearch, prepare_one_packet}

-- RFC 1812, 5.2.2: 20 bytes arrived, the version is 4, the header has 5 words or more and the
-- datagram the length of a header.
abbrev pub is_sound : Pkt → Bool
is_sound p =
    let h = p.ipv4_hdr in
    leb 20 p.pkt_len
    && (h.version_ihl / 16 == 4 && (leb 5 (h.version_ihl % 16) && leb 20 h.total_length))

-- One hop less to live, where 0 becomes 255, and a checksum of one more, where 65535 becomes 0.
abbrev pub one_hop : Pkt → Pkt
one_hop p =
    let h = p.ipv4_hdr in
    record p {
      ipv4_hdr = record h {
        time_to_live = if h.time_to_live == 0 then 255 else h.time_to_live - 1;
        hdr_checksum = if h.hdr_checksum == 65535 then 0 else h.hdr_checksum + 1;
      };
    }

-- The fields that `forwarded` changes are of 8 and of 16 bits.
abbrev pub IsHeader : Pkt → Type 0
IsHeader p = (p.ipv4_hdr.time_to_live < 256) × (p.ipv4_hdr.hdr_checksum < 65536)

module _ (is_ipv4_hdr is_ipv6_hdr : ℕ → Bool) where
  -- Where the code puts a packet.
  abbrev pub takes_ipv4 : Pkt → Bool
  takes_ipv4 p = is_ipv4_hdr p.packet_type || p.packet_type == 0

  abbrev pub to_ipv4 : Pkt → Bool
  to_ipv4 p = takes_ipv4 p && is_sound p

  abbrev pub to_ipv6 : Pkt → Bool
  to_ipv6 p = not (takes_ipv4 p) && is_ipv6_hdr p.packet_type

  abbrev pub rejected : Pkt → Bool
  rejected p = not (to_ipv4 p) && not (to_ipv6 p)

  -- The packets added to the three lists, in order.
  abbrev sorted : AclSearch → List Pkt → AclSearch
  sorted acl ps = record {
    m_ipv4 = acl.m_ipv4 ++ map one_hop (select to_ipv4 ps);
    m_ipv6 = acl.m_ipv6 ++ select to_ipv6 ps;
    freed = acl.freed ++ map (λ p. p.mbuf) (select rejected ps);
  }

  prepare_list : List Pkt → AclSearch → AclSearch
  prepare_list [] acl = acl
  prepare_list (p ∷ ps) acl = prepare_list ps (prepare_one_packet is_ipv4_hdr is_ipv6_hdr acl p)

  -- One index of a loop.
  prepare_at : List Pkt → ℕ → AclSearch → AclSearch
  prepare_at ps i acl = elim (get_elem? ps i) [
    | none ↦ acl
    | some p ↦ prepare_one_packet is_ipv4_hdr is_ipv6_hdr acl p
  ]
