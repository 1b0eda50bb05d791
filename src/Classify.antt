-- ===== src/Classify.antt =====
-- nf-chain/src/main.c: the packets of a burst sorted for the ACL lookup, and RFC 1812's checks.
pub mod Sorted
mod Tests
use queue_dpdk.Prelude.{
  ℕ, zero, suc, ◌+◌, ◌-◌, ◌/◌, ◌%◌, ◌^◌, Bool, true, false, not, ◌&&◌, ◌||◌, Option, none, some,
  List, [], ◌∷◌, ◌++◌, ltb, ◌==◌, if◌then◌else◌, get_elem?, u8, u16,
}
use queue_dpdk.Poll.{Mbuf}

-- The fields of the IPv4 header that are read or written; `total_length` in host order, the
-- checksum as the number that the CPU loads.
pub record Ipv4Hdr : Type 0 where
  pub version_ihl : ℕ
  pub total_length : ℕ
  pub time_to_live : ℕ
  pub hdr_checksum : ℕ

pub record Pkt : Type 0 where
  pub mbuf : Mbuf
  pub packet_type : ℕ
  pub pkt_len : ℕ
  pub ipv4_hdr : Ipv4Hdr

-- `struct acl_search_t`: the arrays up to `num_ipv4` and `num_ipv6`, and the buffers given back.
pub record AclSearch : Type 0 where
  pub m_ipv4 : List Pkt
  pub m_ipv6 : List Pkt
  pub freed : List Mbuf

abbrev pub prefetch_offset : ℕ
prefetch_offset = 3

-- The result, less its sign: 0 for a valid packet.
pub is_valid_ipv4_pkt : Ipv4Hdr → ℕ → ℕ
is_valid_ipv4_pkt pkt link_len =
    if ltb link_len 20
    then 1
    else if not (pkt.version_ihl / 16 == 4)
    then 3
    else if ltb (pkt.version_ihl % 16) 5
    then 4
    else if ltb pkt.total_length 20
    then 5
    else 0

-- `--time_to_live`, a uint8_t, and `++hdr_checksum`, a uint16_t.
pub forwarded : Pkt → Pkt
forwarded p =
    let h = p.ipv4_hdr in
    record p {
      ipv4_hdr = record h {
        time_to_live = u8 (h.time_to_live + 255);
        hdr_checksum = u16 (h.hdr_checksum + 1);
      };
    }

-- `RTE_ETH_IS_IPV4_HDR` and `RTE_ETH_IS_IPV6_HDR` are parameters.
module _ (is_ipv4_hdr is_ipv6_hdr : ℕ → Bool) where
  pub prepare_one_packet : AclSearch → Pkt → AclSearch
  prepare_one_packet acl p =
      if is_ipv4_hdr p.packet_type || p.packet_type == 0
      then (if is_valid_ipv4_pkt p.ipv4_hdr p.pkt_len == 0
          then record acl { m_ipv4 = acl.m_ipv4 ++ (forwarded p ∷ []) }
          else record acl { freed = acl.freed ++ (p.mbuf ∷ []) })
      else if is_ipv6_hdr p.packet_type
      then record acl { m_ipv6 = acl.m_ipv6 ++ (p ∷ []) }
      else record acl { freed = acl.freed ++ (p.mbuf ∷ []) }

  -- A loop over the indices from `i`, with `n` to go. An index behind the burst does nothing.
  pub prepare_range : List Pkt → ℕ → ℕ → AclSearch → AclSearch
  prepare_range pkts_in zero i acl = acl
  prepare_range pkts_in (suc n) i acl =
      prepare_range pkts_in n (suc i)
        (elim (get_elem? pkts_in i) [ none ↦ acl | some p ↦ prepare_one_packet acl p ])

  -- The loop that prefetches, and the loop over the packets that it leaves.
  pub prepare_acl_parameter : List Pkt → ℕ → AclSearch
  prepare_acl_parameter pkts_in nb_rx =
      let main = nb_rx - prefetch_offset in
      prepare_range pkts_in (nb_rx - main) main
        (prepare_range pkts_in main 0 (record { m_ipv4 = []; m_ipv6 = []; freed = [] }))
