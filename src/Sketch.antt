-- ===== src/Sketch.antt =====
-- nf-chain/src/main.c, `count_add`: the Count-Min Sketch of the flows.
pub mod Counts
mod Tests
use Prim.Native.Nat.{bit_and}
use queue_dpdk.Prelude.{
  ℕ, zero, suc, ◌+◌, ◌-◌, Bool, Option, none, some, List, [], ◌∷◌, ◌||◌, ◌==◌, if◌then◌else◌,
  update, u64,
}
use queue_dpdk.Poll.{Mode, is_partitioned}

-- The header fields that `count_add` reads, in host order: the two ports are those that a TCP or
-- UDP header holds.
pub record Frame : Type 0 where
  pub ether_type : ℕ
  pub src_addr : ℕ
  pub dst_addr : ℕ
  pub next_proto_id : ℕ
  pub l4_src_port : ℕ
  pub l4_dst_port : ℕ

-- `struct five_tuple`
pub record FiveTuple : Type 0 where
  pub src_ip : ℕ
  pub dst_ip : ℕ
  pub src_port : ℕ
  pub dst_port : ℕ
  pub proto : ℕ

-- `values`, by row and column.
abbrev pub Counters : Type 0
Counters = ℕ → ℕ → ℕ

abbrev pub hashfn_n : ℕ
hashfn_n = 16

abbrev pub cms_columns : Mode → ℕ
cms_columns mode = if is_partitioned mode then 65536 else 1048576

-- The key of a frame; nothing for one that is not IPv4. The ports of other protocols are 0.
pub five_tuple : Frame → Option FiveTuple
five_tuple m =
    let has_ports = m.next_proto_id == 6 || m.next_proto_id == 17 in
    if m.ether_type == 0x0800
    then some (record {
      src_ip = m.src_addr;
      dst_ip = m.dst_addr;
      src_port = if has_ports then m.l4_src_port else 0;
      dst_port = if has_ports then m.l4_dst_port else 0;
      proto = m.next_proto_id;
    })
    else none

-- `xxhash64` of a key under a seed is a parameter.
module _ (xxhash64 : FiveTuple → ℕ → ℕ) (mode : Mode) where
  pub target_idx : FiveTuple → ℕ → ℕ
  target_idx key i = bit_and (xxhash64 key i) (cms_columns mode - 1)

  -- The loop over the rows, with `n` rows to go, at row `i`.
  pub count_rows : ℕ → ℕ → FiveTuple → Counters → Counters
  count_rows zero i key values = values
  count_rows (suc n) i key values =
      let col = target_idx key i in
      count_rows n (i + 1) key (update values i (update (values i) col (u64 (values i col + 1))))

  pub count_add : Frame → Counters → Counters
  count_add m cms = elim (five_tuple m) [ none ↦ cms | some key ↦ count_rows hashfn_n 0 key cms ]

  -- The sketch after a sequence of frames.
  pub count_all : List Frame → Counters → Counters
  count_all [] cms = cms
  count_all (m ∷ ms) cms = count_all ms (count_add m cms)
