-- ===== src/Translate.antt =====
-- nf-chain/src/nat_main.c, nat_flowmanager.c, state.c and flow.h: the NAT and its flow table.
pub mod Containers
pub mod Places
pub mod Shards
pub mod Coherent
pub mod Process
pub mod Simple
mod Tests
use queue_dpdk.Prelude.{
  ℕ, ◌+◌, ◌-◌, ◌*◌, ◌/◌, ◌%◌, ◌^◌, Bool, true, false, Option, none, some, ltb, ◌==◌, if◌then◌else◌,
  List, [], ◌∷◌, ◌||◌, length, get_elem?, zero, suc, u16, u32, u64,
}
use Containers.{FlowId, key_equals, Tables}

-- `struct FlowManager` with its `struct State`. Locks are left out: the operations run one by one.
pub record FlowManager (T : Tables) : Type 0 where
  pub fm : T.Map
  pub fv : T.Vector
  pub heap : T.Chain
  pub start_port : ℕ  -- uint16_t
  pub max_flows : ℕ
  pub expiration_time : ℕ  -- uint32_t

-- `int` as its bit pattern: `external_port - start_port`.
pub index_of : ℕ → ℕ → ℕ
index_of external_port start_port = u32 (external_port + 2 ^ 32 - start_port)

-- The fields of the IPv4 and TCP or UDP headers that `nf_process` writes.
pub record Headers : Type 0 where
  pub src_addr : ℕ
  pub dst_addr : ℕ
  pub src_port : ℕ
  pub dst_port : ℕ

-- What `nf_process` is given besides the payload.
pub record Packet : Type 0 where
  pub device : ℕ
  pub ip_proto : ℕ
  pub ip_src : ℕ
  pub ip_dst : ℕ
  pub port_src : ℕ
  pub port_dst : ℕ

-- The configuration that `nf_process` reads.
pub record NfConfig : Type 0 where
  pub wan_device : ℕ
  pub external_addr : ℕ
  pub drop_when_full : Bool

abbrev pub explicit_drop : ℕ
explicit_drop = 2 ^ 16 - 1

-- The key that `nf_process` makes of a packet from the inside.
pub flow_id : Packet → FlowId
flow_id p = record {
  src_port = p.port_src;
  dst_port = p.port_dst;
  src_ip = p.ip_src;
  dst_ip = p.ip_dst;
  internal_device = p.device;
  protocol = p.ip_proto;
}

-- `config` as `nf_init` sets it.
abbrev pub start_port : ℕ
start_port = 1024

abbrev pub max_flows : ℕ
max_flows = 16384

abbrev pub expiration_time : ℕ
expiration_time = 60 * 1000000

module _ (T : Tables) where
  -- `malloc` and `calloc` are taken to succeed.
  pub alloc_state : ℕ → Option (T.Map × T.Vector × T.Chain)
  alloc_state max = elim (T.map_allocate max) [
    | none ↦ none
    | some fm ↦ elim (T.vector_allocate max) [
      | none ↦ none
      | some fv ↦ elim (T.dchain_allocate max) [ none ↦ none | some heap ↦ some (fm, fv, heap) ]
    ]
  ]

  -- The `max_flows` of `alloc_state` is a uint16_t.
  pub flow_manager_allocate : ℕ → ℕ → ℕ → Option (FlowManager T)
  flow_manager_allocate starting_port expiration max = elim (alloc_state (u16 max)) [
    | none ↦ none
    | some (fm, fv, heap) ↦ some (record {
      fm = fm;
      fv = fv;
      heap = heap;
      start_port = starting_port;
      max_flows = u16 max;
      expiration_time = expiration;
    })
  ]

  -- The loop of `nf_init` with `n` shards to go, at `shard`.
  pub allocate_shards : ℕ → ℕ → ℕ → ℕ → ℕ → Option (List (FlowManager T))
  allocate_shards zero shard shard_start base_flows remainder = some []
  allocate_shards (suc n) shard shard_start base_flows remainder =
      let shard_flows = u32 (base_flows + (if ltb shard remainder then 1 else 0)) in
      let rest =
        allocate_shards n (shard + 1) (u32 (shard_start + shard_flows)) base_flows remainder in
      elim (flow_manager_allocate (u16 shard_start) expiration_time shard_flows) [
        | none ↦ none
        | some manager ↦ elim rest [ none ↦ none | some ms ↦ some (manager ∷ ms) ]
      ]

  pub nf_init : ℕ → Option (List (FlowManager T))
  nf_init nb_shards =
      if nb_shards == 0 || ltb max_flows nb_shards
      then none
      else (if ltb (2 ^ 16) (start_port + max_flows)
          then none
          else allocate_shards nb_shards 0 start_port (max_flows / nb_shards)
              (max_flows % nb_shards))

  -- `nf_shard`, with the shards that `nf_init` has stored.
  pub nf_shard : List (FlowManager T) → ℕ → Option (FlowManager T)
  nf_shard nat_shards shard =
      if ltb shard (length nat_shards) then get_elem? nat_shards shard else none

  pub allocate_flow : FlowManager T → FlowId → ℕ → Option (ℕ × FlowManager T)
  allocate_flow m id time = elim (T.dchain_allocate_new_index m.heap time) [
    | none ↦ none
    | some (index, heap') ↦ some (
      u16 (m.start_port + index),
      record m { heap = heap'; fv = T.vector_set m.fv index id; fm = T.map_put m.fm id index },
    )
  ]

  pub get_internal : FlowManager T → FlowId → ℕ → Option (ℕ × FlowManager T)
  get_internal m id time = elim (T.map_get m.fm id) [
    | none ↦ none
    | some index ↦ some (
      u16 (index + m.start_port),
      record m { heap = T.dchain_rejuvenate_index m.heap index time },
    )
  ]

  pub get_external : FlowManager T → ℕ → ℕ → Option (FlowId × FlowManager T)
  get_external m external_port time =
      let index = index_of external_port m.start_port in
      if T.dchain_is_index_allocated m.heap index
      then some
          (T.vector_get m.fv index, record m { heap = T.dchain_rejuvenate_index m.heap index time })
      else none

  -- The time before which `flow_manager_expire` drops flows: the product is a uint32_t.
  pub expire_before : FlowManager T → ℕ → ℕ
  expire_before m time = u64 (time + 2 ^ 64 - u32 (m.expiration_time * 1000))

  -- The branch of a packet from the WAN device: the result, the headers and the table.
  -- `junk_device` is what `dst_device` holds when nothing has written it. The test for a spoofed
  -- packet has no effect.
  pub inbound : NfConfig → ℕ → FlowManager T → Packet → Headers → ℕ → ℕ × Headers × FlowManager T
  inbound c junk_device m p h now = elim (get_external m p.port_dst now) [
    | none ↦ (junk_device, h, m)
    | some (flow, m') ↦
        (flow.internal_device, record h { dst_addr = flow.src_ip; dst_port = flow.src_port }, m')
  ]

  -- The rewriting of a packet to the WAN device.
  pub forward : NfConfig → ℕ → Headers → FlowManager T → ℕ × Headers × FlowManager T
  forward c external_port h m =
      (c.wan_device, record h { src_addr = c.external_addr; src_port = external_port }, m)

  -- The branch of any other packet. `junk_port` is what `external_port` holds when nothing has
  -- written it.
  pub outbound : NfConfig → ℕ → FlowManager T → Packet → Headers → ℕ → ℕ × Headers × FlowManager T
  outbound c junk_port m p h now = elim (get_internal m (flow_id p) now) [
    | some (port, m') ↦ forward c port h m'
    | none ↦ elim (allocate_flow m (flow_id p) now) [
      | some (port, m') ↦ forward c port h m'
      | none ↦ if c.drop_when_full then (explicit_drop, h, m) else forward c junk_port h m
    ]
  ]

  pub nf_process :
      NfConfig → ℕ → ℕ → FlowManager T → Packet → Headers → ℕ → ℕ × Headers × FlowManager T
  nf_process c junk_device junk_port m p h now =
      if p.device == c.wan_device
      then inbound c junk_device m p h now
      else outbound c junk_port m p h now
