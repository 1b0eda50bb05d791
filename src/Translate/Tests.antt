-- ===== src/Translate/Tests.antt =====
-- Runs of the NAT on simple containers.
use mathlib.Core.Path.{subst}
use queue_dpdk.Prelude.{ap, All, length, sym, ◌+◌, ◌≡◌, some, List, [], ◌∷◌, update, arith, refl}
use queue_dpdk.Translate.{
  Packet, Headers, FlowManager, flow_id, nf_process, outbound, get_internal, allocate_flow, forward,
  nf_init,
}
use queue_dpdk.Translate.Coherent.{IsCoherent, nf_process-IsCoherent}
use queue_dpdk.Translate.Process.{reply_reaches_source, known_port_shares_flow}
use queue_dpdk.Translate.Shards.{Tile, nf_init-Tile}
use queue_dpdk.Translate.Simple.{
  simple, simple-Contracts, simple-IsAmple, config, table, table-IsCoherent, lookup, no_flow,
}

-- Host 10 sends from port 5000 to port 80 of host 99.
abbrev request : Packet
request = record {
  device = 0;
  ip_proto = 17;
  ip_src = 10;
  ip_dst = 99;
  port_src = 5000;
  port_dst = 80;
}

-- Host 11 sends from the same port.
abbrev other : Packet
other = record {
  device = 1;
  ip_proto = 17;
  ip_src = 11;
  ip_dst = 98;
  port_src = 5000;
  port_dst = 53;
}

abbrev reply : Packet
reply = record {
  device = 2;
  ip_proto = 17;
  ip_src = 99;
  ip_dst = 16843009;
  port_src = 80;
  port_dst = 1024;
}

abbrev headers : Packet → Headers
headers p = record {
  src_addr = p.ip_src;
  dst_addr = p.ip_dst;
  src_port = p.port_src;
  dst_port = p.port_dst;
}

-- The table with the flow of `request`.
abbrev table_one : FlowManager simple
table_one = record table {
  fm = record { places = 4; list = (flow_id request, 0) ∷ [] };
  fv = update (λ i. no_flow) 0 (flow_id request);
  heap = record { size = 4; used = 1 };
}

request_leaves :
    (nf_process simple config 0 0 table request (headers request) 7).1
    ≡ record (headers request) { src_addr = 16843009; src_port = 1024 }
unfolding nf_process outbound get_internal allocate_flow forward flow_id
request_leaves = refl

request_opens : (nf_process simple config 0 0 table request (headers request) 7).2 ≡ table_one
unfolding nf_process outbound get_internal allocate_flow forward flow_id
request_opens = refl

table_one-IsCoherent : IsCoherent simple table_one
table_one-IsCoherent = subst (IsCoherent simple) request_opens (
    nf_process-IsCoherent simple simple-Contracts config 0 0 table request (headers request) 7
      table-IsCoherent (λ e. omega (arith, e)))

nf_process-IsCoherent_example :
    IsCoherent simple (nf_process simple config 0 0 table request (headers request) 7).2
nf_process-IsCoherent_example =
    nf_process-IsCoherent simple simple-Contracts config 0 0 table request (headers request) 7
      table-IsCoherent (λ e. omega (arith, e))

reply_reaches_source_example :
    ((nf_process simple config 0 0 table request (headers request) 7).0 ≡ 2)
    × ((nf_process simple config 0 0 table request (headers request) 7).1.src_addr ≡ 16843009)
    × ((nf_process simple config 0 0
          (nf_process simple config 0 0 table request (headers request) 7).2
          reply
          (headers reply)
          9).0
        ≡ 0)
    × ((nf_process simple config 0 0
          (nf_process simple config 0 0 table request (headers request) 7).2
          reply
          (headers reply)
          9).1
        ≡ record (headers reply) { dst_addr = 10; dst_port = 5000 })
reply_reaches_source_example =
    reply_reaches_source simple simple-Contracts config 0 0 table request reply (headers request)
      (headers reply) 7 9 0 (record { size = 4; used = 1 }) table-IsCoherent (λ e. omega (arith, e))
      refl refl refl (ap (λ x. x.src_port) (sym request_leaves))

other_leaves :
    (nf_process simple config 0 0 table_one other (headers other) 8).1
    ≡ record (headers other) { src_addr = 16843009; src_port = 1024 }
unfolding nf_process outbound get_internal allocate_flow forward flow_id
other_leaves = refl

known_present : lookup table_one.fm.list (flow_id other) ≡ some 0
unfolding flow_id
known_present = refl

-- The reply to host 11 goes to host 10.
known_port_shares_flow_example :
    ((nf_process simple config 0 0
        (nf_process simple config 0 0 table_one other (headers other) 8).2
        reply
        (headers reply)
        9).0
      ≡ (flow_id request).internal_device)
    × ((nf_process simple config 0 0
          (nf_process simple config 0 0 table_one other (headers other) 8).2
          reply
          (headers reply)
          9).1
        ≡ record (headers reply) { dst_addr = (flow_id request).src_ip; dst_port = 5000 })
known_port_shares_flow_example =
    known_port_shares_flow simple simple-Contracts config 0 0 table_one other reply (headers other)
      (headers reply) 8 9 0 table_one-IsCoherent (λ e. omega (arith, e)) known_present refl
      (ap (λ x. x.src_port) (sym other_leaves))

nf_init-Tile_example :
    (ms : List (FlowManager simple)) × (nf_init simple 3 ≡ some ms)
    × (length ms ≡ 3)
    × Tile simple 1024 ms (1024 + 16384)
    × All (IsCoherent simple) ms
nf_init-Tile_example =
    nf_init-Tile simple simple-Contracts simple-IsAmple 3 (omega arith) (omega arith)
