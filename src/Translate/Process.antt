-- ===== src/Translate/Process.antt =====
-- nf-chain/src/nat_main.c, `nf_process`: a packet from the inside, and the reply to it.
use queue_dpdk.Prelude.{
  ap, ◌∙◌, ℕ, ◌+◌, ◌^◌, ◌<◌, ◌≡◌, ◌≢◌, refl, true, Bool-cases, inl, inr, ◌==◌, ==_iff, none, some,
  arith, u16,
}
use queue_dpdk.Translate.Containers.{Tables, Contracts}
use queue_dpdk.Translate.Coherent.{IsCoherent}
use queue_dpdk.Translate.{
  Packet, Headers, NfConfig, get_external, get_internal, forward, outbound, inbound, nf_process,
  index_of, allocate_flow, FlowManager, flow_id,
}

==_refl : (a : ℕ) → (a == a) ≡ true
==_refl a = ground arith

index_of-port :
    (index start : ℕ) → start + index < 2 ^ 16 → index_of (u16 (start + index)) start ≡ index
unfolding index_of
index_of-port index start h = omega arith

module _ (T : Tables) (K : Contracts T) where
  nf_process-inside :
      (c : NfConfig) (jd jp : ℕ) (m : FlowManager T) (p : Packet) (h : Headers) (now : ℕ)
      → p.device ≢ c.wan_device
      → nf_process T c jd jp m p h now ≡ outbound T c jp m p h now
  unfolding nf_process
  nf_process-inside c jd jp m p h now ne = elim (Bool-cases (p.device == c.wan_device)) [
    | inl e ↦ elim (ne ((==_iff _ _).0 e)) [ ]
    | inr e ↦ rw (nf_process, e)
  ]

  -- The answer to a packet from the WAN device to the port of an index in use.
  nf_process-answer :
      (c : NfConfig) (jd jp : ℕ) (m : FlowManager T) (r : Packet) (h : Headers) (now index : ℕ)
      → r.device ≡ c.wan_device
      → r.port_dst ≡ u16 (m.start_port + index)
      → m.start_port + index < 2 ^ 16
      → T.dchain_is_index_allocated m.heap index ≡ true
      → nf_process T c jd jp m r h now ≡ (
        (T.vector_get m.fv index).internal_device,
        record h {
          dst_addr = (T.vector_get m.fv index).src_ip;
          dst_port = (T.vector_get m.fv index).src_port;
        },
        record m { heap = T.dchain_rejuvenate_index m.heap index now },
      )
  unfolding nf_process inbound get_external
  nf_process-answer c jd jp m r h now index wan port bound used =
      let there : index_of r.port_dst m.start_port ≡ index =
        rw port (index_of-port index m.start_port bound) in
      let outside : (r.device == c.wan_device) ≡ true = (==_iff _ _).1 wan in
      rw (nf_process, outside, inbound, get_external, there, used)

  -- A new flow comes back to where it started: a packet from the inside that opens a flow leaves
  -- for the WAN device with the external address, and the reply to the port it left with goes to
  -- the device of the packet, addressed to its source address and port.
  pub reply_reaches_source :
      (c : NfConfig) (jd jp : ℕ) (m : FlowManager T) (p r : Packet) (h hr : Headers)
      (now later index : ℕ) (heap' : T.Chain)
      → IsCoherent T m
      → p.device ≢ c.wan_device
      → T.map_get m.fm (flow_id p) ≡ none
      → T.dchain_allocate_new_index m.heap now ≡ some (index, heap')
      → r.device ≡ c.wan_device
      → r.port_dst ≡ (nf_process T c jd jp m p h now).1.src_port
      → ((nf_process T c jd jp m p h now).0 ≡ c.wan_device)
        × ((nf_process T c jd jp m p h now).1.src_addr ≡ c.external_addr)
        × ((nf_process T c jd jp (nf_process T c jd jp m p h now).2 r hr later).0 ≡ p.device)
        × ((nf_process T c jd jp (nf_process T c jd jp m p h now).2 r hr later).1
            ≡ record hr { dst_addr = p.ip_src; dst_port = p.port_src })
  unfolding outbound get_internal allocate_flow forward flow_id
  reply_reaches_source c jd jp m p r h hr now later index heap' v inside absent fresh wan port =
      let made : FlowManager T = record m {
        heap = heap';
        fv = T.vector_set m.fv index (flow_id p);
        fm = T.map_put m.fm (flow_id p) index;
      } in
      let out : nf_process T c jd jp m p h now ≡ (
        c.wan_device,
        record h { src_addr = c.external_addr; src_port = u16 (m.start_port + index) },
        made,
      ) =
        nf_process-inside c jd jp m p h now inside
        ∙ rw (outbound, get_internal, absent, allocate_flow, fresh, forward) in
      let range = K.allocate_fresh m.heap heap' index now fresh in
      let bound : m.start_port + index < 2 ^ 16 = omega (arith, v.ports, range.0) in
      let used : T.dchain_is_index_allocated heap' index ≡ true =
        rw (==_refl index) at (K.allocate_marks m.heap heap' index index now fresh range.0) in
      let cell : T.vector_get made.fv index ≡ flow_id p =
        rw (==_refl index) at (K.get-set m.fv index index (flow_id p)) in
      let target : r.port_dst ≡ u16 (m.start_port + index) = rw out at port in
      let back =
        rw cell at (nf_process-answer c jd jp made r hr later index wan target bound used) in
      rw out (refl, refl, rw back, rw back)

  -- A packet from the inside whose key the table already finds uses the flow that is stored there:
  -- the reply keeps the source port of the packet, but goes to the device and the source address of
  -- the stored flow, of which only the source port is known to be the packet's.
  pub known_port_shares_flow :
      (c : NfConfig) (jd jp : ℕ) (m : FlowManager T) (p r : Packet) (h hr : Headers)
      (now later index : ℕ)
      → IsCoherent T m
      → p.device ≢ c.wan_device
      → T.map_get m.fm (flow_id p) ≡ some index
      → r.device ≡ c.wan_device
      → r.port_dst ≡ (nf_process T c jd jp m p h now).1.src_port
      → ((nf_process T c jd jp (nf_process T c jd jp m p h now).2 r hr later).0
          ≡ (T.vector_get m.fv index).internal_device)
        × ((nf_process T c jd jp (nf_process T c jd jp m p h now).2 r hr later).1
            ≡ record hr { dst_addr = (T.vector_get m.fv index).src_ip; dst_port = p.port_src })
  unfolding outbound get_internal forward flow_id
  known_port_shares_flow c jd jp m p r h hr now later index v inside present wan port =
      let kept : FlowManager T = record m { heap = T.dchain_rejuvenate_index m.heap index now } in
      let out : nf_process T c jd jp m p h now ≡ (
        c.wan_device,
        record h { src_addr = c.external_addr; src_port = u16 (index + m.start_port) },
        kept,
      ) =
        nf_process-inside c jd jp m p h now inside
        ∙ rw (outbound, get_internal, present, forward) in
      let stands = v.found (flow_id p) index present in
      let bound : m.start_port + index < 2 ^ 16 = omega (arith, v.ports, stands.0) in
      let used : T.dchain_is_index_allocated kept.heap index ≡ true =
        (K.rejuvenate_keeps m.heap index index now stands.0 stands.1).0 ∙ stands.1 in
      let target : r.port_dst ≡ u16 (m.start_port + index) =
        rw out at port ∙ ap u16 (omega arith) in
      let same : (T.vector_get m.fv index).src_port ≡ p.port_src = (==_iff _ _).0 stands.2 in
      let back = nf_process-answer c jd jp kept r hr later index wan target bound used in
      rw out (rw back, rw (back, same))
