-- ===== src/Translate/Coherent.antt =====
-- nf-chain/src/nat_flowmanager.c: the map, the vector and the index allocator of a flow table agree.
use mathlib.Core.Path.{subst}
use queue_dpdk.Prelude.{
  inr, inl, Bool-cases, Bool, refl, Option, ◌∙◌, sym, ap, ℕ, ◌+◌, ◌≤◌, ◌<◌, ◌^◌, ◌≡◌, true, false,
  Bool, Bool-cases, inl, inr, ◌==◌, ==_iff, none, some, arith,
}
use queue_dpdk.Translate.Containers.{FlowId, key_equals, Tables, Contracts}
use queue_dpdk.Translate.Places.{count, count_congr, count_free, count_mark}
use queue_dpdk.Translate.{
  flow_id, Headers, Packet, NfConfig, get_external, get_internal, forward, outbound, inbound,
  nf_process, index_of, allocate_flow, FlowManager,
}

-- The indices of an allocator that are in use.
abbrev pub used : (T : Tables) → T.Chain → ℕ
used T heap = count (T.dchain_is_index_allocated heap) (T.index_range heap)

-- Every index in use holds a key that the map finds there, every key that the map finds stands at
-- an index in use; the external ports of the table are 16-bit numbers; the map has an entry for each
-- index in use, and a place for each index.
pub record IsCoherent (T : Tables) (m : FlowManager T) : Type 0 where
  pub ports : m.start_port + T.index_range m.heap ≤ 2 ^ 16
  pub entries : T.map_size m.fm ≡ used T m.heap
  pub places : T.index_range m.heap ≤ T.map_capacity m.fm
  pub stored :
      (i : ℕ)
      → i < T.index_range m.heap
      → T.dchain_is_index_allocated m.heap i ≡ true
      → T.map_get m.fm (T.vector_get m.fv i) ≡ some i
  pub found :
      (k : FlowId) (i : ℕ)
      → T.map_get m.fm k ≡ some i
      → (i < T.index_range m.heap)
        × (T.dchain_is_index_allocated m.heap i ≡ true)
        × (key_equals (T.vector_get m.fv i) k ≡ true)

module _ (T : Tables) (K : Contracts T) where
  module _ (m : FlowManager T) (id : FlowId) (time index : ℕ) (heap' : T.Chain) (v : IsCoherent T m)
      (absent : T.map_get m.fm id ≡ none)
      (fresh : T.dchain_allocate_new_index m.heap time ≡ some (index, heap')) where
    added : FlowManager T
    added = record m { heap = heap'; fv = T.vector_set m.fv index id; fm = T.map_put m.fm id index }

    room : T.map_size m.fm < T.map_capacity m.fm
    room =
        let new = K.allocate_fresh m.heap heap' index time fresh in
        let free =
          count_free (T.dchain_is_index_allocated m.heap) (T.index_range m.heap) index new.0
            new.1 in
        omega (arith, v.entries, v.places, free)

    added-entries : T.map_size added.fm ≡ used T added.heap
    unfolding added
    added-entries =
        let new = K.allocate_fresh m.heap heap' index time fresh in
        let more : count (T.dchain_is_index_allocated heap') (T.index_range m.heap)
            ≡ used T m.heap + 1 =
          count_mark (T.dchain_is_index_allocated m.heap) (T.dchain_is_index_allocated heap')
            (T.index_range m.heap) index new.0 new.1
            (λ j l. K.allocate_marks m.heap heap' index j time fresh l) in
        rw (new.2) (omega (arith, (K.put_places m.fm id index absent room).0, v.entries, more))

    added-places : T.index_range added.heap ≤ T.map_capacity added.fm
    unfolding added
    added-places = omega (
      arith,
      (K.allocate_fresh m.heap heap' index time fresh).2,
      (K.put_places m.fm id index absent room).1,
      v.places,
    )

    added-stored :
        (i : ℕ)
        → i < T.index_range added.heap
        → T.dchain_is_index_allocated added.heap i ≡ true
        → T.map_get added.fm (T.vector_get added.fv i) ≡ some i
    unfolding added
    added-stored i h a = ground (
      arith,
      K.allocate_fresh m.heap heap' index time fresh,
      K.allocate_marks m.heap heap' index i time fresh,
      K.get-set m.fv index i id,
      K.get-put m.fm id id index absent room,
      K.get-put m.fm id (T.vector_get m.fv i) index absent room,
      K.get_congr m.fm id (T.vector_get m.fv i),
      v.stored i,
    )

    added-found :
        (k : FlowId) (i : ℕ)
        → T.map_get added.fm k ≡ some i
        → (i < T.index_range added.heap)
          × (T.dchain_is_index_allocated added.heap i ≡ true)
          × (key_equals (T.vector_get added.fv i) k ≡ true)
    unfolding added
    added-found k i e = ground (
      arith,
      K.allocate_fresh m.heap heap' index time fresh,
      K.allocate_marks m.heap heap' index i time fresh,
      K.get-set m.fv index i id,
      K.get-put m.fm id k index absent room,
      v.found k i,
    )

  pub allocate_flow-IsCoherent :
      (m m' : FlowManager T) (id : FlowId) (time port : ℕ)
      → IsCoherent T m
      → T.map_get m.fm id ≡ none
      → allocate_flow T m id time ≡ some (port, m')
      → IsCoherent T m'
  unfolding allocate_flow added
  allocate_flow-IsCoherent m m' id time port v absent e =
      go (T.dchain_allocate_new_index m.heap time) refl
    where
      go :
          (o : Option (ℕ × T.Chain)) → T.dchain_allocate_new_index m.heap time ≡ o → IsCoherent T m'
      go none q = cc (rw (q, allocate_flow) at e)
      go (some (index, heap')) q =
          let made : added m id time index heap' v absent q ≡ m' =
            cc (rw (q, allocate_flow) at e) in
          subst (IsCoherent T) made (record {
            ports = omega (arith, v.ports, (K.allocate_fresh m.heap heap' index time q).2);
            entries = added-entries m id time index heap' v absent q;
            places = added-places m id time index heap' v absent q;
            stored = added-stored m id time index heap' v absent q;
            found = added-found m id time index heap' v absent q;
          })

  -- Rejuvenating an index in use changes none of the three.
  refreshed :
      (m : FlowManager T) (i time : ℕ)
      → IsCoherent T m
      → i < T.index_range m.heap
      → T.dchain_is_index_allocated m.heap i ≡ true
      → IsCoherent T (record m { heap = T.dchain_rejuvenate_index m.heap i time })
  refreshed m i time v r a = record {
    ports = omega (arith, v.ports, (K.rejuvenate_keeps m.heap i 0 time r a).1);
    entries =
        let same = K.rejuvenate_keeps m.heap i 0 time r a in
        v.entries
        ∙ count_congr (T.dchain_is_index_allocated m.heap)
            (T.dchain_is_index_allocated (T.dchain_rejuvenate_index m.heap i time))
            (T.index_range m.heap) (λ j l. sym (K.rejuvenate_keeps m.heap i j time r a).0)
        ∙ ap (count (T.dchain_is_index_allocated (T.dchain_rejuvenate_index m.heap i time)))
            (sym same.1);
    places = omega (arith, v.places, (K.rejuvenate_keeps m.heap i 0 time r a).1);
    stored = λ j h b.
        v.stored j (rw (K.rejuvenate_keeps m.heap i j time r a).1 at h)
          (rw (K.rejuvenate_keeps m.heap i j time r a).0 at b);
    found = λ k j e. ground (arith, v.found k j, K.rejuvenate_keeps m.heap i j time r a);
  }

  pub get_internal-IsCoherent :
      (m m' : FlowManager T) (id : FlowId) (time port : ℕ)
      → IsCoherent T m
      → get_internal T m id time ≡ some (port, m')
      → IsCoherent T m'
  unfolding get_internal
  get_internal-IsCoherent m m' id time port v e = go (T.map_get m.fm id) refl
    where
      go : (o : Option ℕ) → T.map_get m.fm id ≡ o → IsCoherent T m'
      go none q = cc (rw (q, get_internal) at e)
      go (some i) q =
          let made : record m { heap = T.dchain_rejuvenate_index m.heap i time } ≡ m' =
            cc (rw (q, get_internal) at e) in
          subst (IsCoherent T) made (refreshed m i time v (v.found id i q).0 (v.found id i q).1)

  pub get_external-IsCoherent :
      (m m' : FlowManager T) (port time : ℕ) (flow : FlowId)
      → IsCoherent T m
      → index_of port m.start_port < T.index_range m.heap
      → get_external T m port time ≡ some (flow, m')
      → IsCoherent T m'
  unfolding get_external
  get_external-IsCoherent m m' port time flow v r e =
      go (T.dchain_is_index_allocated m.heap (index_of port m.start_port)) refl
    where
      go :
          (b : Bool)
          → T.dchain_is_index_allocated m.heap (index_of port m.start_port) ≡ b
          → IsCoherent T m'
      go false q = cc (rw (q, get_external) at e)
      go true q =
          let made : record m {
            heap = T.dchain_rejuvenate_index m.heap (index_of port m.start_port) time;
          }
              ≡ m' =
            cc (rw (q, get_external) at e) in
          subst (IsCoherent T) made (refreshed m (index_of port m.start_port) time v r q)

  get_internal-none :
      (m : FlowManager T) (id : FlowId) (time : ℕ)
      → get_internal T m id time ≡ none
      → T.map_get m.fm id ≡ none
  unfolding get_internal
  get_internal-none m id time e = go (T.map_get m.fm id) refl
    where
      go : (o : Option ℕ) → T.map_get m.fm id ≡ o → T.map_get m.fm id ≡ none
      go none q = q
      go (some i) q = cc (rw (q, get_internal) at e)

  inbound-IsCoherent :
      (c : NfConfig) (junk_device : ℕ) (m : FlowManager T) (p : Packet) (h : Headers) (now : ℕ)
      → IsCoherent T m
      → index_of p.port_dst m.start_port < T.index_range m.heap
      → IsCoherent T (inbound T c junk_device m p h now).2
  unfolding inbound
  inbound-IsCoherent c junk_device m p h now v r = go (get_external T m p.port_dst now) refl
    where
      go :
          (o : Option (FlowId × FlowManager T))
          → get_external T m p.port_dst now ≡ o
          → IsCoherent T (inbound T c junk_device m p h now).2
      go none q = rw (inbound, q) v
      go (some (flow, m')) q =
          rw (inbound, q) (get_external-IsCoherent m m' p.port_dst now flow v r q)

  outbound-IsCoherent :
      (c : NfConfig) (junk_port : ℕ) (m : FlowManager T) (p : Packet) (h : Headers) (now : ℕ)
      → IsCoherent T m
      → IsCoherent T (outbound T c junk_port m p h now).2
  unfolding outbound forward
  outbound-IsCoherent c junk_port m p h now v = known (get_internal T m (flow_id p) now) refl
    where
      new :
          (o : Option (ℕ × FlowManager T))
          → allocate_flow T m (flow_id p) now ≡ o
          → get_internal T m (flow_id p) now ≡ none
          → IsCoherent T (outbound T c junk_port m p h now).2
      new none q n = elim (Bool-cases c.drop_when_full) [
        | inl e ↦ rw (outbound, n, q, e) v
        | inr e ↦ rw (outbound, n, q, e) v
      ]
      new (some (port, m')) q n =
          rw (outbound, n, q)
            (allocate_flow-IsCoherent m m' (flow_id p) now port v
              (get_internal-none m (flow_id p) now n) q)

      known :
          (o : Option (ℕ × FlowManager T))
          → get_internal T m (flow_id p) now ≡ o
          → IsCoherent T (outbound T c junk_port m p h now).2
      known none q = new (allocate_flow T m (flow_id p) now) refl q
      known (some (port, m')) q =
          rw (outbound, q) (get_internal-IsCoherent m m' (flow_id p) now port v q)

  -- No packet from the inside, and none from the WAN device to a port of the range of the table,
  -- makes the map, the vector and the allocator disagree.
  pub nf_process-IsCoherent :
      (c : NfConfig) (junk_device junk_port : ℕ) (m : FlowManager T) (p : Packet) (h : Headers)
      (now : ℕ)
      → IsCoherent T m
      → (p.device ≡ c.wan_device → index_of p.port_dst m.start_port < T.index_range m.heap)
      → IsCoherent T (nf_process T c junk_device junk_port m p h now).2
  unfolding nf_process
  nf_process-IsCoherent c junk_device junk_port m p h now v r =
      elim (Bool-cases (p.device == c.wan_device)) [
        | inl e ↦
            rw (nf_process, e) (inbound-IsCoherent c junk_device m p h now v (r ((==_iff _ _).0 e)))
        | inr e ↦ rw (nf_process, e) (outbound-IsCoherent c junk_port m p h now v)
      ]
