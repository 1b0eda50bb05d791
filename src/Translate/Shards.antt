-- ===== src/Translate/Shards.antt =====
-- nf-chain/src/nat_main.c, `nf_init`: the shards of the flow table.
use queue_dpdk.Prelude.{
  ap, sym, ◌∙◌, ℕ, zero, suc, ◌+◌, ◌-◌, ◌*◌, ◌/◌, ◌%◌, ◌^◌, ◌≤◌, ◌<◌, ◌≡◌, refl, false, some, List,
  [], ◌∷◌, length, All, ltb, ◌==◌, if◌then◌else◌, arith, u16, u32,
}
use queue_dpdk.Translate.Containers.{Tables, Contracts, IsAmple}
use queue_dpdk.Translate.Coherent.{IsCoherent}
use queue_dpdk.Translate.Places.{count_none}
use queue_dpdk.Translate.{
  expiration_time, FlowManager, flow_manager_allocate, alloc_state, allocate_shards, nf_init,
}

module _ (T : Tables) where
  -- Tables whose port ranges follow one another from `a` to `b`, none empty.
  abbrev pub Tile : ℕ → List (FlowManager T) → ℕ → Type 0
  Tile a [] b = a ≡ b
  Tile a (m ∷ ms) b =
      (m.start_port ≡ a) × (0 < T.index_range m.heap) × Tile (a + T.index_range m.heap) ms b

  module _ (K : Contracts T) (A : IsAmple T) where
    -- A new table has the given range, and nothing in it.
    flow_manager_allocate-IsCoherent :
        (start expiration n : ℕ)
        → n < 2 ^ 16
        → start + n ≤ 2 ^ 16
        → (m : FlowManager T) × (flow_manager_allocate T start expiration n ≡ some m)
          × (m.start_port ≡ start)
          × (T.index_range m.heap ≡ n)
          × IsCoherent T m
    unfolding flow_manager_allocate alloc_state
    flow_manager_allocate-IsCoherent start expiration n h k =
        let whole : u16 n ≡ n = omega arith in
        let fm = A.map_made n in
        let fv = A.vector_made n in
        let chain = A.chain_made n in
        let range = K.dchain_allocate_range n chain.0 chain.1 in
        (
          record {
            fm = fm.0;
            fv = fv.0;
            heap = chain.0;
            start_port = start;
            max_flows = n;
            expiration_time = expiration;
          },
          rw (flow_manager_allocate, alloc_state, whole, fm.1, whole, fv.1, whole, chain.1, whole),
          refl,
          range,
          record {
            ports = omega (arith, range, k);
            entries =
                (K.map_allocate_places n fm.0 fm.1).0
                ∙ sym (
                    count_none (T.dchain_is_index_allocated chain.0) (T.index_range chain.0)
                      (λ i l. K.dchain_allocate_free n chain.0 i chain.1 (rw range at l)));
            places = omega (arith, range, (K.map_allocate_places n fm.0 fm.1).1);
            stored =
                λ i lt used. cc (used, K.dchain_allocate_free n chain.0 i chain.1 (rw range at lt));
            found = λ key i e. cc (e, K.map_allocate_empty n fm.0 key fm.1);
          },
        )

    allocate_shards-suc :
        (n shard start base remainder flows : ℕ) (m : FlowManager T) (ms : List (FlowManager T))
        → flows ≡ base + (if ltb shard remainder then 1 else 0)
        → start + flows < 2 ^ 16
        → flow_manager_allocate T start expiration_time flows ≡ some m
        → allocate_shards T n (shard + 1) (start + flows) base remainder ≡ some ms
        → allocate_shards T (suc n) shard start base remainder ≡ some (m ∷ ms)
    unfolding allocate_shards
    allocate_shards-suc n shard start base remainder flows m ms e h made rest =
        let first : u16 start ≡ start = omega arith in
        let one : u32 (base + (if ltb shard remainder then 1 else 0)) ≡ flows =
          omega (arith, e, h) in
        let next : u32 (start + flows) ≡ start + flows = omega arith in
        rw (allocate_shards, one, first, made, one, next, rest)

    allocate_shards-Tile :
        (n shard start base remainder left b : ℕ)
        → left ≡ n * base
        → 0 < base
        → base < 2 ^ 14 + 1
        → remainder ≤ shard + n
        → start + left + (remainder - shard) ≡ b
        → b < 2 ^ 16
        → (ms : List (FlowManager T)) × (allocate_shards T n shard start base remainder ≡ some ms)
          × (length ms ≡ n)
          × Tile start ms b
          × All (IsCoherent T) ms
    unfolding allocate_shards
    allocate_shards-Tile zero shard start base remainder left b e p q r s t =
        ([], refl, refl, grind arith, tt)
    allocate_shards-Tile (suc n) shard start base remainder left b e p q r s t =
        let flows = base + (if ltb shard remainder then 1 else 0) in
        let more : suc n * base ≡ base + n * base = grind arith in
        let sum : start + flows + n * base + (remainder - (shard + 1)) ≡ b = ground arith in
        let bound : start + flows < 2 ^ 16 = ground arith in
        let rest =
          allocate_shards-Tile n (shard + 1) (start + flows) base remainder (n * base) b refl p q
            (omega arith) sum t in
        let made =
          flow_manager_allocate-IsCoherent start expiration_time flows (omega (arith, bound))
            (omega (arith, bound)) in
        (
          made.0 ∷ rest.0,
          allocate_shards-suc n shard start base remainder flows made.0 rest.0 refl bound made.1
              rest.1,
          ap suc rest.2,
          (made.2, rw made.3 (omega (arith, p)), rw made.3 rest.3),
          (made.4, rest.4),
        )

    -- For every number of shards from 1 to 16384, and given memory, `nf_init` makes so many tables:
    -- their port ranges follow one another from 1024 to 17408 with none empty, and in each the map,
    -- the vector and the allocator agree.
    pub nf_init-Tile :
        (nb_shards : ℕ)
        → 0 < nb_shards
        → nb_shards ≤ 16384
        → (ms : List (FlowManager T)) × (nf_init T nb_shards ≡ some ms)
          × (length ms ≡ nb_shards)
          × Tile 1024 ms (1024 + 16384)
          × All (IsCoherent T) ms
    unfolding nf_init
    nf_init-Tile nb_shards h k =
        let positive : (nb_shards == 0) ≡ false = ground arith in
        let enough : ltb 16384 nb_shards ≡ false = ground arith in
        let shards =
          allocate_shards-Tile nb_shards 0 1024 (16384 / nb_shards) (16384 % nb_shards)
            (nb_shards * (16384 / nb_shards)) (1024 + 16384) refl (grind arith) (grind arith)
            (grind arith) (grind arith) (omega arith) in
        (shards.0, rw (nf_init, positive, enough) shards.1, shards.2, shards.3, shards.4)
