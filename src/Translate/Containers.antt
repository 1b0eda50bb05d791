-- ===== src/Translate/Containers.antt =====
-- The key of the flow table (nf-chain/src/flow.h, state.c), and the containers that the NAT takes
-- from nf-chain/src/utils: a map, a vector and an index allocator, with their documented contracts.
use queue_dpdk.Prelude.{
  ℕ, ◌+◌, ◌<◌, ◌≡◌, Bool, true, false, Option, none, some, ◌==◌, if◌then◌else◌,
}

-- `struct FlowId`
pub record FlowId : Type 0 where
  pub src_port : ℕ
  pub dst_port : ℕ
  pub src_ip : ℕ
  pub dst_ip : ℕ
  pub internal_device : ℕ
  pub protocol : ℕ

-- The callback given to `map_allocate`: it reads the first uint16_t of each key.
abbrev pub key_equals : FlowId → FlowId → Bool
key_equals k1 k2 = k1.src_port == k2.src_port

-- `struct Map`, `struct Vector` and `struct DoubleChain`. A borrowed cell of a vector is read by
-- `vector_get` and given back by `vector_set`.
pub record Tables : Type 1 where
  pub Map : Type 0
  pub Vector : Type 0
  pub Chain : Type 0
  pub map_allocate : ℕ → Option Map
  pub vector_allocate : ℕ → Option Vector
  pub dchain_allocate : ℕ → Option Chain
  pub map_get : Map → FlowId → Option ℕ
  pub map_put : Map → FlowId → ℕ → Map
  pub map_size : Map → ℕ
  pub map_capacity : Map → ℕ
  pub vector_get : Vector → ℕ → FlowId
  pub vector_set : Vector → ℕ → FlowId → Vector
  pub index_range : Chain → ℕ
  pub dchain_allocate_new_index : Chain → ℕ → Option (ℕ × Chain)
  pub dchain_rejuvenate_index : Chain → ℕ → ℕ → Chain
  pub dchain_is_index_allocated : Chain → ℕ → Bool

-- The contracts of map.h, vector.h and double-chain.h: a new map is empty and a new allocator has
-- all its indices free; a put for a key that is not there, into a map that is not full, is found
-- under every key that the callback equates with it, and takes one place; a write to a vector changes
-- one cell; a new index is in range and was free, and all others stay as they were; rejuvenating an
-- index in use changes only its time.
pub record Contracts (T : Tables) : Type 0 where
  pub map_allocate_empty :
      (n : ℕ) (m : T.Map) (k : FlowId) → T.map_allocate n ≡ some m → T.map_get m k ≡ none
  pub map_allocate_places :
      (n : ℕ) (m : T.Map) → T.map_allocate n ≡ some m → (T.map_size m ≡ 0) × (T.map_capacity m ≡ n)
  pub put_places :
      (m : T.Map) (k : FlowId) (v : ℕ)
      → T.map_get m k ≡ none
      → T.map_size m < T.map_capacity m
      → (T.map_size (T.map_put m k v) ≡ T.map_size m + 1)
        × (T.map_capacity (T.map_put m k v) ≡ T.map_capacity m)
  pub dchain_allocate_range :
      (n : ℕ) (c : T.Chain) → T.dchain_allocate n ≡ some c → T.index_range c ≡ n
  pub dchain_allocate_free :
      (n : ℕ) (c : T.Chain) (i : ℕ)
      → T.dchain_allocate n ≡ some c
      → i < n
      → T.dchain_is_index_allocated c i ≡ false
  pub get-put :
      (m : T.Map) (k j : FlowId) (v : ℕ)
      → T.map_get m k ≡ none
      → T.map_size m < T.map_capacity m
      → T.map_get (T.map_put m k v) j ≡ (if key_equals k j then some v else T.map_get m j)
  pub get_congr : (m : T.Map) (k j : FlowId) → key_equals k j ≡ true → T.map_get m k ≡ T.map_get m j
  pub get-set :
      (v : T.Vector) (i j : ℕ) (x : FlowId)
      → T.vector_get (T.vector_set v i x) j ≡ (if i == j then x else T.vector_get v j)
  pub allocate_fresh :
      (c c' : T.Chain) (i time : ℕ)
      → T.dchain_allocate_new_index c time ≡ some (i, c')
      → (i < T.index_range c)
        × (T.dchain_is_index_allocated c i ≡ false)
        × (T.index_range c' ≡ T.index_range c)
  pub allocate_marks :
      (c c' : T.Chain) (i j time : ℕ)
      → T.dchain_allocate_new_index c time ≡ some (i, c')
      → j < T.index_range c
      → T.dchain_is_index_allocated c' j
        ≡ (if i == j then true else T.dchain_is_index_allocated c j)
  pub rejuvenate_keeps :
      (c : T.Chain) (i j time : ℕ)
      → i < T.index_range c
      → T.dchain_is_index_allocated c i ≡ true
      → (T.dchain_is_index_allocated (T.dchain_rejuvenate_index c i time) j
          ≡ T.dchain_is_index_allocated c j)
        × (T.index_range (T.dchain_rejuvenate_index c i time) ≡ T.index_range c)

-- There is memory for every container.
pub record IsAmple (T : Tables) : Type 0 where
  pub map_made : (n : ℕ) → (m : T.Map) × (T.map_allocate n ≡ some m)
  pub vector_made : (n : ℕ) → (v : T.Vector) × (T.vector_allocate n ≡ some v)
  pub chain_made : (n : ℕ) → (c : T.Chain) × (T.dchain_allocate n ≡ some c)
