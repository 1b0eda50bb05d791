-- ===== src/Translate/Simple.antt =====
-- Simple containers that keep the contracts of Translate.Containers, and a small flow table.
use mathlib.Core.Path.{subst}
use queue_dpdk.Prelude.{
  ap, sym, ℕ, ◌+◌, ◌<◌, ◌≡◌, true, Option, length, none, some, List, [], ◌∷◌, ltb, if◌then◌else◌,
  update, arith, refl,
}
use queue_dpdk.Translate.{NfConfig, FlowManager}
use queue_dpdk.Translate.Coherent.{IsCoherent}
use queue_dpdk.Translate.Containers.{FlowId, key_equals, Tables, Contracts, IsAmple}

-- An allocator that hands out its indices in order.
pub record Counter : Type 0 where
  pub size : ℕ
  pub used : ℕ

-- A map with its number of places.
pub record Entries : Type 0 where
  pub places : ℕ
  pub list : List (FlowId × ℕ)

abbrev pub lookup : List (FlowId × ℕ) → FlowId → Option ℕ
lookup [] k = none
lookup (e ∷ es) k = let rest = lookup es k in if key_equals e.0 k then some e.1 else rest

abbrev pub fresh_index : Counter → Option (ℕ × Counter)
fresh_index c = if ltb c.used c.size then some (c.used, record c { used = c.used + 1 }) else none

abbrev pub no_flow : FlowId
no_flow = record {
  src_port = 0;
  dst_port = 0;
  src_ip = 0;
  dst_ip = 0;
  internal_device = 0;
  protocol = 0;
}

abbrev pub simple : Tables
simple = record {
  Map = Entries;
  Vector = ℕ → FlowId;
  Chain = Counter;
  map_allocate = λ n. some (record { places = n; list = [] });
  vector_allocate = λ n. some (λ i. no_flow);
  dchain_allocate = λ n. some (record { size = n; used = 0 });
  map_get = λ m k. lookup m.list k;
  map_put = λ m k v. record m { list = (k, v) ∷ m.list };
  map_size = λ m. length m.list;
  map_capacity = λ m. m.places;
  vector_get = λ v i. v i;
  vector_set = update;
  index_range = λ c. c.size;
  dchain_allocate_new_index = λ c time. fresh_index c;
  dchain_rejuvenate_index = λ c i time. c;
  dchain_is_index_allocated = λ c i. ltb i c.used;
}

lookup_congr :
    (m : List (FlowId × ℕ)) (k j : FlowId) → key_equals k j ≡ true → lookup m k ≡ lookup m j
lookup_congr [] k j e = refl
lookup_congr (x ∷ m) k j e = ground (arith, lookup_congr m k j e)

abbrev pub no_entries : ℕ → Entries
no_entries n = record { places = n; list = [] }

made_empty :
    (n : ℕ) (m : Entries) (k : FlowId) → simple.map_allocate n ≡ some m → lookup m.list k ≡ none
made_empty n m k e = let q : no_entries n ≡ m = cc e in subst (λ x. lookup x.list k ≡ none) q refl

made_places :
    (n : ℕ) (m : Entries) → simple.map_allocate n ≡ some m → (length m.list ≡ 0) × (m.places ≡ n)
made_places n m e =
    let q : no_entries n ≡ m = cc e in (ap (λ x. length x.list) (sym q), ap (λ x. x.places) (sym q))

abbrev pub counter : ℕ → Counter
counter n = record { size = n; used = 0 }

made_counter :
    (n : ℕ) (c : Counter) → simple.dchain_allocate n ≡ some c → (c.size ≡ n) × (c.used ≡ 0)
made_counter n c e =
    let q : counter n ≡ c = cc e in (ap (λ x. x.size) (sym q), ap (λ x. x.used) (sym q))

fresh_index-some :
    (c c' : Counter) (i : ℕ)
    → fresh_index c ≡ some (i, c')
    → (i ≡ c.used) × (c.used < c.size) × (c'.used ≡ c.used + 1) × (c'.size ≡ c.size)
fresh_index-some c c' i e = ground arith

pub simple-Contracts : Contracts simple
simple-Contracts = record {
  map_allocate_empty = made_empty;
  dchain_allocate_range = λ n c e. (made_counter n c e).0;
  dchain_allocate_free = λ n c i e h. ground (arith, made_counter n c e);
  map_allocate_places = made_places;
  put_places = λ m k v e h. (ground arith, refl);
  get-put = λ m k j v e h. refl;
  get_congr = λ m k j e. lookup_congr m.list k j e;
  get-set = λ v i j x. ground arith;
  allocate_fresh = λ c c' i time e. ground (arith, fresh_index-some c c' i e);
  allocate_marks = λ c c' i j time e h. ground (arith, fresh_index-some c c' i e);
  rejuvenate_keeps = λ c i j time h e. (refl, refl);
}

pub simple-IsAmple : IsAmple simple
simple-IsAmple = record {
  map_made = λ n. (no_entries n, refl);
  vector_made = λ n. ((λ i. no_flow), refl);
  chain_made = λ n. (record { size = n; used = 0 }, refl);
}

abbrev pub config : NfConfig
config = record { wan_device = 2; external_addr = 16843009; drop_when_full = true }

abbrev pub table : FlowManager simple
table = record {
  fm = no_entries 4;
  fv = λ i. no_flow;
  heap = counter 4;
  start_port = 1024;
  max_flows = 4;
  expiration_time = 60000000;
}

pub table-IsCoherent : IsCoherent simple table
table-IsCoherent = record {
  ports = omega arith;
  entries = refl;
  places = omega arith;
  stored = λ i h a. ground arith;
  found = λ k i e. cc e;
}
