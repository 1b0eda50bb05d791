-- ===== src/Mica/Request/Tests.antt =====
-- Bursts on a table that never fails.
use mathlib.Core.Option
use queue_dpdk.Prelude.{
  ◌∙◌, sym, ap, ℕ, ◌≡◌, refl, false, ◌&&◌, Bool, Option, none, some, List, [], ◌∷◌, arith, ◌==◌,
  if◌then◌else◌,
}
use queue_dpdk.Poll.{Mode}
use queue_dpdk.Mica.Request.{Key, Tables, Server, key_of, Request, mica_process_burst, set_value}
use queue_dpdk.Mica.Request.Answers.{BurstAnswered, mica_process_burst-Answered}
use queue_dpdk.Mica.Request.Stored.{Stores, SetThenGet, set_then_get}

abbrev same_key : Key → Key → Bool
same_key a b =
    a.src_ip == b.src_ip
    && (a.dst_ip == b.dst_ip
        && (a.src_port == b.src_port && (a.dst_port == b.dst_port && (a.proto == b.proto))))

abbrev memory : Tables
memory = record {
  Table = Key → Option (List ℕ);
  hash = λ k. k.src_ip;
  mehcached_get = λ t h k n. (t k, t);
  mehcached_set = λ t h k v. some (λ j. if same_key j k then some v else t j);
}

put : (Key → Option (List ℕ)) → Key → List ℕ → Key → Option (List ℕ)
put t k v j = if same_key j k then some v else t j

written :
    (t t' : Key → Option (List ℕ)) (k j : Key) (v : List ℕ)
    → memory.mehcached_set t 0 k v ≡ some t'
    → t' j ≡ put t k v j
unfolding put
written t t' k j v e = ap (λ f. f j) (sym (Option.some_inj.0 e))

put_same : (t : Key → Option (List ℕ)) (k : Key) (v : List ℕ) → put t k v k ≡ some v
unfolding put
put_same t k v = ground arith

memory-Stores : Stores memory
memory-Stores = record { get-set = λ t t' k v e l. written t t' k k v e ∙ put_same t k v }

abbrev datagram : ℕ → Request
datagram junk = record { pkt = λ i. i; junk = junk ∷ [] }

abbrev server : Server memory
server = record { table = λ _. none; flag = false; get_set_toggle = λ _. false }

mica_process_burst-Answered_example :
    BurstAnswered memory Mode.shared 3
      (datagram 1 ∷ datagram 2 ∷ [])
      server
      (mica_process_burst memory Mode.shared 3 (datagram 1 ∷ datagram 2 ∷ []) server)
mica_process_burst-Answered_example =
    mica_process_burst-Answered memory Mode.shared 3 (datagram 1 ∷ datagram 2 ∷ []) server

set_then_get_example :
    SetThenGet memory memory-Stores Mode.single 0 (datagram 1) (datagram 2) server (
      memory.mehcached_set server.table
        (memory.hash (key_of (datagram 1).pkt))
        (key_of (datagram 1).pkt)
        set_value)
set_then_get_example =
    set_then_get memory memory-Stores Mode.single 0 (datagram 1) (datagram 2) server refl refl
