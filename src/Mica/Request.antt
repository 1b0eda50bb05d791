-- ===== src/Mica/Request.antt =====
-- mica/main.c, `mica_process5tuple` and `mica_process_burst`: each packet of a burst is a GET or a
-- SET on the table of mica/ported-mica, which is a parameter.
pub mod Answers
pub mod Stored
mod Tests
use queue_dpdk.Prelude.{
  ℕ, ◌+◌, ◌-◌, ◌*◌, Bool, true, false, not, Option, none, some, List, [], ◌∷◌, ◌++◌, ◌==◌,
  if◌then◌else◌, length, replicate, update,
}
use queue_dpdk.Poll.{Mode, is_single}
use queue_dpdk.Magic.{load_u32}

-- `struct five_tuple`, in network order.
pub record Key : Type 0 where
  pub src_ip : ℕ
  pub dst_ip : ℕ
  pub src_port : ℕ
  pub dst_port : ℕ
  pub proto : ℕ

-- `hash`, `mehcached_get` and `mehcached_set`. A GET gives the bytes that it found, as far as there
-- is room for them, and may move the item within the table; a SET that overwrites may fail.
pub record Tables : Type 1 where
  pub Table : Type 0
  pub hash : Key → ℕ
  pub mehcached_get : Table → ℕ → Key → ℕ → Option (List ℕ) × Table
  pub mehcached_set : Table → ℕ → Key → List ℕ → Option Table

-- A packet as its bytes.
abbrev pub Bytes : Type 0
Bytes = ℕ → ℕ

-- The bytes of the Ethernet and IPv4 headers.
abbrev pub l3_size : ℕ
l3_size = 14 + 20

-- Where the value stands: behind the UDP header and a size_t.
abbrev pub value_offset : ℕ
value_offset = l3_size + 8 + 8

abbrev pub value_size : ℕ
value_size = 1400

abbrev load_u16 : Bytes → ℕ → ℕ
load_u16 pkt at = pkt at + pkt (at + 1) * 256

abbrev pub key_of : Bytes → Key
key_of pkt = record {
  src_ip = load_u32 pkt (14 + 12);
  dst_ip = load_u32 pkt (14 + 16);
  src_port = load_u16 pkt l3_size;
  dst_port = load_u16 pkt (l3_size + 2);
  proto = pkt (14 + 9);
}

-- `memcpy` to `pkt` at an offset.
pub copy : Bytes → ℕ → List ℕ → Bytes
copy pkt at [] = pkt
copy pkt at (b ∷ bs) = copy (update pkt at b) (at + 1) bs

-- What a SET stores: the letter A, and a 0 at the end.
pub set_value : List ℕ
set_value = replicate (value_size - 1) 65 ++ (0 ∷ [])

-- The table and the toggles. `flag` is the one of a single core.
pub record Server (T : Tables) : Type 0 where
  pub table : T.Table
  pub flag : Bool
  pub get_set_toggle : ℕ → Bool

-- A packet, and what the array `value` holds when nothing has written it.
pub record Request : Type 0 where
  pub pkt : Bytes
  pub junk : List ℕ

module _ (T : Tables) (mode : Mode) (lcore_id : ℕ) where
  -- `do_get`: whether the next packet is a GET.
  abbrev pub do_get : Server T → Bool
  do_get s = if is_single mode then s.flag else s.get_set_toggle lcore_id

  abbrev pub toggle : Server T → Server T
  toggle s = if is_single mode then record s { flag = not s.flag } else record s {
    get_set_toggle = update s.get_set_toggle lcore_id (not (s.get_set_toggle lcore_id));
  }

  -- A key that is not there leaves `value` as it was; a value of another size fails the assertion.
  pub answer_get : Request → Server T → Option (Bytes × Server T)
  answer_get q s =
      let key = key_of q.pkt in
      let got = T.mehcached_get s.table (T.hash key) key value_size in
      let s' = record s { table = got.1 } in
      elim got.0 [
        | none ↦ some (copy q.pkt value_offset q.junk, s')
        | some value ↦
            if length value == value_size then some (copy q.pkt value_offset value, s') else none
      ]

  pub answer_set : Request → Server T → Option (Bytes × Server T)
  answer_set q s =
      let key = key_of q.pkt in
      elim (T.mehcached_set s.table (T.hash key) key set_value) [
        | none ↦ none
        | some table ↦ some (copy q.pkt value_offset set_value, record s { table = table })
      ]

  -- Nothing when an assertion fails, which ends the program.
  pub mica_process5tuple : Request → Server T → Option (Bytes × Server T)
  mica_process5tuple q s = if do_get s then answer_get q (toggle s) else answer_set q (toggle s)

  -- The packets as they are sent back. The function returns 0.
  pub mica_process_burst : List Request → Server T → Option (List Bytes × Server T)
  mica_process_burst [] s = some ([], s)
  mica_process_burst (q ∷ qs) s = elim (mica_process5tuple q s) [
    | none ↦ none
    | some (pkt, s') ↦ elim (mica_process_burst qs s') [
      | none ↦ none
      | some (pkts, s'') ↦ some (pkt ∷ pkts, s'')
    ]
  ]
