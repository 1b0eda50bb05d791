-- ===== src/Mica/Request/Stored.antt =====
-- mica/main.c, `mica_process_burst`, on a table that keeps what it is given.
use queue_dpdk.Prelude.{
  ap, ℕ, ◌≡◌, refl, true, false, Option, none, some, List, [], ◌∷◌, arith, length, ◌==◌, ==_iff,
}
use queue_dpdk.Poll.{Mode}
use queue_dpdk.Mica.Request.{
  Key, Tables, key_of, copy, set_value, Server, Request, do_get, toggle, answer_get, answer_set,
  mica_process5tuple, mica_process_burst, value_offset, value_size,
}

-- What the server relies on: a value of `value_size` bytes that a SET has stored is found by the next
-- GET of its key.
pub record Stores (T : Tables) : Type 0 where
  pub get-set :
      (t t' : T.Table) (k : Key) (v : List ℕ)
      → T.mehcached_set t (T.hash k) k v ≡ some t'
      → length v ≡ value_size
      → (T.mehcached_get t' (T.hash k) k value_size).0 ≡ some v

length-set_value : length set_value ≡ value_size
unfolding set_value
length-set_value = refl

module _ (T : Tables) (K : Stores T) (mode : Mode) (lcore_id : ℕ) where
  toggle-table : (s : Server T) → (toggle T mode lcore_id s).table ≡ s.table
  toggle-table s = ground arith

  set-reply :
      (q : Request) (s : Server T) (t : T.Table)
      → do_get T mode lcore_id s ≡ false
      → T.mehcached_set s.table (T.hash (key_of q.pkt)) (key_of q.pkt) set_value ≡ some t
      → mica_process5tuple T mode lcore_id q s
        ≡ some (copy q.pkt value_offset set_value, record (toggle T mode lcore_id s) { table = t })
  unfolding mica_process5tuple answer_set
  set-reply q s t g e =
      let e' = rw (← toggle-table s) at e in rw (mica_process5tuple, g, answer_set, e') refl

  -- What a GET leaves.
  abbrev after_get : Request → Server T → Server T
  after_get q s =
      let s' = toggle T mode lcore_id s in
      record s' {
        table = (T.mehcached_get s'.table (T.hash (key_of q.pkt)) (key_of q.pkt) value_size).1;
      }

  get-reply :
      (q : Request) (s : Server T) (v : List ℕ)
      → do_get T mode lcore_id s ≡ true
      → length v ≡ value_size
      → (T.mehcached_get s.table (T.hash (key_of q.pkt)) (key_of q.pkt) value_size).0 ≡ some v
      → mica_process5tuple T mode lcore_id q s ≡ some (copy q.pkt value_offset v, after_get q s)
  unfolding mica_process5tuple answer_get
  get-reply q s v g l e =
      let e' = rw (← toggle-table s) at e in
      let l' : (length v == value_size) ≡ true = (==_iff _ _).1 l in
      rw (mica_process5tuple, g, answer_get, e', l') refl

  -- By what the table makes of a SET for the first of two packets with one key.
  abbrev pub SetThenGet : Request → Request → Server T → Option T.Table → Type 0
  SetThenGet a b s none = mica_process_burst T mode lcore_id (a ∷ b ∷ []) s ≡ none
  SetThenGet a b s (some stored) =
      (t : Server T) × (mica_process_burst T mode lcore_id (a ∷ b ∷ []) s
        ≡ some (copy a.pkt value_offset set_value ∷ copy b.pkt value_offset set_value ∷ [], t))
      × (t.table ≡ (T.mehcached_get stored (T.hash (key_of b.pkt)) (key_of b.pkt) value_size).1)
      × (do_get T mode lcore_id t ≡ false)

  -- When the turn is a SET, of two packets with the same key the first is a SET and the second a
  -- GET. If the SET fails, so does the burst. If it succeeds, both packets are sent back with the
  -- value that it has stored, the table is what the one SET and then the one GET have left, and the
  -- next turn is a SET.
  pub set_then_get :
      (a b : Request) (s : Server T)
      → do_get T mode lcore_id s ≡ false
      → key_of a.pkt ≡ key_of b.pkt
      → SetThenGet a b s (T.mehcached_set s.table (T.hash (key_of a.pkt)) (key_of a.pkt) set_value)
  unfolding mica_process_burst mica_process5tuple answer_set
  set_then_get a b s g e =
      go (T.mehcached_set s.table (T.hash (key_of a.pkt)) (key_of a.pkt) set_value) refl
    where
      go :
          (o : Option T.Table)
          → T.mehcached_set s.table (T.hash (key_of a.pkt)) (key_of a.pkt) set_value ≡ o
          → SetThenGet a b s o
      go none q =
          let q' = rw (← toggle-table s) at q in
          rw (mica_process_burst, mica_process5tuple, g, answer_set, q') refl
      go (some stored) q =
          let s' : Server T = record (toggle T mode lcore_id s) { table = stored } in
          let found = K.get-set s.table stored (key_of a.pkt) set_value q length-set_value in
          let turn : do_get T mode lcore_id s' ≡ true = ground (arith, g) in
          let second = get-reply b s' set_value turn length-set_value (rw (← e) found) in
          (
            after_get b s',
            rw (set-reply a s stored g q, mica_process_burst, second) refl,
            ap (λ t. (T.mehcached_get t (T.hash (key_of b.pkt)) (key_of b.pkt) value_size).1)
                (toggle-table s'),
            ground (arith, g),
          )
