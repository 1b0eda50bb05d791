-- ===== src/Mica/Setup/Ready.antt =====
-- mica/main.c, `main`: what has been set up when the polling loops are launched.
use mathlib.Core.List.{append_assoc}
use mathlib.Core.List.Memᴰ.{Memᴰ, head, tail, append_left, append_right}
use mathlib.Core.Path.{subst}
use queue_dpdk.Prelude.{
  ℕ, zero, suc, ◌+◌, ◌<◌, ◌≤◌, ◌≡◌, refl, ◌∙◌, sym, ap, Bool, true, false, Bool-cases, inl, inr,
  List, [], ◌∷◌, ◌++◌, map, arith, some, get_elem?, length, ltb, leb, ◌||◌, interval, All,
}
use queue_dpdk.Poll.{is_single, is_partitioned, Mode}
use queue_dpdk.Slices.{owner_lc_idx}
use queue_dpdk.Slices.Store.{IsActive, Polls, owner_lc_idx-Polls}
use queue_dpdk.Calls.{launched}
use queue_dpdk.Calls.Order.{Before, Stops, map-Mem, run_calls-Stops}
use queue_dpdk.Mica.Setup.{
  Host, Ask, mbuf_pool_per_lcore, pool_create, rx_queue_setup, tx_queue_setup, dev_start,
  set_default, active_io_lcores, entry_checks, lcore_mbufs, all_mbufs, lcore_pools, make_pools,
  lcore_at, queue_pool, io_rx_queues, configure_port, clear_queues, num_keys, fill_table, prepare,
  answer, serve_main, max_rx_queue_per_port,
}

lcore_at-get :
    (h : Host) (l : List ℕ) (k : ℕ) → k < length l → get_elem? l k ≡ some (lcore_at h l k)
unfolding lcore_at
lcore_at-get h [] k b = absurd (omega (arith, b))
lcore_at-get h (x ∷ l) zero b = refl
lcore_at-get h (x ∷ l) (suc k) b = lcore_at-get h l k (omega (arith, b))

io_rx_queues-Mem :
    (h : Host) (x n k y : ℕ)
    → k < n
    → x + k ≡ y
    → Memᴰ (rx_queue_setup y (queue_pool h y)) (io_rx_queues h x n)
unfolding io_rx_queues
io_rx_queues-Mem h x zero k y b e = absurd (omega (arith, b))
io_rx_queues-Mem h x (suc n) zero y b e =
    let same : y ≡ x = omega (arith, e) in
    tail (head (ap (λ z. rx_queue_setup z (queue_pool h z)) same))
io_rx_queues-Mem h x (suc n) (suc k) y b e =
    tail (tail (io_rx_queues-Mem h (x + 1) n k y (omega (arith, b)) (omega (arith, e))))

interval-Mem : (i n k y : ℕ) → k < n → i + k ≡ y → Memᴰ y (interval i n)
interval-Mem i zero k y b e = absurd (omega (arith, b))
interval-Mem i (suc n) zero y b e = head (omega (arith, e))
interval-Mem i (suc n) (suc k) y b e =
    tail (interval-Mem (i + 1) n k y (omega (arith, b)) (omega (arith, e)))

lcore_pools-Mem :
    (h : Host) (i k : ℕ) (l : List ℕ)
    → k < length l
    → i + k < active_io_lcores h
    → (nb : ℕ) × Memᴰ (pool_create (mbuf_pool_per_lcore (lcore_at h l k)) nb) (lcore_pools h i l)
unfolding lcore_pools lcore_at
lcore_pools-Mem h i k [] b a = absurd (omega (arith, b))
lcore_pools-Mem h i zero (lc ∷ l) b a =
    let on : ltb i (active_io_lcores h) ≡ true = ground (arith, a) in
    (lcore_mbufs h i, rw (on, lcore_pools) (head refl))
lcore_pools-Mem h i (suc k) (lc ∷ l) b a =
    let on : ltb i (active_io_lcores h) ≡ true = ground (arith, a) in
    let rest = lcore_pools-Mem h (i + 1) k l (omega (arith, b)) (omega (arith, a)) in
    (rest.0, rw (on, lcore_pools) (tail rest.1))

partitioned-single : (m : Mode) → is_partitioned m ≡ true → is_single m ≡ false
partitioned-single Mode.single e = cc e
partitioned-single Mode.partitioned e = refl
partitioned-single Mode.shared e = refl

active_io_lcores-le :
    (h : Host)
    → is_partitioned h.mode ≡ true
    → (active_io_lcores h ≤ h.queues) × (active_io_lcores h ≤ length h.lcores)
unfolding active_io_lcores
active_io_lcores-le h e = rw (partitioned-single h.mode e) (omega arith)

All-Mem {ℓ κ} : {A : Type ℓ} (P : A → Type κ) (xs : List A) (x : A) → All P xs → Memᴰ x xs → P x
All-Mem P [] x a m = elim m [ ]
All-Mem P (y ∷ xs) x a (head e) = subst P (sym e) a.0
All-Mem P (y ∷ xs) x a (tail m) = All-Mem P xs x a.1 m

-- The tests that `main` has passed.
passed-IsActive :
    (succeeds : Ask → Bool) (h : Host)
    → All (λ c. answer succeeds c ≡ true) (prepare h)
    → is_partitioned h.mode ≡ true
    → IsActive h.queues (active_io_lcores h)
unfolding prepare entry_checks
passed-IsActive succeeds h a e =
    let some_on : (is_single h.mode || ltb 0 (active_io_lcores h)) ≡ true = a.1.1.1.1.1.1.0 in
    let on : ltb 0 (active_io_lcores h) ≡ true =
      subst (λ b. (b || ltb 0 (active_io_lcores h)) ≡ true) (partitioned-single h.mode e) some_on in
    let few : leb h.queues max_rx_queue_per_port ≡ true = a.1.1.1.1.0 in
    record {
      queues_u16 = ground (arith, few);
      some_lcore = ground (arith, on);
      enough = (active_io_lcores-le h e).0;
    }

-- In Partitioned mode the pool of a queue is that of the lcore that polls it.
abbrev pub OwnPool : Host → ℕ → Type 0
OwnPool h x =
    (i : ℕ) × (lc : ℕ) × (get_elem? h.lcores i ≡ some lc)
    × (queue_pool h x ≡ mbuf_pool_per_lcore lc)
    × Polls h.queues (active_io_lcores h) i x

queue_pool-OwnPool :
    (h : Host) (x : ℕ)
    → is_partitioned h.mode ≡ true
    → IsActive h.queues (active_io_lcores h)
    → x < h.queues
    → OwnPool h x
unfolding queue_pool
queue_pool-OwnPool h x e a b =
    let i = owner_lc_idx h.queues (active_io_lcores h) x in
    let polls = owner_lc_idx-Polls h.queues (active_io_lcores h) x a b in
    (
      i,
      lcore_at h h.lcores i,
      lcore_at-get h h.lcores i (omega (arith, polls.0, (active_io_lcores-le h e).1)),
      rw e,
      polls,
    )

-- The pool of a queue is one of those that are made.
queue_pool-make_pools :
    (h : Host) (x : ℕ)
    → (is_partitioned h.mode ≡ true → IsActive h.queues (active_io_lcores h))
    → x < h.queues
    → (nb : ℕ) × Memᴰ (pool_create (queue_pool h x) nb) (make_pools h)
unfolding queue_pool make_pools
queue_pool-make_pools h x a b = elim (Bool-cases (is_partitioned h.mode)) [
  | inl e ↦
      let i = owner_lc_idx h.queues (active_io_lcores h) x in
      let polls = owner_lc_idx-Polls h.queues (active_io_lcores h) x (a e) b in
      let made =
        lcore_pools-Mem h 0 i h.lcores (omega (arith, polls.0, (active_io_lcores-le h e).1))
          (omega (arith, polls.0)) in
      (made.0, rw (e, make_pools, queue_pool) made.1)
  | inr e ↦ (all_mbufs h, rw (e, make_pools, queue_pool) (head refl))
]

-- When the loops are launched, each RX queue has been set up with a pool that had been made before,
-- and before the port was started, which in Partitioned mode is the pool of the lcore that polls
-- the queue; the TX queue with the number of each polling lcore has been set up before the port was
-- started; and behind that each of the keys has got its default value.
pub serve_main-Ready :
    (succeeds : Ask → Bool) (h : Host) (done : List Ask) (mode : Mode) (x p key : ℕ)
    → serve_main succeeds h ≡ launched done mode
    → x < h.queues
    → p < active_io_lcores h
    → key < num_keys
    → ((nb : ℕ) × Before (pool_create (queue_pool h x) nb) (rx_queue_setup x (queue_pool h x)) done)
      × Before (rx_queue_setup x (queue_pool h x)) dev_start done
      × (is_partitioned h.mode ≡ true → OwnPool h x)
      × Before (tx_queue_setup p) dev_start done
      × Before dev_start (set_default key) done
unfolding serve_main prepare configure_port fill_table
serve_main-Ready succeeds h done mode x p key l bx bp bk =
    let all : Stops (answer succeeds) h.mode (prepare h) (launched done mode) =
      subst (Stops (answer succeeds) h.mode (prepare h)) l
        (run_calls-Stops (answer succeeds) h.mode (prepare h)) in
    let active = passed-IsActive succeeds h all.2 in
    let first = entry_checks h ++ make_pools h in
    let port = configure_port h in
    let rest = clear_queues h ++ fill_table h num_keys in
    let made = queue_pool-make_pools h x active bx in
    let cut : done ≡ (first ++ port) ++ (dev_start ∷ rest) =
      all.0 ∙ sym (append_assoc first port (dev_start ∷ rest)) in
    let rx : Memᴰ (rx_queue_setup x (queue_pool h x)) port = tail (
      tail (
        tail (
          tail (
            append_left (map tx_queue_setup (interval 0 (active_io_lcores h)))
              (io_rx_queues-Mem h 0 h.queues x x bx (omega arith)))))) in
    let tx : Memᴰ (tx_queue_setup p) port = tail (
      tail (
        tail (
          tail (
            append_right (io_rx_queues h 0 h.queues) (
              map-Mem tx_queue_setup (interval 0 (active_io_lcores h)) p
                (interval-Mem 0 (active_io_lcores h) p p bp (omega arith))))))) in
    let filled : Memᴰ (set_default key) rest = append_right (clear_queues h) (
      tail (
        tail (
          map-Mem set_default (interval 0 num_keys) key
            (interval-Mem 0 num_keys key key bk (omega arith))))) in
    (
      (
        made.0,
        (
          first,
          port ++ (dev_start ∷ rest),
          all.0,
          append_right (entry_checks h) made.1,
          append_left (dev_start ∷ rest) rx,
        ),
      ),
      (first ++ port, dev_start ∷ rest, cut, append_right first rx, head refl),
      λ e. queue_pool-OwnPool h x e (active e) bx,
      (first ++ port, dev_start ∷ rest, cut, append_right first tx, head refl),
      (
        (first ++ port) ++ (dev_start ∷ []),
        rest,
        cut ∙ sym (append_assoc (first ++ port) (dev_start ∷ []) rest),
        append_right (first ++ port) (head refl),
        filled,
      ),
    )
