-- ===== src/Setup/Ready.antt =====
-- nf-chain/src/main.c, `main`: what has been set up when the polling loops are launched.
use mathlib.Core.List.{append_assoc}
use mathlib.Core.List.Memᴰ.{Memᴰ, head, tail, append_left, append_right}
use mathlib.Core.Option
use mathlib.Core.Path.{subst}
use queue_dpdk.Prelude.{
  ℕ, zero, suc, ◌+◌, ◌^◌, ◌<◌, ◌≡◌, refl, ◌∙◌, sym, ap, Bool, true, Bool-cases, inl, inr, not, List,
  [], ◌∷◌, ◌++◌, map, arith, some, get_elem?, u16,
}
use queue_dpdk.Poll.{is_single, is_shared, Mode, is_partitioned}
use queue_dpdk.Slices.{get_lcore_for_queue}
use queue_dpdk.Slices.Chain.{IsDeal, get_lcore_for_queue-Owns}
use queue_dpdk.Calls.{launched, for_each}
use queue_dpdk.Calls.Order.{Before, Stops, get_elem?-Mem, map-Mem, for_each-Mem, run_calls-Stops}
use queue_dpdk.Setup.{
  tx_buffer, get_queue_base, nat_shards, checks, nf_init, lcore_nb_mbufs, nb_mbufs, sketch, goes_on,
  Machine, Call, pool_create, tx_queue_setup, rx_queue_setup, dev_start, nb_lcores, is_enabled,
  pools, rx_pool, tx_queues, rx_queues, init_port, start_port, clear_port, set_up, main,
}

rx_queues-Mem :
    (m : Machine) (port x n k y : ℕ)
    → k < n
    → x + k ≡ y
    → Memᴰ (rx_queue_setup port y (rx_pool m y)) (rx_queues m port x n)
unfolding rx_queues
rx_queues-Mem m port x zero k y h e = absurd (omega (arith, h))
rx_queues-Mem m port x (suc n) zero y h e =
    let same : y ≡ x = omega (arith, e) in
    tail (head (ap (λ z. rx_queue_setup port z (rx_pool m z)) same))
rx_queues-Mem m port x (suc n) (suc k) y h e =
    tail (tail (rx_queues-Mem m port (x + 1) n k y (omega (arith, h)) (omega (arith, e))))

tx_queues-Mem :
    (port q k p lcore : ℕ) (lcores : List ℕ)
    → get_elem? lcores k ≡ some lcore
    → q + k ≡ p
    → p < 2 ^ 16
    → Memᴰ (tx_queue_setup port p lcore) (tx_queues port q lcores)
unfolding tx_queues
tx_queues-Mem port q k p lcore [] g e h = cc g
tx_queues-Mem port q zero p lcore (l ∷ lcores) g e h =
    let same : p ≡ q = omega (arith, e) in
    tail (
      head (
        ap (λ y. tx_queue_setup port y lcore) same
        ∙ ap (λ y. tx_queue_setup port q y) (sym (Option.some_inj.0 g))))
tx_queues-Mem port q (suc k) p lcore (l ∷ lcores) g e h =
    tail (tail (tx_queues-Mem port (u16 (q + 1)) k p lcore lcores g (omega (arith, e, h)) h))

module _ (m : Machine) (port : ℕ) (on : is_enabled m port ≡ true) where
  rx_queue-init_port :
      (x : ℕ) → x < m.queues → Memᴰ (rx_queue_setup port x (rx_pool m x)) (init_port m port)
  unfolding init_port
  rx_queue-init_port x h =
      rw (on, init_port)
        (tail (
          tail (
            tail (
              tail (
                tail (
                  tail (
                    tail (
                      append_right (map (tx_buffer port) m.lcores) (
                        append_right (tx_queues port 0 m.lcores)
                          (tail (rx_queues-Mem m port 0 m.queues x x h (omega arith))))))))))))

  tx_queue-init_port :
      (p lcore : ℕ)
      → p < 2 ^ 16
      → get_elem? m.lcores p ≡ some lcore
      → Memᴰ (tx_queue_setup port p lcore) (init_port m port)
  unfolding init_port
  tx_queue-init_port p lcore h e =
      rw (on, init_port)
        (tail (
          tail (
            tail (
              tail (
                tail (
                  tail (
                    tail (
                      append_right (map (tx_buffer port) m.lcores) (
                        append_left (get_queue_base port ∷ rx_queues m port 0 m.queues)
                          (tx_queues-Mem port 0 p p lcore m.lcores e (omega arith) h))))))))))

  dev_start-start_port : Memᴰ (dev_start port) (start_port m port)
  unfolding start_port
  dev_start-start_port = rw (on, start_port) (head refl)

-- The pool of a queue is one of those that are made.
rx_pool-pools :
    (m : Machine) (x : ℕ)
    → (is_partitioned m.mode ≡ true → IsDeal m.queues (nb_lcores m))
    → x < m.queues
    → (nb : ℕ) × Memᴰ (pool_create (rx_pool m x) nb) (pools m)
unfolding rx_pool pools
rx_pool-pools m x d h = elim (Bool-cases (is_partitioned m.mode)) [
  | inl e ↦
      let owner = get_lcore_for_queue x m.queues (nb_lcores m) m.main_lcore m.lcores in
      let owned =
        get_lcore_for_queue-Owns x m.queues (nb_lcores m) m.main_lcore m.lcores (d e) refl h in
      (
        lcore_nb_mbufs m,
        rw (e, pools, rx_pool)
            (map-Mem (λ l. pool_create l (lcore_nb_mbufs m)) m.lcores owner
              (get_elem?-Mem m.lcores owned.0 owner owned.4)),
      )
  | inr e ↦ (nb_mbufs m, rw (e, pools, rx_pool) (head refl))
]

-- All calls are made, or those up to the first that ends the program.
main-Stops :
    (succeeds : Call → Bool) (m : Machine)
    → Stops (goes_on succeeds) m.mode (set_up m) (main succeeds m)
unfolding main
main-Stops succeeds m = run_calls-Stops (goes_on succeeds) m.mode (set_up m)

-- When the loops are launched, each queue of each enabled port has been set up with a pool that had
-- been made before, and before its port was started; and so has, for each of the first 2^16 lcores,
-- the TX queue with the number of the lcore's position. In Partitioned mode the queues are taken
-- to be dealt out to at least one lcore, both being below 2^16.
pub launched_ready :
    (succeeds : Call → Bool) (m : Machine) (port x : ℕ) (done : List Call) (mode : Mode)
    → main succeeds m ≡ launched done mode
    → Memᴰ port m.ports
    → is_enabled m port ≡ true
    → x < m.queues
    → (is_partitioned m.mode ≡ true → IsDeal m.queues (nb_lcores m))
    → ((nb : ℕ) × Before (pool_create (rx_pool m x) nb) (rx_queue_setup port x (rx_pool m x)) done)
      × Before (rx_queue_setup port x (rx_pool m x)) (dev_start port) done
      × ((p lcore : ℕ)
          → p < 2 ^ 16
          → get_elem? m.lcores p ≡ some lcore
          → Before (tx_queue_setup port p lcore) (dev_start port) done)
unfolding set_up
launched_ready succeeds m port x done mode l here on h d =
    let all : Stops (goes_on succeeds) m.mode (set_up m) (launched done mode) =
      subst (Stops (goes_on succeeds) m.mode (set_up m)) l (main-Stops succeeds m) in
    let first =
      checks ++ (nf_init (nat_shards m) (is_shared m.mode) (not (is_single m.mode)) ∷ pools m) in
    let inits = for_each (init_port m) m.ports in
    let starts = for_each (start_port m) m.ports in
    let rest = map (sketch m) m.lcores ++ for_each (clear_port m) m.ports in
    let made = rx_pool-pools m x d h in
    let cut : done ≡ (first ++ inits) ++ (starts ++ rest) =
      all.0 ∙ sym (append_assoc first inits (starts ++ rest)) in
    let init_done = λ (c : Call) (k : Memᴰ c (init_port m port)).
      append_right first (for_each-Mem (init_port m) m.ports port c here k) in
    let start_done : Memᴰ (dev_start port) (starts ++ rest) = append_left rest (
      for_each-Mem (start_port m) m.ports port (dev_start port) here
        (dev_start-start_port m port on)) in
    (
      (
        made.0,
        (
          first,
          inits ++ (starts ++ rest),
          all.0,
          append_right checks (tail made.1),
          append_left (starts ++ rest) (
              for_each-Mem (init_port m) m.ports port (rx_queue_setup port x (rx_pool m x)) here
                (rx_queue-init_port m port on x h)),
        ),
      ),
      (
        first ++ inits,
        starts ++ rest,
        cut,
        init_done (rx_queue_setup port x (rx_pool m x)) (rx_queue-init_port m port on x h),
        start_done,
      ),
      λ p lcore b g. (
        first ++ inits,
        starts ++ rest,
        cut,
        init_done (tx_queue_setup port p lcore) (tx_queue-init_port m port on p lcore b g),
        start_done,
      ),
    )
