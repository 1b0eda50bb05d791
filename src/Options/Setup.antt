-- ===== src/Options/Setup.antt =====
-- nf-chain/src/main.c, `main` and the start of `poll_loop`: what options that pass `qflow_check`
-- give to the polling loop.
use Prim.Native.String.{String}
use queue_dpdk.Prelude.{
  ℕ, ap, zero, suc, ◌≤◌, ◌<◌, ◌≡◌, true, Bool, some, refl, arith, List, All, ◌^◌, length, replicate,
}
use queue_dpdk.Poll.{Mode, single, partitioned, shared, Mbuf, Stats, has_latency_queue}
use queue_dpdk.Poll.Bounds.{IsValid}
use queue_dpdk.Slices.{slice_start, slice_end}
use queue_dpdk.Slices.Chain.{IsDeal, slices_cut, get_lcore_for_queue-Owns}
use queue_dpdk.Options.{Opts, opts_init, parse_args, check, poll_config, first_sweep}
use queue_dpdk.Options.Usable.{IsSmall, parse_args-IsUsable}

-- What a passed check says.
check-enough : (o : Opts) (q n : ℕ) → check o q n ≡ true → o.mode ≡ partitioned → n ≤ q
unfolding check
check-enough o q n e h = ground arith

check_latency_queue :
    (o : Opts) (q n : ℕ) → check o q n ≡ true → o.latency ≡ true → o.latency_queue < q
unfolding check
check_latency_queue o q n e h = ground arith

slice_start-le :
    (m : Mode) (q n p : ℕ)
    → IsDeal q n
    → p < n
    → (m ≡ partitioned → n ≤ q)
    → slice_start m q p n ≤ slice_end m q p n
unfolding slice_start slice_end
slice_start-le single q n p d h e = omega arith
slice_start-le shared q n p d h e = omega arith
slice_start-le partitioned q n p d h e = omega (arith, (slices_cut q n d).3 p h (e refl))

length-replicate : (n a : ℕ) → length (replicate n a) ≡ n
length-replicate zero a = refl
length-replicate (suc n) a = ap suc (length-replicate n a)

module _ (queues nb_lcores : ℕ) (d : IsDeal queues nb_lcores) (rx_portid : ℕ)
    (rx_queue_port : ℕ → ℕ) (rejects : Mbuf → Bool) where
  -- Options that a command line with numbers below 2^31 sets, and that pass `qflow_check`, start the
  -- polling loop of every lcore in a valid state, with a latency period that is positive as an int.
  pub first_sweep-IsValid :
      (strtoul : String → ℕ × String) (args : List (String × String)) (o : Opts) (lcore_pos : ℕ)
      (stats : Stats)
      → All (λ a. IsSmall strtoul a.1) args
      → parse_args strtoul opts_init args ≡ some o
      → check o queues nb_lcores ≡ true
      → lcore_pos < nb_lcores
      → IsValid (poll_config o queues lcore_pos nb_lcores rx_portid rx_queue_port rejects) (
          first_sweep
            (poll_config o queues lcore_pos nb_lcores rx_portid rx_queue_port rejects)
            stats)
        × (0 < o.latency_period)
        × (o.latency_period < 2 ^ 31)
  unfolding poll_config first_sweep
  first_sweep-IsValid strtoul args o lcore_pos stats w e k h =
      let usable = parse_args-IsUsable strtoul args o w e in
      (
        record {
          low = omega arith;
          high =
              slice_start-le o.mode queues nb_lcores lcore_pos d h
                (check-enough o queues nb_lcores k);
          loops = omega arith;
          resume = tt;
          batch = omega arith;
          count = usable.period.0;
        },
        usable.period.0,
        usable.period.1,
      )

  -- When the Latency policy is on and the options pass `qflow_check`, some lcore has the latency
  -- queue in its slice.
  check-latency_served :
      (o : Opts)
      → check o queues nb_lcores ≡ true
      → o.latency ≡ true
      → (p : ℕ) × (p < nb_lcores)
        × (has_latency_queue (poll_config o queues p nb_lcores rx_portid rx_queue_port rejects)
            ≡ true)
  unfolding poll_config slice_start slice_end
  check-latency_served o k l = go o.mode refl
    where
      there : o.latency_queue < queues
      there = check_latency_queue o queues nb_lcores k l

      go :
          (m : Mode)
          → o.mode ≡ m
          → (p : ℕ) × (p < nb_lcores)
            × (has_latency_queue (poll_config o queues p nb_lcores rx_portid rx_queue_port rejects)
                ≡ true)
      go single e = (0, d.some_lcore, rw e (ground (arith, there)))
      go shared e = (0, d.some_lcore, rw e (ground (arith, there)))
      go partitioned e =
          let owner =
            get_lcore_for_queue-Owns o.latency_queue queues nb_lcores 0 (replicate nb_lcores 0) d
              (length-replicate nb_lcores 0) there in
          (owner.1, owner.3, rw e (ground (arith, owner.5, owner.6)))
