-- ===== src/Options/Tests.antt =====
-- Command lines, read by a `strtoul` that knows three numbers.
use Prim.Native.String.{String}
use text.Mathlib.Text.{◌==◌ as str_eq}
use queue_dpdk.Prelude.{
  All, ◌<◌, ◌^◌, ℕ, ◌≡◌, true, false, some, none, refl, arith, List, [], ◌∷◌, if◌then◌else◌, ◌==◌,
}
use queue_dpdk.Poll.{partitioned, Stats}
use queue_dpdk.Poll.Bounds.{IsValid}
use queue_dpdk.Slices.Chain.{IsDeal}
use queue_dpdk.Options.{
  Opts, invalid, opts_init, parse_args, option_q, option_d, parse_queues, parse_portmask,
  parse_long_opt, parse_policy, parse_penalty, parse_latency_queue, parse_latency_period,
  parse_multicore, parse_uint, check, poll_config, first_sweep,
}
use queue_dpdk.Options.Usable.{IsSmall}
use queue_dpdk.Options.Setup.{first_sweep-IsValid}

abbrev reads : String → ℕ × String
reads arg =
    if str_eq arg "6"
    then (6, "")
    else if str_eq arg "0"
    then (0, "")
    else if str_eq arg "4294967295"
    then (4294967295, "")
    else (0, arg)

abbrev line : List (String × String)
line =
    ("policy", "aggressive+penalty")
    ∷ ("penalty", "6")
    ∷ ("latency-queue", "6")
    ∷ ("multicore", "partitioned")
    ∷ []

abbrev chosen : Opts
chosen = record {
  aggressive = true;
  penalty = true;
  penalty_turns = 6;
  latency = true;
  latency_queue = 6;
  latency_period = 4;
  mode = partitioned;
}

line_read : parse_args reads opts_init line ≡ some chosen
unfolding opts_init parse_args parse_long_opt parse_policy parse_penalty parse_latency_queue
    parse_multicore parse_uint
line_read = refl

-- An unknown policy is refused, and has already cleared the policy that was set.
unknown_policy :
    parse_long_opt reads chosen "policy" "fair"
    ≡ (invalid, record chosen { aggressive = false; penalty = false })
unfolding parse_long_opt parse_policy
unknown_policy = refl

zero_period : parse_args reads opts_init (("latency-period", "0") ∷ []) ≡ none
unfolding opts_init parse_args parse_long_opt parse_latency_period parse_uint
zero_period = refl

line-IsSmall : All (λ a. IsSmall reads a.1) line
line-IsSmall = (ground arith, (ground arith, (ground arith, (ground arith, tt))))

chosen_passes : check chosen 10 3 ≡ true
unfolding check
chosen_passes = refl

abbrev deal : IsDeal 10 3
deal = record { queues_u16 = omega arith; lcores_u16 = omega arith; some_lcore = omega arith }

zeroed : Stats
zeroed = record {
  n_bursts = 0;
  n_pkts = 0;
  spin_time = 0;
  spin_pkt = 0;
  empty = 0;
  measured_packets_rx = 0;
  port_rx = λ _ _. 0;
}

first_sweep-IsValid_example :
    IsValid
      (poll_config chosen 10 1 3 0 (λ _. 0) (λ p. p == 7))
      (first_sweep (poll_config chosen 10 1 3 0 (λ _. 0) (λ p. p == 7)) zeroed)
    × (0 < chosen.latency_period)
    × (chosen.latency_period < 2 ^ 31)
first_sweep-IsValid_example =
    first_sweep-IsValid 10 3 deal 0 (λ _. 0) (λ p. p == 7) reads line chosen 1 zeroed line-IsSmall
      line_read chosen_passes (omega arith)

six_queues : option_q reads "6" ≡ some 6
unfolding option_q parse_queues parse_uint
six_queues = refl

-- 65542 queues are cut to 6 by the uint16_t.
queues_wrap : option_q (λ arg. (65542, "")) "65542" ≡ some 6
unfolding option_q parse_queues parse_uint
queues_wrap = refl

not_a_power : option_d (λ arg. (96, "")) "96" ≡ none
unfolding option_d parse_queues parse_uint
not_a_power = refl

no_ports : parse_portmask reads "" ≡ 0
unfolding parse_portmask parse_uint
no_ports = refl
