-- ===== src/Options.antt =====
-- common/qflow.h: the options that select the queues, and what nf-chain/src/main.c makes of them
-- before `poll_loop` starts.
pub mod Printed
pub mod Usable
pub mod Setup
mod Tests
use Prim.Native.Nat.{bit_and}
use Prim.Native.String.{String}
use text.Mathlib.Text.{◌==◌ as str_eq}
use queue_dpdk.Prelude.{
  ◌-◌, ℕ, ◌*◌, Bool, true, false, not, ◌&&◌, ◌||◌, Option, none, some, List, [], ◌∷◌, ltb, leb,
  ◌==◌, if◌then◌else◌, u32, u16,
}
use queue_dpdk.Poll.{
  Mode, single, partitioned, shared, is_single, is_partitioned, is_shared, Config, Sweep, Stats,
  Mbuf, max_consecutive_polls,
}
use queue_dpdk.Slices.{slice_start, slice_end}

-- `struct qflow_opts`. Each of the two `int` fields is held as its 32 bits, which stand for a
-- negative number from 2 ^ 31 on.
pub record Opts : Type 0 where
  pub aggressive : Bool
  pub penalty : Bool
  pub penalty_turns : ℕ  -- uint32_t
  pub latency : Bool
  pub latency_queue : ℕ  -- int
  pub latency_period : ℕ  -- int
  pub mode : Mode

pub opts_init : Opts
opts_init = record {
  aggressive = false;
  penalty = false;
  penalty_turns = 5;
  latency = false;
  latency_queue = 0;
  latency_period = 4;
  mode = single;
}

-- The results 1, 0 and -1 of `qflow_parse_long_opt`.
pub data Parsed : Type 0 where
  consumed not_ours invalid : Parsed

-- `strtoul arg` is the number that the C function reads in base 10, an unsigned long, and the text
-- where it stops.
pub parse_uint : (String → ℕ × String) → String → Option ℕ
parse_uint strtoul arg =
    if str_eq arg "" || not (str_eq (strtoul arg).1 "") then none else some (strtoul arg).0

pub parse_policy : Opts → String → Parsed × Opts
parse_policy o arg =
    let cleared = record o { aggressive = false; penalty = false } in
    if str_eq arg "baseline"
    then (consumed, cleared)
    else if str_eq arg "aggressive"
    then (consumed, record cleared { aggressive = true })
    else if str_eq arg "penalty"
    then (consumed, record cleared { penalty = true })
    else if str_eq arg "aggressive+penalty"
    then (consumed, record cleared { aggressive = true; penalty = true })
    else (invalid, cleared)

pub parse_penalty : (String → ℕ × String) → Opts → String → Parsed × Opts
parse_penalty strtoul o arg = elim (parse_uint strtoul arg) [
  | none ↦ (invalid, o)
  | some v ↦ if v == 0 then (invalid, o) else (consumed, record o { penalty_turns = u32 v })
]

pub parse_latency_queue : (String → ℕ × String) → Opts → String → Parsed × Opts
parse_latency_queue strtoul o arg = elim (parse_uint strtoul arg) [
  | none ↦ (invalid, o)
  | some v ↦ (consumed, record o { latency = true; latency_queue = u32 v })
]

pub parse_latency_period : (String → ℕ × String) → Opts → String → Parsed × Opts
parse_latency_period strtoul o arg = elim (parse_uint strtoul arg) [
  | none ↦ (invalid, o)
  | some v ↦ if v == 0 then (invalid, o) else (consumed, record o { latency_period = u32 v })
]

pub parse_multicore : Opts → String → Parsed × Opts
parse_multicore o arg =
    if str_eq arg "partitioned"
    then (consumed, record o { mode = partitioned })
    else if str_eq arg "shared"
    then (consumed, record o { mode = shared })
    else (invalid, o)

pub parse_long_opt : (String → ℕ × String) → Opts → String → String → Parsed × Opts
parse_long_opt strtoul o name arg =
    if str_eq name "policy"
    then parse_policy o arg
    else if str_eq name "penalty"
    then parse_penalty strtoul o arg
    else if str_eq name "latency-queue"
    then parse_latency_queue strtoul o arg
    else if str_eq name "latency-period"
    then parse_latency_period strtoul o arg
    else if str_eq name "multicore"
    then parse_multicore o arg
    else (not_ours, o)

-- The loop of `parse_args` over the long options, as far as it reads these: it ends at an invalid one.
pub parse_args : (String → ℕ × String) → Opts → List (String × String) → Option Opts
parse_args strtoul o [] = some o
parse_args strtoul o (a ∷ args) =
    let p = parse_long_opt strtoul o a.0 a.1 in
    elim p.0 [
      | invalid ↦ none
      | consumed ↦ parse_args strtoul p.1 args
      | not_ours ↦ parse_args strtoul p.1 args
    ]

-- nf-chain's own numbers: 0 stands for an invalid one. The result is an unsigned int.
pub parse_queues : (String → ℕ × String) → String → ℕ
parse_queues strtoul q_arg = elim (parse_uint strtoul q_arg) [ none ↦ 0 | some n ↦ u32 n ]

-- The portmask; `strtoul_16` reads in base 16.
pub parse_portmask : (String → ℕ × String) → String → ℕ
parse_portmask strtoul_16 portmask = elim (parse_uint strtoul_16 portmask) [
  | none ↦ 0
  | some pm ↦ u32 pm
]

-- The option `-q`: `queues` is a uint16_t.
pub option_q : (String → ℕ × String) → String → Option ℕ
option_q strtoul optarg =
    let queues = u16 (parse_queues strtoul optarg) in if queues == 0 then none else some queues

-- The option `-d`: a power of two of at least 64, a uint16_t.
pub option_d : (String → ℕ × String) → String → Option ℕ
option_d strtoul optarg =
    let nb_rxd = u16 (parse_queues strtoul optarg) in
    if ltb nb_rxd 64 || not (bit_and nb_rxd (nb_rxd - 1) == 0) then none else some nb_rxd

-- Whether `qflow_check` returns 0.
pub check : Opts → ℕ → ℕ → Bool
check o queues nb_lcores =
    not (is_single o.mode && ltb 1 nb_lcores)
    && (not (is_partitioned o.mode && ltb queues nb_lcores)
        && not (o.latency && leb queues o.latency_queue))

pub mode_name : Mode → String
mode_name partitioned = "partitioned"
mode_name shared = "shared"
mode_name single = "single"

-- The name of the policy that `qflow_print` prints.
pub policy_name : Opts → String
policy_name o =
    if o.aggressive
    then (if o.penalty then "aggressive+penalty" else "aggressive")
    else (if o.penalty then "penalty" else "baseline")

-- What `poll_loop` keeps fixed on the lcore at `lcore_pos`: `penalty` and `aggressive` as `main`
-- sets them, the slice, the TX queue and the ports.
pub poll_config : Opts → ℕ → ℕ → ℕ → ℕ → (ℕ → ℕ) → (Mbuf → Bool) → Config
poll_config o queues lcore_pos total_lcores rx_portid rx_queue_port rejects = record {
  mode = o.mode;
  aggressive = o.aggressive;
  penalty = if o.penalty then o.penalty_turns else 0;
  latency_mode = o.latency;
  latency_period = o.latency_period;
  latency_queue = o.latency_queue;
  queue_start = slice_start o.mode queues lcore_pos total_lcores;
  queue_end = slice_end o.mode queues lcore_pos total_lcores;
  tx_queueid = u16 lcore_pos;
  rx_portid = rx_portid;
  rx_queue_port = rx_queue_port;
  rejects = rejects;
}

-- The variables of `poll_loop` before its first sweep.
pub first_sweep : Config → Stats → Sweep
first_sweep c stats = record {
  i = c.queue_start;
  resume_i = none;
  latency_count = 0;
  inject_queue = false;
  max_loops = max_consecutive_polls;
  hit = λ _. c.penalty;
  tx_batch = [];
  after_warmup = false;
  stats = stats;
}
