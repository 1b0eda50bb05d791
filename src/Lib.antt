-- ===== src/Lib.antt =====
-- queueDPDK: which RX queue a core polls next. The repository has a chain of network functions for
-- DPDK (nf-chain/src), a key-value store (mica/main.c), a benchmark (locality/main.c), and the
-- queue-selection policies that the first two share (common/qflow.h).
--
-- How nf-chain runs: `main` reads the options, deals the RX queues out to the lcores, makes the
-- flow tables of the NAT and starts `poll_loop` on each lcore. `poll_loop` sweeps over the queues of
-- its slice; each burst that it receives is sorted for the ACL lookup, goes through the NAT and is
-- counted in a sketch, and is then handed to the TX queue.
--
-- The files, and the code that each follows:
--   Poll       nf-chain/src/main.c, `poll_loop`: the sweep, one `iteration` for one pass of the
--              loop over the queues. A `Reply` holds what the environment answers in an iteration;
--              the list of replies is the fuel of `sweep`, which says `starved` when it runs out;
--              how many are enough is in the results under Poll.Termination.
--   Rounds     nf-chain/src/main.c, `poll_loop`: the outer loop, with its timers, the TX of what a
--              sweep leaves, and its exits. A `Tick` holds what the environment gives to one round.
--   Slices     the slice of each lcore, in nf-chain/src/main.c and in mica/main.c, and the lcore
--              that owns a queue.
--   Translate  the NAT: nf-chain/src/nat_main.c, nat_flowmanager.c, state.c and flow.h. Its map,
--              vector and index allocator, copies of a library in nf-chain/src/utils, are the
--              parameter `Tables`, and `Contracts` is what their documentation promises.
--   Burst      nf-chain/src/main.c, `nf_process_burst`: each packet of a burst through the stop test
--              (Magic), the NAT (Translate) and the sketch (Sketch).
--   Mica       mica/main.c: its polling loop, on the events and variables of Poll (the sweep in
--              Mica.Loop, the outer loop in Mica.Rounds), its GETs and SETs (Mica.Request), with
--              the table of mica/ported-mica as a parameter, and the calls of `main` up to the
--              launch of the loops (Mica.Setup).
--   Locality   locality/main.c: the sweep of `cms_main_loop` (Locality, Locality.Trace), and what
--              `main` sets: the port that each port sends to (Locality.Pairs, and with --portmap
--              Locality.Config), and the lcore that reads from it (Locality.Cores).
--   Options    common/qflow.h, and what nf-chain/src/main.c makes of the options. `strtoul` is a
--              parameter.
--   Setup      nf-chain/src/main.c, `main`: the calls up to the launch of the loops. Whether a call
--              succeeds is a parameter.
--   Calls      what Setup and Mica.Setup share: calls that are run until one fails.
--   Acl        nf-chain/src/main.c, `app_acl_init` and `setup_acl`: the rules of both files, loaded
--              by Rules and Parse, in the lookup contexts of each socket.
--   Sketch     nf-chain/src/main.c, `count_add`. `xxhash64` is a parameter.
--   Groups     texts of groups in parentheses, which `parse_config` of nf-chain/src/main.c and
--              `cms_parse_port_pair_config` of locality/main.c read by the same loop; its fuel is
--              the length of the text, which is shown to be enough. `rte_strsplit` is a parameter.
--   Params     nf-chain/src/main.c: the (port, queue, lcore) parameters, and the option --config
--              that gives them (Params.Config).
--   Classify   nf-chain/src/main.c: `prepare_acl_parameter` and `is_valid_ipv4_pkt`.
--   Magic      nf-chain/src/main.c: the packets that start and stop a measurement.
--   Rules      nf-chain/src/main.c: `add_rules`. The parser of a line and `isspace` are parameters.
--   Fields     nf-chain/src/main.c: `ipv4_defs`, `ipv6_defs` and the mask split of `parse_ipv6_net`.
--   Parse      nf-chain/src/main.c: the parsers of one line of a rule file, which `add_rules` of
--              Rules is given, and the lines that are printed for the rules (Parse.Print). `strtoul`,
--              `strtok_r` and the conversions of `printf` are parameters.
--   Prelude    the names, tests and list lemmas that these share.
--
-- How they meet: `poll_config` of Options makes the `Config` of Poll from the options, with the
-- slice of Slices, and `first_sweep` the state that the sweep starts in. Rounds runs the sweep of
-- Poll; the `stop` of a `Reply` is what `nf_process_burst` of Burst returns. Parse.Loads gives
-- Rules its parsers.
--
-- Machine integers are natural numbers with the wrap-around written out: u8, u16, u32 and u64 of
-- Prelude/Words. A packet buffer is known by its address. The lcores share no state in the model
-- but what a trylock answers; each operation of a flow table runs as one step.
--
-- Not modelled: the ACL lookup, the timers and most options of locality, the check of the links, and
-- printing, which mostly call DPDK; and the code of others that is copied into nf-chain/src/utils,
-- nf-chain/src/xxhash64.h and mica/ported-mica, the scripts and the patches.
pub mod Prelude
pub mod Poll
pub mod Rounds
pub mod Slices
pub mod Translate
pub mod Options
pub mod Setup
pub mod Sketch
pub mod Groups
pub mod Params
pub mod Burst
pub mod Acl
pub mod Calls
pub mod Classify
pub mod Magic
pub mod Mica
pub mod Rules
pub mod Locality
pub mod Fields
pub mod Parse
