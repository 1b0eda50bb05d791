-- ===== src/Mica/Rounds.antt =====
-- mica/main.c, `poll_loop`: the outer loop, which sweeps until it is told to quit or has received
-- the stop packet, with its timers and the TX of what a multicore sweep has left in its batch.
pub mod Conserve
pub mod Warmup
mod Tests
use queue_dpdk.Prelude.{
  ℕ, ◌+◌, ◌-◌, ◌*◌, ◌^◌, ◌&&◌, not, Bool, true, false, List, [], ◌∷◌, ◌++◌, ltb, leb, if◌then◌else◌,
  u64,
}
use queue_dpdk.Poll.{Config, Reply, Event, is_single, max_consecutive_polls}
use queue_dpdk.Rounds.{flush}
use queue_dpdk.Mica.Loop.{Io, IoRun, swept, broken, lacking, io_sweep}

-- What an lcore keeps fixed.
pub record Pace : Type 0 where
  pub is_main : Bool
  pub timer_period : ℕ
  pub timer_hz : ℕ
  pub start_time : ℕ

-- `warmup_time` and `stop_time` before the loop.
pub first_warmup : Pace → ℕ
first_warmup k = u64 (3 * k.timer_hz)

pub stop_time : Pace → ℕ
stop_time k = u64 (u64 (10 * k.timer_hz) + first_warmup k)

-- The difference of two readings of the time stamp counter.
abbrev pub since : ℕ → ℕ → ℕ
since tsc before = u64 (tsc + 2 ^ 64 - before)

-- The variables of the outer loop, each a uint64_t, and those of the sweep. `printed` counts the
-- calls of `print_stats`.
pub record Server : Type 0 where
  pub io : Io
  pub prev_tsc : ℕ
  pub timer_tsc : ℕ
  pub warmup_time : ℕ
  pub end_warmup : ℕ
  pub end_time : ℕ
  pub printed : ℕ
  pub measured_tick : ℕ

-- What the environment gives to one round: `force_quit`, the time at its start and, if the loop
-- ends with it, after it, and how many packets the last `rte_eth_tx_burst` takes.
pub record Round : Type 0 where
  pub force_quit : Bool
  pub tsc : ℕ
  pub nb_tx : ℕ
  pub end_tsc : ℕ

-- The counters that `print_stats` resets, and the seconds after the warmup that it counts.
pub report : Config → Server → Server
report c l =
    let w = l.io.sweep in
    let t = w.stats in
    record l {
      io = record {
        sweep = record w {
          stats = record t { n_bursts = 0; n_pkts = 0; spin_time = 0; spin_pkt = 0; empty = 0 };
        };
        skip_count = if ltb 0 c.penalty then 0 else l.io.skip_count;
      };
      printed = l.printed + 1;
      measured_tick = if w.after_warmup then u64 (l.measured_tick + 1) else l.measured_tick;
    }

-- The timer, which runs on every lcore and is reset by the main one.
pub tick_timer : Config → Pace → ℕ → Server → Server
tick_timer c k cur_tsc l =
    let timer_tsc = u64 (l.timer_tsc + since cur_tsc l.prev_tsc) in
    let reset = record l { prev_tsc = cur_tsc; timer_tsc = 0 } in
    if not (ltb 0 k.timer_period)
    then record l { prev_tsc = cur_tsc }
    else if leb k.timer_period timer_tsc && k.is_main
    then if is_single c.mode then report c reset else reset
    else record l { prev_tsc = cur_tsc; timer_tsc = timer_tsc }

-- The variables of a sweep before it starts.
abbrev pub begin_io : Config → Io → Io
begin_io c s = record s {
  sweep = record (s.sweep) { max_loops = max_consecutive_polls; tx_batch = []; i = c.queue_start };
}

abbrev pub open_round : Config → Pace → Round → Server → Server
open_round c k t l = let l' = tick_timer c k t.tsc l in record l' { io = begin_io c l'.io }

-- The end of the warmup and of the measurement, on a single core.
pub gauge : Config → Pace → ℕ → Server → Server
gauge c k cur_tsc l =
    let elapsed = since cur_tsc k.start_time in
    if not (is_single c.mode)
    then l
    else if ltb (stop_time k) elapsed
    then record l { end_time = since cur_tsc l.end_warmup }
    else if ltb l.warmup_time elapsed
    then record l {
      io = record (l.io) { sweep = record (l.io.sweep) { after_warmup = true } };
      end_warmup = cur_tsc;
      warmup_time = u64 (1000 * k.timer_hz);
    }
    else l

-- A single core notes the time on the stop packet and after the loop.
pub note_stop : Config → ℕ → Server → Server
note_stop c cur_tsc l =
    if is_single c.mode then record l { end_time = since cur_tsc l.end_warmup } else l

-- `quits` is the end of the loop on `force_quit`, which a stop packet sets; `going` and `waits`
-- say that the rounds or the replies ran out. A flag of `quits` says whether the packet was seen.
pub data Serving : Type 0 where
  going : List Event → Server → List Reply → Serving
  quits : Bool → List Event → Server → Serving
  waits : List Event → Server → Serving

abbrev pub serving_log : List Event → Serving → Serving
serving_log es (going fs l rs) = going (es ++ fs) l rs
serving_log es (quits seen fs l) = quits seen (es ++ fs) l
serving_log es (waits fs l) = waits (es ++ fs) l

-- After the loop a single core takes the time once more.
abbrev pub leave : Config → Bool → ℕ → Server → Serving
leave c seen end_tsc l = quits seen [] (note_stop c end_tsc l)

abbrev pub finish_round :
    Config → Pace → Round → Server → IoRun → (List Reply → Server → Serving) → Serving
finish_round c k t l (swept es s rs) rest =
    serving_log (es ++ flush c t.nb_tx s.sweep) (rest rs (gauge c k t.tsc (record l { io = s })))
finish_round c k t l (broken es s) rest =
    serving_log (es ++ flush c t.nb_tx s.sweep)
      (leave c true t.end_tsc (gauge c k t.tsc (note_stop c t.tsc (record l { io = s }))))
finish_round c k t l (lacking es s) rest = waits es (record l { io = s })

pub serve_rounds : Config → Pace → List Round → List Reply → Server → Serving
serve_rounds c k [] rs l = going [] l rs
serve_rounds c k (t ∷ ts) rs l = elim t.force_quit [
  | true ↦ leave c false t.end_tsc l
  | false ↦
      let l' = open_round c k t l in
      finish_round c k t l' (io_sweep c rs l'.io) (serve_rounds c k ts)
]
