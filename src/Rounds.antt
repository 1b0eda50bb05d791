-- ===== src/Rounds.antt =====
-- nf-chain/src/main.c, `poll_loop`: the outer loop, which sweeps until it is told to quit, with its
-- timers and the TX of what a multicore sweep has left in its batch.
pub mod Running
pub mod Conserve
pub mod Served
mod Tests
use queue_dpdk.Prelude.{
  ℕ, ◌+◌, ◌-◌, ◌*◌, ◌^◌, Bool, true, false, List, [], ◌∷◌, ◌++◌, ltb, leb, if◌then◌else◌, u32, u64,
  not, ◌&&◌,
}
use queue_dpdk.Poll.{
  Config, Sweep, Stats, Reply, Event, Run, finished, halted, starved, sweep, transmit, is_single,
  max_consecutive_polls,
}

-- What the loop keeps fixed: the main lcore alone prints, and `start_time`, `stop_time` are taken
-- before the loop.
pub record Clock : Type 0 where
  pub is_main : Bool
  pub timer_period : ℕ
  pub timer_hz : ℕ
  pub start_time : ℕ
  pub stop_time : ℕ

-- The variables of the outer loop, each a uint64_t, and the state of the sweep. `measured_tick`
-- and `printed` count what `print_stats` does.
pub record Loop : Type 0 where
  pub state : Sweep
  pub prev_tsc : ℕ
  pub timer_tsc : ℕ
  pub warmup_time : ℕ
  pub end_warmup : ℕ
  pub end_time : ℕ
  pub printed : ℕ
  pub measured_tick : ℕ

-- What the environment gives to one round: `force_quit`, `rte_rdtsc()`, and how many packets the
-- last `rte_eth_tx_burst` takes.
pub record Tick : Type 0 where
  pub force_quit : Bool
  pub tsc : ℕ
  pub nb_tx : ℕ

-- The counters that `print_stats` resets, and the seconds after the warmup that it counts.
pub print_stats : Loop → Loop
print_stats l =
    let s = l.state in
    let t = s.stats in
    record l {
      state = record s {
        stats = record t { n_bursts = 0; n_pkts = 0; spin_time = 0; spin_pkt = 0; empty = 0 };
      };
      printed = l.printed + 1;
      measured_tick = if s.after_warmup then u64 (l.measured_tick + 1) else l.measured_tick;
    }

-- The timer of a single core.
pub advance_timer : Config → Clock → ℕ → Loop → Loop
advance_timer c k cur_tsc l =
    let timer_tsc = u64 (l.timer_tsc + u64 (cur_tsc + 2 ^ 64 - l.prev_tsc)) in
    if not (is_single c.mode)
    then l
    else if not (ltb 0 k.timer_period)
    then record l { prev_tsc = cur_tsc }
    else if not (leb k.timer_period timer_tsc)
    then record l { prev_tsc = cur_tsc; timer_tsc = timer_tsc }
    else if k.is_main
    then print_stats (record l { prev_tsc = cur_tsc; timer_tsc = 0 })
    else record l { prev_tsc = cur_tsc; timer_tsc = timer_tsc }

-- `max_loops` and `tx_total` before a sweep, and the `i` of its loop.
abbrev pub begin_sweep : Config → Sweep → Sweep
begin_sweep c s = record s { max_loops = max_consecutive_polls; tx_batch = []; i = c.queue_start }

-- The single TX for all packets that a multicore sweep has left.
pub flush : Config → ℕ → Sweep → List Event
flush c nb_tx s = elim s.tx_batch [
  | [] ↦ []
  | p ∷ ps ↦ if is_single c.mode then [] else transmit c.tx_queueid (p ∷ ps) nb_tx
]

-- The end of the warmup and of the measurement, on a single core.
pub measure : Config → Clock → ℕ → Loop → Loop
measure c k cur_tsc l =
    let s = l.state in
    let elapsed = u64 (cur_tsc + 2 ^ 64 - k.start_time) in
    if not (is_single c.mode)
    then l
    else if ltb k.stop_time elapsed
    then record l { end_time = u64 (cur_tsc + 2 ^ 64 - l.end_warmup) }
    else if ltb l.warmup_time elapsed
    then record l {
      state = record s { after_warmup = true };
      end_warmup = cur_tsc;
      warmup_time = u64 (1000 * k.timer_hz);
    }
    else l

-- `quits` is the exit by `force_quit`, `stops` the `return` on the stop packet; `running` and
-- `waits` say that the ticks or the replies ran out.
pub data Rounds : Type 0 where
  running : List Event → Loop → List Reply → Rounds
  quits : List Event → Loop → Rounds
  stops : List Event → Loop → Rounds
  waits : List Event → Loop → Rounds

abbrev pub log : List Event → Rounds → Rounds
log es (running fs l rs) = running (es ++ fs) l rs
log es (quits fs l) = quits (es ++ fs) l
log es (stops fs l) = stops (es ++ fs) l
log es (waits fs l) = waits (es ++ fs) l

-- The loop up to the sweep of a round.
abbrev pub begin_round : Config → Clock → Tick → Loop → Loop
begin_round c k t l =
    let l' = advance_timer c k t.tsc l in record l' { state = begin_sweep c l'.state }

-- What follows a sweep: on a single core the stop packet also ends the measurement.
abbrev pub end_round : Config → Clock → Tick → Loop → Run → (List Reply → Loop → Rounds) → Rounds
end_round c k t l (finished es s rs) rest =
    log (es ++ flush c t.nb_tx s) (rest rs (measure c k t.tsc (record l { state = s })))
end_round c k t l (halted es s) rest = stops es (record l {
  state = s;
  end_time = if is_single c.mode then u64 (t.tsc + 2 ^ 64 - l.end_warmup) else l.end_time;
})
end_round c k t l (starved es s) rest = waits es (record l { state = s })

-- After the loop a single core takes the time once more, with the `tsc` of the last tick.
pub rounds : Config → Clock → List Tick → List Reply → Loop → Rounds
rounds c k [] rs l = running [] l rs
rounds c k (t ∷ ts) rs l = elim t.force_quit [
  | true ↦
      quits [] (
        if is_single c.mode then record l { end_time = u64 (t.tsc + 2 ^ 64 - l.end_warmup) } else l)
  | false ↦ let l' = begin_round c k t l in end_round c k t l' (sweep c rs l'.state) (rounds c k ts)
]
