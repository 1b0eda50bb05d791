-- ===== src/Mica/Rounds/Warmup.antt =====
-- mica/main.c, `poll_loop`: the time that a single core measures.
use mathlib.Core.Path.{subst}
use queue_dpdk.Prelude.{
  inr, inl, Bool-cases, refl, ◌≤◌, ℕ, ◌≡◌, ◌∙◌, ◌*◌, ◌&&◌, sym, ap, Bool, true, false, List, [],
  ◌∷◌, ◌++◌, arith, u64, ltb, leb, if◌then◌else◌,
}
use queue_dpdk.Poll.{Config, Event, is_single}
use queue_dpdk.Mica.Rounds.{
  leave, io_sweep, lacking, broken, flush, swept, finish_round, Reply, serve_rounds, IoRun,
  note_stop, Server, Pace, Round, Serving, going, quits, waits, serving_log, gauge, open_round,
  since, stop_time, first_warmup, tick_timer, report,
}

-- The first round that starts after the warmup and not after the measurement, if there is one.
abbrev pub warmup_end : Pace → ℕ → List Round → ℕ
warmup_end k e [] = e
warmup_end k e (t ∷ ts) =
    let elapsed = since t.tsc k.start_time in
    let rest = warmup_end k e ts in
    if ltb (first_warmup k) elapsed && leb elapsed (stop_time k) then t.tsc else rest

-- The end of the warmup from a state in the course of the loop.
abbrev settles : Pace → ℕ → ℕ → List Round → ℕ
settles k w e [] = e
settles k w e (t ∷ ts) =
    let elapsed = since t.tsc k.start_time in
    let now = ltb w elapsed && leb elapsed (stop_time k) in
    settles k (if now then u64 (1000 * k.timer_hz) else w) (if now then t.tsc else e) ts

-- The rounds before the one in which the loop ended, that one, and those that were not begun.
abbrev pub Ended : (List Round → ℕ) → List Round → Bool → Server → Type 0
Ended f ts seen l =
    (passed : List Round) × (t : Round) × (later : List Round) × (ts ≡ passed ++ (t ∷ later))
    × (l.end_warmup ≡ f (if seen then passed ++ (t ∷ []) else passed))
    × (l.end_time ≡ since t.end_tsc l.end_warmup)

-- The end of the warmup by a function of the rounds that the loop went through.
abbrev pub Measures : (List Round → ℕ) → List Round → Serving → Type 0
Measures f ts (going es l rs) = l.end_warmup ≡ f ts
Measures f ts (quits seen es l) = Ended f ts seen l
Measures f ts (waits es l) =
    (passed : List Round) × (later : List Round) × (ts ≡ passed ++ later)
    × (l.end_warmup ≡ f passed)

Measures-log :
    (f g : List Round → ℕ) (t : Round) (ts : List Round) (es : List Event) (r : Serving)
    → ((xs : List Round) → f (t ∷ xs) ≡ g xs)
    → Measures g ts r
    → Measures f (t ∷ ts) (serving_log es r)
Measures-log f g t ts es (going fs l rs) e h = h ∙ sym (e ts)
Measures-log f g t ts es (quits true fs l) e (passed, last, later, cut, w, time) =
    (t ∷ passed, last, later, ap (λ xs. t ∷ xs) cut, w ∙ sym (e (passed ++ (last ∷ []))), time)
Measures-log f g t ts es (quits false fs l) e (passed, last, later, cut, w, time) =
    (t ∷ passed, last, later, ap (λ xs. t ∷ xs) cut, w ∙ sym (e passed), time)
Measures-log f g t ts es (waits fs l) e (passed, later, cut, w) =
    (t ∷ passed, later, ap (λ xs. t ∷ xs) cut, w ∙ sym (e passed))

-- What the timer leaves.
open_round-warmup_time :
    (c : Config) (k : Pace) (t : Round) (l : Server)
    → (open_round c k t l).warmup_time ≡ l.warmup_time
unfolding tick_timer report
open_round-warmup_time c k t l = ground arith

open_round-end_warmup :
    (c : Config) (k : Pace) (t : Round) (l : Server)
    → (open_round c k t l).end_warmup ≡ l.end_warmup
unfolding tick_timer report
open_round-end_warmup c k t l = ground arith

-- A round's measurement is a step of `settles`.
gauge-settles :
    (c : Config) (k : Pace) (t : Round) (l : Server) (xs : List Round)
    → is_single c.mode ≡ true
    → settles k l.warmup_time l.end_warmup (t ∷ xs)
      ≡ settles k (gauge c k t.tsc l).warmup_time (gauge c k t.tsc l).end_warmup xs
unfolding gauge
gauge-settles c k t l xs m = rw m (ground arith)

-- Noting the time leaves the warmup alone.
note_stop-warmup_time :
    (c : Config) (n : ℕ) (l : Server) → (note_stop c n l).warmup_time ≡ l.warmup_time
unfolding note_stop
note_stop-warmup_time c n l = ground arith

note_stop-end_warmup :
    (c : Config) (n : ℕ) (l : Server) → (note_stop c n l).end_warmup ≡ l.end_warmup
unfolding note_stop
note_stop-end_warmup c n l = ground arith

note_stop-end_time :
    (c : Config) (n : ℕ) (l : Server)
    → is_single c.mode ≡ true
    → (note_stop c n l).end_time ≡ since n (note_stop c n l).end_warmup
unfolding note_stop
note_stop-end_time c n l m = rw m refl

-- The warmup of the variables, and of what the rounds that follow make of it.
abbrev from : Pace → Server → List Round → ℕ
from k l ts = settles k l.warmup_time l.end_warmup ts

finish_round-Measures :
    (c : Config) (k : Pace) (t : Round) (ts : List Round) (l : Server) (run : IoRun)
    (rest : List Reply → Server → Serving)
    → is_single c.mode ≡ true
    → ((rs : List Reply) (l' : Server) → Measures (from k l') ts (rest rs l'))
    → Measures (from k l) (t ∷ ts) (finish_round c k t l run rest)
finish_round-Measures c k t ts l (swept es s rs) rest m keep =
    let l' = gauge c k t.tsc (record l { io = s }) in
    Measures-log (from k l) (from k l') t ts (es ++ flush c t.nb_tx s.sweep) (rest rs l')
      (λ xs. gauge-settles c k t (record l { io = s }) xs m) (keep rs l')
finish_round-Measures c k t ts l (broken es s) rest m keep =
    let noted = note_stop c t.tsc (record l { io = s }) in
    let l' = gauge c k t.tsc noted in
    (
      [],
      t,
      ts,
      refl,
      note_stop-end_warmup c t.end_tsc l'
          ∙ sym (gauge-settles c k t noted [] m)
          ∙ rw
              (
                note_stop-warmup_time c t.tsc (record l { io = s }),
                note_stop-end_warmup c t.tsc (record l { io = s }),
              )
              refl,
      note_stop-end_time c t.end_tsc l' m,
    )
finish_round-Measures c k t ts l (lacking es s) rest m keep = ([], t ∷ ts, refl, refl)

-- What a round begins with.
serve_rounds-quit :
    (c : Config) (k : Pace) (t : Round) (ts : List Round) (rs : List Reply) (l : Server)
    → t.force_quit ≡ true
    → serve_rounds c k (t ∷ ts) rs l ≡ leave c false t.end_tsc l
unfolding serve_rounds
serve_rounds-quit c k t ts rs l q = rw q refl

serve_rounds-go :
    (c : Config) (k : Pace) (t : Round) (ts : List Round) (rs : List Reply) (l : Server)
    → t.force_quit ≡ false
    → serve_rounds c k (t ∷ ts) rs l
      ≡ finish_round c k t
          (open_round c k t l)
          (io_sweep c rs (open_round c k t l).io)
          (serve_rounds c k ts)
unfolding serve_rounds
serve_rounds-go c k t ts rs l q = rw q refl

serve_rounds-settles :
    (c : Config) (k : Pace) (ts : List Round) (rs : List Reply) (l : Server)
    → is_single c.mode ≡ true
    → Measures (from k l) ts (serve_rounds c k ts rs l)
unfolding serve_rounds
serve_rounds-settles c k [] rs l m = refl
serve_rounds-settles c k (t ∷ ts) rs l m = elim (Bool-cases t.force_quit) [
  | inl q ↦
      subst (Measures (from k l) (t ∷ ts)) (sym (serve_rounds-quit c k t ts rs l q))
        ([], t, ts, refl, note_stop-end_warmup c t.end_tsc l, note_stop-end_time c t.end_tsc l m)
  | inr go ↦
      let l' = open_round c k t l in
      subst (Measures (from k l) (t ∷ ts)) (sym (serve_rounds-go c k t ts rs l go)) (
        subst
          (λ f.
            Measures f (t ∷ ts) (finish_round c k t l' (io_sweep c rs l'.io) (serve_rounds c k ts)))
          (λ i xs.
            settles k (open_round-warmup_time c k t l i) (open_round-end_warmup c k t l i) xs)
          (finish_round-Measures c k t ts l' (io_sweep c rs l'.io) (serve_rounds c k ts) m
            (λ rs' l''. serve_rounds-settles c k ts rs' l'' m)))
]

-- After the warmup, 1000 seconds are longer than the measurement.
settles-after : (k : Pace) (w e : ℕ) (ts : List Round) → stop_time k ≤ w → settles k w e ts ≡ e
settles-after k w e [] h = refl
settles-after k w e (t ∷ ts) h = ground (arith, settles-after k w e ts h)

settles-warmup_end :
    (k : Pace) (e : ℕ) (ts : List Round)
    → stop_time k ≤ u64 (1000 * k.timer_hz)
    → settles k (first_warmup k) e ts ≡ warmup_end k e ts
settles-warmup_end k e [] h = refl
settles-warmup_end k e (t ∷ ts) h =
    ground
      (arith, settles-warmup_end k e ts h, settles-after k (u64 (1000 * k.timer_hz)) t.tsc ts h)

-- On a single core that starts with the warmup of 3 seconds, if the 13 seconds until the end of the
-- measurement are at most 1000 seconds in the arithmetic of the counters: `end_warmup` is the time
-- of the first round gone through that started after the warmup and not after the measurement, and
-- stays as it was if there was none; when the loop has ended, `end_time` is the time from there to
-- the reading after the loop, whether the stop packet or `force_quit` has ended it.
pub serve_rounds-Measures :
    (c : Config) (k : Pace) (ts : List Round) (rs : List Reply) (l : Server)
    → is_single c.mode ≡ true
    → l.warmup_time ≡ first_warmup k
    → stop_time k ≤ u64 (1000 * k.timer_hz)
    → Measures (warmup_end k l.end_warmup) ts (serve_rounds c k ts rs l)
serve_rounds-Measures c k ts rs l m w h =
    subst (λ f. Measures f ts (serve_rounds c k ts rs l))
      (λ i xs. (ap (λ v. settles k v l.end_warmup xs) w ∙ settles-warmup_end k l.end_warmup xs h) i)
      (serve_rounds-settles c k ts rs l m)
