-- ===== src/Slices/Store.antt =====
-- mica/main.c: the slices of the Partitioned mode, and the memory pool of each queue.
use native.Mathlib.Nat.{mod-eq_of_lt, div-add-mod'}
use native.Mathlib.Nat.{mul-le-mul_right}
use native.Mathlib.Decide.{dec_lt}
use native.Mathlib.Nat.{div-le_self, div-mul-le_self, lt-div-mul-add, div-add-mod', mod-lt}
use queue_dpdk.Prelude.{
  sym, if◌then◌else◌, refl, ℕ, ◌+◌, ◌-◌, ◌*◌, ◌/◌, ◌%◌, ◌≤◌, ◌<◌, ◌^◌, ◌≡◌, arith, min, ltb,
}
use queue_dpdk.Poll.{partitioned}
use queue_dpdk.Slices.{first_queue, assigned_queues, last_queue, owner_lc_idx}

-- `active_io_lcores` lies between 1 and the number of queues, a uint16_t.
pub record IsActive (queues active : ℕ) : Type 0 where
  pub queues_u16 : queues < 2 ^ 16
  pub some_lcore : 0 < active
  pub enough : active ≤ queues

-- The first queue without the casts.
abbrev cut : ℕ → ℕ → ℕ → ℕ
cut q a i = i * (q / a) + min i (q % a)

cut-le : (q a i : ℕ) → 0 < a → i ≤ a → cut q a i ≤ q
cut-le q a i h k = grind arith

cut-end : (q a : ℕ) → 0 < a → cut q a a ≡ q
cut-end q a h = grind arith

per_lcore : (q a : ℕ) → IsActive q a → 0 < q / a
per_lcore q a d = grind arith

cut_step : (q a i : ℕ) → cut q a (i + 1) ≡ cut q a i + (q / a + (if ltb i (q % a) then 1 else 0))
cut_step q a i = ground arith

first_queue-cut : (q a i : ℕ) → IsActive q a → i < a → first_queue partitioned q a i ≡ cut q a i
unfolding first_queue
first_queue-cut q a i d h = ground (arith, cut-le q a i, mod-eq_of_lt {n = cut q a i} {m = 2 ^ 16})

last_queue-cut : (q a i : ℕ) → IsActive q a → i < a → last_queue partitioned q a i ≡ cut q a (i + 1)
unfolding last_queue assigned_queues
last_queue-cut q a i d h = ground (
  arith,
  first_queue-cut q a i d h,
  cut-le q a (i + 1),
  cut_step q a i,
  mod-eq_of_lt {n = cut q a (i + 1)} {m = 2 ^ 16},
)

-- The slices of mica's polling lcores start at 0, follow one another without a gap and end at the
-- number of queues, and none is empty.
store_slices_cut :
    (q a : ℕ)
    → IsActive q a
    → (first_queue partitioned q a 0 ≡ 0)
      × (last_queue partitioned q a (a - 1) ≡ q)
      × ((i : ℕ) → i + 1 < a → first_queue partitioned q a (i + 1) ≡ last_queue partitioned q a i)
      × ((i : ℕ) → i < a → first_queue partitioned q a i < last_queue partitioned q a i)
store_slices_cut q a d = (
  rw (first_queue-cut q a 0 d (omega arith)) (omega arith),
  rw (last_queue-cut q a (a - 1) d (omega arith)) (whole (a - 1 + 1) (omega arith)),
  λ i h. rw (first_queue-cut q a (i + 1) d h, last_queue-cut q a i d (omega arith)) refl,
  λ i h. rw (first_queue-cut q a i d h, last_queue-cut q a i d h) (widens i),
)
  where
    whole : (n : ℕ) → n ≡ a → cut q a n ≡ q
    whole n e = rw e (cut-end q a (omega arith))

    widens : (i : ℕ) → cut q a i < cut q a (i + 1)
    widens i = omega (arith, cut_step q a i, per_lcore q a d)

-- A queue below the boundary, at `i` in the pieces of `k + 1` queues.
low_piece :
    (k e i x : ℕ)
    → i * (k + 1) ≤ x
    → x < (i + 1) * (k + 1)
    → x < e * (k + 1)
    → (i < e) × (i * k + min i e ≤ x) × (x < (i + 1) * k + min (i + 1) e)
low_piece k e i x lo hi b = elim (dec_lt i e) [
  | yes h ↦ (h, grind arith, grind arith)
  | no h ↦ absurd (omega (arith, mul-le-mul_right {m = e} {n = i} (k + 1) (omega arith)))
]

-- A queue behind the boundary, at `j` in the pieces of `k` queues.
high_piece :
    (k e j x : ℕ)
    → e * (k + 1) + j * k ≤ x
    → x < e * (k + 1) + (j + 1) * k
    → ((e + j) * k + min (e + j) e ≤ x) × (x < (e + j + 1) * k + min (e + j + 1) e)
high_piece k e j x lo hi = grind arith

high_piece-lt :
    (q a k e x j : ℕ) → q ≡ k * a + e → e < a → x < q → e * (k + 1) + j * k ≤ x → e + j < a
high_piece-lt q a k e x j d l b f = elim (dec_lt (e + j) a) [
  | yes h ↦ h
  | no h ↦ absurd (omega (arith, mul-le-mul_right {m = a} {n = e + j} k (omega arith)))
]

-- The lcore polls the queue.
abbrev pub Polls : ℕ → ℕ → ℕ → ℕ → Type 0
Polls q a i x = (i < a) × (first_queue partitioned q a i ≤ x) × (x < last_queue partitioned q a i)

Polls-of_cut :
    (q a i x : ℕ) → IsActive q a → i < a → cut q a i ≤ x → x < cut q a (i + 1) → Polls q a i x
Polls-of_cut q a i x d h lo hi =
    (h, rw (first_queue-cut q a i d h) lo, rw (last_queue-cut q a i d h) hi)

boundary-le : (q a : ℕ) → IsActive q a → q % a * (q / a + 1) ≤ q
boundary-le q a d = grind arith

owner_low :
    (q a x : ℕ)
    → IsActive q a
    → x < q
    → x < q % a * (q / a + 1)
    → owner_lc_idx q a x ≡ x / (q / a + 1)
unfolding owner_lc_idx
owner_low q a x d h l = ground (
  arith,
  boundary-le q a d,
  mod-eq_of_lt {n = q % a * (q / a + 1)} {m = 2 ^ 16},
  div-le_self x (q / a + 1),
  mod-eq_of_lt {n = x / (q / a + 1)} {m = 2 ^ 16},
)

owner_high :
    (q a x : ℕ)
    → IsActive q a
    → x < q
    → q % a * (q / a + 1) ≤ x
    → q % a + (x - q % a * (q / a + 1)) / (q / a) < a
    → owner_lc_idx q a x ≡ q % a + (x - q % a * (q / a + 1)) / (q / a)
unfolding owner_lc_idx
owner_high q a x d h l b = ground (
  arith,
  boundary-le q a d,
  mod-eq_of_lt {n = q % a * (q / a + 1)} {m = 2 ^ 16},
  mod-eq_of_lt {n = q % a + (x - q % a * (q / a + 1)) / (q / a)} {m = 2 ^ 16},
)

low-Polls : (q a x : ℕ) → IsActive q a → x < q % a * (q / a + 1) → Polls q a (x / (q / a + 1)) x
low-Polls q a x d l =
    let (b, lo, hi) =
      low_piece (q / a) (q % a) (x / (q / a + 1)) x (div-mul-le_self x (q / a + 1))
        (omega (arith, lt-div-mul-add {a = x} {b = q / a + 1} (omega arith))) l in
    Polls-of_cut q a (x / (q / a + 1)) x d (omega (arith, mod-lt q {m = a} (omega arith))) lo hi

high-Polls :
    (q a x : ℕ)
    → IsActive q a
    → x < q
    → q % a * (q / a + 1) ≤ x
    → Polls q a (q % a + (x - q % a * (q / a + 1)) / (q / a)) x
high-Polls q a x d h l =
    let y = x - q % a * (q / a + 1) in
    let below : y / (q / a) * (q / a) ≤ y = div-mul-le_self y (q / a) in
    let above : y < y / (q / a) * (q / a) + q / a =
      lt-div-mul-add {a = y} {b = q / a} (per_lcore q a d) in
    let (lo, hi) = high_piece (q / a) (q % a) (y / (q / a)) x (omega arith) (omega arith) in
    Polls-of_cut q a (q % a + y / (q / a)) x d
      (high_piece-lt q a (q / a) (q % a) x (y / (q / a)) (sym (div-add-mod' q a))
        (mod-lt q (omega arith)) h (omega arith))
      lo hi

-- The memory pool of every queue in Partitioned mode is the pool of the lcore that polls it.
pub owner_lc_idx-Polls : (q a x : ℕ) → IsActive q a → x < q → Polls q a (owner_lc_idx q a x) x
owner_lc_idx-Polls q a x d h = elim (dec_lt x (q % a * (q / a + 1))) [
  | yes l ↦ rw (owner_low q a x d h l) (low-Polls q a x d l)
  | no l ↦
      let p = high-Polls q a x d h (omega arith) in rw (owner_high q a x d h (omega arith) p.0) p
]
