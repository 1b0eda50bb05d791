-- ===== src/Slices/Chain.antt =====
-- nf-chain/src/main.c: the slices of the Partitioned mode cut the queues into one piece for each
-- lcore, and the pool of a queue is that of the lcore that polls it.
use native.Mathlib.Nat.{mod-eq_of_lt, zero-div}
use native.Mathlib.Decide.{dec_lt}
use queue_dpdk.Prelude.{
  ℕ, suc, ◌+◌, ◌-◌, ◌*◌, ◌/◌, ◌≤◌, ◌<◌, ◌^◌, ◌≡◌, arith, List, [], ◌∷◌, some, length, get_elem?,
  u32, refl, ap, sym, ◌∙◌,
}
use queue_dpdk.Poll.{partitioned}
use queue_dpdk.Slices.{slice_start, slice_end, get_lcore_for_queue, owner_from}

-- `total_queues` is a uint16_t, and there are fewer lcores than that too.
pub record IsDeal (queues total_lcores : ℕ) : Type 0 where
  pub queues_u16 : queues < 2 ^ 16
  pub lcores_u16 : total_lcores < 2 ^ 16
  pub some_lcore : 0 < total_lcores

no_wrap : (q p t : ℕ) → IsDeal q t → p ≤ t → u32 (q * p) ≡ q * p
no_wrap q p t d l = mod-eq_of_lt (small q p (omega arith) (omega arith))
  where
    small : (q p : ℕ) → q < 2 ^ 16 → p < 2 ^ 16 → q * p < 2 ^ 32
    small q p h l = grind arith

mul_div_self : (q t : ℕ) → 0 < t → q * t / t ≡ q
mul_div_self q t h = grind arith

div_strict : (q p t : ℕ) → t ≤ q → 0 < t → q * p / t < q * (p + 1) / t
div_strict q p t h k = grind arith

full_slice : (q t n : ℕ) → IsDeal q t → n ≡ t → u32 (q * n) / t ≡ q
full_slice q t n d e = rw (e, no_wrap q t t d (omega arith)) (mul_div_self q t (omega arith))

-- The slices of the lcores at positions 0, 1, … start at 0, follow one another without a gap, and
-- end at the number of queues; with at least one queue for each lcore, none is empty.
pub slices_cut :
    (q t : ℕ)
    → IsDeal q t
    → (slice_start partitioned q 0 t ≡ 0)
      × (slice_end partitioned q (t - 1) t ≡ q)
      × ((p : ℕ) → p < t → slice_start partitioned q (p + 1) t ≡ slice_end partitioned q p t)
      × ((p : ℕ) → p < t → t ≤ q → slice_start partitioned q p t < slice_end partitioned q p t)
unfolding slice_start slice_end
slices_cut q t d = (
  omega (arith, zero-div t),
  full_slice q t (t - 1 + 1) d (omega arith),
  λ p h. refl,
  λ p h k.
      rw (no_wrap q p t d (omega arith), no_wrap q (p + 1) t d (omega arith))
        (div_strict q p t k (omega arith)),
)

-- The lcore stands at a position of the list, counted from `pos`, whose slice holds the queue.
abbrev pub Owns : ℕ → ℕ → ℕ → ℕ → List ℕ → ℕ → Type 0
Owns queue q t pos lcores owner =
    (k : ℕ) × (p : ℕ) × (p ≡ pos + k)
    × (p < t)
    × (get_elem? lcores k ≡ some owner)
    × (slice_start partitioned q p t ≤ queue)
    × (queue < slice_end partitioned q p t)

owner_from-Owns :
    (queue q t self pos : ℕ) (lcores : List ℕ)
    → IsDeal q t
    → queue < q
    → pos + length lcores ≡ t
    → u32 (q * pos) / t ≤ queue
    → Owns queue q t pos lcores (owner_from queue q t self pos lcores)
unfolding owner_from slice_start slice_end
owner_from-Owns queue q t self pos [] d h e l =
    absurd (omega (arith, full_slice q t pos d (omega arith)))
owner_from-Owns queue q t self pos (c ∷ lcores) d h e l =
    elim (dec_lt queue (u32 (q * (pos + 1)) / t)) [
      | yes lt ↦ (0, pos, omega arith, omega arith, ground arith, l, lt)
      | no ge ↦
          let (k, p, at, b, g, lo, hi) =
            owner_from-Owns queue q t self (pos + 1) lcores d h (omega arith) (omega arith) in
          (suc k, p, omega arith, b, ground arith, lo, hi)
    ]

-- The slices of two positions have no queue in common.
before-apart :
    (q t p p' : ℕ)
    → IsDeal q t
    → p < p'
    → p' < t
    → slice_end partitioned q p t ≤ slice_start partitioned q p' t
unfolding slice_start slice_end
before-apart q t p p' d l h =
    rw (no_wrap q (p + 1) t d (omega arith), no_wrap q p' t d (omega arith))
      (div_mono (q * (p + 1)) (q * p') t d.some_lcore (mul_mono q (p + 1) p' (omega arith)))
  where
    mul_mono : (q a b : ℕ) → a ≤ b → q * a ≤ q * b
    mul_mono q a b h = grind arith

    div_mono : (a b t : ℕ) → 0 < t → a ≤ b → a / t ≤ b / t
    div_mono a b t k h = grind arith

-- `get_lcore_for_queue`, which chooses the memory pool of a queue, names an lcore of the list, and
-- the slice of its position holds the queue.
pub get_lcore_for_queue-Owns :
    (queue q t self : ℕ) (lcores : List ℕ)
    → IsDeal q t
    → length lcores ≡ t
    → queue < q
    → Owns queue q t 0 lcores (get_lcore_for_queue queue q t self lcores)
unfolding get_lcore_for_queue
get_lcore_for_queue-Owns queue q t self lcores d e h =
    owner_from-Owns queue q t self 0 lcores d h (omega arith) (omega (arith, zero-div t))

-- The lcore stands at a position whose slice holds the queue, and no other position has it.
abbrev pub OwnsAlone : ℕ → ℕ → ℕ → List ℕ → ℕ → Type 0
OwnsAlone queue q t lcores owner =
    (p : ℕ) × (p < t)
    × (get_elem? lcores p ≡ some owner)
    × (slice_start partitioned q p t ≤ queue)
    × (queue < slice_end partitioned q p t)
    × ((p' : ℕ)
        → p' < t
        → slice_start partitioned q p' t ≤ queue
        → queue < slice_end partitioned q p' t
        → p' ≡ p)

-- When fewer than 2^16 queues are dealt out in slices to the positions of a list of lcores, one at
-- least and fewer than 2^16: `get_lcore_for_queue`, which chooses the memory pool of a queue, names
-- the lcore at a position whose slice holds the queue, and no other position has it in its slice.
pub get_lcore_for_queue-OwnsAlone :
    (queue q t self : ℕ) (lcores : List ℕ)
    → IsDeal q t
    → length lcores ≡ t
    → queue < q
    → OwnsAlone queue q t lcores (get_lcore_for_queue queue q t self lcores)
get_lcore_for_queue-OwnsAlone queue q t self lcores d e h =
    let (k, p, at, b, g, lo, hi) = get_lcore_for_queue-Owns queue q t self lcores d e h in
    let same : k ≡ p = omega (arith, at) in
    (
      p,
      b,
      ap (get_elem? lcores) (sym same) ∙ g,
      lo,
      hi,
      λ p' b' lo' hi'. elim (dec_lt p' p) [
        | yes l ↦ absurd (omega (arith, before-apart q t p' p d l b, lo, hi'))
        | no ge ↦ elim (dec_lt p p') [
          | yes l ↦ absurd (omega (arith, before-apart q t p p' d l b', lo', hi))
          | no le ↦ omega (arith, ge, le)
        ]
      ],
    )
