-- ===== src/Sketch/Counts.antt =====
-- nf-chain/src/main.c, `count_add`: what a counter of the sketch holds.
use native.Mathlib.Decide.{ℕ_discrete}
use queue_dpdk.Prelude.{
  refl, Option, ◌^◌, ◌∙◌, ◌<◌, ℕ, zero, suc, ◌+◌, ◌≤◌, ◌≡◌, true, Bool, arith, none, some, List, [],
  ◌∷◌, ◌&&◌, ◌==◌, if◌then◌else◌, ltb, leb, update, length, u64,
}
use queue_dpdk.Poll.{Mode}
use queue_dpdk.Sketch.{
  hashfn_n, count_all, count_add, Frame, FiveTuple, Counters, five_tuple, target_idx, count_rows,
}

-- How many of the frames have a key that passes a test.
abbrev pub frames_with : (FiveTuple → Bool) → List Frame → ℕ
frames_with p [] = 0
frames_with p (m ∷ ms) =
    (elim (five_tuple m) [ none ↦ 0 | some key ↦ if p key then 1 else 0 ]) + frames_with p ms

frames_with_mono :
    (p q : FiveTuple → Bool)
    → ((k : FiveTuple) → p k ≡ true → q k ≡ true)
    → (ms : List Frame) → frames_with p ms ≤ frames_with q ms
frames_with_mono p q h [] = omega arith
frames_with_mono p q h (m ∷ ms) =
    elim (five_tuple m)
      as (λ o.
        (elim o [ none ↦ 0 | some key ↦ if p key then 1 else 0 ]) + frames_with p ms
        ≤ (elim o [ none ↦ 0 | some key ↦ if q key then 1 else 0 ]) + frames_with q ms) [
          | none ↦ omega (arith, frames_with_mono p q h ms)
          | some key ↦ ground (arith, h key, frames_with_mono p q h ms)
        ]

frames_with-le : (p : FiveTuple → Bool) (ms : List Frame) → frames_with p ms ≤ length ms
frames_with-le p [] = omega arith
frames_with-le p (m ∷ ms) = ground (arith, frames_with-le p ms)

-- Whether a key is that of a flow.
abbrev pub is_of : FiveTuple → FiveTuple → Bool
is_of flow k =
    k.src_ip == flow.src_ip
    && (k.dst_ip == flow.dst_ip
        && (k.src_port == flow.src_port && (k.dst_port == flow.dst_port && k.proto == flow.proto)))

is_of-eq : (flow k : FiveTuple) → is_of flow k ≡ true → k ≡ flow
is_of-eq flow k h = ground arith

pub count_all-nil :
    (xxhash64 : FiveTuple → ℕ → ℕ) (mode : Mode) (cms : Counters)
    → count_all xxhash64 mode [] cms ≡ cms
unfolding count_all
count_all-nil xxhash64 mode cms = refl

pub count_all-cons :
    (xxhash64 : FiveTuple → ℕ → ℕ) (mode : Mode) (m : Frame) (ms : List Frame) (cms : Counters)
    → count_all xxhash64 mode (m ∷ ms) cms
      ≡ count_all xxhash64 mode ms (count_add xxhash64 mode m cms)
unfolding count_all
count_all-cons xxhash64 mode m ms cms = refl

module _ (xxhash64 : FiveTuple → ℕ → ℕ) (mode : Mode) where
  -- Rows from `i` to `i + n` gain one at the column of the key, all else stays.
  count_rows-counts :
      (n i row col : ℕ) (key : FiveTuple) (values : Counters)
      → count_rows xxhash64 mode n i key values row col ≡ (
          if leb i row && (ltb row (i + n) && (target_idx xxhash64 mode key row == col))
          then u64 (values row col + 1)
          else values row col)
  unfolding count_rows
  count_rows-counts zero i row col key values = ground arith
  count_rows-counts (suc n) i row col key values =
      let first = target_idx xxhash64 mode key i in
      rw
        (count_rows-counts n (i + 1) row col key
          (update values i (update (values i) first (u64 (values i first + 1)))))
        (elim (ℕ_discrete row i) [ yes e ↦ rw e (ground arith) | no ne ↦ ground (arith, ne) ])

  abbrev pub falls_on : ℕ → ℕ → FiveTuple → Bool
  falls_on row col key = target_idx xxhash64 mode key row == col

  count_add-counts :
      (row col : ℕ) (m : Frame) (values : Counters)
      → row < hashfn_n
      → values row col < 2 ^ 64
      → count_add xxhash64 mode m values row col
        ≡ u64 (values row col + frames_with (falls_on row col) (m ∷ []))
  unfolding count_add
  count_add-counts row col m values h b = go (five_tuple m) refl
    where
      go :
          (o : Option FiveTuple)
          → five_tuple m ≡ o
          → count_add xxhash64 mode m values row col
            ≡ u64 (values row col + frames_with (falls_on row col) (m ∷ []))
      go none q = rw (count_add, q) (omega (arith, b))
      go (some key) q =
          rw (count_add, q) (count_rows-counts hashfn_n 0 row col key values ∙ ground (arith, h, b))

  count_all-counts :
      (row col : ℕ) (ms : List Frame) (values : Counters)
      → row < hashfn_n
      → values row col < 2 ^ 64
      → count_all xxhash64 mode ms values row col
        ≡ u64 (values row col + frames_with (falls_on row col) ms)
  unfolding count_all
  count_all-counts row col [] values h b = omega (arith, b)
  count_all-counts row col (m ∷ ms) values h b =
      let first = count_add-counts row col m values h b in
      let rest =
        count_all-counts row col ms (count_add xxhash64 mode m values) h (omega (arith, first)) in
      omega (arith, first, rest)

  -- Read from a zeroed sketch after fewer than 2^64 frames, the counter of any of the 16 rows for
  -- the key of a flow is the number of IPv4 frames whose keys share its column, so that no row
  -- counts fewer frames than the flow has.
  pub count_all-never_under :
      (key : FiveTuple) (row : ℕ) (ms : List Frame)
      → row < hashfn_n
      → length ms < 2 ^ 64
      → (count_all xxhash64 mode ms (λ _ _. 0) row (target_idx xxhash64 mode key row)
          ≡ frames_with (falls_on row (target_idx xxhash64 mode key row)) ms)
        × (frames_with (is_of key) ms
            ≤ count_all xxhash64 mode ms (λ _ _. 0) row (target_idx xxhash64 mode key row))
  count_all-never_under key row ms h b =
      let col = target_idx xxhash64 mode key row in
      let count = count_all-counts row col ms (λ _ _. 0) h (omega arith) in
      let all = frames_with-le (falls_on row col) ms in
      let exact : count_all xxhash64 mode ms (λ _ _. 0) row col
          ≡ frames_with (falls_on row col) ms =
        omega (arith, count, all, b) in
      (
        exact,
        rw exact (
            frames_with_mono (is_of key) (falls_on row col)
              (λ k s. rw (is_of-eq key k s) (ground arith)) ms),
      )
