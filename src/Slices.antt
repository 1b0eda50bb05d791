-- ===== src/Slices.antt =====
-- How the Partitioned mode deals the RX queues out to the lcores: nf-chain/src/main.c, `poll_loop`
-- and `get_lcore_for_queue`, and mica/main.c, `poll_loop` and the RX queue setup of `main`.
pub mod Chain
pub mod Store
mod Tests
use queue_dpdk.Prelude.{
  ℕ, ◌+◌, ◌-◌, ◌*◌, ◌/◌, ◌%◌, Bool, List, [], ◌∷◌, ◌&&◌, leb, ltb, ◌==◌, if◌then◌else◌, u16, u32,
  min,
}
use queue_dpdk.Poll.{Mode, single, partitioned, shared}

-- nf-chain: the slice of the lcore at a position, `[slice_start, slice_end)`.
unfoldable pub slice_start : Mode → ℕ → ℕ → ℕ → ℕ
slice_start partitioned queues lcore_pos total_lcores = u32 (queues * lcore_pos) / total_lcores
slice_start single queues lcore_pos total_lcores = 0
slice_start shared queues lcore_pos total_lcores = 0

unfoldable pub slice_end : Mode → ℕ → ℕ → ℕ → ℕ
slice_end partitioned queues lcore_pos total_lcores = u32 (queues * (lcore_pos + 1)) / total_lcores
slice_end single queues lcore_pos total_lcores = queues
slice_end shared queues lcore_pos total_lcores = queues

-- `RTE_LCORE_FOREACH` from position `pos` on; `self` is the fallback, `rte_lcore_id()`.
pub owner_from : ℕ → ℕ → ℕ → ℕ → ℕ → List ℕ → ℕ
owner_from queue_id total_queues total_lcores self pos [] = self
owner_from queue_id total_queues total_lcores self pos (lcore_id ∷ lcores) =
    let rest = owner_from queue_id total_queues total_lcores self (pos + 1) lcores in
    if leb (u32 (total_queues * pos) / total_lcores) queue_id
      && ltb queue_id (u32 (total_queues * (pos + 1)) / total_lcores)
    then lcore_id
    else rest

pub get_lcore_for_queue : ℕ → ℕ → ℕ → ℕ → List ℕ → ℕ
get_lcore_for_queue queue_id total_queues total_lcores self lcores =
    owner_from queue_id total_queues total_lcores self 0 lcores

-- mica: the first queue and the number of queues of the lcore with this index.
pub first_queue : Mode → ℕ → ℕ → ℕ → ℕ
first_queue single queues active lcore_idx = 0
first_queue shared queues active lcore_idx = if ltb lcore_idx active then 0 else queues
first_queue partitioned queues active lcore_idx =
    if ltb lcore_idx active
    then u16 (lcore_idx * (queues / active) + min lcore_idx (queues % active))
    else queues

pub assigned_queues : Mode → ℕ → ℕ → ℕ → ℕ
assigned_queues single queues active lcore_idx = queues
assigned_queues shared queues active lcore_idx = if ltb lcore_idx active then queues else 0
assigned_queues partitioned queues active lcore_idx =
    if ltb lcore_idx active
    then u16 (queues / active + (if ltb lcore_idx (queues % active) then 1 else 0))
    else 0

pub last_queue : Mode → ℕ → ℕ → ℕ → ℕ
last_queue mode queues active lcore_idx =
    u16 (first_queue mode queues active lcore_idx + assigned_queues mode queues active lcore_idx)

-- mica: the index of the lcore whose memory pool serves queue `x`.
pub owner_lc_idx : ℕ → ℕ → ℕ → ℕ
owner_lc_idx queues active x =
    let queues_per_lcore = queues / active in
    let extra_queues = queues % active in
    let boundary = u16 (extra_queues * (queues_per_lcore + 1)) in
    if ltb x boundary
    then u16 (x / (queues_per_lcore + 1))
    else u16 (extra_queues + (x - boundary) / queues_per_lcore)
