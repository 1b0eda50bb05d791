-- ===== src/Params/Ports.antt =====
-- nf-chain/src/main.c, `get_port_n_rx_queues`: how many RX queues a port is set up with.
use queue_dpdk.Prelude.{
  ℕ, ◌+◌, ◌≤◌, ◌<◌, ◌≡◌, arith, List, [], ◌∷◌, All, ◌==◌, leb, ◌&&◌, if◌then◌else◌, u8,
}
use queue_dpdk.Params.{LcoreParams, highest_queue, get_port_n_rx_queues}

-- Whether a parameter names a port and one of its first `n` queues.
abbrev pub InRange : ℕ → ℕ → LcoreParams → Type 0
InRange port n p = p.port_id ≡ port → p.queue_id < n

-- One step of the loop.
abbrev raise : ℕ → LcoreParams → ℕ → ℕ
raise port p n = if p.port_id == port && leb n p.queue_id then p.queue_id + 1 else n

highest_queue-le : (port : ℕ) (ps : List LcoreParams) (n : ℕ) → n ≤ highest_queue port ps n
unfolding highest_queue
highest_queue-le port [] n = omega arith
highest_queue-le port (p ∷ ps) n = ground (arith, highest_queue-le port ps (raise port p n))

highest_queue-InRange :
    (port : ℕ) (ps : List LcoreParams) (n : ℕ) → All (InRange port (highest_queue port ps n)) ps
unfolding highest_queue
highest_queue-InRange port [] n = tt
highest_queue-InRange port (p ∷ ps) n = (
  λ e. ground (arith, e, highest_queue-le port ps (raise port p n)),
  highest_queue-InRange port ps (raise port p n),
)

highest_queue-lt :
    (port b : ℕ) (ps : List LcoreParams) (n : ℕ)
    → n ≤ b
    → All (λ p. p.queue_id < b) ps
    → highest_queue port ps n ≤ b
unfolding highest_queue
highest_queue-lt port b [] n h a = h
highest_queue-lt port b (p ∷ ps) n h a =
    highest_queue-lt port b ps (raise port p n) (ground (arith, h, a.0)) a.1

-- When all queue numbers are below `b`, and `b` is at most 255, `get_port_n_rx_queues` covers every
-- queue that the parameters name for the port and does not exceed `b`.
get_port_n_rx_queues-covers :
    (port b : ℕ) (ps : List LcoreParams)
    → b ≤ 255
    → All (λ p. p.queue_id < b) ps
    → All (InRange port (get_port_n_rx_queues port ps)) ps × (get_port_n_rx_queues port ps ≤ b)
unfolding get_port_n_rx_queues
get_port_n_rx_queues-covers port b ps h a =
    let low = highest_queue-lt port b ps 0 (omega arith) a in
    let whole : u8 (highest_queue port ps 0) ≡ highest_queue port ps 0 = omega (arith, low, h) in
    (rw whole (highest_queue-InRange port ps 0), rw whole low)
