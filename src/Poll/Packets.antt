-- ===== src/Poll/Packets.antt =====
-- nf-chain/src/main.c, `poll_loop`: the packets that the events of a run receive and give away.
use mathlib.Core.List.{append_assoc}
use queue_dpdk.Prelude.{◌∙◌, ◌≡◌, refl, List, [], ◌∷◌, ◌++◌}
use queue_dpdk.Poll.{Mbuf, Event, skipped, busy, polled, sent, freed, acl_freed}

-- The packets received, in order.
abbrev pub received : List Event → List Mbuf
received [] = []
received (polled port q pkts ∷ es) = pkts ++ received es
received (skipped p ∷ es) = received es
received (busy p ∷ es) = received es
received (sent txq pkts ∷ es) = received es
received (freed pkts ∷ es) = received es
received (acl_freed pkts ∷ es) = received es

-- The packets that the TX path gives away, to the device or back to their pool, in order; those that
-- the ACL stage frees are not among them.
abbrev pub released : List Event → List Mbuf
released [] = []
released (sent txq pkts ∷ es) = pkts ++ released es
released (freed pkts ∷ es) = pkts ++ released es
released (acl_freed pkts ∷ es) = released es
released (polled port q pkts ∷ es) = released es
released (skipped p ∷ es) = released es
released (busy p ∷ es) = released es

-- The last burst that was received, with `acc` the one before these events.
abbrev pub last_burst : List Mbuf → List Event → List Mbuf
last_burst acc [] = acc
last_burst acc (polled port q pkts ∷ es) = last_burst pkts es
last_burst acc (skipped p ∷ es) = last_burst acc es
last_burst acc (busy p ∷ es) = last_burst acc es
last_burst acc (sent txq pkts ∷ es) = last_burst acc es
last_burst acc (freed pkts ∷ es) = last_burst acc es
last_burst acc (acl_freed pkts ∷ es) = last_burst acc es

pub last_burst-append :
    (acc : List Mbuf) (es fs : List Event)
    → last_burst acc (es ++ fs) ≡ last_burst (last_burst acc es) fs
last_burst-append acc [] fs = refl
last_burst-append acc (polled port q pkts ∷ es) fs = last_burst-append pkts es fs
last_burst-append acc (skipped p ∷ es) fs = last_burst-append acc es fs
last_burst-append acc (busy p ∷ es) fs = last_burst-append acc es fs
last_burst-append acc (sent txq pkts ∷ es) fs = last_burst-append acc es fs
last_burst-append acc (freed pkts ∷ es) fs = last_burst-append acc es fs
last_burst-append acc (acl_freed pkts ∷ es) fs = last_burst-append acc es fs

-- These events end with the burst that is left over.
abbrev pub EndsWith : List Mbuf → List Event → Type 0
EndsWith last es = (acc : List Mbuf) → last_burst acc es ≡ last

pub append-EndsWith :
    (last : List Mbuf) (es fs : List Event) → EndsWith last fs → EndsWith last (es ++ fs)
append-EndsWith last es fs h acc = last_burst-append acc es fs ∙ h (last_burst acc es)

pub received-append : (es fs : List Event) → received (es ++ fs) ≡ received es ++ received fs
received-append [] fs = refl
received-append (polled port p pkts ∷ es) fs = rw (received-append es fs, append_assoc)
received-append (skipped p ∷ es) fs = received-append es fs
received-append (busy p ∷ es) fs = received-append es fs
received-append (sent txq pkts ∷ es) fs = received-append es fs
received-append (freed pkts ∷ es) fs = received-append es fs
received-append (acl_freed pkts ∷ es) fs = received-append es fs

pub released-append : (es fs : List Event) → released (es ++ fs) ≡ released es ++ released fs
released-append [] fs = refl
released-append (sent txq pkts ∷ es) fs = rw (released-append es fs, append_assoc)
released-append (freed pkts ∷ es) fs = rw (released-append es fs, append_assoc)
released-append (acl_freed pkts ∷ es) fs = released-append es fs
released-append (skipped p ∷ es) fs = released-append es fs
released-append (busy p ∷ es) fs = released-append es fs
released-append (polled port p pkts ∷ es) fs = released-append es fs
