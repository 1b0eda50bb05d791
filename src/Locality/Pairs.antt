-- ===== src/Locality/Pairs.antt =====
-- locality/main.c, `main`: the port that the packets of each enabled port are sent to, when no pairs
-- are configured.
use queue_dpdk.Prelude.{
  ℕ, ◌+◌, ◌%◌, ◌≡◌, ◌≢◌, refl, ◌∙◌, ap, Bool, true, false, List, [], ◌∷◌, All, select, arith, map,
  ◌==◌, if◌then◌else◌, update, not, inl, ◌⊎◌,
}
use Prim.Native.Nat.{bit_and, ◌^◌}

-- The loop over the ports that are enabled, and what follows it: `nb` counts the ports seen.
pub pair_ports : List ℕ → ℕ → ℕ → (ℕ → ℕ) → ℕ → ℕ
pair_ports [] nb_ports_in_mask last_port cms_dst_ports =
    if nb_ports_in_mask % 2 == 1 then update cms_dst_ports last_port last_port else cms_dst_ports
pair_ports (portid ∷ ports) nb_ports_in_mask last_port cms_dst_ports =
    pair_ports ports (nb_ports_in_mask + 1)
      (if nb_ports_in_mask % 2 == 1 then last_port else portid)
      (if nb_ports_in_mask % 2 == 1
        then update (update cms_dst_ports portid last_port) last_port portid
        else cms_dst_ports)

-- From the reset on: the ports of `RTE_ETH_FOREACH_DEV` that are in the mask.
pub dst_ports : ℕ → List ℕ → ℕ → ℕ
dst_ports cms_enabled_port_mask ports =
    pair_ports (select (λ p. not (bit_and cms_enabled_port_mask (2 ^ p) == 0)) ports) 0 0 (λ _. 0)

abbrev pub Distinct : List ℕ → Type 0
Distinct [] = Unit
Distinct (p ∷ ps) = All (λ x. x ≢ p) ps × Distinct ps

-- A port that is not to come, nor waits for its partner, keeps its destination.
pair_ports-keeps :
    (ports : List ℕ) (nb last x : ℕ) (dst : ℕ → ℕ)
    → All (λ p. p ≢ x) ports
    → (nb % 2 ≡ 0) ⊎ (last ≢ x)
    → pair_ports ports nb last dst x ≡ dst x
unfolding pair_ports
pair_ports-keeps [] nb last x dst a l = ground (arith, l)
pair_ports-keeps (p ∷ ports) nb last x dst a l =
    pair_ports-keeps ports (nb + 1) (if nb % 2 == 1 then last else p) x
      (if nb % 2 == 1 then update (update dst p last) last p else dst) a.1 (ground (arith, l, a.0))
    ∙ ground (arith, l, a.0)

-- Two ports at a time.
pair_ports-two :
    (p q : ℕ) (ports : List ℕ) (nb last : ℕ) (dst : ℕ → ℕ)
    → nb % 2 ≡ 0
    → pair_ports (p ∷ q ∷ ports) nb last dst
      ≡ pair_ports ports (nb + 1 + 1) p (update (update dst q p) p q)
unfolding pair_ports
pair_ports-two p q ports nb last dst e =
    let even : (nb % 2 == 1) ≡ false = ground (arith, e) in
    let odd : ((nb + 1) % 2 == 1) ≡ true = ground (arith, e) in rw (even, odd)

-- Each port and the next one are each other's partner, and a last one that is left is its own.
abbrev pub partners : List ℕ → List ℕ
partners [] = []
partners (p ∷ []) = p ∷ []
partners (p ∷ q ∷ ports) = q ∷ p ∷ partners ports

pair_ports-one : (p nb last : ℕ) (dst : ℕ → ℕ) → nb % 2 ≡ 0 → pair_ports (p ∷ []) nb last dst p ≡ p
unfolding pair_ports
pair_ports-one p nb last dst e =
    let even : (nb % 2 == 1) ≡ false = ground (arith, e) in
    let odd : ((nb + 1) % 2 == 1) ≡ true = ground (arith, e) in
    let same : (p == p) ≡ true = ground arith in rw (even, odd, same)

pair_ports-partners :
    (ports : List ℕ) (nb last : ℕ) (dst : ℕ → ℕ)
    → nb % 2 ≡ 0
    → Distinct ports
    → map (pair_ports ports nb last dst) ports ≡ partners ports
pair_ports-partners [] nb last dst e d = refl
pair_ports-partners (p ∷ []) nb last dst e d = ap (λ x. x ∷ []) (pair_ports-one p nb last dst e)
pair_ports-partners (p ∷ q ∷ ports) nb last dst e d =
    let next = update (update dst q p) p q in
    let e' : (nb + 1 + 1) % 2 ≡ 0 = omega (arith, e) in
    let kept : (x : ℕ)
        → All (λ y. y ≢ x) ports
        → pair_ports (p ∷ q ∷ ports) nb last dst x ≡ next x =
      λ x a.
        ap (λ g. g x) (pair_ports-two p q ports nb last dst e)
        ∙ pair_ports-keeps ports (nb + 1 + 1) p x next a (inl e') in
    let at_p : next p ≡ q = ground arith in
    let at_q : next q ≡ p = ground (arith, d.0.0) in
    let rest : map (pair_ports (p ∷ q ∷ ports) nb last dst) ports ≡ partners ports =
      ap (λ g. map g ports) (pair_ports-two p q ports nb last dst e)
      ∙ pair_ports-partners ports (nb + 1 + 1) p next e' d.1.1 in
    rw (kept p d.0.1 ∙ at_p, kept q d.1.0 ∙ at_q, rest)

select-All :
    (f : ℕ → Bool) (x : ℕ) (ports : List ℕ)
    → All (λ y. y ≢ x) ports
    → All (λ y. y ≢ x) (select f ports)
select-All f x [] a = tt
select-All f x (p ∷ ports) a = ground (arith, a.0, select-All f x ports a.1)

select-Distinct : (f : ℕ → Bool) (ports : List ℕ) → Distinct ports → Distinct (select f ports)
select-Distinct f [] d = tt
select-Distinct f (p ∷ ports) d =
    ground (arith, select-All f p ports d.0, select-Distinct f ports d.1)

-- The ports that are enabled send to each other in pairs, in their order, and the last of an odd
-- number of them sends to itself, when no port is named twice.
pub dst_ports-partners :
    (cms_enabled_port_mask : ℕ) (ports : List ℕ)
    → Distinct ports
    → let enabled = select (λ p. not (bit_and cms_enabled_port_mask (2 ^ p) == 0)) ports in
      map (dst_ports cms_enabled_port_mask ports) enabled ≡ partners enabled
unfolding dst_ports
dst_ports-partners cms_enabled_port_mask ports d =
    pair_ports-partners _ 0 0 (λ _. 0) refl (select-Distinct _ ports d)
