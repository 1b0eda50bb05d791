-- ===== src/Locality/Config/Symmetric.antt =====
-- locality/main.c: configured port pairs send to each other.
use Prim.Native.Nat.{bit_and, bit_or, min, ◌-◌}
use native.Mathlib.Decide.{ℕ_discrete}
use queue_dpdk.Prelude.{
  ℕ, ◌^◌, ◌≡◌, ◌≢◌, refl, ◌∙◌, sym, ap, Bool, true, Bool-cases, inl, inr, ◌⊎◌, Option, none, some,
  List, [], ◌∷◌, arith, ◌==◌, ==_iff, update,
}
use queue_dpdk.Prelude.Bits.{
  bit, bit-bit_and, bit-bit_or, bit-zero, bit-lt, bit-pow_self, bit-pow_other, bit_and-pow,
}
use queue_dpdk.Locality.Config.{
  PortPair, check_pairs, check_port_pair_config, pair_dst_ports, usable, map_ports,
}

abbrev mask_of : PortPair → ℕ
mask_of pair = bit_or (2 ^ pair.port0) (2 ^ pair.port1)

-- Each pair shares no port with those in the mask and those before it.
abbrev Apart : ℕ → List PortPair → Type 0
Apart mask [] = Unit
Apart mask (pair ∷ pairs) =
    (bit mask pair.port0 ≡ 0) × (bit mask pair.port1 ≡ 0) × Apart (bit_or mask (mask_of pair)) pairs

-- The mask with the ports of the pairs.
abbrev union : ℕ → List PortPair → ℕ
union mask [] = mask
union mask (pair ∷ pairs) = union (bit_or mask (mask_of pair)) pairs

mask_of-bit :
    (pair : PortPair) (p : ℕ) → bit (mask_of pair) p ≡ 1 → (p ≡ pair.port0) ⊎ (p ≡ pair.port1)
mask_of-bit pair p h = elim (ℕ_discrete p pair.port0) [
  | yes e ↦ inl e
  | no ne ↦ elim (ℕ_discrete p pair.port1) [
    | yes e ↦ inr e
    | no nf ↦ absurd (
        omega (
          arith,
          h,
          bit-bit_or (2 ^ pair.port0) (2 ^ pair.port1) p,
          bit-pow_other pair.port0 p (λ e. ne (sym e)),
          bit-pow_other pair.port1 p (λ e. nf (sym e)),
        ))
  ]
]

mask_of-port0 : (pair : PortPair) → bit (mask_of pair) pair.port0 ≡ 1
mask_of-port0 pair = omega (
  arith,
  bit-bit_or (2 ^ pair.port0) (2 ^ pair.port1) pair.port0,
  bit-pow_self pair.port0,
  bit-lt (2 ^ pair.port1) pair.port0,
)

mask_of-port1 : (pair : PortPair) → bit (mask_of pair) pair.port1 ≡ 1
mask_of-port1 pair = omega (
  arith,
  bit-bit_or (2 ^ pair.port0) (2 ^ pair.port1) pair.port1,
  bit-pow_self pair.port1,
  bit-lt (2 ^ pair.port0) pair.port1,
)

-- A port in the mask is not touched by the pairs.
pair_dst_ports-keeps :
    (mask : ℕ) (pairs : List PortPair) (dst : ℕ → ℕ) (p : ℕ)
    → Apart mask pairs
    → bit mask p ≡ 1
    → pair_dst_ports pairs dst p ≡ dst p
unfolding pair_dst_ports
pair_dst_ports-keeps mask [] dst p a h = refl
pair_dst_ports-keeps mask (pair ∷ pairs) dst p a h =
    let other0 : p ≢ pair.port0 = λ e. absurd (omega (arith, ap (bit mask) e, a.0, h)) in
    let other1 : p ≢ pair.port1 = λ e. absurd (omega (arith, ap (bit mask) e, a.1, h)) in
    pair_dst_ports-keeps (bit_or mask (mask_of pair)) pairs
      (update (update dst pair.port0 pair.port1) pair.port1 pair.port0) p a.2
      (omega (arith, bit-bit_or mask (mask_of pair) p, h, bit-lt (mask_of pair) p))
    ∙ ground (arith, other0, other1)

union-grows :
    (mask : ℕ) (pairs : List PortPair) (p : ℕ) → bit mask p ≡ 1 → bit (union mask pairs) p ≡ 1
union-grows mask [] p h = h
union-grows mask (pair ∷ pairs) p h =
    union-grows (bit_or mask (mask_of pair)) pairs p
      (omega (arith, bit-bit_or mask (mask_of pair) p, h, bit-lt (mask_of pair) p))

-- A port that the pairs bring in is sent to another that they bring in, which sends back.
abbrev Partners : ℕ → ℕ → (ℕ → ℕ) → ℕ → Type 0
Partners mask all dst p = (bit all (dst p) ≡ 1) × (bit mask (dst p) ≡ 0) × (dst (dst p) ≡ p)

swapped :
    (mask all : ℕ) (dst : ℕ → ℕ) (p a b : ℕ)
    → p ≡ a
    → dst a ≡ b
    → dst b ≡ a
    → bit all b ≡ 1
    → bit mask b ≡ 0
    → Partners mask all dst p
swapped mask all dst p a b e da db u m =
    let to : dst p ≡ b = ap dst e ∙ da in
    (ap (bit all) to ∙ u, ap (bit mask) to ∙ m, ap dst to ∙ db ∙ sym e)

pair_dst_ports-Partners :
    (mask : ℕ) (pairs : List PortPair) (dst : ℕ → ℕ) (p : ℕ)
    → Apart mask pairs
    → bit (union mask pairs) p ≡ 1
    → bit mask p ≡ 0
    → Partners mask (union mask pairs) (pair_dst_ports pairs dst) p
unfolding pair_dst_ports
pair_dst_ports-Partners mask [] dst p a u m = absurd (omega (arith, u, m))
pair_dst_ports-Partners mask (pair ∷ pairs) dst p a u m =
    let mask' = bit_or mask (mask_of pair) in
    let next = update (update dst pair.port0 pair.port1) pair.port1 pair.port0 in
    let grown : (q : ℕ) → bit (mask_of pair) q ≡ 1 → bit mask' q ≡ 1 =
      λ q h. omega (arith, bit-bit_or mask (mask_of pair) q, h, bit-lt mask q) in
    let in0 = grown pair.port0 (mask_of-port0 pair) in
    let in1 = grown pair.port1 (mask_of-port1 pair) in
    let to1 : pair_dst_ports pairs next pair.port0 ≡ pair.port1 =
      pair_dst_ports-keeps mask' pairs next pair.port0 a.2 in0 ∙ ground arith in
    let to0 : pair_dst_ports pairs next pair.port1 ≡ pair.port0 =
      pair_dst_ports-keeps mask' pairs next pair.port1 a.2 in1 ∙ ground arith in
    elim (ℕ_discrete (bit mask' p) 1) [
      | yes e ↦ elim (mask_of-bit pair p (omega (arith, e, m, bit-bit_or mask (mask_of pair) p))) [
        | inl q ↦
            swapped mask (union mask' pairs) (pair_dst_ports pairs next) p pair.port0 pair.port1 q
              to1 to0 (union-grows mask' pairs pair.port1 in1) a.1
        | inr q ↦
            swapped mask (union mask' pairs) (pair_dst_ports pairs next) p pair.port1 pair.port0 q
              to0 to1 (union-grows mask' pairs pair.port0 in0) a.0
      ]
      | no n ↦
          let ih =
            pair_dst_ports-Partners mask' pairs next p a.2 u (omega (arith, n, bit-lt mask' p)) in
          let d = pair_dst_ports pairs next p in
          (ih.0, omega (arith, ih.1, bit-bit_or mask (mask_of pair) d), ih.2)
    ]

-- What the loop of `check_port_pair_config` finds when it returns 0.
abbrev Checked : ℕ → List PortPair → ℕ → Option ℕ → Type 0
Checked enabled pairs mask none = Unit
Checked enabled pairs mask (some left) =
    (left ≡ bit_and enabled (union mask pairs))
    × Apart mask pairs
    × ((p : ℕ) → bit (union mask pairs) p ≡ 1 → (bit mask p ≡ 1) ⊎ (bit enabled p ≡ 1))

usable-bit :
    (enabled : ℕ) (valid : ℕ → Bool) (p : ℕ) → usable enabled valid p ≡ true → bit enabled p ≡ 1
usable-bit enabled valid p h = elim (ℕ_discrete (bit enabled p) 0) [
  | yes e ↦
      let nothing : bit_and enabled (2 ^ p) ≡ 0 = bit_and-pow enabled p ∙ rw e (omega arith) in
      let off : (bit_and enabled (2 ^ p) == 0) ≡ true =
        (==_iff (bit_and enabled (2 ^ p)) 0).1 nothing in
      cc (rw off at h)
  | no n ↦ omega (arith, n, bit-lt enabled p)
]

-- Two masks with nothing in common.
common-bit : (x y p : ℕ) → bit_and x y ≡ 0 → bit y p ≡ 1 → bit x p ≡ 0
common-bit x y p e h =
    omega (arith, bit-bit_and x y p, ap (λ t. bit t p) e, bit-zero p, h, bit-lt x p)

Checked-cons :
    (enabled : ℕ) (pair : PortPair) (pairs : List PortPair) (mask : ℕ) (o : Option ℕ)
    → bit enabled pair.port0 ≡ 1
    → bit enabled pair.port1 ≡ 1
    → bit_and mask (mask_of pair) ≡ 0
    → Checked enabled pairs (bit_or mask (mask_of pair)) o
    → Checked enabled (pair ∷ pairs) mask o
Checked-cons enabled pair pairs mask none e0 e1 c h = tt
Checked-cons enabled pair pairs mask (some left) e0 e1 c h = (
  h.0,
  (
    common-bit mask (mask_of pair) pair.port0 c (mask_of-port0 pair),
    common-bit mask (mask_of pair) pair.port1 c (mask_of-port1 pair),
    h.1,
  ),
  λ p u. elim (h.2 p u) [
    | inr e ↦ inr e
    | inl m ↦ elim (ℕ_discrete (bit mask p) 1) [
      | yes e ↦ inl e
      | no n ↦
          elim (mask_of-bit pair p
            (omega (arith, m, n, bit-bit_or mask (mask_of pair) p, bit-lt mask p))) [
              | inl e ↦ inr (ap (bit enabled) e ∙ e0)
              | inr e ↦ inr (ap (bit enabled) e ∙ e1)
            ]
    ]
  ],
)

check_pairs-Checked :
    (enabled : ℕ) (valid : ℕ → Bool) (pairs : List PortPair) (mask : ℕ)
    → Checked enabled pairs mask (check_pairs enabled valid pairs mask)
unfolding check_pairs
check_pairs-Checked enabled valid [] mask = (refl, tt, λ p h. inl h)
check_pairs-Checked enabled valid (pair ∷ pairs) mask =
    elim (Bool-cases (usable enabled valid pair.port0)) [
      | inr off ↦ rw (off, check_pairs) tt
      | inl on0 ↦ elim (Bool-cases (usable enabled valid pair.port1)) [
        | inr off ↦ rw (on0, off, check_pairs) tt
        | inl on1 ↦ elim (Bool-cases (bit_and mask (mask_of pair) == 0)) [
          | inr twice ↦ rw (on0, on1, twice, check_pairs) tt
          | inl fresh ↦
              rw (on0, on1, fresh, check_pairs)
                (Checked-cons enabled pair pairs mask
                  (check_pairs enabled valid pairs (bit_or mask (mask_of pair)))
                  (usable-bit enabled valid pair.port0 on0)
                  (usable-bit enabled valid pair.port1 on1)
                  ((==_iff (bit_and mask (mask_of pair)) 0).0 fresh)
                  (check_pairs-Checked enabled valid pairs (bit_or mask (mask_of pair))))
        ]
      ]
    ]

-- Every port left sends to a port left, which sends back to it.
abbrev pub Mutual : ℕ → Option (ℕ × (ℕ → ℕ)) → Type 0
Mutual enabled none = Unit
Mutual enabled (some (left, dst)) =
    (p : ℕ) → bit left p ≡ 1 → (bit enabled p ≡ 1) × (bit left (dst p) ≡ 1) × (dst (dst p) ≡ p)

-- When port pairs are configured and `main` goes on, every port that it leaves enabled was enabled,
-- and sends to one that it leaves enabled, which sends back to it.
pub map_ports-Mutual :
    (valid : ℕ → Bool) (pairs : List PortPair) (mask nb_ports : ℕ) (ports : List ℕ)
    → Mutual mask (map_ports valid (some pairs) mask nb_ports ports)
unfolding map_ports check_port_pair_config
map_ports-Mutual valid pairs mask nb_ports ports =
    go (check_pairs mask valid pairs 0) refl (check_pairs-Checked mask valid pairs 0)
  where
    mutual_ports :
        (left : ℕ)
        → Checked mask pairs 0 (some left)
        → Mutual mask (some (left, pair_dst_ports pairs (λ p. 0)))
    mutual_ports left h p on =
        let both : min (bit mask p) (bit (union 0 pairs) p) ≡ 1 =
          sym (bit-bit_and mask (union 0 pairs) p) ∙ sym (ap (λ t. bit t p) h.0) ∙ on in
        let taken : bit (union 0 pairs) p ≡ 1 =
          omega (arith, both, bit-lt mask p, bit-lt (union 0 pairs) p) in
        let sent = pair_dst_ports-Partners 0 pairs (λ p. 0) p h.1 taken (bit-zero p) in
        let d = pair_dst_ports pairs (λ p. 0) p in
        let was : (q : ℕ) → bit (union 0 pairs) q ≡ 1 → bit mask q ≡ 1 =
          λ q u. elim (h.2 q u) [ inl z ↦ absurd (omega (arith, z, bit-zero q)) | inr e ↦ e ] in
        (
          was p taken,
          ap (λ t. bit t d) h.0
              ∙ bit-bit_and mask (union 0 pairs) d
              ∙ omega (arith, sent.0, was d sent.0),
          sent.2,
        )

    go :
        (o : Option ℕ)
        → check_pairs mask valid pairs 0 ≡ o
        → Checked mask pairs 0 o
        → Mutual mask (map_ports valid (some pairs) mask nb_ports ports)
    go none e h = rw (e, map_ports) tt
    go (some left) e h = elim (Bool-cases (bit_and left (2 ^ 32 - 2 ^ nb_ports) == 0)) [
      | inr out ↦ rw (e, map_ports, out) tt
      | inl fine ↦ rw (e, map_ports, fine) (mutual_ports left h)
    ]
