-- ===== src/Fields/Layout.antt =====
-- nf-chain/src/main.c: the field tables keep the rules of `rte_acl_build`, and a mask is split whole.
use queue_dpdk.Prelude.{
  ℕ, ◌+◌, ◌≤◌, ◌<◌, ◌≡◌, ◌==◌, Bool, true, false, refl, arith, List, [], ◌∷◌, All, select,
  if◌then◌else◌,
}
use queue_dpdk.Fields.{FieldDef, ipv4_defs, ipv6_defs, mask_range}

-- The fields of a list stand one behind the other from `at` on, up to `stop`.
abbrev pub adjoin : ℕ → ℕ → List FieldDef → Bool
adjoin at stop [] = at == stop
adjoin at stop (f ∷ fs) =
    let rest = adjoin (at + f.size) stop fs in if f.offset == at then rest else false

-- Whether the fields with the input index of a field are four consecutive bytes, starting at the
-- first of them.
abbrev pub in_word : List FieldDef → FieldDef → Bool
in_word defs f = elim (select (λ g. g.input_index == f.input_index) defs) [
  | [] ↦ false
  | g ∷ gs ↦ adjoin g.offset (g.offset + 4) (g ∷ gs)
]

-- A first field of one byte, and words of four bytes behind it.
abbrev pub IsTable : List FieldDef → Type 0
IsTable [] = ⊥
IsTable (f ∷ fs) = (f.size ≡ 1) × All (λ g. in_word (f ∷ fs) g ≡ true) fs

-- In both field tables the first field has one byte, and the fields that share an input index
-- with any other field are together four consecutive bytes.
defs-IsTable : IsTable ipv4_defs × IsTable ipv6_defs
unfolding ipv4_defs ipv6_defs
defs-IsTable = (
  (refl, (refl, (refl, (refl, (refl, tt))))),
  (refl, (refl, (refl, (refl, (refl, (refl, (refl, (refl, (refl, (refl, (refl, tt))))))))))),
)

-- A mask of at most 128 bits is split into four masks of at most 32 bits that add up to it, and
-- a mask is 0 unless all those before it are full.
pub mask_range-whole :
    (m : ℕ)
    → m ≤ 128
    → (mask_range m 0 + mask_range m 1 + mask_range m 2 + mask_range m 3 ≡ m)
      × ((i : ℕ) → mask_range m i ≤ 32)
      × ((i : ℕ) → 0 < mask_range m (i + 1) → mask_range m i ≡ 32)
unfolding mask_range
mask_range-whole m h = (ground (arith, h), λ i. ground arith, λ i k. ground (arith, k))
