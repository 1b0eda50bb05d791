-- ===== src/Fields.antt =====
-- nf-chain/src/main.c: the header fields that an ACL rule can name, and the split of an IPv6 mask.
pub mod Layout
mod Tests
use queue_dpdk.Prelude.{ℕ, ◌+◌, ◌-◌, ◌*◌, Bool, List, [], ◌∷◌, leb, ltb, if◌then◌else◌}

-- `struct rte_acl_field_def`, less the type. `offset` counts from the protocol byte of the header,
-- which stands at 9 in an IPv4 header of 20 bytes, and at 6 in an IPv6 header of 40 bytes.
pub record FieldDef : Type 0 where
  pub size : ℕ
  pub field_index : ℕ
  pub input_index : ℕ
  pub offset : ℕ

abbrev pub field : ℕ → ℕ → ℕ → ℕ → FieldDef
field size field_index input_index offset = record {
  size = size;
  field_index = field_index;
  input_index = input_index;
  offset = offset;
}

-- The input indices are those of `RTE_ACL_IPV4VLAN_PROTO` and its successors.
pub ipv4_defs : List FieldDef
ipv4_defs =
    field 1 0 0 0
    ∷ field 4 1 2 (12 - 9)
    ∷ field 4 2 3 (16 - 9)
    ∷ field 2 3 4 (20 - 9)
    ∷ field 2 4 4 (20 - 9 + 2)
    ∷ []

pub ipv6_defs : List FieldDef
ipv6_defs =
    field 1 0 0 0
    ∷ field 4 1 1 (8 - 6)
    ∷ field 4 2 2 (8 - 6 + 4)
    ∷ field 4 3 3 (8 - 6 + 2 * 4)
    ∷ field 4 4 4 (8 - 6 + 3 * 4)
    ∷ field 4 5 5 (24 - 6)
    ∷ field 4 6 6 (24 - 6 + 4)
    ∷ field 4 7 7 (24 - 6 + 2 * 4)
    ∷ field 4 8 8 (24 - 6 + 3 * 4)
    ∷ field 2 9 9 (40 - 6)
    ∷ field 2 10 9 (40 - 6 + 2)
    ∷ []

-- The mask of the field `i` of an IPv6 address under a mask of `m` bits: `parse_ipv6_net`.
unfoldable pub mask_range : ℕ → ℕ → ℕ
mask_range m i = if leb ((i + 1) * 32) m then 32 else (if ltb (i * 32) m then m - i * 32 else 0)
