-- ===== src/Parse/Loads.antt =====
-- nf-chain/src/main.c, `add_rules` with the two parsers that `app_acl_init` gives it.
use queue_dpdk.Prelude.{ℕ, Bool, Option, List}
use queue_dpdk.Rules.{Line, add_rules}
use queue_dpdk.Rules.Kept.{Kept, add_rules-Kept}
use queue_dpdk.Parse.{parse_cb_ipv4vlan_rule, parse_cb_ipv6_rule}
use queue_dpdk.Parse.Sane.{
  IsSane4, IsSane6, parse_cb_ipv4vlan_rule-IsSane4, parse_cb_ipv6_rule-IsSane6,
}

module _ (isspace : ℕ → Bool) (strtoul : Line → ℕ → Option (ℕ × Line)) (strtok : Line → List Line)
    (enabled_port_mask max_priority : ℕ) where
  -- The IPv4 file and the IPv6 file, loaded.
  abbrev pub LoadedSane : List Line → List Line → Type 0
  LoadedSane file4 file6 =
      Kept isspace IsSane4 (parse_cb_ipv4vlan_rule strtoul strtok) enabled_port_mask max_priority
        (parse_cb_ipv4vlan_rule-IsSane4 strtoul strtok)
        (add_rules isspace (parse_cb_ipv4vlan_rule strtoul strtok) enabled_port_mask max_priority
          file4)
      × Kept isspace IsSane6 (parse_cb_ipv6_rule strtoul strtok) enabled_port_mask max_priority
          (parse_cb_ipv6_rule-IsSane6 strtoul strtok)
          (add_rules isspace (parse_cb_ipv6_rule strtoul strtok) enabled_port_mask max_priority
            file6)

  -- Whatever the two rule files hold, each entry that is loaded has addresses and masks of at most 32
  -- bits (four of each for IPv6, with at most 128 bits of mask), ports of 16 bits in ranges that are
  -- not empty and a protocol of 8 bits, and each route leads to a port whose number modulo 32 is that
  -- of an enabled port.
  pub loaded_rules_are_sane : (file4 file6 : List Line) → LoadedSane file4 file6
  loaded_rules_are_sane file4 file6 = (
    add_rules-Kept isspace IsSane4 (parse_cb_ipv4vlan_rule strtoul strtok) enabled_port_mask
        max_priority (parse_cb_ipv4vlan_rule-IsSane4 strtoul strtok) file4,
    add_rules-Kept isspace IsSane6 (parse_cb_ipv6_rule strtoul strtok) enabled_port_mask
        max_priority (parse_cb_ipv6_rule-IsSane6 strtoul strtok) file6,
  )
