-- ===== src/Rules/Tests.antt =====
-- A file of one route, one ACL entry, a comment and an empty line.
use queue_dpdk.Prelude.{ℕ, ◌≡◌, Bool, Option, none, some, refl, List, [], ◌∷◌, ◌==◌}
use queue_dpdk.Rules.{
  Line, Rule, loaded, add_rules, add_lines, add_line, add_route, add_acl, entry, only_spaces,
  is_bypass_line, count_lead, route_lead_char, acl_lead_char,
}
use queue_dpdk.Rules.Fits.{Fits, add_rules-Fits}

abbrev space : ℕ → Bool
space = ◌==◌ 32

-- A parser that keeps the line, and takes its first character for the port.
abbrev keep : Line → Bool → Option (Rule Line)
keep [] has_userdata = none
keep (c ∷ cs) has_userdata =
    some (record { fields = cs; userdata = c; priority = 0; category_mask = 0 })

abbrev file : List Line
file = (35 ∷ 82 ∷ []) ∷ (82 ∷ 1 ∷ 7 ∷ []) ∷ (32 ∷ 32 ∷ []) ∷ (64 ∷ 0 ∷ 9 ∷ []) ∷ []

file_loads :
    add_rules space keep 2 1000 file
    ≡ loaded (record {
      routes =
          record { fields = 7 ∷ []; userdata = 2; priority = 1000; category_mask = 4294967295 }
          ∷ [];
      acls =
          record {
            fields = 9 ∷ [];
            userdata = 4026531840;
            priority = 999;
            category_mask = 4294967295;
          }
          ∷ [];
    })
unfolding add_rules add_lines add_line add_route add_acl entry is_bypass_line only_spaces
file_loads = refl

add_rules-Fits_example :
    Fits space refl refl keep 2 1000
      (count_lead route_lead_char file)
      (count_lead acl_lead_char file)
      []
      (add_rules space keep 2 1000 file)
add_rules-Fits_example = add_rules-Fits space refl refl keep 2 1000 file
