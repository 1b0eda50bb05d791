-- ===== src/Acl/Tests.antt =====
-- Two lcores on two sockets, and one route for each IP version.
use Prim.Native.String.{String}
use text.Mathlib.Text.{◌==◌ as str_eq}
use queue_dpdk.Prelude.{refl, Bool, true, some, List, [], ◌∷◌, ◌==◌, if◌then◌else◌}
use queue_dpdk.Rules.{Line}
use queue_dpdk.Parse.Samples.{read_char, words, route, route6}
use queue_dpdk.Acl.{Act, Parms, app_acl_init}
use queue_dpdk.Acl.Serves.{Serves, app_acl_init-Serves}

abbrev file : String → List Line
file name = if str_eq name "rule4.db" then route ∷ [] else route6 ∷ []

abbrev parms : Parms
parms = record {
  rule_ipv4_name = some "rule4.db";
  rule_ipv6_name = some "rule6.db";
  alg = 0;
  numa_on = true;
  lcores = 2 ∷ 3 ∷ [];
  socket_of = λ l. if l == 2 then 0 else 1;
}

abbrev all_well : Act → Bool
all_well a = true

app_acl_init-Serves_example :
    Serves
      (◌==◌ 32)
      read_char
      (words [])
      3
      1000
      file
      all_well
      parms
      (app_acl_init (◌==◌ 32) read_char (words []) 3 1000 file all_well parms)
app_acl_init-Serves_example =
    app_acl_init-Serves (◌==◌ 32) read_char (words []) 3 1000 file all_well parms refl refl
