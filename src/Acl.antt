-- ===== src/Acl.antt =====
-- nf-chain/src/main.c, `check_acl_config`, `setup_acl` and `app_acl_init`: the two rule files are
-- loaded, and their rules put into the lookup contexts of each socket.
pub mod Contexts
pub mod Serves
mod Tests
use Prim.Native.String.{String}
use mathlib.Core.Option
use queue_dpdk.Prelude.{
  ℕ, Bool, true, false, not, Option, none, some, List, [], ◌∷◌, ◌++◌, leb, ◌==◌, if◌then◌else◌,
  length, interval, update, take,
}
use queue_dpdk.Rules.{Line, Rule, Rules, Loaded, loaded, exits, overrun, add_rules}
use queue_dpdk.Parse.{Ipv4Fields, Ipv6Fields, parse_cb_ipv4vlan_rule, parse_cb_ipv6_rule}

abbrev pub nb_sockets : ℕ
nb_sockets = 8

-- The four arrays that `add_rules` makes.
pub data Base : Type 0 where
  route_base acl_base : (ipv6 : Bool) → Base

-- What is done to the arrays and to the contexts of rte_acl.
pub data Act : Type 0 where
  made released : Base → Act
  create build : (ipv6 : Bool) (socket : ℕ) → Act
  set_classify : (ipv6 : Bool) (socket alg : ℕ) → Act
  add : (socket : ℕ) (base : Base) (num : ℕ) → Act

-- What `app_acl_init` reads: the options, and the lcores that are enabled with their sockets. A
-- file name is NULL if it is not given.
pub record Parms : Type 0 where
  pub rule_ipv4_name : Option String
  pub rule_ipv6_name : Option String
  pub alg : ℕ  -- 0 is RTE_ACL_CLASSIFY_DEFAULT
  pub numa_on : Bool
  pub lcores : List ℕ
  pub socket_of : ℕ → ℕ

-- What the calls of rte_acl make of a context: the method of its lookup, the rules that have been
-- added to it, and those that it has been built from, which a lookup finds.
pub record Context (Fields : Type 0) : Type 0 where
  pub classify : ℕ
  pub added : List (Rule Fields)
  pub built : Option (List (Rule Fields))

pub record AclConfig : Type 0 where
  pub acx_ipv4 : ℕ → Option (Context Ipv4Fields)
  pub acx_ipv6 : ℕ → Option (Context Ipv6Fields)

-- `returns_0` and `returns_1` are the values 0 and -1; `quits` is `rte_exit`, `breaks` a write behind
-- the end of an array.
pub data Init : Type 0 where
  returns_0 : List Act → AclConfig → Init
  returns_1 : List Act → Init
  quits breaks : Init

-- The sockets of the lcores from here on, or an lcore out of range.
pub map_sockets : (ℕ → ℕ) → List ℕ → (ℕ → Bool) → Option (ℕ → Bool)
map_sockets socket_of [] mapped = some mapped
map_sockets socket_of (lcore ∷ lcores) mapped =
    let rest = map_sockets socket_of lcores (update mapped (socket_of lcore) true) in
    if leb nb_sockets (socket_of lcore) then none else rest

-- By `numa_on`: a socket for each lcore, or socket 0 alone.
pub mapped_sockets : Bool → (ℕ → ℕ) → List ℕ → Option (ℕ → Bool)
mapped_sockets false socket_of lcores = some (update (λ i. false) 0 true)
mapped_sockets true socket_of lcores = map_sockets socket_of lcores (λ i. false)

-- The calls of `setup_acl`.
pub setup_calls : ℕ → Bool → ℕ → ℕ → ℕ → List Act
setup_calls alg ipv6 route_num acl_num socket =
    create ipv6 socket
    ∷ ((if alg == 0 then [] else set_classify ipv6 socket alg ∷ [])
        ++ (add socket (route_base ipv6) route_num
            ∷ add socket (acl_base ipv6) acl_num
            ∷ build ipv6 socket
            ∷ []))

-- A call on the one context that `setup_acl` works on, with the arrays that its calls name.
pub apply : {F : Type 0} → Rules F → Act → Context F → Context F
apply r (create ipv6 socket) c = record { classify = 0; added = []; built = none }
apply r (set_classify ipv6 socket alg) c = record c { classify = alg }
apply r (add socket (route_base ipv6) num) c = record c { added = c.added ++ take num r.routes }
apply r (add socket (acl_base ipv6) num) c = record c { added = c.added ++ take num r.acls }
apply r (build ipv6 socket) c = record c { built = some c.added }
apply r (made base) c = c
apply r (released base) c = c

-- Before `rte_acl_create`.
abbrev pub unmade : {F : Type 0} → Context F
unmade = record { classify = 0; added = []; built = none }

pub perform : {F : Type 0} → Rules F → List Act → Context F → Context F
perform r [] c = c
perform r (a ∷ acts) c = perform r acts (apply r a c)

-- `succeeds` says which calls of rte_acl succeed: each that does not ends the program.
module _ (succeeds : Act → Bool) where
  pub all_succeed : List Act → Bool
  all_succeed [] = true
  all_succeed (a ∷ acts) = let rest = all_succeed acts in if succeeds a then rest else false

  -- The calls, and the context.
  pub setup_acl : {F : Type 0} → ℕ → Bool → Rules F → ℕ → List Act × Option (Context F)
  setup_acl alg ipv6 r socket =
      let calls = setup_calls alg ipv6 (length r.routes) (length r.acls) socket in
      (calls, if all_succeed calls then some (perform r calls unmade) else none)

  -- The loop over the sockets, from here on; none is `rte_exit`.
  pub setup_sockets :
      ℕ
      → Rules Ipv4Fields
      → Rules Ipv6Fields
      → (ℕ → Bool)
      → List ℕ
      → AclConfig
      → Option (List Act × AclConfig)
  setup_sockets alg r4 r6 mapped [] cfg = some ([], cfg)
  setup_sockets alg r4 r6 mapped (i ∷ is) cfg =
      let c4 = setup_acl alg false r4 i in
      let c6 = setup_acl alg true r6 i in
      elim (mapped i) [
        | false ↦ setup_sockets alg r4 r6 mapped is cfg
        | true ↦ elim c4.1 [
          | none ↦ none
          | some x4 ↦ elim c6.1 [
            | none ↦ none
            | some x6 ↦
                Option.map (λ (rest : List Act × AclConfig). ((c4.0 ++ c6.0) ++ rest.0, rest.1))
                  (setup_sockets alg r4 r6 mapped is (record {
                    acx_ipv4 = update cfg.acx_ipv4 i (some x4);
                    acx_ipv6 = update cfg.acx_ipv6 i (some x6);
                  }))
          ]
        ]
      ]

abbrev pub frees_0 : List Act
frees_0 =
    released (route_base false)
    ∷ released (route_base true)
    ∷ released (acl_base false)
    ∷ released (acl_base true)
    ∷ []

-- What follows once both files are loaded.
pub init_contexts : (Act → Bool) → Parms → Rules Ipv4Fields → Rules Ipv6Fields → Init
init_contexts succeeds p r4 r6 =
    let loads =
      made (route_base false)
      ∷ made (acl_base false)
      ∷ made (route_base true)
      ∷ made (acl_base true)
      ∷ [] in
    elim (mapped_sockets p.numa_on p.socket_of p.lcores) [
      | none ↦ returns_1 (loads ++ frees_0)
      | some mapped ↦
          elim (setup_sockets succeeds p.alg r4 r6 mapped (interval 0 nb_sockets)
            (record { acx_ipv4 = λ i. none; acx_ipv6 = λ i. none })) [
              | none ↦ quits
              | some (acts, cfg) ↦ returns_0 (loads ++ (acts ++ frees_0)) cfg
            ]
    ]

-- By what `add_rules` gives for the IPv6 file, and for both files.
pub after_ipv6 : (Act → Bool) → Parms → Rules Ipv4Fields → Loaded (Rules Ipv6Fields) → Init
after_ipv6 succeeds p r4 (loaded r6) = init_contexts succeeds p r4 r6
after_ipv6 succeeds p r4 exits = quits
after_ipv6 succeeds p r4 overrun = breaks

pub after_ipv4 : (Act → Bool) → Parms → Loaded (Rules Ipv4Fields) → Loaded (Rules Ipv6Fields) → Init
after_ipv4 succeeds p (loaded r4) l6 = after_ipv6 succeeds p r4 l6
after_ipv4 succeeds p exits l6 = quits
after_ipv4 succeeds p overrun l6 = breaks

-- `file` holds the lines of the file with a name, which can be opened.
module _ (isspace : ℕ → Bool) (strtoul : Line → ℕ → Option (ℕ × Line)) (strtok : Line → List Line)
    (enabled_port_mask max_priority : ℕ) (file : String → List Line) where
  pub load_ipv4 : String → Loaded (Rules Ipv4Fields)
  load_ipv4 name =
      add_rules isspace (parse_cb_ipv4vlan_rule strtoul strtok) enabled_port_mask max_priority
        (file name)

  pub load_ipv6 : String → Loaded (Rules Ipv6Fields)
  load_ipv6 name =
      add_rules isspace (parse_cb_ipv6_rule strtoul strtok) enabled_port_mask max_priority
        (file name)

  -- By the two names; `check_acl_config` refuses one that is NULL.
  pub load_files : (Act → Bool) → Parms → Option String → Option String → Init
  load_files succeeds p none name6 = quits
  load_files succeeds p (some name4) none = quits
  load_files succeeds p (some name4) (some name6) =
      after_ipv4 succeeds p (load_ipv4 name4) (load_ipv6 name6)

  pub app_acl_init : (Act → Bool) → Parms → Init
  app_acl_init succeeds p = load_files succeeds p p.rule_ipv4_name p.rule_ipv6_name
